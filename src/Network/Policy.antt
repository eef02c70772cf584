-- ===== src/Network/Policy.antt =====
-- `NetworkPolicy` and `hostname_of`.
use docker_ls.Prelude.{List, [], ◌∷◌, Bool, true, false, ◌||◌, none, some}
use docker_ls.Prelude.{◌==◌, map, count, is_empty, if◌then◌else◌}
use docker_ls.Prelude.Text.{Text, strip, lower, contains}
use docker_ls.Network.Address.{
  Address, v4, Library, Network, net4, net6, in_any, is_unspecified, is_loopback, is_link_local,
  is_multicast, embedded_ipv4,
}

pub data NetworkDecision : Type 0 where
  allowed allowed_by_allowlist blocked_loopback blocked_link_local blocked_private : NetworkDecision
  blocked_unspecified blocked_unresolvable blocked_special blocked_scheme : NetworkDecision

-- `decision in _ALLOWING`
abbrev pub is_allowing : NetworkDecision → Bool
is_allowing allowed = true
is_allowing allowed_by_allowlist = true
is_allowing _ = false

pub record NetworkPolicy : Type 0 where
  pub allow_private_networks : Bool
  pub allow_loopback : Bool
  pub allow_link_local : Bool
  pub allowed_hosts : List Text

-- `_WILDCARD_SOURCE`
abbrev pub wildcard_source : List Network
wildcard_source = net4 0 24 ∷ []

-- `_SPECIAL`
abbrev pub special : List Network
special =
    net4 401 22  -- 100.64.0.0/10
    ∷ net4 0xc00000 8  -- 192.0.0.0/24
    ∷ net4 0xc00002 8  -- 192.0.2.0/24
    ∷ net4 0xc05863 8  -- 192.88.99.0/24
    ∷ net4 25353 17  -- 198.18.0.0/15
    ∷ net4 0xc63364 8  -- 198.51.100.0/24
    ∷ net4 0xcb0071 8  -- 203.0.113.0/24
    ∷ net4 15 28  -- 240.0.0.0/4
    ∷ net6 0x64ff9b0000000000000000 32  -- 64:ff9b::/96
    ∷ net6 0x64ff9b0001 80  -- 64:ff9b:1::/48
    ∷ net6 0x100000000000000 64  -- 100::/64
    ∷ net6 0x20010db8 96  -- 2001:db8::/32
    ∷ []

abbrev pub permit : Bool → NetworkDecision → NetworkDecision
permit ok refusal = if ok then allowed else refusal

-- `_classify` behind its first test, on the address as it is written
unfoldable pub classify_plain : Library → NetworkPolicy → Address → NetworkDecision
classify_plain lib p address =
    if is_unspecified lib address || in_any address wildcard_source
    then blocked_unspecified
    else if is_loopback lib address
    then permit p.allow_loopback blocked_loopback
    else if is_link_local lib address
    then permit p.allow_link_local blocked_link_local
    else if in_any address special || is_multicast lib address
    then blocked_special
    else if lib.is_private address
    then permit p.allow_private_networks blocked_private
    else allowed

abbrev pub unless_allowing : NetworkDecision → NetworkDecision → NetworkDecision
unless_allowing first next = if is_allowing first then next else first

-- `_classify`; an IPv4 address embeds none, so the call on the embedded address goes no deeper.
unfoldable pub classify_address : Library → NetworkPolicy → Address → NetworkDecision
classify_address lib p address = elim (embedded_ipv4 address) [
  | none ↦ classify_plain lib p address
  | some inner ↦ unless_allowing (classify_plain lib p (v4 inner)) (classify_plain lib p address)
]

-- The loop of `decide_addresses`
unfoldable pub decide_each : Library → NetworkPolicy → List Address → NetworkDecision
decide_each lib p [] = allowed
decide_each lib p (address ∷ addresses) =
    unless_allowing (classify_address lib p address) (decide_each lib p addresses)

-- `decide_addresses`
unfoldable pub decide_addresses : Library → NetworkPolicy → List Address → NetworkDecision
unfolding decide_each
decide_addresses lib p addresses =
    if is_empty addresses then blocked_unresolvable else decide_each lib p addresses

-- `value[1:closing]`, up to the closing bracket; without one the host is empty.
abbrev pub inside_brackets : Text → Text → Text
inside_brackets acc [] = []
inside_brackets acc (c ∷ t) =
    let rest = inside_brackets (c ∷ acc) t in if c == b']' then rev acc [] else rest
  where
    rev : Text → Text → Text
    rev [] out = out
    rev (x ∷ xs) out = rev xs (x ∷ out)

-- `value.rsplit(":", 1)[0]` of a text with one colon
abbrev pub before_colon : Text → Text
before_colon [] = []
before_colon (c ∷ t) = let rest = c ∷ before_colon t in if c == b':' then [] else rest

bare_host : Text → Text
bare_host [] = []
bare_host (c ∷ t) =
    if c == b'['
    then inside_brackets [] t
    else if count (λ d. d == b':') (c ∷ t) == 1
    then before_colon (c ∷ t)
    else c ∷ t

-- `hostname_of`
unfoldable pub hostname_of : Text → Text
unfolding bare_host
hostname_of host = bare_host (strip host)

-- `is_allowlisted`
unfoldable pub is_allowlisted : NetworkPolicy → Text → Bool
is_allowlisted p host =
    let entries = map (λ entry. lower (strip entry)) p.allowed_hosts in
    contains entries (lower (strip host)) || contains entries (lower (hostname_of host))
