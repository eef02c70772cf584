-- ===== src/Network/Ranges.antt =====
-- Which addresses a policy keeps out, as ranges.
use docker_ls.Prelude.{
  ℕ, ◌+◌, ◌-◌, ◌*◌, ◌/◌, ◌^◌, ◌<◌, ◌≡◌, sym, ◌∙◌, true, if◌then◌else◌, not, Bool, any, leb, ◌&&◌,
  ◌||◌, ◌==◌, List, [], ◌∷◌, false, arith,
}
use docker_ls.Network.Address.{Address, v4, v6, Library, quad, in_any}
use docker_ls.Network.Policy.{
  wildcard_source, special, NetworkPolicy, permit, allowed, blocked_unspecified, blocked_loopback,
  blocked_link_local, blocked_special, blocked_private, is_allowing, classify_plain,
}

-- The IPv6 address carries the IPv4 address a: IPv4-mapped, 6to4, Teredo or NAT64. The IPv4-compatible
-- form ::a.b.c.d is none of them, since the policy does not read it.
pub data Carries : Address → ℕ → Type 0 where
  mapped : {n a : ℕ} → a < 2 ^ 32 → n ≡ 0xffff * 2 ^ 32 + a → Carries (v6 n) a
  sixtofour :
      {n a low : ℕ}
      → a < 2 ^ 32
      → low < 2 ^ 80
      → n ≡ 0x2002 * 2 ^ 112 + a * 2 ^ 80 + low
      → Carries (v6 n) a
  teredo :
      {n a server : ℕ}
      → a < 2 ^ 32
      → server < 2 ^ 64
      → n ≡ 0x20010000 * 2 ^ 96 + server * 2 ^ 32 + (2 ^ 32 - 1 - a)
      → Carries (v6 n) a
  nat64 : {n a : ℕ} → a < 2 ^ 32 → n ≡ 0x64ff9b0000000000000000 * 2 ^ 32 + a → Carries (v6 n) a

-- From the first address of a range to the last
abbrev pub within : ℕ → ℕ × ℕ → Bool
within a (first, last) = leb first a && leb a last

abbrev pub loopback_range : ℕ × ℕ
loopback_range = (quad 127 0 0 0, quad 127 255 255 255)

abbrev pub link_local_range : ℕ × ℕ
link_local_range = (quad 169 254 0 0, quad 169 254 255 255)

-- The ranges that every policy keeps out: this host, shared space, protocol assignments, the test
-- networks, relays, benchmarks, multicast and reserved space
abbrev pub closed_ranges : List (ℕ × ℕ)
closed_ranges =
    (quad 0 0 0 0, quad 0 255 255 255)
    ∷ (quad 100 64 0 0, quad 100 127 255 255)
    ∷ (quad 192 0 0 0, quad 192 0 0 255)
    ∷ (quad 192 0 2 0, quad 192 0 2 255)
    ∷ (quad 192 88 99 0, quad 192 88 99 255)
    ∷ (quad 198 18 0 0, quad 198 19 255 255)
    ∷ (quad 198 51 100 0, quad 198 51 100 255)
    ∷ (quad 203 0 113 0, quad 203 0 113 255)
    ∷ (quad 224 0 0 0, quad 239 255 255 255)
    ∷ (quad 240 0 0 0, quad 255 255 255 255)
    ∷ []

-- The IPv4 addresses that a policy keeps out: those ranges, the loopback and link-local ranges unless
-- it allows them, and what else the library calls private unless it allows that.
abbrev pub keeps_out_v4 : Library → NetworkPolicy → ℕ → Bool
keeps_out_v4 lib p a =
    any (within a) closed_ranges
    || (within a loopback_range && not p.allow_loopback)
    || (within a link_local_range && not p.allow_link_local)
    || (lib.is_private (v4 a)
        && not p.allow_private_networks
        && not (within a loopback_range)
        && not (within a link_local_range))

-- 64:ff9b::/96, 64:ff9b:1::/48, 100::/64 and 2001:db8::/32
abbrev pub closed_ranges_v6 : List (ℕ × ℕ)
closed_ranges_v6 =
    (0x64ff9b * 2 ^ 96, 0x64ff9b * 2 ^ 96 + (2 ^ 32 - 1))
    ∷ (0x64ff9b0001 * 2 ^ 80, 0x64ff9b0001 * 2 ^ 80 + (2 ^ 80 - 1))
    ∷ (0x100 * 2 ^ 112, 0x100 * 2 ^ 112 + (2 ^ 64 - 1))
    ∷ (0x20010db8 * 2 ^ 96, 0x20010db8 * 2 ^ 96 + (2 ^ 96 - 1))
    ∷ []

-- The IPv6 addresses that a policy keeps out, as they are written: the unspecified one, those ranges
-- and multicast, and loopback, link-local and private addresses, unless it allows them. What the
-- library calls loopback or link-local is judged by that alone.
abbrev pub keeps_out_v6 : Library → NetworkPolicy → ℕ → Bool
keeps_out_v6 lib p n =
    lib.v6_unspecified n
    || (if lib.v6_loopback n
        then not p.allow_loopback
        else if lib.v6_link_local n
        then not p.allow_link_local
        else any (within n) closed_ranges_v6
          || lib.v6_multicast n
          || (lib.is_private (v6 n) && not p.allow_private_networks))

abbrev pub keeps_out : Library → NetworkPolicy → Address → Bool
keeps_out lib p (v4 a) = keeps_out_v4 lib p a
keeps_out lib p (v6 n) = keeps_out_v6 lib p n

-- Neither the address nor an IPv4 address that it carries is kept out.
abbrev pub Admitted : Library → NetworkPolicy → Address → Type 0
Admitted lib p address =
    (keeps_out lib p address ≡ false)
    × ((a : ℕ) → Carries address a → keeps_out lib p (v4 a) ≡ false)

-- The tests of the policy on an IPv4 address, as ranges
loopback-within : (a : ℕ) → (a / 2 ^ 24 == 127) ≡ within a loopback_range
loopback-within a = ground arith

link_local-within : (a : ℕ) → (a / 2 ^ 16 == 43518) ≡ within a link_local_range
link_local-within a = ground arith

this_host-within : (a : ℕ) → (a / 2 ^ 24 == 0) ≡ within a (quad 0 0 0 0, quad 0 255 255 255)
this_host-within a = ground arith

-- The same tests, with multicast before the reserved range
regrouped :
    (n s p t r b u v e m : Bool)
    → ((n || false) || ((s || (p || (t || (r || (b || (u || (v || (e || false)))))))) || m))
      ≡ (n || (s || (p || (t || (r || (b || (u || (v || (m || (e || false))))))))))
regrouped n s p t r b u v e m = ground arith

special-within :
    (a : ℕ)
    → (in_any (v4 a) wildcard_source || (in_any (v4 a) special || a / 2 ^ 28 == 14))
      ≡ any (within a) closed_ranges
special-within a =
    let shared : (a / 2 ^ 22 == 401) ≡ within a (quad 100 64 0 0, quad 100 127 255 255) =
      ground arith in
    let protocols : (a / 2 ^ 8 == 0xc00000) ≡ within a (quad 192 0 0 0, quad 192 0 0 255) =
      ground arith in
    let first_test : (a / 2 ^ 8 == 0xc00002) ≡ within a (quad 192 0 2 0, quad 192 0 2 255) =
      ground arith in
    let relays : (a / 2 ^ 8 == 0xc05863) ≡ within a (quad 192 88 99 0, quad 192 88 99 255) =
      ground arith in
    let benchmarks : (a / 2 ^ 17 == 25353) ≡ within a (quad 198 18 0 0, quad 198 19 255 255) =
      ground arith in
    let second_test : (a / 2 ^ 8 == 0xc63364) ≡ within a (quad 198 51 100 0, quad 198 51 100 255) =
      ground arith in
    let third_test : (a / 2 ^ 8 == 0xcb0071) ≡ within a (quad 203 0 113 0, quad 203 0 113 255) =
      ground arith in
    let multicast : (a / 2 ^ 28 == 14) ≡ within a (quad 224 0 0 0, quad 239 255 255 255) =
      ground arith in
    let reserved : (a / 2 ^ 28 == 15) ≡ within a (quad 240 0 0 0, quad 255 255 255 255) =
      ground arith in
    rw
      (
        this_host-within a,
        shared,
        protocols,
        first_test,
        relays,
        benchmarks,
        second_test,
        third_test,
        multicast,
        reserved,
      )
      (regrouped (within a (quad 0 0 0 0, quad 0 255 255 255))
        (within a (quad 100 64 0 0, quad 100 127 255 255))
        (within a (quad 192 0 0 0, quad 192 0 0 255)) (within a (quad 192 0 2 0, quad 192 0 2 255))
        (within a (quad 192 88 99 0, quad 192 88 99 255))
        (within a (quad 198 18 0 0, quad 198 19 255 255))
        (within a (quad 198 51 100 0, quad 198 51 100 255))
        (within a (quad 203 0 113 0, quad 203 0 113 255))
        (within a (quad 240 0 0 0, quad 255 255 255 255))
        (within a (quad 224 0 0 0, quad 239 255 255 255)))

loopback_open : (a : ℕ) → within a loopback_range ≡ true → any (within a) closed_ranges ≡ false
loopback_open a h = ground (arith, h)

link_local_open :
    (a : ℕ)
    → within a link_local_range ≡ true
    → (any (within a) closed_ranges ≡ false) × (within a loopback_range ≡ false)
link_local_open a h = ground (arith, h)

-- The order of the tests does not matter, since the ranges are apart.
in_order :
    (z w b l s r ob ol op : Bool)
    → (z ≡ true → w ≡ true)
    → (b ≡ true → (w || s) ≡ false)
    → (l ≡ true → ((w || s) ≡ false) × (b ≡ false))
    → is_allowing (
        if z || w
        then blocked_unspecified
        else if b
        then permit ob blocked_loopback
        else if l
        then permit ol blocked_link_local
        else if s
        then blocked_special
        else if r
        then permit op blocked_private
        else allowed)
      ≡ not ((w || s) || (b && not ob) || (l && not ol) || (r && not op && not b && not l))
in_order z w b l s r ob ol op h k j = ground (arith, h, k, j)

module _ (lib : Library) (p : NetworkPolicy) where
  pub plain_v4 : (a : ℕ) → is_allowing (classify_plain lib p (v4 a)) ≡ not (keeps_out_v4 lib p a)
  unfolding classify_plain
  plain_v4 a =
      let b = loopback-within a in
      let l = link_local-within a in
      let s = special-within a in
      rw (← s, ← b, ← l)
        (in_order (a == 0) (in_any (v4 a) wildcard_source) (a / 2 ^ 24 == 127) (a / 2 ^ 16 == 43518)
          (in_any (v4 a) special || a / 2 ^ 28 == 14) (lib.is_private (v4 a)) p.allow_loopback
          p.allow_link_local p.allow_private_networks (λ e. ground (arith, e))
          (λ e. s ∙ loopback_open a (sym b ∙ e))
          (λ e. (s ∙ (link_local_open a (sym l ∙ e)).0, b ∙ (link_local_open a (sym l ∙ e)).1)))

  special_v6-within : (n : ℕ) → in_any (v6 n) special ≡ any (within n) closed_ranges_v6
  special_v6-within n = ground arith

  pub plain_v6 : (n : ℕ) → is_allowing (classify_plain lib p (v6 n)) ≡ not (keeps_out_v6 lib p n)
  unfolding classify_plain
  plain_v6 n = rw (special_v6-within n) (ground arith)
