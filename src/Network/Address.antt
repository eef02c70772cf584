-- ===== src/Network/Address.antt =====
-- IP addresses as numbers, as Python's `ipaddress` holds them, and the networks and embeddings that
-- network_policy.py tests for.
use docker_ls.Prelude.{ℕ, ◌+◌, ◌-◌, ◌*◌, ◌/◌, ◌%◌, ◌^◌, List, Bool, false, Option, none, some}
use docker_ls.Prelude.{◌==◌, any, if◌then◌else◌}

pub data Address : Type 0 where
  v4 v6 : ℕ → Address

-- What `ipaddress` answers of an IPv6 address, and whether it counts an address as private. These
-- answers have changed between releases of Python, so they are a parameter, and nothing is assumed
-- of them.
pub record Library : Type 0 where
  pub v6_unspecified : ℕ → Bool
  pub v6_loopback : ℕ → Bool
  pub v6_link_local : ℕ → Bool
  pub v6_multicast : ℕ → Bool
  pub is_private : Address → Bool

-- The number of the IPv4 address a.b.c.d
abbrev pub quad : ℕ → ℕ → ℕ → ℕ → ℕ
quad a b c d = ((a * 256 + b) * 256 + c) * 256 + d

-- `address in network`, where the network is its first bits and how many bits follow them.
pub data Network : Type 0 where
  net4 net6 : (prefix rest : ℕ) → Network

abbrev pub in_network : Address → Network → Bool
in_network (v4 a) (net4 prefix rest) = a / 2 ^ rest == prefix
in_network (v6 a) (net6 prefix rest) = a / 2 ^ rest == prefix
in_network _ _ = false

-- `_in_any`
abbrev pub in_any : Address → List Network → Bool
in_any address networks = any (in_network address) networks

-- `is_unspecified`, `is_loopback`, `is_link_local` and `is_multicast`
abbrev pub is_unspecified : Library → Address → Bool
is_unspecified lib (v4 a) = a == 0
is_unspecified lib (v6 a) = lib.v6_unspecified a

abbrev pub is_loopback : Library → Address → Bool
is_loopback lib (v4 a) = a / 2 ^ 24 == 127
is_loopback lib (v6 a) = lib.v6_loopback a

abbrev pub is_link_local : Library → Address → Bool
is_link_local lib (v4 a) = a / 2 ^ 16 == 43518  -- 169.254
is_link_local lib (v6 a) = lib.v6_link_local a

abbrev pub is_multicast : Library → Address → Bool
is_multicast lib (v4 a) = a / 2 ^ 28 == 14
is_multicast lib (v6 a) = lib.v6_multicast a

-- `ipv4_mapped`, `sixtofour`, the client of `teredo`, whose bits are inverted, and the NAT64 form
abbrev ipv4_mapped : ℕ → Option ℕ
ipv4_mapped a = if a / 2 ^ 32 == 0xffff then some (a % 2 ^ 32) else none

abbrev sixtofour : ℕ → Option ℕ
sixtofour a = if a / 2 ^ 112 == 0x2002 then some (a / 2 ^ 80 % 2 ^ 32) else none

abbrev teredo_client : ℕ → Option ℕ
teredo_client a = if a / 2 ^ 96 == 0x20010000 then some (2 ^ 32 - 1 - a % 2 ^ 32) else none

abbrev nat64 : ℕ → Option ℕ
nat64 a = if a / 2 ^ 32 == 0x64ff9b0000000000000000 then some (a % 2 ^ 32) else none

abbrev first_of : Option ℕ → Option ℕ → Option ℕ
first_of none b = b
first_of (some a) b = some a

-- `_embedded_ipv4`
unfoldable pub embedded_ipv4 : Address → Option ℕ
embedded_ipv4 (v4 a) = none
embedded_ipv4 (v6 a) =
    first_of (ipv4_mapped a) (first_of (sixtofour a) (first_of (teredo_client a) (nat64 a)))
