-- ===== src/Examples/Network.antt =====
-- Names that resolve to addresses of a cloud's metadata service.
use docker_ls.Prelude.{
  ◌+◌, ◌*◌, ◌/◌, ◌^◌, ◌≡◌, ◌↔◌, In, is_empty, refl, List, [], ◌∷◌, true, false, ◌==◌,
}
use docker_ls.Prelude.Text.{Text, codes, text_eq, strip}
use docker_ls.Network.Address.{Address, v4, v6, Library, quad, embedded_ipv4}
use docker_ls.Network.Policy.{
  NetworkPolicy, is_allowing, decide_addresses, classify_address, classify_plain, is_allowlisted,
  hostname_of,
}
use docker_ls.Network.Ranges.{Admitted}
use docker_ls.Network.Destinations.{decide_addresses_iff}
use docker_ls.Network.Guard.{new_guard, cached, fresh_decision, decide, after_requests}
use docker_ls.Network.Guard.Laws.{Grounded, decide-Grounded_after}

-- What the IPv6 ranges of `ipaddress` and the private ranges of 10/8 and fc00::/7 give
abbrev ranges : Library
ranges = record {
  v6_unspecified = λ a. a == 0;
  v6_loopback = λ a. a == 1;
  v6_link_local = λ a. a / 2 ^ 118 == 0x3fa;
  v6_multicast = λ a. a / 2 ^ 120 == 0xff;
  is_private = λ address. elim address [ v4 a ↦ a / 2 ^ 24 == 10 | v6 a ↦ a / 2 ^ 121 == 0x7e ];
}

abbrev guarded : NetworkPolicy
guarded = record {
  allow_private_networks = true;
  allow_loopback = false;
  allow_link_local = false;
  allowed_hosts = [];
}

-- ::ffff:169.254.169.254 behind a public address
abbrev metadata : Address
metadata = v6 (0xffff * 2 ^ 32 + quad 169 254 169 254)

abbrev public_address : Address
public_address = v4 (quad 93 184 216 34)

decide_addresses_iff_example :
    let addresses : List Address = public_address ∷ metadata ∷ [] in
    (is_allowing (decide_addresses ranges guarded addresses) ≡ true) ↔ (
      (is_empty addresses ≡ false)
      × ((address : Address) → In address addresses → Admitted ranges guarded address))
decide_addresses_iff_example = decide_addresses_iff ranges guarded (public_address ∷ metadata ∷ [])

metadata_refused :
    is_allowing (decide_addresses ranges guarded (public_address ∷ metadata ∷ [])) ≡ false
unfolding decide_addresses classify_address embedded_ipv4 classify_plain
metadata_refused = refl

abbrev earlier : List (Text × List Address)
earlier = (codes "registry.test", public_address ∷ []) ∷ []

-- The second answer is not looked at any more.
decide-Grounded_after_example :
    Grounded ranges guarded
      ((codes "registry.test", metadata ∷ []) ∷ earlier)
      (codes "registry.test")
unfolding decide after_requests cached new_guard text_eq fresh_decision is_allowlisted hostname_of
    strip decide_addresses classify_address embedded_ipv4 classify_plain
decide-Grounded_after_example =
    decide-Grounded_after ranges guarded earlier (codes "registry.test") (metadata ∷ []) refl
