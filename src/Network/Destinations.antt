-- ===== src/Network/Destinations.antt =====
-- A host is allowed exactly where none of its addresses is kept out.
use mathlib.Core.Path.{subst}
use docker_ls.Prelude.{
  ℕ, ◌/◌, ◌%◌, ◌^◌, ◌≡◌, ◌↔◌, inl, inr, refl, sym, true, is_empty, not, Bool, ◌&&◌, ◌==◌, List, [],
  ◌∷◌, false, none, some, arith, Bool-cases, Option-cases,
}
use docker_ls.Prelude.{In}
use docker_ls.Network.Address.{Address, v4, v6, Library, embedded_ipv4}
use docker_ls.Network.Policy.{
  NetworkPolicy, NetworkDecision, unless_allowing, is_allowing, classify_plain, classify_address,
  decide_each, decide_addresses,
}
use docker_ls.Network.Ranges.{
  Carries, mapped, sixtofour, teredo, nat64, keeps_out, Admitted, plain_v4, plain_v6,
}

not_true : (b : Bool) → not b ≡ true → b ≡ false
not_true b h = ground arith

both_true : (b d : Bool) → (b && d) ≡ true → (b ≡ true) × (d ≡ true)
both_true b d h = ground arith

both_not_true : (b d : Bool) → (not b && not d) ≡ true → (b ≡ false) × (d ≡ false)
both_not_true b d h = ground arith

unless_both :
    (first next : NetworkDecision)
    → is_allowing (unless_allowing first next) ≡ (is_allowing first && is_allowing next)
unless_both first next = elim (Bool-cases (is_allowing first)) [
  | inl e ↦ rw e refl
  | inr e ↦ rw (e, e) refl
]

module _ (lib : Library) (p : NetworkPolicy) where
  embedded : {address : Address} {a : ℕ} → Carries address a → embedded_ipv4 address ≡ some a
  unfolding embedded_ipv4
  embedded (mapped h e) = ground arith
  embedded (sixtofour h l e) = ground arith
  embedded (teredo h s e) = ground arith
  embedded (nat64 h e) = ground arith

  carried : (n a : ℕ) → embedded_ipv4 (v6 n) ≡ some a → Carries (v6 n) a
  unfolding embedded_ipv4
  carried n a h = elim (Bool-cases (n / 2 ^ 32 == 0xffff)) [
    | inl e ↦ mapped (ground (arith, h, e)) (ground (arith, h, e))
    | inr e ↦ elim (Bool-cases (n / 2 ^ 112 == 0x2002)) [
      | inl f ↦
          sixtofour {low = n % 2 ^ 80} (ground (arith, h, e, f)) (ground arith)
            (ground (arith, h, e, f))
      | inr f ↦ elim (Bool-cases (n / 2 ^ 96 == 0x20010000)) [
        | inl g ↦
            teredo {server = n / 2 ^ 32 % 2 ^ 64} (ground (arith, h, e, f, g)) (ground arith)
              (ground (arith, h, e, f, g))
        | inr g ↦ nat64 (ground (arith, h, e, f, g)) (ground (arith, h, e, f, g))
      ]
    ]
  ]

  embedded_v4 : (a : ℕ) → embedded_ipv4 (v4 a) ≡ none
  unfolding embedded_ipv4
  embedded_v4 a = refl

  address_v4 : (a : ℕ) → classify_address lib p (v4 a) ≡ classify_plain lib p (v4 a)
  unfolding classify_address embedded_ipv4
  address_v4 a = refl

  module _ (n : ℕ) where
    address_plain :
        embedded_ipv4 (v6 n) ≡ none → classify_address lib p (v6 n) ≡ classify_plain lib p (v6 n)
    unfolding classify_address
    address_plain e = rw (e, classify_address) refl

    address_carrying :
        (a : ℕ)
        → embedded_ipv4 (v6 n) ≡ some a
        → is_allowing (classify_address lib p (v6 n))
          ≡ (not (keeps_out lib p (v4 a)) && not (keeps_out lib p (v6 n)))
    unfolding classify_address
    address_carrying a e = ground (arith, e, plain_v4 lib p a, plain_v6 lib p n)

  address_allowed :
      (address : Address)
      → (is_allowing (classify_address lib p address) ≡ true) ↔ Admitted lib p address
  address_allowed (v4 a) =
      rw (address_v4 a, plain_v4 lib p a)
        (λ e. (not_true _ e, λ b c. absurd (cc (embedded c, embedded_v4 a))), λ (e, _). rw e refl)
  address_allowed (v6 n) = elim (Option-cases (embedded_ipv4 (v6 n))) [
    | inl e ↦
        rw (address_plain n e, plain_v6 lib p n)
          (λ h. (not_true _ h, λ b c. absurd (cc (embedded c, e))), λ (h, _). rw h refl)
    | inr (a, e) ↦ rw (address_carrying n a e) (
      λ h.
          let parts : (keeps_out lib p (v4 a) ≡ false) × (keeps_out lib p (v6 n) ≡ false) =
            both_not_true _ _ h in
          (
            parts.1,
            λ b c.
                let same : a ≡ b = cc (embedded c, e) in
                subst (λ x. keeps_out lib p (v4 x) ≡ false) same parts.0,
          ),
      λ (h, k). rw (h, k a (carried n a e)) refl,
    )
  ]

  each_allowed :
      (addresses : List Address)
      → (is_allowing (decide_each lib p addresses) ≡ true)
        ↔ ((address : Address) → In address addresses → Admitted lib p address)
  unfolding decide_each
  each_allowed [] = (λ h address m. absurd m, λ h. refl)
  each_allowed (x ∷ xs) = rw (unless_both (classify_address lib p x) (decide_each lib p xs)) (
    λ h.
        let (first, others) = both_true _ _ h in
        λ address m. elim m [
          | inl same ↦ subst (Admitted lib p) (sym same) ((address_allowed x).0 first)
          | inr later ↦ (each_allowed xs).0 others address later
        ],
    λ h.
        rw ((address_allowed x).1 (h x (inl refl)))
          ((each_allowed xs).1 (λ address m. h address (inr m))),
  )

  -- A host is allowed exactly where it has an address, and the policy keeps out none of its addresses,
  -- nor an IPv4 address that one of them carries as an IPv4-mapped, 6to4, Teredo or NAT64 address. Kept
  -- out are ten ranges of IPv4 (0/8, 100.64/10, 192.0.0/24, the test networks, 192.88.99/24, 198.18/15,
  -- multicast and 240/4), four of IPv6, what the library calls unspecified or multicast of IPv6, and
  -- loopback, link-local and private addresses, unless the policy allows these.
  pub decide_addresses_iff :
      (addresses : List Address)
      → (is_allowing (decide_addresses lib p addresses) ≡ true) ↔ (
          (is_empty addresses ≡ false)
          × ((address : Address) → In address addresses → Admitted lib p address))
  unfolding decide_addresses
  decide_addresses_iff [] = (λ h. cc, λ h. cc)
  decide_addresses_iff (x ∷ xs) =
      (λ h. (refl, (each_allowed (x ∷ xs)).0 h), λ (_, h). (each_allowed (x ∷ xs)).1 h)
