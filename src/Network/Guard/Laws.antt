-- ===== src/Network/Guard/Laws.antt =====
-- What a guard's answers rest on, whatever was asked before.
use docker_ls.Prelude.{
  ◌≡◌, ◌⊎◌, inl, inr, refl, ap, List, [], ◌∷◌, true, false, is_empty, some, arith,
}
use docker_ls.Prelude.{In, Bool-cases, Option-cases}
use mathlib.Core.Path.{subst}
use docker_ls.Prelude.Text.{Text, text_eq, text_eq_iff}
use docker_ls.Network.Address.{Address, Library}
use docker_ls.Network.Policy.{NetworkPolicy, NetworkDecision, is_allowing, is_allowlisted}
use docker_ls.Network.Ranges.{Admitted}
use docker_ls.Network.Destinations.{decide_addresses_iff}
use docker_ls.Network.Guard.{HostGuard, new_guard, cached, fresh_decision, decide, after_requests}

-- The answer has an address, and admits all that it has.
abbrev pub IsSafe : Library → NetworkPolicy → List Address → Type 0
IsSafe lib p answer =
    (is_empty answer ≡ false) × ((address : Address) → In address answer → Admitted lib p address)

-- The host is on the allowlist, or one of the requests for it was answered with safe addresses.
abbrev pub Grounded : Library → NetworkPolicy → List (Text × List Address) → Text → Type 0
Grounded lib p requests host =
    (is_allowlisted p host ≡ true)
    ⊎ ((answer : List Address) × In (host, answer) requests × IsSafe lib p answer)

module _ (lib : Library) (p : NetworkPolicy) where
  fresh_grounded :
      (host : Text) (answer : List Address)
      → is_allowing (fresh_decision lib p host answer) ≡ true
      → (is_allowlisted p host ≡ true) ⊎ IsSafe lib p answer
  unfolding fresh_decision
  fresh_grounded host answer h = elim (Bool-cases (is_allowlisted p host)) [
    | inl listed ↦ inl listed
    | inr other ↦ inr ((decide_addresses_iff lib p answer).0 (ground (arith, h, other)))
  ]

  -- What the decisions of a guard rest on, and that it keeps its policy.
  record IsSound (requests : List (Text × List Address)) (g : HostGuard) : Type 0 where
    same_policy : g.policy ≡ p
    decided :
        (host : Text) (d : NetworkDecision)
        → cached host g.decisions ≡ some d
        → is_allowing d ≡ true
        → Grounded lib p requests host

  Grounded-later :
      (requests : List (Text × List Address)) (r : Text × List Address) (host : Text)
      → Grounded lib p requests host
      → Grounded lib p (r ∷ requests) host
  Grounded-later requests r host (inl listed) = inl listed
  Grounded-later requests r host (inr (answer, m, safe)) = inr (answer, inr m, safe)

  fresh-Grounded :
      (requests : List (Text × List Address)) (host : Text) (answer : List Address)
      → is_allowing (fresh_decision lib p host answer) ≡ true
      → Grounded lib p ((host, answer) ∷ requests) host
  fresh-Grounded requests host answer h = elim (fresh_grounded host answer h) [
    | inl listed ↦ inl listed
    | inr safe ↦ inr (answer, inl refl, safe)
  ]

  module _ (requests : List (Text × List Address)) (host : Text) (answer : List Address)
      (g : HostGuard) (sound : IsSound requests g) where
    decide-Grounded :
        is_allowing (decide lib host answer g).0 ≡ true
        → Grounded lib p ((host, answer) ∷ requests) host
    unfolding decide
    decide-Grounded h = elim (Option-cases (cached host g.decisions)) [
      | inl missing ↦
          fresh-Grounded requests host answer (ground (arith, sound.same_policy, missing))
      | inr (d, found) ↦
          Grounded-later requests (host, answer) host
            (sound.decided host d found (ground (arith, found)))
    ]

    kept-IsSound : IsSound ((host, answer) ∷ requests) g
    kept-IsSound = record {
      same_policy = sound.same_policy;
      decided =
          λ h d found ok. Grounded-later requests (host, answer) h (sound.decided h d found ok);
    }

    abbrev noted : HostGuard
    noted = record g { decisions = (host, fresh_decision lib g.policy host answer) ∷ g.decisions }

    noted-decided :
        (h : Text) (d : NetworkDecision)
        → cached h noted.decisions ≡ some d
        → is_allowing d ≡ true
        → Grounded lib p ((host, answer) ∷ requests) h
    unfolding cached
    noted-decided h d found ok = elim (Bool-cases (text_eq host h)) [
      | inl same ↦
          subst (Grounded lib p ((host, answer) ∷ requests)) ((text_eq_iff host h).0 same)
            (fresh-Grounded requests host answer (ground (arith, sound.same_policy, same)))
      | inr other ↦
          Grounded-later requests (host, answer) h (sound.decided h d (ground (arith, other)) ok)
    ]

    decide-IsSound : IsSound ((host, answer) ∷ requests) (decide lib host answer g).1
    unfolding decide
    decide-IsSound = elim (Option-cases (cached host g.decisions)) [
      | inl missing ↦
          rw (missing, decide) (record { same_policy = sound.same_policy; decided = noted-decided })
      | inr (d, found) ↦ rw (found, decide) kept-IsSound
    ]

  new_guard-IsSound : IsSound [] (new_guard p)
  unfolding new_guard cached
  new_guard-IsSound = record { same_policy = refl; decided = λ h d found ok. cc }

  after_requests-IsSound :
      (requests : List (Text × List Address))
      → IsSound requests (after_requests lib requests (new_guard p))
  unfolding after_requests
  after_requests-IsSound [] = new_guard-IsSound
  after_requests-IsSound ((host, answer) ∷ earlier) =
      decide-IsSound earlier host answer (after_requests lib earlier (new_guard p))
        (after_requests-IsSound earlier)

  -- After any requests, a host that the guard allows is on the allowlist, or this request or an
  -- earlier one for the same host was answered with addresses, and the policy keeps out none of them,
  -- nor an IPv4 address that one of them carries as an IPv4-mapped, 6to4, Teredo or NAT64 address.
  pub decide-Grounded_after :
      (requests : List (Text × List Address)) (host : Text) (answer : List Address)
      → is_allowing (decide lib host answer (after_requests lib requests (new_guard p))).0 ≡ true
      → Grounded lib p ((host, answer) ∷ requests) host
  decide-Grounded_after requests host answer =
      decide-Grounded requests host answer (after_requests lib requests (new_guard p))
        (after_requests-IsSound requests)

  decide_noted :
      (host : Text) (answer : List Address) (g : HostGuard)
      → cached host (decide lib host answer g).1.decisions ≡ some (decide lib host answer g).0
  unfolding decide cached
  decide_noted host answer g = ground (arith, (text_eq_iff host host).1 refl)

  decide_keeps :
      (host other : Text) (d : NetworkDecision) (answer : List Address) (g : HostGuard)
      → cached host g.decisions ≡ some d
      → cached host (decide lib other answer g).1.decisions ≡ some d
  unfolding decide cached
  decide_keeps host other d answer g h = ground (arith, same_cached)
    where
      same_cached : text_eq other host ≡ true → cached other g.decisions ≡ cached host g.decisions
      same_cached e = ap (λ t. cached t g.decisions) ((text_eq_iff other host).0 e)

  -- A host keeps the decision that it was first given, whatever is asked and answered later.
  pub decide_again :
      (host : Text) (answer : List Address) (later : List (Text × List Address)) (g : HostGuard)
      → cached host (after_requests lib later (decide lib host answer g).1).decisions
        ≡ some (decide lib host answer g).0
  unfolding after_requests
  decide_again host answer [] g = decide_noted host answer g
  decide_again host answer ((other, a) ∷ later) g =
      decide_keeps host other (decide lib host answer g).0 a _ (decide_again host answer later g)
