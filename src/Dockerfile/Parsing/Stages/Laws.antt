-- ===== src/Dockerfile/Parsing/Stages/Laws.antt =====
-- Which stage gives the final stage its user.
use mathlib.Core.Path.{subst}
use docker_ls.Prelude.{
  ℕ, zero, suc, ◌+◌, ◌<◌, ◌≤◌, ◌≡◌, refl, sym, ap, ◌∙◌, ◌↔◌, List, [], ◌∷◌, Bool, true, false,
  length, Option, none, some, if◌then◌else◌, arith,
}
use docker_ls.Prelude.Text.{Text}
use docker_ls.Dockerfile.Parsing.Stages.{
  Stage, stage_at, parent_of, out_of_fuel, ended, found, visited_before, walk_user, fuel_for_stages,
}

-- Of the numbers below `k`, those not visited
abbrev fresh : ℕ → List ℕ → ℕ
fresh zero visited = 0
fresh (suc k) visited = (if visited_before k visited then 0 else 1) + fresh k visited

fresh-behind : (k n : ℕ) (visited : List ℕ) → k ≤ n → fresh k (n ∷ visited) ≡ fresh k visited
fresh-behind zero n visited h = refl
fresh-behind (suc k) n visited h = ground (arith, fresh-behind k n visited)

fresh-visit :
    (k n : ℕ) (visited : List ℕ)
    → n < k
    → visited_before n visited ≡ false
    → suc (fresh k (n ∷ visited)) ≡ fresh k visited
fresh-visit zero n visited h e = omega (arith, h)
fresh-visit (suc k) n visited h e =
    ground (arith, fresh-visit k n visited, fresh-behind k n visited, h, e)

fresh-nil : (k : ℕ) → fresh k [] ≡ k
fresh-nil zero = refl
fresh-nil (suc k) = ground (arith, fresh-nil k)

stage_at-bound :
    (stages : List Stage) (n : ℕ) (s : Stage) → stage_at stages n ≡ some s → n < length stages
unfolding stage_at
stage_at-bound [] n s e = cc
stage_at-bound (r ∷ stages) zero s e = omega arith
stage_at-bound (r ∷ stages) (suc n) s e = ground (arith, stage_at-bound stages n s e)

module _ (stages : List Stage) where
  -- The user of the stage `s` is in effect at the stage with the number `n`.
  pub data InEffect : ℕ → Stage → Type 0 where
    own :
        {n : ℕ} {s : Stage} {u : Text} → stage_at stages n ≡ some s → s.user ≡ some u → InEffect n s
    inherited :
        {n m : ℕ} {s t : Stage}
        → stage_at stages n ≡ some s
        → s.user ≡ none
        → parent_of stages s ≡ some m
        → InEffect m t
        → InEffect n t

  -- What a step of the walk meets
  data Visit (visited : List ℕ) (n : ℕ) : Type 0 where
    again : visited_before n visited ≡ true → Visit visited n
    missing : visited_before n visited ≡ false → stage_at stages n ≡ none → Visit visited n
    with_own :
        visited_before n visited ≡ false
        → (s : Stage) (u : Text) → stage_at stages n ≡ some s
        → s.user ≡ some u
        → Visit visited n
    without :
        visited_before n visited ≡ false
        → (s : Stage) → stage_at stages n ≡ some s
        → s.user ≡ none
        → Visit visited n

  module _ (visited : List ℕ) (n : ℕ) where
    Visit-stage :
        (s : Stage) (u : Option Text)
        → visited_before n visited ≡ false
        → stage_at stages n ≡ some s
        → s.user ≡ u
        → Visit visited n
    Visit-stage s none e f g = without e s f g
    Visit-stage s (some u) e f g = with_own e s u f g

    Visit-unseen :
        (r : Option Stage)
        → visited_before n visited ≡ false
        → stage_at stages n ≡ r
        → Visit visited n
    Visit-unseen none e f = missing e f
    Visit-unseen (some s) e f = Visit-stage s s.user e f refl

    Visit-any : (b : Bool) → visited_before n visited ≡ b → Visit visited n
    Visit-any true e = again e
    Visit-any false e = Visit-unseen (stage_at stages n) e refl

    visit : Visit visited n
    visit = Visit-any (visited_before n visited) refl

  module _ (fuel : ℕ) (visited : List ℕ) (n : ℕ) where
    walk-again :
        visited_before n visited ≡ true → walk_user stages (suc fuel) visited (some n) ≡ ended
    unfolding walk_user
    walk-again e = rw e refl

    walk-missing :
        visited_before n visited ≡ false
        → stage_at stages n ≡ none
        → walk_user stages (suc fuel) visited (some n) ≡ ended
    unfolding walk_user
    walk-missing e f = rw (e, f) refl

    walk-own :
        {s : Stage} {u : Text}
        → visited_before n visited ≡ false
        → stage_at stages n ≡ some s
        → s.user ≡ some u
        → walk_user stages (suc fuel) visited (some n) ≡ found s
    unfolding walk_user
    walk-own e f g = simp (e, f, g) refl

    walk-without :
        {s : Stage}
        → visited_before n visited ≡ false
        → stage_at stages n ≡ some s
        → s.user ≡ none
        → walk_user stages (suc fuel) visited (some n)
          ≡ walk_user stages fuel (n ∷ visited) (parent_of stages s)
    unfolding walk_user
    walk-without e f g = simp (e, f, g) refl

  less_fresh :
      (fuel : ℕ) (visited : List ℕ) (n : ℕ) (s : Stage)
      → fresh (length stages) visited < suc fuel
      → visited_before n visited ≡ false
      → stage_at stages n ≡ some s
      → fresh (length stages) (n ∷ visited) < fuel
  less_fresh fuel visited n s h e f =
      omega (arith, h, fresh-visit (length stages) n visited (stage_at-bound stages n s f) e)

  -- The walk ends before the fuel does.
  walk_user_ends :
      (fuel : ℕ) (visited : List ℕ) (at : Option ℕ)
      → fresh (length stages) visited < fuel
      → ¬ walk_user stages fuel visited at ≡ out_of_fuel
  unfolding walk_user
  walk_user_ends fuel visited none h e = cc
  walk_user_ends zero visited (some n) h e = omega (arith, h)
  walk_user_ends (suc fuel) visited (some n) h e = elim (visit visited n) [
    | again seen ↦ (let k = walk-again fuel visited n seen in cc)
    | missing unseen gone ↦ (let k = walk-missing fuel visited n unseen gone in cc)
    | with_own unseen s u f g ↦ (let k = walk-own fuel visited n unseen f g in cc)
    | without unseen s f g ↦
        walk_user_ends fuel (n ∷ visited) (parent_of stages s)
          (less_fresh fuel visited n s h unseen f)
          (sym (walk-without fuel visited n unseen f g) ∙ e)
  ]

  from_parent :
      {n : ℕ} {s t : Stage} (p : Option ℕ)
      → stage_at stages n ≡ some s
      → s.user ≡ none
      → parent_of stages s ≡ p
      → (fuel : ℕ) (visited : List ℕ) → walk_user stages fuel visited p ≡ found t
      → ((m : ℕ) → walk_user stages fuel visited (some m) ≡ found t → InEffect m t)
      → InEffect n t
  unfolding walk_user
  from_parent none f g e fuel visited h k = cc
  from_parent (some m) f g e fuel visited h k = inherited f g e (k m h)

  -- What the walk finds is in effect.
  walk_user_sound :
      (fuel : ℕ) (visited : List ℕ) (n : ℕ) (t : Stage)
      → walk_user stages fuel visited (some n) ≡ found t
      → InEffect n t
  unfolding walk_user
  walk_user_sound zero visited n t e = cc
  walk_user_sound (suc fuel) visited n t e = elim (visit visited n) as (λ _. InEffect n t) [
    | again seen ↦ (let k = walk-again fuel visited n seen in cc)
    | missing unseen gone ↦ (let k = walk-missing fuel visited n unseen gone in cc)
    | with_own unseen s u f g ↦
        (let k = walk-own fuel visited n unseen f g in
          let same : s ≡ t = cc in subst (InEffect n) same (own f g))
    | without unseen s f g ↦
        from_parent (parent_of stages s) f g refl fuel (n ∷ visited)
          (sym (walk-without fuel visited n unseen f g) ∙ e)
          (λ m. walk_user_sound fuel (n ∷ visited) m t)
  ]

  depth : {n : ℕ} {t : Stage} → InEffect n t → ℕ
  depth (own f g) = 0
  depth (inherited f g e h) = suc (depth h)

  -- A stage has one depth.
  depth_unique :
      {n m : ℕ} {t u : Stage} (h : InEffect n t) (k : InEffect m u) → n ≡ m → depth h ≡ depth k
  unfolding depth
  depth_unique (own f g) (own f' g') e = refl
  depth_unique (own f g) (inherited f' g' e' k) e = cc
  depth_unique (inherited f g e' h) (own f' g') e = cc
  depth_unique (inherited f g e₁ h) (inherited f' g' e₂ k) e = ap suc (depth_unique h k (cc))

  -- A stage that is deeper than itself is not visited yet.
  not_seen :
      {n : ℕ} {t : Stage} (visited : List ℕ) (h : InEffect n t)
      → ((m : ℕ) (u : Stage) (k : InEffect m u)
          → visited_before m visited ≡ true
          → depth h < depth k)
      → visited_before n visited ≡ false
  not_seen {n} {t} visited h above = ground (arith, above n t h)

  -- What is in effect is found.
  walk_user_complete :
      (fuel : ℕ) (visited : List ℕ) (n : ℕ) (t : Stage) (h : InEffect n t)
      → ((m : ℕ) (u : Stage) (k : InEffect m u)
          → visited_before m visited ≡ true
          → depth h < depth k)
      → fresh (length stages) visited < fuel
      → walk_user stages fuel visited (some n) ≡ found t
  unfolding depth
  walk_user_complete zero visited n t h above l = absurd (omega (arith, l))
  walk_user_complete (suc fuel) visited n t (own f g) above l =
      walk-own fuel visited n (not_seen visited (own f g) above) f g
  walk_user_complete (suc fuel) visited n t (inherited {m = m} {s = s} f g e h) above l =
      let unseen = not_seen visited (inherited f g e h) above in
      walk-without fuel visited n unseen f g
      ∙ (ap (walk_user stages fuel (n ∷ visited)) e
          ∙ walk_user_complete fuel (n ∷ visited) m t h
              (λ o u k seen. ground (arith, above o u k, depth_unique (inherited f g e h) k, seen))
              (less_fresh fuel visited n s l unseen f))

  -- At any stage, the walk for the user ends before its fuel does, and it finds a stage exactly where
  -- the user of that stage is in effect.
  pub walk_user_lem :
      (n : ℕ)
      → (¬ walk_user stages (fuel_for_stages stages) [] (some n) ≡ out_of_fuel)
        × ((t : Stage)
            → (walk_user stages (fuel_for_stages stages) [] (some n) ≡ found t) ↔ InEffect n t)
  walk_user_lem n =
      let enough : fresh (length stages) [] < fuel_for_stages stages =
        omega (arith, fresh-nil (length stages)) in
      (
        walk_user_ends (fuel_for_stages stages) [] (some n) enough,
        λ t. (
          walk_user_sound (fuel_for_stages stages) [] n t,
          λ h. walk_user_complete (fuel_for_stages stages) [] n t h (λ m u k e. cc) enough,
        ),
      )
