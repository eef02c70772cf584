-- ===== src/Histories/Bounded/Replay.antt =====
-- A sequence of observations, each pushed unless it repeats the last one that is kept.
use mathlib.Core.List.{append-nil}
use Prim.Native.Nat.{ℕ}
use docker_ls.Prelude.{
  ◌≡◌, refl, inl, inr, ap, List, [], ◌∷◌, ◌++◌, Bool, false, Option, none, some, if◌then◌else◌,
  Bool-cases,
}
use docker_ls.Histories.Bounded.{last_n, last_of, push}
use docker_ls.Histories.Bounded.Laws.{bounded, overflow, push-bounded, last_of-bounded}

-- The observations without those that repeat the one before them, as `same` compares the two
unfoldable pub changes_after : {A : Type 0} → (A → A → Bool) → A → List A → List A
changes_after same p [] = []
changes_after same p (x ∷ xs) =
    let rest = changes_after same (if same p x then p else x) xs in
    if same p x then rest else x ∷ rest

unfoldable pub changes : {A : Type 0} → (A → A → Bool) → List A → List A
changes same [] = []
changes same (x ∷ xs) = x ∷ changes_after same x xs

module _ {A : Type 0} where
  append_middle : (xs : List A) (y : A) (ys : List A) → xs ++ (y ∷ ys) ≡ (xs ++ (y ∷ [])) ++ ys
  append_middle [] y ys = refl
  append_middle (x ∷ xs) y ys = ap (λ l. x ∷ l) (append_middle xs y ys)

-- What a history keeps: `record` looks only at the last of its observations.
module _ {A : Type 0} (same : A → A → Bool) where
  -- An observation is pushed unless it repeats the last one that is kept.
  abbrev pub repeats : Option A → A → Bool
  repeats none y = false
  repeats (some x) y = same x y

  unfoldable pub observe : List A × ℕ → A → List A × ℕ
  observe (kept, dropped) y =
      if repeats (last_of kept) y then (kept, dropped) else push kept dropped y

  unfoldable pub observe_all : List A × ℕ → List A → List A × ℕ
  observe_all h [] = h
  observe_all h (y ∷ ys) = observe_all (observe h y) ys

  observe_all-after :
      (x : A) (r : List A) (p : A) (ys : List A)
      → last_of (bounded (x ∷ r)) ≡ some p
      → observe_all (bounded (x ∷ r), overflow (x ∷ r)) ys ≡ (
        bounded ((x ∷ r) ++ changes_after same p ys),
        overflow ((x ∷ r) ++ changes_after same p ys),
      )
  unfolding observe_all observe changes_after
  observe_all-after x r p [] h = let e : r ++ [] ≡ r = append-nil r in rw e refl
  observe_all-after x r p (y ∷ ys) h = rw h (elim (Bool-cases (same p y)) [
    | inl e ↦ rw e (observe_all-after x r p ys h)
    | inr e ↦ rw e (
        rw (push-bounded x r y) (
          rw (append_middle r y (changes_after same y ys))
            (observe_all-after x (r ++ (y ∷ [])) y ys (last_of-bounded x r y))))
  ])

  -- Whatever is observed, what is kept is the first change and the last 23 of the others, and all
  -- the rest of the changes is counted.
  pub observe_all_lem :
      (ys : List A)
      → observe_all ([], 0) ys ≡ (bounded (changes same ys), overflow (changes same ys))
  unfolding observe_all observe changes bounded overflow last_of push last_n
  observe_all_lem [] = refl
  observe_all_lem (y ∷ ys) = observe_all-after y [] y ys refl
