-- ===== src/Prelude/Lists.antt =====
-- Lists measured by native numbers, Boolean quantifiers, and predicates on lists.
use Prim.Native.Nat.{ℕ, zero, suc, ◌+◌, ◌≤◌}
use mathlib.Core.Path.{◌≡◌, refl}
use mathlib.Core.Logic.{◌⊎◌, ◌↔◌, inl, inr}
use mathlib.Core.List.{List, [], ◌∷◌, ◌++◌}
use mathlib.Core.Bool.{Bool, true, false, ◌&&◌, ◌||◌}
use native.Mathlib.Omega.{arith}
use docker_ls.Prelude.Tests.{if◌then◌else◌}

module _ {ℓ} {A : Type ℓ} where
  abbrev pub length : List A → ℕ
  length [] = 0
  length (x ∷ xs) = suc (length xs)

  abbrev pub is_empty : List A → Bool
  is_empty [] = true
  is_empty (x ∷ xs) = false

  abbrev pub any : (A → Bool) → List A → Bool
  any p [] = false
  any p (x ∷ xs) = p x || any p xs

  abbrev pub all : (A → Bool) → List A → Bool
  all p [] = true
  all p (x ∷ xs) = p x && all p xs

  -- `[x for x in xs if p x]`
  abbrev pub filter : (A → Bool) → List A → List A
  filter p [] = []
  filter p (x ∷ xs) = let rest = filter p xs in if p x then x ∷ rest else rest

  -- `sum(1 for x in xs if p x)`
  abbrev pub count : (A → Bool) → List A → ℕ
  count p [] = 0
  count p (x ∷ xs) = (if p x then 1 else 0) + count p xs

  abbrev pub All {κ} : (A → Type κ) → List A → Type κ
  All P [] = Unit
  All P (x ∷ xs) = P x × All P xs

  -- `xs[:n]` and `xs[n:]`
  abbrev pub take : ℕ → List A → List A
  take zero xs = []
  take (suc n) [] = []
  take (suc n) (x ∷ xs) = x ∷ take n xs

  abbrev pub drop : ℕ → List A → List A
  drop zero xs = xs
  drop (suc n) [] = []
  drop (suc n) (x ∷ xs) = drop n xs

  pub length-append : (xs ys : List A) → length (xs ++ ys) ≡ length xs + length ys
  length-append [] ys = omega arith
  length-append (x ∷ xs) ys = omega (arith, length-append xs ys)

  pub length-filter : (p : A → Bool) (xs : List A) → length (filter p xs) ≡ count p xs
  length-filter p [] = refl
  length-filter p (x ∷ xs) = ground (arith, length-filter p xs)

  pub count-le-length : (p : A → Bool) (xs : List A) → count p xs ≤ length xs
  count-le-length p [] = omega arith
  count-le-length p (x ∷ xs) = ground (arith, count-le-length p xs)

-- Membership as a type by recursion, which the tactics take apart.
abbrev pub In : {A : Type 0} → A → List A → Type 0
In a [] = ⊥
In a (x ∷ xs) = (a ≡ x) ⊎ In a xs

-- `if b: xs.append(x)`, as the list that is appended.
unfoldable pub when {ℓ} : {A : Type ℓ} → Bool → A → List A
when b x = if b then x ∷ [] else []

-- Every element is in the relation to all that come after it.
abbrev pub AllPairs {ℓ κ} : {A : Type ℓ} → (A → A → Type κ) → List A → Type κ
AllPairs R [] = Unit
AllPairs R (x ∷ xs) = All (R x) xs × AllPairs R xs

pub is_empty_iff : {A : Type 0} (xs : List A) → (is_empty xs ≡ true) ↔ ((a : A) → ¬ In a xs)
is_empty_iff [] = (λ _ a m. m, λ _. refl)
is_empty_iff (x ∷ xs) = (λ e. cc, λ h. absurd (h x (inl refl)))

module _ {A : Type 0} (P : A → Type 0) where
  pub All-when : (b : Bool) (x : A) → (b ≡ true → P x) → All P (when b x)
  unfolding when
  All-when true x h = (h refl, tt)
  All-when false x h = tt

  pub All-append : (xs ys : List A) → All P xs → All P ys → All P (xs ++ ys)
  All-append [] ys hx hy = hy
  All-append (x ∷ xs) ys (h, hx) hy = (h, All-append xs ys hx hy)

  pub All-In : (a : A) (xs : List A) → All P xs → In a xs → P a
  All-In a [] h m = absurd m
  All-In a (x ∷ xs) (h, hs) (inl e) = rw e h
  All-In a (x ∷ xs) (h, hs) (inr m) = All-In a xs hs m

-- Where a listed element stands in a list that is made of such parts.
module _ {A : Type 0} where
  pub In-when : (b : Bool) (x : A) → b ≡ true → In x (when b x)
  unfolding when
  In-when true x h = inl refl
  In-when false x h = cc

  pub In-append_left : (a : A) (xs ys : List A) → In a xs → In a (xs ++ ys)
  In-append_left a [] ys m = absurd m
  In-append_left a (x ∷ xs) ys (inl e) = inl e
  In-append_left a (x ∷ xs) ys (inr m) = inr (In-append_left a xs ys m)

  pub In-append_right : (a : A) (xs ys : List A) → In a ys → In a (xs ++ ys)
  In-append_right a [] ys m = m
  In-append_right a (x ∷ xs) ys m = inr (In-append_right a xs ys m)

  pub In-first : (b : Bool) (x : A) (ys : List A) → b ≡ true → In x (when b x ++ ys)
  In-first b x ys h = In-append_left x (when b x) ys (In-when b x h)

  pub In-later : (b : Bool) (a x : A) (ys : List A) → In a ys → In a (when b x ++ ys)
  In-later b a x ys m = In-append_right a (when b x) ys m

module _ {A : Type 0} (R S : A → A → Type 0) (weaken : (a b : A) → R a b → S a b) where
  All-weaken : (a : A) (xs : List A) → All (R a) xs → All (S a) xs
  All-weaken a [] h = tt
  All-weaken a (x ∷ xs) (h, hs) = (weaken a x h, All-weaken a xs hs)

  pub AllPairs-weaken : (xs : List A) → AllPairs R xs → AllPairs S xs
  AllPairs-weaken [] h = tt
  AllPairs-weaken (x ∷ xs) (h, hs) = (All-weaken x xs h, AllPairs-weaken xs hs)

-- The first list is the second with some of its elements left out.
pub data Within {A : Type 0} : List A → List A → Type 0 where
  done : Within [] []
  kept : {x : A} {xs ys : List A} → Within xs ys → Within (x ∷ xs) (x ∷ ys)
  left_out : {y : A} {xs ys : List A} → Within xs ys → Within xs (y ∷ ys)

pub Within-In : {A : Type 0} {xs ys : List A} (a : A) → Within xs ys → In a xs → In a ys
Within-In a done m = m
Within-In a (kept w) (inl q) = inl q
Within-In a (kept w) (inr m) = inr (Within-In a w m)
Within-In a (left_out w) m = inr (Within-In a w m)
