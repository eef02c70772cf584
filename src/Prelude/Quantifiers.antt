-- ===== src/Prelude/Quantifiers.antt =====
-- What a Boolean quantifier over a list says of its elements.
use Prim.Native.Nat.{◌≤◌}
use mathlib.Core.Path.{◌≡◌, refl}
use mathlib.Core.Logic.{inl, inr}
use mathlib.Core.List.{List, [], ◌∷◌}
use mathlib.Core.Bool.{Bool, true, false, not}
use native.Mathlib.Omega.{arith}
use docker_ls.Prelude.Tests.{Bool-cases}
use docker_ls.Prelude.Lists.{any, all, filter, count, is_empty, In, Within, done, kept, left_out}

module _ {A : Type 0} (p : A → Bool) where
  pub is_empty-filter : (xs : List A) → is_empty (filter p xs) ≡ not (any p xs)
  is_empty-filter [] = refl
  is_empty-filter (x ∷ xs) = ground (arith, is_empty-filter xs)

  pub any-false : (xs : List A) → any p xs ≡ false → (a : A) → In a xs → p a ≡ false
  any-false [] h a m = absurd m
  any-false (x ∷ xs) h a (inl e) = rw e (ground arith)
  any-false (x ∷ xs) h a (inr m) = any-false xs (ground arith) a m

  pub any-false_of : (xs : List A) → ((a : A) → In a xs → p a ≡ false) → any p xs ≡ false
  any-false_of [] h = refl
  any-false_of (x ∷ xs) h = rw (h x (inl refl), any-false_of xs (λ a m. h a (inr m)))

  pub all-false : (xs : List A) → all p xs ≡ false → (a : A) × In a xs × (p a ≡ false)
  all-false [] h = cc
  all-false (x ∷ xs) h = elim (Bool-cases (p x)) [
    | inl e ↦ let (a, m, f) = all-false xs (ground arith) in (a, inr m, f)
    | inr e ↦ (x, inl refl, e)
  ]

  pub all-false_of : (xs : List A) (a : A) → In a xs → p a ≡ false → all p xs ≡ false
  all-false_of [] a m h = absurd m
  all-false_of (x ∷ xs) a (inl e) h = rw (← e, h)
  all-false_of (x ∷ xs) a (inr m) h = ground (arith, all-false_of xs a m h)

  pub any-true : (xs : List A) → any p xs ≡ true → (a : A) × In a xs × (p a ≡ true)
  any-true [] h = cc
  any-true (x ∷ xs) h = elim (Bool-cases (p x)) [
    | inl e ↦ (x, inl refl, e)
    | inr e ↦ let (a, m, f) = any-true xs (ground arith) in (a, inr m, f)
  ]

  pub any-true_of : (xs : List A) (a : A) → In a xs → p a ≡ true → any p xs ≡ true
  any-true_of [] a m h = absurd m
  any-true_of (x ∷ xs) a (inl e) h = rw (← e, h)
  any-true_of (x ∷ xs) a (inr m) h = ground (arith, any-true_of xs a m h)

pub count_mono :
    {A : Type 0} (p q : A → Bool) (xs : List A)
    → ((x : A) → p x ≡ true → q x ≡ true)
    → count p xs ≤ count q xs
count_mono p q [] h = omega arith
count_mono p q (x ∷ xs) h = ground (arith, h x, count_mono p q xs h)

pub filter-Within : {A : Type 0} (p : A → Bool) (xs : List A) → Within (filter p xs) xs
filter-Within p [] = done
filter-Within p (x ∷ xs) = elim (Bool-cases (p x)) [
  | inl e ↦ rw e (kept (filter-Within p xs))
  | inr e ↦ rw e (left_out (filter-Within p xs))
]

pub Within-self : {A : Type 0} (xs : List A) → Within xs xs
Within-self [] = done
Within-self (x ∷ xs) = kept (Within-self xs)

pub Within-trans : {A : Type 0} {xs ys zs : List A} → Within xs ys → Within ys zs → Within xs zs
Within-trans v (left_out w) = left_out (Within-trans v w)
Within-trans (kept v) (kept w) = kept (Within-trans v w)
Within-trans (left_out v) (kept w) = left_out (Within-trans v w)
Within-trans v done = v

pub Within-count :
    {A : Type 0} {xs ys : List A} (p : A → Bool) → Within xs ys → count p xs ≤ count p ys
Within-count p done = omega arith
Within-count p (kept w) = omega (arith, Within-count p w)
Within-count p (left_out {y} w) = ground (arith, Within-count p w)
