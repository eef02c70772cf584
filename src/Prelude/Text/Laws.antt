-- ===== src/Prelude/Text/Laws.antt =====
-- Laws of `strip` and `lower`, and texts that hold no comma.
use Prim.Native.Nat.{ℕ}
use mathlib.Core.Path.{◌≡◌, refl, ◌∙◌, ap}
use mathlib.Core.List.{[], ◌∷◌}
use mathlib.Core.Logic.{inl, inr}
use mathlib.Core.Bool.{false}
use native.Mathlib.Omega.{arith}
use docker_ls.Prelude.Tests.{◌==◌, Bool-cases}
use docker_ls.Prelude.Lists.{All}
use docker_ls.Prelude.Text.{
  Text, is_space, lower_code, lower, lstrip, rstrip, strip, keep_unless_blank,
}

-- The text is empty or begins with something else than a white space.
abbrev StartsSolid : Text → Type 0
StartsSolid [] = Unit
StartsSolid (c ∷ t) = is_space c ≡ false

lstrip-StartsSolid : (t : Text) → StartsSolid (lstrip t)
unfolding lstrip
lstrip-StartsSolid [] = tt
lstrip-StartsSolid (c ∷ t) = elim (Bool-cases (is_space c)) [
  | inl e ↦ rw e (lstrip-StartsSolid t)
  | inr e ↦ rw e e
]

lstrip-eq_self : (t : Text) → StartsSolid t → lstrip t ≡ t
unfolding lstrip
lstrip-eq_self [] h = refl
lstrip-eq_self (c ∷ t) h = rw h

keep_unless_blank-solid : (c : ℕ) (t : Text) → is_space c ≡ false → keep_unless_blank c t ≡ c ∷ t
keep_unless_blank-solid c [] h = rw h
keep_unless_blank-solid c (d ∷ t) h = refl

pub rstrip-solid : (c : ℕ) (t : Text) → is_space c ≡ false → rstrip (c ∷ t) ≡ c ∷ rstrip t
unfolding rstrip
rstrip-solid c t h = keep_unless_blank-solid c (rstrip t) h

pub lstrip-solid : (c : ℕ) (t : Text) → is_space c ≡ false → lstrip (c ∷ t) ≡ c ∷ t
unfolding lstrip
lstrip-solid c t h = rw h refl

rstrip-StartsSolid : (t : Text) → StartsSolid t → StartsSolid (rstrip t)
unfolding rstrip
rstrip-StartsSolid [] h = tt
rstrip-StartsSolid (c ∷ t) h = rw (keep_unless_blank-solid c (rstrip t) h) h

rstrip-keep_unless_blank :
    (c : ℕ) (t : Text) → rstrip t ≡ t → rstrip (keep_unless_blank c t) ≡ keep_unless_blank c t
unfolding rstrip
rstrip-keep_unless_blank c [] h = elim (Bool-cases (is_space c)) [
  | inl e ↦ rw e
  | inr e ↦ rw (e, e)
]
rstrip-keep_unless_blank c (d ∷ t) h = ap (keep_unless_blank c) h

rstrip-rstrip : (t : Text) → rstrip (rstrip t) ≡ rstrip t
unfolding rstrip
rstrip-rstrip [] = refl
rstrip-rstrip (c ∷ t) = rstrip-keep_unless_blank c (rstrip t) (rstrip-rstrip t)

-- What is stripped has nothing left to strip.
pub strip-strip : (t : Text) → strip (strip t) ≡ strip t
unfolding strip
strip-strip t =
    ap rstrip
      (lstrip-eq_self (rstrip (lstrip t)) (rstrip-StartsSolid (lstrip t) (lstrip-StartsSolid t)))
    ∙ rstrip-rstrip (lstrip t)

is_space-lower_code : (c : ℕ) → is_space (lower_code c) ≡ is_space c
is_space-lower_code c = ground arith

lstrip-lower : (t : Text) → lstrip (lower t) ≡ lower (lstrip t)
unfolding lstrip lower
lstrip-lower [] = refl
lstrip-lower (c ∷ t) =
    rw (is_space-lower_code c)
      (elim (Bool-cases (is_space c)) [ inl e ↦ rw e (lstrip-lower t) | inr e ↦ rw e ])

lower-keep_unless_blank :
    (c : ℕ) (t : Text) → keep_unless_blank (lower_code c) (lower t) ≡ lower (keep_unless_blank c t)
unfolding lower
lower-keep_unless_blank c [] =
    rw (is_space-lower_code c) (elim (Bool-cases (is_space c)) [ inl e ↦ rw e | inr e ↦ rw e ])
lower-keep_unless_blank c (d ∷ t) = refl

rstrip-lower : (t : Text) → rstrip (lower t) ≡ lower (rstrip t)
unfolding rstrip lower
rstrip-lower [] = refl
rstrip-lower (c ∷ t) =
    ap (keep_unless_blank (lower_code c)) (rstrip-lower t) ∙ lower-keep_unless_blank c (rstrip t)

pub strip-lower : (t : Text) → strip (lower t) ≡ lower (strip t)
unfolding strip
strip-lower t = ap rstrip (lstrip-lower t) ∙ rstrip-lower (lstrip t)

lower_code_idem : (c : ℕ) → lower_code (lower_code c) ≡ lower_code c
lower_code_idem c = ground arith

pub lower-lower : (t : Text) → lower (lower t) ≡ lower t
unfolding lower
lower-lower [] = refl
lower-lower (c ∷ t) = cc (lower_code_idem c, lower-lower t)

abbrev pub CommaFree : Text → Type 0
CommaFree = All (λ c. (c == b',') ≡ false)

keep_unless_blank-CommaFree :
    (c : ℕ) (t : Text) → (c == b',') ≡ false → CommaFree t → CommaFree (keep_unless_blank c t)
keep_unless_blank-CommaFree c [] h k = elim (Bool-cases (is_space c)) [
  | inl e ↦ rw e tt
  | inr e ↦ rw e (h, tt)
]
keep_unless_blank-CommaFree c (d ∷ t) h k = (h, k)

lstrip-CommaFree : (t : Text) → CommaFree t → CommaFree (lstrip t)
unfolding lstrip
lstrip-CommaFree [] h = tt
lstrip-CommaFree (c ∷ t) (h, k) = elim (Bool-cases (is_space c)) [
  | inl e ↦ rw e (lstrip-CommaFree t k)
  | inr e ↦ rw e (h, k)
]

rstrip-CommaFree : (t : Text) → CommaFree t → CommaFree (rstrip t)
unfolding rstrip
rstrip-CommaFree [] h = tt
rstrip-CommaFree (c ∷ t) (h, k) = keep_unless_blank-CommaFree c (rstrip t) h (rstrip-CommaFree t k)

pub strip-CommaFree : (t : Text) → CommaFree t → CommaFree (strip t)
unfolding strip
strip-CommaFree t h = rstrip-CommaFree (lstrip t) (lstrip-CommaFree t h)

lower_code-comma : (c : ℕ) → (c == b',') ≡ false → (lower_code c == b',') ≡ false
lower_code-comma c h = ground arith

pub lower-CommaFree : (t : Text) → CommaFree t → CommaFree (lower t)
unfolding lower
lower-CommaFree [] h = tt
lower-CommaFree (c ∷ t) (h, k) = (lower_code-comma c h, lower-CommaFree t k)
