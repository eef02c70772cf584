-- ===== src/Prelude/Float.antt =====
-- Python's `float` as far as the scores use it: the two infinities, NaN, and the finite values as
-- exact multiples of a unit that each user names. What binary rounding adds below that unit is not
-- modelled. Comparisons with NaN are false, as in IEEE 754.
use Prim.Native.Nat.{ℕ}
use mathlib.Core.Bool.{Bool, true, false}
use docker_ls.Prelude.Int.{ℤ, pos, ◌+ℤ◌, ◌-ℤ◌, scale, leb_ℤ}

pub data Float : Type 0 where
  nan inf neg_inf : Float
  finite : ℤ → Float

-- `math.isfinite`
abbrev pub is_finite : Float → Bool
is_finite (finite z) = true
is_finite _ = false

infix 50 ◌≤F◌
-- `a <= b`
abbrev pub ◌≤F◌ : Float → Float → Bool
nan ≤F b = false
inf ≤F nan = false
inf ≤F inf = true
inf ≤F neg_inf = false
inf ≤F finite z = false
neg_inf ≤F nan = false
neg_inf ≤F inf = true
neg_inf ≤F neg_inf = true
neg_inf ≤F finite z = true
finite y ≤F nan = false
finite y ≤F inf = true
finite y ≤F neg_inf = false
finite y ≤F finite z = leb_ℤ y z

infixl 65 ◌⊕◌
-- `a + b`
unfoldable pub ◌⊕◌ : Float → Float → Float
nan ⊕ b = nan
inf ⊕ nan = nan
inf ⊕ inf = inf
inf ⊕ neg_inf = nan
inf ⊕ finite z = inf
neg_inf ⊕ nan = nan
neg_inf ⊕ inf = nan
neg_inf ⊕ neg_inf = neg_inf
neg_inf ⊕ finite z = neg_inf
finite y ⊕ nan = nan
finite y ⊕ inf = inf
finite y ⊕ neg_inf = neg_inf
finite y ⊕ finite z = finite (y +ℤ z)

-- `k * a` for a positive constant k
unfoldable pub times : ℕ → Float → Float
times k nan = nan
times k inf = inf
times k neg_inf = neg_inf
times k (finite z) = finite (scale k z)

-- `-a`
unfoldable pub negated : Float → Float
negated nan = nan
negated inf = neg_inf
negated neg_inf = inf
negated (finite z) = finite (pos 0 -ℤ z)
