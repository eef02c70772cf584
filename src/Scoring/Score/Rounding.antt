-- ===== src/Scoring/Score/Rounding.antt =====
-- Rounding to tenths and clamping keep the order of scores.
use Prim.Native.Nat.{min}
use docker_ls.Prelude.{ℕ, ◌+◌, ◌*◌, ◌≤◌, ◌≡◌, refl, arith}
use docker_ls.Prelude.Int.{ℤ, pos, negsuc, ◌-ℤ◌, ◌≤ℤ◌}
use docker_ls.Prelude.Float.{Float, finite, nan, inf, neg_inf}
use docker_ls.Scoring.Score.{point, to_tenths, round_tenths, clamp, reported}

pub to_tenths_mono : (m n : ℕ) → m ≤ n → to_tenths m ≤ to_tenths n
unfolding to_tenths
to_tenths_mono m n h = ground arith

clamp-round_tenths-negsuc : (n : ℕ) → clamp (round_tenths (negsuc n)) ≡ 0
unfolding round_tenths ◌-ℤ◌
clamp-round_tenths-negsuc n = ground arith

pub reported_mono : (y z : ℤ) → y ≤ℤ z → reported (finite y) ≤ reported (finite z)
unfolding reported
reported_mono (pos m) (pos n) h = omega (arith, to_tenths_mono m n (omega arith))
reported_mono (pos m) (negsuc n) h = absurd (omega arith)
reported_mono (negsuc m) z h = omega (arith, clamp-round_tenths-negsuc m)

pub reported-le : (y : ℤ) → reported (finite y) ≤ 1000
unfolding reported
reported-le (pos m) = omega arith
reported-le (negsuc m) = omega (arith, clamp-round_tenths-negsuc m)

pub reported-negsuc : (n : ℕ) → reported (finite (negsuc n)) ≡ 0
unfolding reported
reported-negsuc n = clamp-round_tenths-negsuc n

-- The score is that of a tenth next to the sum, where a unit is left for the error of binary
-- arithmetic: near a tie it may be either of two. A sum that is no finite number gives 0.
abbrev pub IsNear : Float → ℕ → Type 0
IsNear (finite (pos n)) x =
    (t : ℕ) × (x ≡ min 1000 t) × (t * 3650000 ≤ n + 1825001) × (n ≤ t * 3650000 + 1825001)
IsNear (finite (negsuc n)) x = x ≡ 0
IsNear _ x = x ≡ 0

to_tenths_near :
    (n : ℕ) → (to_tenths n * 3650000 ≤ n + 1825001) × (n ≤ to_tenths n * 3650000 + 1825001)
unfolding to_tenths
to_tenths_near n = (ground arith, ground arith)

pub reported-IsNear : (z : Float) → IsNear z (reported z)
unfolding reported
reported-IsNear (finite (pos n)) = (to_tenths n, refl, (to_tenths_near n).0, (to_tenths_near n).1)
reported-IsNear (finite (negsuc n)) = clamp-round_tenths-negsuc n
reported-IsNear nan = refl
reported-IsNear inf = refl
reported-IsNear neg_inf = refl

-- Two sums that are a point apart
pub near_gap :
    (m n x y : ℕ)
    → m + point ≤ n
    → n ≤ 100 * point
    → IsNear (finite (pos m)) x
    → IsNear (finite (pos n)) y
    → x + 9 ≤ y
near_gap m n x y h top (t, e, l, u) (s, f, v, w) = omega (arith, h, top, e, l, u, f, v, w)
