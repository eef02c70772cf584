-- ===== src/Hardening/Laws.antt =====
-- The hardening and attack surface scores stay on their scale.
use native.Mathlib.Nat.{div-add-mod', div-mul-le_self, le-div_iff_mul-le, mul-div_cancel}
use docker_ls.Prelude.{
  ℕ, ◌*◌, ◌/◌, ◌%◌, ◌≤◌, ◌<◌, ◌≡◌, ap, ◌⊎◌, inl, inr, List, [], ◌∷◌, Option, none, some, All,
}
use docker_ls.Prelude.{arith, ltb, Bool-cases}
use docker_ls.Evidence.Tristate.{Tristate}
use docker_ls.Hardening.Facts.{
  HardeningFacts, Factor, available, earned_total, round_div, percentage,
}
use docker_ls.Hardening.Factors.{
  from_tristate, negate, privileged_ports_factor, minimal_packages, package_credit,
  entrypoint_factor, score_factors, hardening_value,
}
use docker_ls.Hardening.Surface.{
  from_presence, root_default, package_volume, surface_items, surface_value,
}

-- A factor earns no more than its weight.
abbrev Fits : Factor → Type 0
Fits f = f.earned ≤ f.weight

from_tristate-Fits : (w : ℕ) (s : Tristate) → Fits (from_tristate w s)
unfolding from_tristate
from_tristate-Fits w s = ground arith

from_presence-Fits : (w : ℕ) (s : Tristate) → Fits (from_presence w s)
unfolding from_presence
from_presence-Fits w s = ground arith

privileged_ports_factor-Fits : (f : HardeningFacts) → Fits (privileged_ports_factor f)
unfolding privileged_ports_factor
privileged_ports_factor-Fits f = ground arith

entrypoint_factor-Fits : (f : HardeningFacts) → Fits (entrypoint_factor f)
unfolding entrypoint_factor
entrypoint_factor-Fits f = ground arith

minimal_packages-Fits : (n : Option ℕ) → Fits (minimal_packages n)
unfolding minimal_packages package_credit
minimal_packages-Fits none = omega arith
minimal_packages-Fits (some n) = ground arith

root_default-Fits : (f : HardeningFacts) → Fits (root_default f)
unfolding root_default
root_default-Fits f = ground arith

package_volume-Fits : (n : Option ℕ) → Fits (package_volume n)
unfolding package_volume
package_volume-Fits none = omega arith
package_volume-Fits (some n) = ground arith

earned_total-le : (fs : List Factor) → All Fits fs → earned_total fs ≤ available fs
earned_total-le [] h = omega arith
earned_total-le (f ∷ fs) (h, hs) = ground (arith, earned_total-le fs hs)

div_mono : (m n d : ℕ) → 0 < d → m ≤ n → m / d ≤ n / d
div_mono m n d h k = (le-div_iff_mul-le h).1 (omega (arith, div-mul-le_self m d))

mod_mono : (m n d : ℕ) → m ≤ n → m / d ≡ n / d → m % d ≤ n % d
mod_mono m n d k q =
    let a = div-add-mod' m d in let b = div-add-mod' n d in omega (arith, ap (λ x. x * d) q)

div_order : (m n d : ℕ) → 0 < d → m ≤ n → (m / d < n / d) ⊎ ((m / d ≡ n / d) × (m % d ≤ n % d))
div_order m n d h k = elim (Bool-cases (ltb (m / d) (n / d))) [
  | inl e ↦ inl (ground arith)
  | inr e ↦
      let q : m / d ≡ n / d = ground (arith, div_mono m n d h k) in inr (q, mod_mono m n d k q)
]

pub round_div_mono : (m n d : ℕ) → 0 < d → m ≤ n → round_div m d ≤ round_div n d
unfolding round_div
round_div_mono m n d h k = elim (div_order m n d h k) [
  | inl lt ↦ ground arith
  | inr (q, r) ↦ rw q (ground arith)
]

round_div_whole : (k d : ℕ) → 0 < d → round_div (k * d) d ≡ k
unfolding round_div
round_div_whole k d h =
    let q = mul-div_cancel k h in
    let m = div-add-mod' (k * d) d in ground (arith, ap (λ x. x * d) q)

percentage_bounded : (fs : List Factor) → All Fits fs → percentage fs ≤ 1000
unfolding percentage
percentage_bounded fs h = elim (Bool-cases (ltb 0 (available fs))) [
  | inl e ↦ ground (
    arith,
    earned_total-le fs h,
    round_div_mono (1000 * earned_total fs) (1000 * available fs) (available fs),
    round_div_whole 1000 (available fs),
  )
  | inr e ↦ ground arith
]

score_factors-Fits : (f : HardeningFacts) → All Fits (score_factors f)
unfolding score_factors
score_factors-Fits f = (
  from_tristate-Fits 25000 f.runs_as_non_root,
  (
    from_tristate-Fits 15000 (negate f.has_shell),
    (
      from_tristate-Fits 12000 (negate f.has_package_manager),
      (
        from_tristate-Fits 8000 (negate f.has_debug_tools),
        (
          from_tristate-Fits 10000 (negate f.has_setuid),
          (
            privileged_ports_factor-Fits f,
            (
              minimal_packages-Fits f.package_count,
              (entrypoint_factor-Fits f, (from_tristate-Fits 5000 f.has_healthcheck, tt)),
            ),
          ),
        ),
      ),
    ),
  ),
)

surface_items-Fits : (f : HardeningFacts) → All Fits (surface_items f)
unfolding surface_items
surface_items-Fits f = (
  from_presence-Fits 25000 f.has_package_manager,
  (
    from_presence-Fits 20000 f.has_shell,
    (
      from_presence-Fits 15000 f.has_debug_tools,
      (
        from_presence-Fits 15000 f.has_setuid,
        (root_default-Fits f, (package_volume-Fits f.package_count, tt)),
      ),
    ),
  ),
)

-- The hardening score and the attack surface score of any facts are between 0 and 100.0.
scores_bounded : (f : HardeningFacts) → (hardening_value f ≤ 1000) × (surface_value f ≤ 1000)
unfolding hardening_value surface_value
scores_bounded f = (
  percentage_bounded (score_factors f) (score_factors-Fits f),
  percentage_bounded (surface_items f) (surface_items-Fits f),
)
