-- ===== src/Hardening/Facts.antt =====
-- `HardeningFacts` of image_facts.py, with the fields that the scores read, and the arithmetic that
-- the two scores share. Weights and credits are in thousandths of a point.
use docker_ls.Prelude.{
  ℕ, ◌+◌, ◌*◌, ◌/◌, ◌%◌, List, [], ◌∷◌, Bool, ◌||◌, not, Option, is_empty, filter,
}
use docker_ls.Prelude.{ltb, if◌then◌else◌}
use docker_ls.Prelude.Text.{Text}
use docker_ls.Evidence.Tristate.{Tristate}

pub record HardeningFacts : Type 0 where
  pub runs_as_non_root : Tristate
  pub has_shell : Tristate
  pub has_package_manager : Tristate
  pub has_debug_tools : Tristate
  pub has_setuid : Tristate
  pub package_count : Option ℕ
  pub exposed_ports : List ℕ
  pub has_healthcheck : Tristate
  pub entrypoint : List Text
  pub cmd : List Text
  pub config_verified : Bool

-- `ports_known`
unfoldable pub ports_known : HardeningFacts → Bool
ports_known f = f.config_verified || not (is_empty f.exposed_ports)

-- `privileged_ports`
unfoldable pub privileged_ports : HardeningFacts → List ℕ
privileged_ports f = filter (λ port. ltb port 1024) f.exposed_ports

-- `HardeningFactor` and `SurfaceItem`: what a property weighs, what it contributes, and whether the
-- fact behind it was determined.
pub record Factor : Type 0 where
  pub weight : ℕ
  pub earned : ℕ
  pub determined : Bool

-- The sums over the determined factors: `_available` and `_earned` (or `_contributed`).
abbrev pub available : List Factor → ℕ
available [] = 0
available (f ∷ fs) = (if f.determined then f.weight else 0) + available fs

abbrev pub earned_total : List Factor → ℕ
earned_total [] = 0
earned_total (f ∷ fs) = (if f.determined then f.earned else 0) + earned_total fs

-- `round(n / d)` to the nearest whole number, a tie to the even one.
unfoldable pub round_div : ℕ → ℕ → ℕ
round_div n d =
    let q = n / d in
    let r = n % d in if ltb (2 * r) d then q else if ltb d (2 * r) then q + 1 else q + q % 2

-- `round(100.0 * earned / available, 1) if available > 0 else 0.0`, in tenths
unfoldable pub percentage : List Factor → ℕ
unfolding round_div
percentage fs =
    if ltb 0 (available fs) then round_div (1000 * earned_total fs) (available fs) else 0

-- `round(available / TOTAL_WEIGHT, 3)`, in thousandths: both models weigh 100 points in total.
unfoldable pub coverage : List Factor → ℕ
unfolding round_div
coverage fs = round_div (1000 * available fs) 100000
