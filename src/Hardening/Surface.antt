-- ===== src/Hardening/Surface.antt =====
-- attack_surface.py: `_surface_items` and `AttackSurfaceScore`, where more is worse.
use Prim.Native.Nat.{min}
use docker_ls.Prelude.{ℕ, ◌*◌, List, [], ◌∷◌, Bool, not, Option, none, some, leb, if◌then◌else◌}
use docker_ls.Evidence.Tristate.{Tristate, is_known, is_true}
use docker_ls.Hardening.Facts.{HardeningFacts, Factor, percentage, coverage}
use docker_ls.Hardening.Factors.{undetermined, determined}

-- `_from_presence`
unfoldable pub from_presence : ℕ → Tristate → Factor
from_presence weight state =
    if not (is_known state)
    then undetermined weight
    else determined weight (if is_true state then weight else 0)

-- `_root_default`
unfoldable pub root_default : HardeningFacts → Factor
root_default f =
    if not (is_known f.runs_as_non_root)
    then undetermined 15000
    else if is_true f.runs_as_non_root
    then determined 15000 0
    else determined 15000 15000

-- `_package_volume`: 10 points at 400 packages, which are 25 thousandths for a package.
unfoldable pub package_volume : Option ℕ → Factor
package_volume none = undetermined 10000
package_volume (some count) = determined 10000 (25 * min count 400)

-- `_surface_items`
unfoldable pub surface_items : HardeningFacts → List Factor
surface_items f =
    from_presence 25000 f.has_package_manager
    ∷ from_presence 20000 f.has_shell
    ∷ from_presence 15000 f.has_debug_tools
    ∷ from_presence 15000 f.has_setuid
    ∷ root_default f
    ∷ package_volume f.package_count
    ∷ []

-- `AttackSurfaceScore.value`, `.coverage` and `.is_reportable`
unfoldable pub surface_value : HardeningFacts → ℕ
surface_value f = percentage (surface_items f)

unfoldable pub surface_coverage : HardeningFacts → ℕ
surface_coverage f = coverage (surface_items f)

unfoldable pub surface_reportable : HardeningFacts → Bool
unfolding surface_coverage
surface_reportable f = leb 250 (surface_coverage f)
