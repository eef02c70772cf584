-- ===== src/Hardening/Factors.antt =====
-- hardening.py: `_score_factors` and `HardeningScore`.
use docker_ls.Prelude.{ℕ, ◌*◌, ◌-◌, List, [], ◌∷◌, ◌++◌, Bool, true, false, not, Option, none, some}
use docker_ls.Prelude.{leb, is_empty, ◌==◌, if◌then◌else◌}
use docker_ls.Prelude.Text.{Text, codes, strip, contains, text_eq}
use docker_ls.Evidence.Tristate.{Tristate, is_known, is_true}
use docker_ls.Hardening.Facts.{
  HardeningFacts, ports_known, privileged_ports, Factor, percentage, coverage,
}

-- `_negate`
abbrev pub negate : Tristate → Tristate
negate Tristate.unknown = Tristate.unknown
negate Tristate.true = Tristate.false
negate Tristate.false = Tristate.true

abbrev pub undetermined : ℕ → Factor
undetermined weight = record { weight = weight; earned = 0; determined = false }

abbrev pub determined : ℕ → ℕ → Factor
determined weight earned = record { weight = weight; earned = earned; determined = true }

-- `_from_tristate`
unfoldable pub from_tristate : ℕ → Tristate → Factor
from_tristate weight state =
    if not (is_known state)
    then undetermined weight
    else determined weight (if is_true state then weight else 0)

-- `_privileged_ports`
unfoldable pub privileged_ports_factor : HardeningFacts → Factor
unfolding ports_known privileged_ports
privileged_ports_factor f =
    if not (ports_known f)
    then undetermined 8000
    else determined 8000 (if not (is_empty (privileged_ports f)) then 0 else 8000)

-- The credit of `_minimal_packages`: 12 points up to 50 packages, none from 200 on, and in between
-- 12 * (200 - count) / 150 points, which are 80 * (200 - count) thousandths.
unfoldable pub package_credit : ℕ → ℕ
package_credit count =
    if leb count 50 then 12000 else if leb 200 count then 0 else 80 * (200 - count)

-- `_minimal_packages`
unfoldable pub minimal_packages : Option ℕ → Factor
unfolding package_credit
minimal_packages none = undetermined 12000
minimal_packages (some count) = determined 12000 (package_credit count)

-- `head.rsplit("/", 1)[-1]`: what stands behind the last slash
abbrev last_segment : Text → Text → Text
last_segment acc [] = acc
last_segment acc (c ∷ t) = last_segment (if c == b'/' then [] else acc ++ (c ∷ [])) t

-- `_SHELL_BASENAMES`
abbrev shell_basenames : List Text
shell_basenames =
    codes "sh"
    ∷ codes "bash"
    ∷ codes "ash"
    ∷ codes "dash"
    ∷ codes "zsh"
    ∷ codes "ksh"
    ∷ codes "busybox"
    ∷ []

-- `_is_shell_entrypoint`
unfoldable pub is_shell_entrypoint : List Text → Bool
unfolding text_eq strip
is_shell_entrypoint [] = contains shell_basenames []
is_shell_entrypoint (head ∷ rest) = contains shell_basenames (last_segment [] (strip head))

-- `entrypoint or cmd`
abbrev pub entry_of : HardeningFacts → List Text
entry_of f = if is_empty f.entrypoint then f.cmd else f.entrypoint

-- `_entrypoint`
unfoldable pub entrypoint_factor : HardeningFacts → Factor
unfolding is_shell_entrypoint
entrypoint_factor f =
    if not f.config_verified
    then undetermined 5000
    else if is_empty (entry_of f)
    then determined 5000 0
    else if is_shell_entrypoint (entry_of f)
    then determined 5000 0
    else determined 5000 5000

-- `_score_factors`
unfoldable pub score_factors : HardeningFacts → List Factor
score_factors f =
    from_tristate 25000 f.runs_as_non_root
    ∷ from_tristate 15000 (negate f.has_shell)
    ∷ from_tristate 12000 (negate f.has_package_manager)
    ∷ from_tristate 8000 (negate f.has_debug_tools)
    ∷ from_tristate 10000 (negate f.has_setuid)
    ∷ privileged_ports_factor f
    ∷ minimal_packages f.package_count
    ∷ entrypoint_factor f
    ∷ from_tristate 5000 f.has_healthcheck
    ∷ []

-- `HardeningScore.value`, `.coverage` and `.is_reportable`
unfoldable pub hardening_value : HardeningFacts → ℕ
hardening_value f = percentage (score_factors f)

unfoldable pub hardening_coverage : HardeningFacts → ℕ
hardening_coverage f = coverage (score_factors f)

unfoldable pub hardening_reportable : HardeningFacts → Bool
unfolding hardening_coverage
hardening_reportable f = leb 250 (hardening_coverage f)
