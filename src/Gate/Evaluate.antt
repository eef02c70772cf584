-- ===== src/Gate/Evaluate.antt =====
-- `Gate.evaluate` and `GateSet.evaluate`.
pub mod Laws
use docker_ls.Prelude.{ℕ, ◌+◌, List, [], ◌∷◌, Bool, true, false, ◌&&◌, Option, none, some}
use docker_ls.Prelude.{leb, ◌==◌, is_empty, not, filter, map, length, all, if◌then◌else◌}
use docker_ls.Evidence.Tristate.{Tristate, is_true, is_known}
use docker_ls.Gate.Types.{
  Decimal, decimal_leb, Threshold, critical, high, medium, low, threshold_index, Finding,
  severity_rank, Gate, GateKind, severity, kev, epss, GateOutcome, pass, fail, unmeasured,
  GateVerdict,
}

-- `counts`: the counts of the complete scan by severity; a level that is missing counts 0.
abbrev pub Counts : Type 0
Counts = Threshold → ℕ

-- `0 <= f.severity_rank <= cutoff`
unfoldable pub at_or_above : Threshold → Finding → Bool
unfolding severity_rank
at_or_above cutoff f = elim (severity_rank f) [
  | none ↦ false
  | some rank ↦ leb rank (threshold_index cutoff)
]

-- `sum(counts.get(level, 0) for level in SEVERITY_THRESHOLDS[: cutoff + 1])`
abbrev pub counted : Threshold → Counts → ℕ
counted critical counts = counts critical
counted high counts = counts critical + counts high
counted medium counts = counts critical + counts high + counts medium
counted low counts = counts critical + counts high + counts medium + counts low

verdict_of : GateOutcome → GateKind → List Finding → GateVerdict
verdict_of outcome kind offenders = record { outcome = outcome; kind = kind; offenders = offenders }

-- `Gate._severity`
unfoldable pub evaluate_severity : Threshold → List Finding → Option Counts → GateVerdict
unfolding verdict_of
evaluate_severity cutoff findings counts =
    let offenders = filter (at_or_above cutoff) findings in
    let total : ℕ = elim counts [ none ↦ length offenders | some c ↦ counted cutoff c ] in
    if total == 0
    then verdict_of pass (severity cutoff) []
    else verdict_of fail (severity cutoff) offenders

abbrev pub kev_listed : Finding → Bool
kev_listed f = is_true f.kev

abbrev pub kev_unknown : Finding → Bool
kev_unknown f = not (is_known f.kev)

-- `Gate._kev`
unfoldable pub evaluate_kev : List Finding → GateVerdict
unfolding verdict_of
evaluate_kev findings =
    let listed = filter kev_listed findings in
    if not (is_empty listed)
    then verdict_of fail kev listed
    else if not (is_empty findings) && all kev_unknown findings
    then verdict_of unmeasured kev []
    else verdict_of pass kev []

abbrev pub has_score : Finding → Bool
has_score f = elim f.epss [ none ↦ false | some p ↦ true ]

abbrev pub reaches : Decimal → Finding → Bool
reaches floor f = elim f.epss [ none ↦ false | some p ↦ decimal_leb floor p ]

-- `Gate._epss`
unfoldable pub evaluate_epss : Decimal → List Finding → GateVerdict
unfolding verdict_of
evaluate_epss floor findings =
    let scored = filter has_score findings in
    let over = filter (reaches floor) scored in
    if not (is_empty over)
    then verdict_of fail (epss floor) over
    else if not (is_empty findings) && is_empty scored
    then verdict_of unmeasured (epss floor) []
    else verdict_of pass (epss floor) []

-- `Gate.evaluate`
unfoldable pub evaluate_kind : GateKind → List Finding → Option Counts → GateVerdict
unfolding evaluate_severity evaluate_kev evaluate_epss
evaluate_kind (severity cutoff) findings counts = evaluate_severity cutoff findings counts
evaluate_kind kev findings counts = evaluate_kev findings
evaluate_kind (epss floor) findings counts = evaluate_epss floor findings

abbrev pub evaluate : Gate → List Finding → Option Counts → GateVerdict
evaluate gate findings counts = evaluate_kind gate.kind findings counts

-- `GateVerdict.failed`: `UNMEASURED` counts.
abbrev pub failed : GateVerdict → Bool
failed v = elim v.outcome [ pass ↦ false | _ ↦ true ]

-- `GateSet.evaluate`: the verdicts that did not pass
unfoldable pub evaluate_set : List Gate → List Finding → Option Counts → List GateVerdict
evaluate_set gates findings counts =
    filter failed (map (λ gate. evaluate gate findings counts) gates)
