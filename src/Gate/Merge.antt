-- ===== src/Gate/Merge.antt =====
-- `merge_gates`: the gate that holds between the repository's policy and the command line.
pub mod Loop
pub mod Laws
pub mod Exact
use docker_ls.Prelude.{
  ℕ, List, [], ◌∷◌, ◌++◌, Bool, ltb, is_empty, if◌then◌else◌, Option, none, some,
}
use docker_ls.Prelude.Text.{Text, strip, contains}
use docker_ls.Gate.Types.{
  Threshold, threshold_index, threshold_name, Gate, GateKind, severity, kev, epss, Result, ok, err,
  ◌>>=◌,
}
use docker_ls.Gate.Parse.{parse_set, join}

-- `if gate.raw not in kept: kept.append(gate.raw)`
abbrev keep : Text → List Text → List Text
keep raw kept = if contains kept raw then kept else kept ++ (raw ∷ [])

-- One gate of the loop, by its kind: the texts in `kept`, the thresholds in `severities`.
abbrev collect_gate : GateKind → Text → List Text × List Threshold → List Text × List Threshold
collect_gate (severity t) raw (kept, severities) = (kept, severities ++ (t ∷ []))
collect_gate kev raw (kept, severities) = (keep raw kept, severities)
collect_gate (epss floor) raw (kept, severities) = (keep raw kept, severities)

unfoldable pub collect : List Gate → List Text × List Threshold → List Text × List Threshold
collect [] state = state
collect (gate ∷ gates) state = collect gates (collect_gate gate.kind gate.raw state)

-- `max(severities, key=SEVERITY_THRESHOLDS.index)` of one threshold and those behind it
unfoldable pub strictest : Threshold → List Threshold → Threshold
strictest t [] = t
strictest t (u ∷ us) = strictest (if ltb (threshold_index t) (threshold_index u) then u else t) us

-- `if severities: kept.insert(0, strictest)`
unfoldable pub with_strictest : List Text × List Threshold → List Text
unfolding strictest
with_strictest (kept, []) = kept
with_strictest (kept, t ∷ ts) = threshold_name (strictest t ts) ∷ kept

-- The case where both sides name a gate.
unfoldable pub merge_sides : Text → Text → Result Text
merge_sides first second = do
  gates ← parse_set first
  more ← parse_set second
  ok (join (with_strictest (collect more (collect gates ([], [])))))

-- `merge_gates`
unfoldable pub merge_gates : Text → Text → Result Text
merge_gates declared requested =
    let first = strip declared in
    let second = strip requested in
    if is_empty first
    then ok second
    else if is_empty second
    then ok first
    else merge_sides first second
