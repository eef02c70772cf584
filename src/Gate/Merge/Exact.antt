-- ===== src/Gate/Merge/Exact.antt =====
-- The text that `merge_gates` returns, read back as `--fail-on` reads it.
use mathlib.Core.List.{append_assoc}
use docker_ls.Prelude.{◌≡◌, ◌↔◌, refl, ◌∙◌, ap, List, [], ◌∷◌, ◌++◌, false, ◌||◌, any, All}
use docker_ls.Prelude.{is_empty, arith, Option}
use docker_ls.Prelude.Text.{Text, strip}
use docker_ls.Gate.Types.{Threshold, Finding, Gate, GateKind, severity, kev, epss, ok}
use docker_ls.Gate.Parse.{parse_set, join}
use docker_ls.Gate.Parse.RoundTrip.{Canonical, raws, severity_gate-Canonical, parse_set-join}
use docker_ls.Gate.Parse.Canonical.{parse_set-Canonical}
use docker_ls.Gate.Evaluate.{Counts, evaluate_set}
use docker_ls.Gate.Merge.{collect, strictest, with_strictest, merge_sides, merge_gates}
use docker_ls.Gate.Merge.Loop.{thresholds, others, keep_gate, of_severity, collect-eq}
use docker_ls.Gate.Merge.Laws.{
  merged_gates, others-Canonical, fails, any-merge, is_empty-evaluate_set,
}

with_strictest-eq :
    (gs : List Gate) (ts : List Threshold)
    → with_strictest (raws gs, ts) ≡ raws (merged_gates ts gs)
unfolding with_strictest
with_strictest-eq gs [] = refl
with_strictest-eq gs (t ∷ ts) = refl

merged_gates-Canonical :
    (ts : List Threshold) (gs : List Gate) → All Canonical gs → All Canonical (merged_gates ts gs)
merged_gates-Canonical [] gs h = h
merged_gates-Canonical (t ∷ ts) gs h = (severity_gate-Canonical (strictest t ts), h)

keep_gate-named :
    (k : GateKind) (g : Gate) (acc : List Gate)
    → is_empty acc ≡ false
    → is_empty (keep_gate k g acc) ≡ false
keep_gate-named k g [] h = cc
keep_gate-named (severity t) g (a ∷ acc) h = refl
keep_gate-named kev g (a ∷ acc) h = ground arith
keep_gate-named (epss f) g (a ∷ acc) h = ground arith

others-named : (gs acc : List Gate) → is_empty acc ≡ false → is_empty (others gs acc) ≡ false
unfolding others
others-named [] acc h = h
others-named (g ∷ gs) acc h =
    others-named gs (keep_gate g.kind g acc) (keep_gate-named g.kind g acc h)

merged_gates-named :
    (ts : List Threshold) (gs : List Gate)
    → is_empty gs ≡ false
    → is_empty (merged_gates ts gs) ≡ false
merged_gates-named [] gs h = h
merged_gates-named (t ∷ ts) gs h = refl

-- A gate of either kind leaves something in the merged set.
first_named :
    (k : GateKind) (g : Gate) (ts : List Threshold) (gs more : List Gate)
    → is_empty (merged_gates (of_severity k ++ ts) (others more (others gs (keep_gate k g []))))
      ≡ false
first_named (severity t) g ts gs more = refl
first_named kev g ts gs more =
    merged_gates-named ts _ (others-named more _ (others-named gs (g ∷ []) refl))
first_named (epss f) g ts gs more =
    merged_gates-named ts _ (others-named more _ (others-named gs (g ∷ []) refl))

-- The gates of the merged text.
abbrev together : List Gate → List Gate → List Gate
together gs more = merged_gates (thresholds gs ++ thresholds more) (others more (others gs []))

together-named : (gs more : List Gate) → is_empty gs ≡ false → is_empty (together gs more) ≡ false
unfolding thresholds others
together-named [] more h = cc
together-named (g ∷ gs) more h =
    rw (append_assoc (of_severity g.kind) (thresholds gs) (thresholds more))
      (first_named g.kind g (thresholds gs ++ thresholds more) gs more)

joined_text :
    (gs more : List Gate)
    → join (with_strictest (collect more (collect gs ([], [])))) ≡ join (raws (together gs more))
joined_text gs more = ap join (
    ap (λ s. with_strictest (collect more s)) (collect-eq gs [] [])
    ∙ ap with_strictest (collect-eq more (others gs []) (thresholds gs))
    ∙ with_strictest-eq (others more (others gs [])) (thresholds gs ++ thresholds more))

parse_set-join_named :
    (gs : List Gate) → All Canonical gs → is_empty gs ≡ false → parse_set (join (raws gs)) ≡ ok gs
parse_set-join_named [] h e = cc
parse_set-join_named (g ∷ gs) h e = parse_set-join g gs h

-- What a successful merge of two sides has read and returned.
merge_sides-ok :
    (first second merged : Text)
    → merge_sides first second ≡ ok merged
    → (gs more : List Gate) × (parse_set first ≡ ok gs)
      × (parse_set second ≡ ok more)
      × (merged ≡ join (with_strictest (collect more (collect gs ([], [])))))
unfolding merge_sides
merge_sides-ok first second merged h = ground arith

passes_iff :
    (findings : List Finding) (counts : Option Counts) (gs more ms : List Gate)
    → any (fails findings counts) ms
      ≡ (any (fails findings counts) gs || any (fails findings counts) more)
    → (evaluate_set ms findings counts ≡ [])
      ↔ ((evaluate_set gs findings counts ≡ []) × (evaluate_set more findings counts ≡ []))
passes_iff findings counts gs more ms e = (
  λ h. ground (
    arith,
    is_empty-evaluate_set findings counts gs,
    is_empty-evaluate_set findings counts more,
    is_empty-evaluate_set findings counts ms,
  ),
  λ h. ground (
    arith,
    is_empty-evaluate_set findings counts gs,
    is_empty-evaluate_set findings counts more,
    is_empty-evaluate_set findings counts ms,
  ),
)

-- Where both the policy and the command line name gates and `merge_gates` returns a text, both sides
-- and that text read as gate sets, and whatever the findings and the counts of a scan are, the merged
-- set reports no failure exactly if neither side does: the merge is neither looser nor stricter.
pub merge_gates_exact :
    (declared requested merged : Text)
    → is_empty (strip declared) ≡ false
    → is_empty (strip requested) ≡ false
    → merge_gates declared requested ≡ ok merged
    → (gs more ms : List Gate) × (parse_set (strip declared) ≡ ok gs)
      × (parse_set (strip requested) ≡ ok more)
      × (parse_set merged ≡ ok ms)
      × ((findings : List Finding) (counts : Option Counts)
          → (evaluate_set ms findings counts ≡ [])
            ↔ ((evaluate_set gs findings counts ≡ []) × (evaluate_set more findings counts ≡ [])))
unfolding merge_gates
merge_gates_exact declared requested merged hd hr h =
    let both : merge_sides (strip declared) (strip requested) ≡ ok merged = ground arith in
    let (gs, more, e, f, text) = merge_sides-ok (strip declared) (strip requested) merged both in
    let (cs, named) = parse_set-Canonical (strip declared) gs e in
    let (ds, _) = parse_set-Canonical (strip requested) more f in
    let canonical : All Canonical (together gs more) =
      merged_gates-Canonical (thresholds gs ++ thresholds more) (others more (others gs []))
        (others-Canonical more (others gs []) ds (others-Canonical gs [] cs tt)) in
    (
      gs,
      more,
      together gs more,
      e,
      f,
      rw (text, joined_text gs more)
          (parse_set-join_named (together gs more) canonical (together-named gs more named)),
      λ findings counts.
          passes_iff findings counts gs more (together gs more)
            (any-merge findings counts gs more cs ds),
    )
