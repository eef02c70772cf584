-- ===== src/Gate/Merge/Loop.antt =====
-- The loop of the merge, followed on the gates instead of on their texts.
use mathlib.Core.List.{append-nil, append_assoc}
use docker_ls.Prelude.{◌≡◌, inl, inr, refl, ◌∙◌, ap, List, [], ◌∷◌, ◌++◌}
use docker_ls.Prelude.{if◌then◌else◌, Bool-cases}
use docker_ls.Prelude.Text.{contains}
use docker_ls.Gate.Types.{Threshold, Gate, GateKind, severity, kev, epss}
use docker_ls.Gate.Parse.RoundTrip.{raws}
use docker_ls.Gate.Merge.{collect_gate, collect}

-- The thresholds of the severity gates, in order.
abbrev pub of_severity : GateKind → List Threshold
of_severity (severity t) = t ∷ []
of_severity _ = []

unfoldable pub thresholds : List Gate → List Threshold
thresholds [] = []
thresholds (g ∷ gs) = of_severity g.kind ++ thresholds gs

-- The other gates, each text once.
abbrev pub keep_gate : GateKind → Gate → List Gate → List Gate
keep_gate (severity t) g acc = acc
keep_gate _ g acc = if contains (raws acc) g.raw then acc else acc ++ (g ∷ [])

unfoldable pub others : List Gate → List Gate → List Gate
others [] acc = acc
others (g ∷ gs) acc = others gs (keep_gate g.kind g acc)

raws-append : (xs ys : List Gate) → raws (xs ++ ys) ≡ raws xs ++ raws ys
raws-append [] ys = refl
raws-append (x ∷ xs) ys = ap (λ l. x.raw ∷ l) (raws-append xs ys)

raws-keep :
    (g : Gate) (acc : List Gate)
    → (if contains (raws acc) g.raw then raws acc else raws acc ++ (g.raw ∷ []))
      ≡ raws (if contains (raws acc) g.raw then acc else acc ++ (g ∷ []))
raws-keep g acc = elim (Bool-cases (contains (raws acc) g.raw)) [
  | inl e ↦ rw e
  | inr e ↦ rw (e, raws-append acc (g ∷ []))
]

collect_gate-eq :
    (k : GateKind) (g : Gate) (acc : List Gate) (ss : List Threshold)
    → collect_gate k g.raw (raws acc, ss) ≡ (raws (keep_gate k g acc), ss ++ of_severity k)
collect_gate-eq (severity t) g acc ss = refl
collect_gate-eq kev g acc ss = cc (raws-keep g acc, append-nil ss)
collect_gate-eq (epss f) g acc ss = cc (raws-keep g acc, append-nil ss)

-- The loop over the gates' texts follows the loop over the gates.
pub collect-eq :
    (gs acc : List Gate) (ss : List Threshold)
    → collect gs (raws acc, ss) ≡ (raws (others gs acc), ss ++ thresholds gs)
unfolding collect others thresholds
collect-eq [] acc ss = cc (append-nil ss)
collect-eq (g ∷ gs) acc ss =
    ap (collect gs) (collect_gate-eq g.kind g acc ss)
    ∙ collect-eq gs (keep_gate g.kind g acc) (ss ++ of_severity g.kind)
    ∙ ap (λ l. (raws (others gs (keep_gate g.kind g acc)), l))
        (append_assoc ss (of_severity g.kind) (thresholds gs))
