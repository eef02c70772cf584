-- ===== src/Gate/Merge/Laws.antt =====
-- On the level of gates, the merged set fails exactly where one of the two sides fails.
use mathlib.Core.Bool.{or_assoc}
use docker_ls.Prelude.{◌≤◌, ◌≡◌, inl, inr, refl, sym, ◌∙◌, ap, List, [], ◌∷◌, ◌++◌, Bool}
use docker_ls.Prelude.{
  true, false, ◌||◌, not, any, All, is_empty, if◌then◌else◌, Bool-cases, arith, ltb, Option, ltb→lt,
}
use docker_ls.Prelude.{All-append}
use docker_ls.Prelude.Text.{contains, text_eq, text_eq_iff}
use docker_ls.Gate.Types.{
  Threshold, threshold_index, Finding, Gate, GateKind, severity, kev, epss, Result, ok,
}
use docker_ls.Gate.Parse.{parse}
use docker_ls.Gate.Parse.RoundTrip.{Canonical, raws, severity_gate}
use docker_ls.Gate.Evaluate.{Counts, evaluate, evaluate_kind, failed, evaluate_set}
use docker_ls.Gate.Evaluate.Laws.{evaluate_severity_mono}
use docker_ls.Gate.Merge.{strictest}
use docker_ls.Gate.Merge.Loop.{thresholds, others, keep_gate, of_severity}

absorb_left : (a b r : Bool) → (a ≡ true → b ≡ true) → (b || r) ≡ (a || (b || r))
absorb_left a b r h = ground arith

absorb_right : (a b r : Bool) → (b ≡ true → a ≡ true) → (a || r) ≡ (a || (b || r))
absorb_right a b r h = ground arith

absorbed : (a b : Bool) → (b ≡ true → a ≡ true) → a ≡ (a || b)
absorbed a b h = ground arith

ok-injective : (a b : Gate) → ◌≡◌ {A = Result Gate} (ok a) (ok b) → a ≡ b
ok-injective a b h = cc

same_gate : (a b : Gate) → Canonical a → Canonical b → a.raw ≡ b.raw → a ≡ b
same_gate a b ca cb e = ok-injective a b (sym ca.reads ∙ ap parse e ∙ cb.reads)

kept_Canonical :
    (g : Gate) (acc : List Gate)
    → Canonical g
    → All Canonical acc
    → All Canonical (if contains (raws acc) g.raw then acc else acc ++ (g ∷ []))
kept_Canonical g acc c h = elim (Bool-cases (contains (raws acc) g.raw)) [
  | inl e ↦ rw e h
  | inr e ↦ rw e (All-append Canonical acc (g ∷ []) h (c, tt))
]

keep_gate-Canonical :
    (k : GateKind) (g : Gate) (acc : List Gate)
    → Canonical g
    → All Canonical acc
    → All Canonical (keep_gate k g acc)
keep_gate-Canonical (severity t) g acc c h = h
keep_gate-Canonical kev g acc c h = kept_Canonical g acc c h
keep_gate-Canonical (epss f) g acc c h = kept_Canonical g acc c h

swap_or : (a b c : Bool) → (a || (b || c)) ≡ (b || (a || c))
swap_or a b c = ground arith

pub others-Canonical :
    (gs acc : List Gate) → All Canonical gs → All Canonical acc → All Canonical (others gs acc)
unfolding others
others-Canonical [] acc hs h = h
others-Canonical (g ∷ gs) acc (c, hs) h =
    others-Canonical gs (keep_gate g.kind g acc) hs (keep_gate-Canonical g.kind g acc c h)

abbrev pub merged_gates : List Threshold → List Gate → List Gate
merged_gates [] gs = gs
merged_gates (t ∷ ts) gs = severity_gate (strictest t ts) ∷ gs

-- Whether a gate fails, as a test of the gate alone.
module _ (findings : List Finding) (counts : Option Counts) where
  abbrev pub fails : Gate → Bool
  fails g = failed (evaluate g findings counts)

  abbrev fails_at : Threshold → Bool
  fails_at t = fails (severity_gate t)

  fails_at_mono :
      (t u : Threshold)
      → threshold_index t ≤ threshold_index u
      → fails_at t ≡ true
      → fails_at u ≡ true
  unfolding evaluate_kind
  fails_at_mono t u h = ground (arith, evaluate_severity_mono t u findings counts h)

  any-strictest :
      (t : Threshold) (ts : List Threshold)
      → fails_at (strictest t ts) ≡ (fails_at t || any fails_at ts)
  unfolding strictest
  any-strictest t [] = ground arith
  any-strictest t (u ∷ us) = elim (Bool-cases (ltb (threshold_index t) (threshold_index u))) [
    | inl e ↦ rw e (
        any-strictest u us
        ∙ absorb_left (fails_at t) (fails_at u) (any fails_at us)
            (fails_at_mono t u (omega (arith, ltb→lt _ _ e))))
    | inr e ↦ rw e (
        any-strictest t us
        ∙ absorb_right (fails_at t) (fails_at u) (any fails_at us)
            (fails_at_mono u t (ground arith)))
  ]

  any-append : (xs ys : List Gate) → any fails (xs ++ ys) ≡ (any fails xs || any fails ys)
  any-append [] ys = refl
  any-append (x ∷ xs) ys =
      rw (any-append xs ys) (sym (or_assoc (fails x) (any fails xs) (any fails ys)))

  abbrev fails_kind : GateKind → Bool
  fails_kind (severity t) = false
  fails_kind kev = failed (evaluate_kind kev findings counts)
  fails_kind (epss f) = failed (evaluate_kind (epss f) findings counts)

  abbrev fails_other : Gate → Bool
  fails_other g = fails_kind g.kind

  fails-listed :
      (g : Gate) (acc : List Gate)
      → Canonical g
      → All Canonical acc
      → contains (raws acc) g.raw ≡ true
      → fails g ≡ true
      → any fails acc ≡ true
  fails-listed g [] c h e f = cc
  fails-listed g (a ∷ acc) c (d, h) e f = elim (Bool-cases (text_eq g.raw a.raw)) [
    | inl same ↦
        let equal : a ≡ g = same_gate a g d c (sym ((text_eq_iff g.raw a.raw).0 same)) in
        rw (equal, f)
    | inr differ ↦ ground (arith, fails-listed g acc c h)
  ]

  any-keep :
      (g : Gate) (acc : List Gate)
      → Canonical g
      → All Canonical acc
      → any fails (if contains (raws acc) g.raw then acc else acc ++ (g ∷ []))
        ≡ (any fails acc || fails g)
  any-keep g acc c h = elim (Bool-cases (contains (raws acc) g.raw)) [
    | inl e ↦ rw e (absorbed (any fails acc) (fails g) (fails-listed g acc c h e))
    | inr e ↦ rw (e, any-append acc (g ∷ [])) (ground arith)
  ]

  any-keep_gate :
      (k : GateKind) (g : Gate) (acc : List Gate)
      → g.kind ≡ k
      → Canonical g
      → All Canonical acc
      → any fails (keep_gate k g acc) ≡ (any fails acc || fails_kind k)
  any-keep_gate (severity t) g acc e c h = ground arith
  any-keep_gate kev g acc e c h =
      any-keep g acc c h ∙ ap (λ k. any fails acc || failed (evaluate_kind k findings counts)) e
  any-keep_gate (epss f) g acc e c h =
      any-keep g acc c h ∙ ap (λ k. any fails acc || failed (evaluate_kind k findings counts)) e

  any-others :
      (gs acc : List Gate)
      → All Canonical gs
      → All Canonical acc
      → any fails (others gs acc) ≡ (any fails acc || any fails_other gs)
  unfolding others
  any-others [] acc hs h = ground arith
  any-others (g ∷ gs) acc (c, hs) h =
      any-others gs (keep_gate g.kind g acc) hs (keep_gate-Canonical g.kind g acc c h)
      ∙ ap (λ b. b || any fails_other gs) (any-keep_gate g.kind g acc refl c h)
      ∙ or_assoc (any fails acc) (fails_other g) (any fails_other gs)

  regroup_kind :
      (k : GateKind) (ts : List Threshold) (o : Bool)
      → (failed (evaluate_kind k findings counts) || (any fails_at ts || o))
        ≡ (any fails_at (of_severity k ++ ts) || (fails_kind k || o))
  regroup_kind (severity t) ts o = sym (or_assoc (fails_at t) (any fails_at ts) o)
  regroup_kind kev ts o = swap_or _ (any fails_at ts) o
  regroup_kind (epss f) ts o = swap_or _ (any fails_at ts) o

  any-by_kind :
      (gs : List Gate) → any fails gs ≡ (any fails_at (thresholds gs) || any fails_other gs)
  unfolding thresholds
  any-by_kind [] = refl
  any-by_kind (g ∷ gs) =
      ap (λ b. fails g || b) (any-by_kind gs)
      ∙ regroup_kind g.kind (thresholds gs) (any fails_other gs)

  any_thresholds-append :
      (ts us : List Threshold) → any fails_at (ts ++ us) ≡ (any fails_at ts || any fails_at us)
  any_thresholds-append [] us = refl
  any_thresholds-append (t ∷ ts) us =
      rw (any_thresholds-append ts us)
        (sym (or_assoc (fails_at t) (any fails_at ts) (any fails_at us)))

  -- The gates that the merged text names.
  any-merged :
      (ts : List Threshold) (gs : List Gate)
      → any fails (merged_gates ts gs) ≡ (any fails_at ts || any fails gs)
  any-merged [] gs = refl
  any-merged (t ∷ ts) gs = rw (any-strictest t ts)

  -- Both sides together fail where the merged gates fail.
  pub any-merge :
      (gs more : List Gate)
      → All Canonical gs
      → All Canonical more
      → any fails (merged_gates (thresholds gs ++ thresholds more) (others more (others gs [])))
        ≡ (any fails gs || any fails more)
  any-merge gs more hs ms =
      any-merged (thresholds gs ++ thresholds more) (others more (others gs []))
      ∙ rw
          (
            any_thresholds-append (thresholds gs) (thresholds more),
            any-others more (others gs []) ms (others-Canonical gs [] hs tt),
            any-others gs [] hs tt,
            any-by_kind gs,
            any-by_kind more,
          )
          (ground arith)

  pub is_empty-evaluate_set :
      (gs : List Gate) → is_empty (evaluate_set gs findings counts) ≡ not (any fails gs)
  unfolding evaluate_set
  is_empty-evaluate_set [] = refl
  is_empty-evaluate_set (g ∷ gs) = ground (arith, is_empty-evaluate_set gs)
