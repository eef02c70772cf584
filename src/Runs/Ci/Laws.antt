-- ===== src/Runs/Ci/Laws.antt =====
-- When a pipeline passes.
use docker_ls.Prelude.{
  ℕ, ◌≡◌, refl, sym, ◌∙◌, ◌↔◌, List, [], ◌∷◌, ◌++◌, map, Bool, true, false, ◌&&◌, ◌||◌, not,
  is_empty, Option, none, some, when, any, arith,
}
use docker_ls.Prelude.Text.{Text}
use docker_ls.Prelude.Dict.{Dict}
use docker_ls.Verdict.Analysis.{ImageAnalysis, finalize_verdict}
use docker_ls.Verdict.Analysis.Laws.{Deployable, production_ready_iff}
use docker_ls.Verdict.Readiness.{BlockingReason, is_ready}
use docker_ls.Runs.Summary.{
  Kind, Problem, pending, scans_failed, AnalysisResult, DecisionSummary, Measured, category_of,
  is_complete, is_nothing, is_refused, policy_problems, incomplete_problems, age_unknown,
  age_problems, budget_ended, filtered, problems_of, completed, kind_of, items_of, summarize_items,
  summarize_recommendation, infrastructure_of, filled,
}
use docker_ls.Runs.Ci.{pass, incomplete, is_policy, status_of}

module _ {ℓ} {A : Type ℓ} (p : A → Bool) where
  any-append : (xs ys : List A) → any p (xs ++ ys) ≡ (any p xs || any p ys)
  any-append [] ys = refl
  any-append (x ∷ xs) ys = ground (arith, any-append xs ys)

  any-append_none :
      (xs ys : List A) → any p xs ≡ false → any p ys ≡ false → any p (xs ++ ys) ≡ false
  any-append_none xs ys h k = rw (any-append xs ys, h) k

  any-when : (b : Bool) (x : A) → p x ≡ false → any p (when b x) ≡ false
  unfolding when
  any-when true x h = rw h refl
  any-when false x h = refl

abbrev against_policy : Problem → Bool
against_policy p = is_policy (category_of p)

any-pending : (checks : List Text) → any against_policy (map pending checks) ≡ false
unfolding category_of
any-pending [] = refl
any-pending (c ∷ checks) = any-pending checks

any-age_problems :
    (age : Option ℕ) (kind : Kind) → any against_policy (age_problems age kind) ≡ false
unfolding age_problems category_of
any-age_problems none kind = any-when against_policy (not (is_nothing kind)) age_unknown refl
any-age_problems (some age) kind = refl

any-incomplete_problems :
    (completeness : Text) (checks : List Text) (note : Text) (age : Option ℕ) (kind : Kind)
    → any against_policy (incomplete_problems completeness checks note age kind) ≡ false
unfolding incomplete_problems category_of
any-incomplete_problems completeness checks note age kind =
    let ended : List Problem = when (not (is_complete completeness)) (budget_ended completeness) in
    let waiting : List Problem = map pending checks in
    let without : List Problem = when (not (is_empty note)) (filtered note) in
    let aged : List Problem = age_problems age kind in
    any-append_none against_policy ended (waiting ++ (without ++ aged))
      (any-when against_policy (not (is_complete completeness)) (budget_ended completeness) refl)
      (any-append_none against_policy waiting (without ++ aged) (any-pending checks) (
        any-append_none against_policy without aged
          (any-when against_policy (not (is_empty note)) (filtered note) refl)
          (any-age_problems age kind)))

any-policy_problems :
    (blockers : List BlockingReason) (kind : Kind) (met : Option Bool)
    → any against_policy (policy_problems blockers kind met)
      ≡ (not (is_empty blockers) || (is_refused met && not (is_nothing kind)))
unfolding policy_problems category_of when
any-policy_problems blockers kind met = ground arith

-- The problems of a summary name the policy exactly for blockers, or where a candidate was measured
-- and none meets the baseline.
any-problems_of :
    (blockers : List BlockingReason) (checks : List Text) (completeness : Text) (age : Option ℕ)
    (kind : Kind) (met : Option Bool) (causes : Dict ℕ) (note : Text)
    → any against_policy (problems_of blockers checks completeness age kind met causes note).0
      ≡ (not (is_empty blockers) || (is_refused met && not (is_nothing kind)))
unfolding problems_of category_of
any-problems_of blockers checks completeness age kind met causes note = ground (
  arith,
  any-append against_policy (policy_problems blockers kind met) (
      incomplete_problems completeness checks note age kind
      ++ when (not (is_empty causes)) (scans_failed causes)),
  any-append_none against_policy (incomplete_problems completeness checks note age kind)
      (when (not (is_empty causes)) (scans_failed causes))
      (any-incomplete_problems completeness checks note age kind)
      (any-when against_policy (not (is_empty causes)) (scans_failed causes) refl),
  any-policy_problems blockers kind met,
)

-- Whether a run with a measured candidate passes
status_of-completed :
    (kind : Kind) (m : Measured) (blockers : List BlockingReason) (checks : List Text)
    (completeness : Text) (age : Option ℕ) (met : Bool) (causes : Dict ℕ) (note : Text) (code : ℕ)
    → is_nothing kind ≡ false
    → (status_of
          (completed kind (some m) blockers checks completeness age (some met) causes note)
          code
        ≡ pass)
      ↔ ((is_complete completeness ≡ true)
          × (code ≡ 0)
          × (is_empty blockers ≡ true)
          × (met ≡ true)
          × (is_empty checks ≡ true))
unfolding status_of completed
status_of-completed kind m blockers checks completeness age met causes note code k =
    rw (any-problems_of blockers checks completeness age kind (some met) causes note, k)
      (ground arith, ground arith)

kind_of-measured : (r : AnalysisResult) (top : ImageAnalysis) → is_nothing (kind_of r top) ≡ false
unfolding kind_of
kind_of-measured r top = ground arith

summary_of :
    (r : AnalysisResult) (top : ImageAnalysis) (others : List ImageAnalysis) (age : Option ℕ)
    → items_of r ≡ top ∷ others
    → summarize_recommendation r age
      ≡ completed
          (kind_of r top)
          (some (filled top))
          top.readiness_blockers
          r.pending_checks
          r.completeness
          age
          (some r.baseline_met)
          (infrastructure_of r.unverified)
          r.filters_note
unfolding summarize_recommendation summarize_items
summary_of r top others age e = rw e refl

finalize-blockers :
    (a : ImageAnalysis) (cross_validated : Bool)
    → is_empty (finalize_verdict a cross_validated).readiness_blockers
      ≡ (finalize_verdict a cross_validated).production_ready
unfolding finalize_verdict is_ready
finalize-blockers a cross_validated = refl

-- A pipeline on a recommendation whose best candidate has been through `finalize_verdict` reads PASS
-- exactly when the run is complete, its exit code is 0, nothing is pending, a candidate meets the
-- baseline, and the facts that a production verdict stands on hold of the best candidate.
pub status_of-pass :
    (r : AnalysisResult) (top : ImageAnalysis) (cross_validated : Bool)
    (others : List ImageAnalysis) (age : Option ℕ) (code : ℕ)
    → items_of r ≡ finalize_verdict top cross_validated ∷ others
    → (status_of (summarize_recommendation r age) code ≡ pass) ↔ (
        (is_complete r.completeness ≡ true)
        × (code ≡ 0)
        × (is_empty r.pending_checks ≡ true)
        × (r.baseline_met ≡ true)
        × Deployable top)
status_of-pass r top cross_validated others age code e =
    let best : ImageAnalysis = finalize_verdict top cross_validated in
    let whole =
      status_of-completed (kind_of r best) (filled best) best.readiness_blockers r.pending_checks
        r.completeness age r.baseline_met (infrastructure_of r.unverified) r.filters_note code
        (kind_of-measured r best) in
    let ready = production_ready_iff top cross_validated in
    let same = finalize-blockers top cross_validated in
    rw (summary_of r best others age e) (
      λ h.
          let (complete, zero_code, clear, met, done) = whole.0 h in
          (complete, zero_code, done, met, ready.0 (sym same ∙ clear)),
      λ h. whole.1 (h.0, h.1, same ∙ ready.1 h.4, h.3, h.2),
    )

-- A run that is not complete reads INCOMPLETE, and only such a run does.
pub status_of-incomplete :
    (s : DecisionSummary) (code : ℕ)
    → (status_of s code ≡ incomplete) ↔ (is_complete s.completeness ≡ false)
unfolding status_of
status_of-incomplete s code = (ground arith, ground arith)
