-- ===== src/Runs/Summary.antt =====
-- dockerls/application/services/decision_summary.py: the answer of a run as data. A problem is what
-- its text is made of; the headlines are left out. `db_age` is what `age_seconds` gives for the
-- revision of the database that the best candidate was measured with.
use docker_ls.Prelude.{
  ℕ, ◌+◌, List, [], ◌∷◌, ◌++◌, map, Bool, true, false, ◌&&◌, not, is_empty, Option, none, some,
  if◌then◌else◌, leb, when, filter,
}
use docker_ls.Prelude.Text.{Text, codes, contains, text_eq}
use docker_ls.Prelude.Dict.{Dict, get_item, set_item}
use docker_ls.Evidence.Scan.{
  critical_count, high_count, medium_count, low_count, fixable_count, total_count,
}
use docker_ls.Evidence.Image.{pinned_reference, identity_confirmed}
use docker_ls.CrossValidation.{BandReport}
use docker_ls.Scoring.Tier.{Tier}
use docker_ls.Verdict.Analysis.{ImageAnalysis}
use docker_ls.Verdict.Confidence.{Confidence}
use docker_ls.Verdict.Ranking.Sorting.{sort_by}
use docker_ls.Verdict.Readiness.{BlockingReason}

pub data Kind : Type 0 where
  recommended best_measured nothing : Kind

pub data Category : Type 0 where
  policy incomplete infrastructure : Category

pub data Problem : Type 0 where
  not_ready : List BlockingReason → Problem
  below_baseline age_unknown : Problem
  budget_ended : Text → Problem
  pending : Text → Problem
  filtered : Text → Problem
  scans_failed : Dict ℕ → Problem

-- The category that the text of a problem begins with
unfoldable pub category_of : Problem → Category
category_of (not_ready blockers) = policy
category_of below_baseline = policy
category_of (scans_failed causes) = infrastructure
category_of _ = incomplete

-- `next_action`, as what it says to do
pub data Action : Type 0 where
  loosen_filters larger_budget check_name partial_result : Action
  act_on : Text → Action
  look_at_log : Text → Action
  resolve : List BlockingReason → Action
  complete_checks resolve_identity : Action
  pin : Text → Action

-- What of an analysis the summary carries
pub record Measured : Type 0 where
  pub image : Text
  pub pinned : Text
  pub critical : ℕ
  pub high : ℕ
  pub medium : ℕ
  pub low : ℕ
  pub fixable : ℕ
  pub total : ℕ
  pub score : Option ℕ
  pub score_disputed : List BandReport
  pub tier : Tier
  pub production_ready : Bool
  pub confidence : Confidence

pub record DecisionSummary : Type 0 where
  pub kind : Kind
  pub measured : Option Measured
  pub blockers : List BlockingReason
  pub pending_checks : List Text
  pub completeness : Text
  pub db_age_seconds : Option ℕ
  pub problems : List Problem
  pub categories : List Category
  pub next_action : Action

-- The fields of `AnalysisResult` that a summary reads; an unverified image is its `kind`.
pub record AnalysisResult : Type 0 where
  pub recommendations : List ImageAnalysis
  pub alternatives : List ImageAnalysis
  pub unverified : List Text
  pub baseline_met : Bool
  pub filters_note : Text
  pub completeness : Text
  pub pending_checks : List Text

abbrev pub is_complete : Text → Bool
is_complete completeness = text_eq completeness (codes "COMPLETE")

-- `_fill_from_analysis`
unfoldable pub filled : ImageAnalysis → Measured
filled a = record {
  image = a.image.full_reference;
  pinned = if identity_confirmed a.image then pinned_reference a.image else [];
  critical = critical_count a.scan;
  high = high_count a.scan;
  medium = medium_count a.scan;
  low = low_count a.scan;
  fixable = fixable_count a.scan;
  total = total_count a.scan;
  score = if is_empty a.scan_divergence then some a.security_score else none;
  score_disputed = a.scan_divergence;
  tier = a.tier;
  production_ready = a.production_ready;
  confidence = a.confidence;
}

-- `_INFRASTRUCTURE_KINDS`
abbrev pub infrastructure_kinds : List Text
infrastructure_kinds =
    codes "DB_INIT_FAILED"
    ∷ codes "TIMEOUT"
    ∷ codes "SCANNER_MISSING"
    ∷ codes "RATE_LIMITED"
    ∷ codes "INVALID_OUTPUT"
    ∷ codes "AUTH_REQUIRED"
    ∷ codes "UNKNOWN"
    ∷ []

-- `Counter(kinds)`, from the counts so far
unfoldable pub counter : Dict ℕ → List Text → Dict ℕ
counter counts [] = counts
counter counts (kind ∷ kinds) =
    counter (set_item kind (elim (get_item kind counts) [ none ↦ 1 | some n ↦ n + 1 ]) counts) kinds

-- `_infrastructure`
unfoldable pub infrastructure_of : List Text → Dict ℕ
unfolding counter
infrastructure_of unverified = counter [] (filter (contains infrastructure_kinds) unverified)

-- `infrastructure.most_common(1)[0][0]`
unfoldable pub dominant : Dict ℕ → Text
dominant causes = elim (sort_by (λ a b. leb b.1 a.1) causes) [ [] ↦ [] | ◌∷◌ cause rest ↦ cause.0 ]

abbrev pub is_nothing : Kind → Bool
is_nothing nothing = true
is_nothing _ = false

abbrev pub is_refused : Option Bool → Bool
is_refused (some false) = true
is_refused _ = false

-- The problems with the policy in `_problems`
unfoldable pub policy_problems : List BlockingReason → Kind → Option Bool → List Problem
policy_problems blockers kind baseline_met =
    if not (is_empty blockers)
    then not_ready blockers ∷ []
    else when (is_refused baseline_met && not (is_nothing kind)) below_baseline

unfoldable pub age_problems : Option ℕ → Kind → List Problem
age_problems none kind = when (not (is_nothing kind)) age_unknown
age_problems (some age) kind = []

-- What is incomplete in `_problems`
unfoldable pub incomplete_problems : Text → List Text → Text → Option ℕ → Kind → List Problem
unfolding age_problems
incomplete_problems completeness pending_checks filters_note db_age kind =
    when (not (is_complete completeness)) (budget_ended completeness)
    ++ (map pending pending_checks
        ++ (when (not (is_empty filters_note)) (filtered filters_note) ++ age_problems db_age kind))

-- `_problems`: its `problems` and `categories`
unfoldable pub problems_of :
    List BlockingReason
    → List Text
    → Text
    → Option ℕ
    → Kind
    → Option Bool
    → Dict ℕ
    → Text
    → List Problem × List Category
unfolding policy_problems incomplete_problems
problems_of blockers pending_checks completeness db_age kind baseline_met causes filters_note =
    let against = policy_problems blockers kind baseline_met in
    let missing = incomplete_problems completeness pending_checks filters_note db_age kind in
    (
      against ++ (missing ++ when (not (is_empty causes)) (scans_failed causes)),
      when (not (is_empty against)) policy
          ++ (when (not (is_empty missing)) incomplete
              ++ when (not (is_empty causes)) infrastructure),
    )

-- `_next_action`
unfoldable pub action_of :
    Kind → Text → List BlockingReason → List Text → Text → Dict ℕ → Text → Action
unfolding dominant
action_of kind completeness blockers pending_checks pinned causes filters_note =
    if is_nothing kind
    then (if not (is_empty filters_note)
        then loosen_filters
        else if not (is_empty causes)
        then act_on (dominant causes)
        else if not (is_complete completeness)
        then larger_budget
        else check_name)
    else if not (is_complete completeness)
    then partial_result
    else if not (is_empty causes)
    then look_at_log (dominant causes)
    else if not (is_empty blockers)
    then resolve blockers
    else if not (is_empty pending_checks)
    then complete_checks
    else if not (is_empty pinned)
    then pin pinned
    else resolve_identity

-- What `_problems` and `_next_action` write into a summary
unfoldable pub completed :
    Kind
    → Option Measured
    → List BlockingReason
    → List Text
    → Text
    → Option ℕ
    → Option Bool
    → Dict ℕ
    → Text
    → DecisionSummary
unfolding problems_of action_of
completed kind measured blockers pending_checks completeness db_age baseline_met causes
      filters_note =
    let (problems, categories) =
      problems_of blockers pending_checks completeness db_age kind baseline_met causes
        filters_note in
    let pinned : Text = elim measured [ none ↦ [] | some m ↦ m.pinned ] in
    record {
      kind = kind;
      measured = measured;
      blockers = blockers;
      pending_checks = pending_checks;
      completeness = completeness;
      db_age_seconds = db_age;
      problems = problems;
      categories = categories;
      next_action = action_of kind completeness blockers pending_checks pinned causes filters_note;
    }

-- `summarize_analysis`; the kind is given or decided.
unfoldable pub summarize_analysis :
    ImageAnalysis → Text → List Text → Option Bool → Option Kind → Option ℕ → DecisionSummary
unfolding filled completed
summarize_analysis a completeness pending_checks baseline_met kind db_age =
    let decided =
      if a.production_ready && is_complete completeness then recommended else best_measured in
    completed (elim kind [ none ↦ decided | some k ↦ k ]) (some (filled a)) a.readiness_blockers
      pending_checks completeness db_age baseline_met [] []

-- `result.recommendations or result.alternatives`
unfoldable pub items_of : AnalysisResult → List ImageAnalysis
items_of r = if is_empty r.recommendations then r.alternatives else r.recommendations

-- The kind of a run whose best candidate is `top`
unfoldable pub kind_of : AnalysisResult → ImageAnalysis → Kind
kind_of r top =
    if r.baseline_met
      && top.production_ready
      && is_complete r.completeness
      && is_empty r.filters_note
    then recommended
    else best_measured

-- `summarize_recommendation` on its items
unfoldable pub summarize_items : List ImageAnalysis → AnalysisResult → Option ℕ → DecisionSummary
unfolding filled completed kind_of infrastructure_of
summarize_items [] r db_age =
    completed nothing none [] r.pending_checks r.completeness none (some r.baseline_met)
      (infrastructure_of r.unverified) r.filters_note
summarize_items (top ∷ others) r db_age =
    completed (kind_of r top) (some (filled top)) top.readiness_blockers r.pending_checks
      r.completeness db_age (some r.baseline_met) (infrastructure_of r.unverified) r.filters_note

-- `summarize_recommendation`
unfoldable pub summarize_recommendation : AnalysisResult → Option ℕ → DecisionSummary
unfolding summarize_items items_of
summarize_recommendation r db_age = summarize_items (items_of r) r db_age
