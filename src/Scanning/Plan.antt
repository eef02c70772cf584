-- ===== src/Scanning/Plan.antt =====
-- `plan_scans` of scan_plan.py: which of the discovered tags are scanned, and what is said of the
-- others. A budget that is not positive, which means no budget, is 0.
pub mod Kept
pub mod Conservation
use docker_ls.Prelude.{
  ℕ, zero, suc, ◌+◌, List, [], ◌∷◌, ◌++◌, map, Bool, true, false, ◌&&◌, ◌||◌, Option, none, some,
}
use docker_ls.Prelude.{
  leb, ltb, ◌==◌, not, any, is_empty, filter, length, take, drop, if◌then◌else◌,
}
use docker_ls.Prelude.Text.{Text, text_eq, text_leb}
use docker_ls.Verdict.Ranking.Sorting.{first_then, sort_by}
use docker_ls.Evidence.Image.{DockerImage}
use docker_ls.Scanning.Versions.{Version, version_leb, version_ltb, version_and_variant}
use docker_ls.Scanning.Criteria.{
  Candidate, reference, Variant, same_variant, family_of_tag, variant_of_tag, major,
  CandidateCriteria, active, Exclusion, apply_criteria,
}
use docker_ls.Scanning.Lines.{DeferredTag, over_budget, superseded_tags, deferrals, in_items}
use docker_ls.Scanning.Order.{by_priority, representative_order}

pub record ScanPlan : Type 0 where
  pub selected : List Candidate
  pub deferred : List DeferredTag
  pub discovered : ℕ
  pub budget : ℕ
  pub excluded : List Exclusion

-- `id(image) in kept`
abbrev pub object_in : List Candidate → Candidate → Bool
object_in kept c = any (λ k. k.object == c.object) kept

abbrev pub beyond : Candidate → DeferredTag
beyond c = record { reference = reference c; reason = over_budget; instead = none }

unfoldable pub order_of : Bool → List Candidate → List Candidate
order_of spread survivors =
    if spread then representative_order survivors else sort_by by_priority survivors

-- The tags that no newer one stands for
abbrev pub survivors_of : List Candidate → List Candidate
survivors_of tags = filter (λ c. not (in_items (superseded_tags tags) c)) tags

-- What is selected and what is deferred of the tags that the criteria keep
unfoldable pub choose : List Candidate → ℕ → Bool → List Candidate × List DeferredTag
choose tags budget spread =
    let survivors = survivors_of tags in
    let deferred = deferrals (superseded_tags tags) tags in
    let ranked = order_of spread survivors in
    if budget == 0 || leb (length tags) budget
    then (tags, [])
    else if ltb budget (length survivors)
    then (filter (object_in (take budget ranked)) tags, deferred ++ map beyond (drop budget ranked))
    else (survivors, deferred)

abbrev pub after_criteria :
    Option CandidateCriteria → List Candidate → List Candidate × List Exclusion
after_criteria none tags = (tags, [])
after_criteria (some criteria) tags = apply_criteria criteria tags

-- `plan_scans`
unfoldable pub plan_scans : List Candidate → ℕ → Option CandidateCriteria → Bool → ScanPlan
plan_scans tags budget criteria spread =
    let (kept, excluded) = after_criteria criteria tags in
    let (selected, deferred) = choose kept budget spread in
    record {
      selected = selected;
      deferred = deferred;
      discovered = length kept + length excluded;
      budget = budget;
      excluded = excluded;
    }
