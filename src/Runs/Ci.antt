-- ===== src/Runs/Ci.antt =====
-- dockerls/application/services/ci_summary.py: the status that a pipeline reads.
pub mod Laws
use docker_ls.Prelude.{ℕ, Bool, true, false, ◌||◌, not, is_empty, any, ◌==◌, if◌then◌else◌}
use docker_ls.Runs.Summary.{
  DecisionSummary, Problem, Category, policy, infrastructure, category_of, is_complete, is_nothing,
}

pub data Status : Type 0 where
  pass pass_with_pending_checks fail incomplete error : Status

-- `p.startswith("POLICY")`, `p.startswith("INFRASTRUCTURE")`
abbrev pub is_policy : Category → Bool
is_policy policy = true
is_policy _ = false

abbrev pub is_infrastructure : Category → Bool
is_infrastructure infrastructure = true
is_infrastructure _ = false

-- `_status`
unfoldable pub status_of : DecisionSummary → ℕ → Status
unfolding category_of
status_of s exit_code =
    let failed_tools = any (λ p. is_infrastructure (category_of p)) s.problems in
    let against_policy = any (λ p. is_policy (category_of p)) s.problems in
    if is_nothing s.kind
    then (if not (is_complete s.completeness)
        then incomplete
        else if failed_tools || exit_code == 1
        then error
        else fail)
    else if not (is_complete s.completeness)
    then incomplete
    else if not (is_empty s.blockers) || against_policy || not (exit_code == 0)
    then fail
    else if not (is_empty s.pending_checks)
    then pass_with_pending_checks
    else pass
