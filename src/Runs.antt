-- ===== src/Runs.antt =====
-- Saved runs and what is said of a run: dockerls/application/services/run_diff.py,
-- decision_summary.py and ci_summary.py.
pub mod Json
pub mod Diff
pub mod Summary
pub mod Ci
