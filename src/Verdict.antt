-- ===== src/Verdict.antt =====
-- From measurements to a verdict: dockerls/domain/value_objects/confidence.py,
-- production_readiness.py and dockerls/application/services/verdict.py.
pub mod Confidence
pub mod Readiness
pub mod Analysis
pub mod Ranking
pub mod Explanation
