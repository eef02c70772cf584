-- ===== src/Scoring.antt =====
-- From counts and signals to a score and a letter: dockerls/domain/value_objects/security_score.py,
-- security_tier.py and remediation_score.py.
pub mod Score
pub mod Tier
pub mod Remediation
