-- ===== src/Dockerfile.antt =====
-- dockerls/infrastructure/dockerfile_validator.py and
-- dockerls/domain/entities/dockerfile_analysis.py: the rules on a Dockerfile and what they suggest.
pub mod Info
pub mod Checks
pub mod Score
pub mod Parsing
pub mod Suggestions
