-- ===== src/Dockerfile/Score.antt =====
-- `DockerfileValidator`: the score and the tier of a validated Dockerfile.
pub mod Graded
pub mod Laws
use docker_ls.Prelude.{ℕ, ◌+◌, ◌-◌, List, [], ◌∷◌, if◌then◌else◌, ltb, leb}
use docker_ls.Dockerfile.Info.{
  ValidationStatus, pass, warn, fail, skip, SeverityLevel, critical, high, medium, low, info,
  ValidationCheck, DockerfileValidationResult, DockerfileInfo, BuildContext,
}
use docker_ls.Dockerfile.Checks.{validate}

-- `severity_weights.get(severity, 0)`
abbrev pub severity_weight : SeverityLevel → ℕ
severity_weight critical = 25
severity_weight high = 15
severity_weight medium = 8
severity_weight low = 3
severity_weight info = 0

abbrev pub half_weight : SeverityLevel → ℕ
half_weight critical = 12
half_weight high = 7
half_weight medium = 4
half_weight low = 1
half_weight info = 0

-- What a check takes from the score
abbrev pub deduction : ValidationStatus → SeverityLevel → ℕ
deduction fail severity = severity_weight severity
deduction warn severity = half_weight severity
deduction _ severity = 0

unfoldable pub deductions : List ValidationCheck → ℕ
deductions [] = 0
deductions (c ∷ checks) = deduction c.status c.severity + deductions checks

-- `_calculate_security_score`: the subtraction of natural numbers is its `max(0, …)`.
unfoldable pub dockerfile_score : DockerfileValidationResult → ℕ
unfolding deductions
dockerfile_score r = 100 - deductions r.checks

pub data DockerfileTier : Type 0 where
  a b c : DockerfileTier

-- `_calculate_security_tier`
unfoldable pub dockerfile_tier : ℕ → DockerfileValidationResult → DockerfileTier
dockerfile_tier score r =
    if ltb 0 r.errors then c else if leb 90 score then a else if leb 70 score then b else c

-- `DockerfileAnalysis`
pub record DockerfileAnalysis : Type 0 where
  pub validation : DockerfileValidationResult
  pub security_score : ℕ
  pub security_tier : DockerfileTier

-- `analyze`, behind the reading of the file
unfoldable pub analyze : BuildContext → DockerfileInfo → DockerfileAnalysis
unfolding validate dockerfile_score dockerfile_tier
analyze context i =
    let validation = validate context i in
    let score = dockerfile_score validation in
    record {
      validation = validation;
      security_score = score;
      security_tier = dockerfile_tier score validation;
    }
