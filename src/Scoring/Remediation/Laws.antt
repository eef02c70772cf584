-- ===== src/Scoring/Remediation/Laws.antt =====
-- The steps of the remediation scale.
use docker_ls.Prelude.{◌≤◌, ◌≡◌, ◌↔◌, ◌*◌, ◌<◌, arith, count-le-length}
use docker_ls.Evidence.Scan.{ScanResult, total_count, fixable_count}
use docker_ls.Evidence.Vulnerability.{is_fixable}
use docker_ls.Scoring.Remediation.{remediation_score}

pub fixable_count-le : (s : ScanResult) → fixable_count s ≤ total_count s
unfolding fixable_count total_count
fixable_count-le s = count-le-length is_fixable s.vulnerabilities

-- The score is 100 exactly when every finding can be fixed (no findings included), at least 60
-- exactly when half of them can, and 20 exactly when fewer than a quarter of them can.
pub remediation_score_iff :
    (s : ScanResult)
    → ((remediation_score s ≡ 100) ↔ (fixable_count s ≡ total_count s))
      × ((60 ≤ remediation_score s) ↔ (total_count s ≤ 2 * fixable_count s))
      × ((remediation_score s ≡ 20) ↔ (4 * fixable_count s < total_count s))
unfolding remediation_score
remediation_score_iff s = (
  (λ h. ground (arith, fixable_count-le s), λ h. ground (arith, fixable_count-le s)),
  (λ h. ground (arith, fixable_count-le s), λ h. ground (arith, fixable_count-le s)),
  (λ h. ground (arith, fixable_count-le s), λ h. ground (arith, fixable_count-le s)),
)
