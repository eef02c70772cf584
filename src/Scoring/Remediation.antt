-- ===== src/Scoring/Remediation.antt =====
-- dockerls/domain/value_objects/remediation_score.py. `fixable / total >= k / 4` is compared as
-- `k * total <= 4 * fixable`.
pub mod Laws
use docker_ls.Prelude.{ℕ, ◌*◌, List, [], ◌∷◌, leb, ◌==◌, if◌then◌else◌}
use docker_ls.Evidence.Scan.{ScanResult, total_count, fixable_count}

-- `_BANDS`, the thresholds in quarters
abbrev bands : List (ℕ × ℕ)
bands = (4, 100) ∷ (3, 80) ∷ (2, 60) ∷ (1, 40) ∷ []

first_reached : ℕ → ℕ → List (ℕ × ℕ) → ℕ
first_reached fixable total [] = 20
first_reached fixable total ((quarters, score) ∷ more) =
    let rest = first_reached fixable total more in
    if leb (quarters * total) (4 * fixable) then score else rest

-- `RemediationScore._calculate`
unfoldable pub remediation_score : ScanResult → ℕ
unfolding first_reached total_count fixable_count
remediation_score s =
    let total = total_count s in
    if total == 0 then 100 else first_reached (fixable_count s) total bands
