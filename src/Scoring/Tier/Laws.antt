-- ===== src/Scoring/Tier/Laws.antt =====
-- The tier follows the score, and a CRITICAL with no fix caps it.
use docker_ls.Prelude.{ℕ, ◌≤◌, ◌<◌, ◌≡◌, ◌↔◌, List, [], ◌∷◌, Bool, true, false, count, arith, ◌&&◌}
use docker_ls.Evidence.Vulnerability.{Vulnerability}
use docker_ls.Evidence.Scan.{ScanResult, critical_count, fixable_critical_count}
use docker_ls.Scoring.Tier.{tier_index, classify, tier_production_ready}

count-and-le :
    (p q : Vulnerability → Bool) (vs : List Vulnerability) → count (λ v. p v && q v) vs ≤ count p vs
count-and-le p q [] = omega arith
count-and-le p q (v ∷ vs) = ground (arith, count-and-le p q vs)

pub fixable_critical_count-le : (s : ScanResult) → fixable_critical_count s ≤ critical_count s
unfolding fixable_critical_count critical_count
fixable_critical_count-le s = count-and-le _ _ s.vulnerabilities

-- A higher score never has a worse tier on the same scan.
pub classify_mono :
    (s : ScanResult) (low high : ℕ)
    → low ≤ high
    → tier_index (classify s high) ≤ tier_index (classify s low)
unfolding classify
classify_mono s low high h = ground arith

-- With a CRITICAL that has no fix the tier is C or worse, whatever the score.
classify_capped :
    (s : ScanResult) (score : ℕ)
    → fixable_critical_count s < critical_count s
    → 2 ≤ tier_index (classify s score)
unfolding classify
classify_capped s score u = ground arith

-- The tier alone permits production exactly for a release that is not at its end of life, with a
-- score of 75.0 or more and a fix for every CRITICAL.
pub tier_production_ready_iff :
    (s : ScanResult) (score : ℕ) (is_eol : Bool)
    → (tier_production_ready s score is_eol ≡ true)
      ↔ ((is_eol ≡ false) × (750 ≤ score) × (fixable_critical_count s ≡ critical_count s))
unfolding tier_production_ready
tier_production_ready_iff s score is_eol = (
  λ h. ground (arith, fixable_critical_count-le s),
  λ h. ground (arith, fixable_critical_count-le s),
)
