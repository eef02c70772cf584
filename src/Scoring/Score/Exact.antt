-- ===== src/Scoring/Score/Exact.antt =====
-- On findings whose EPSS is a probability the formula is arithmetic on whole numbers.
use docker_ls.Prelude.{ℕ, ◌+◌, ◌*◌, ◌≤◌, ◌≡◌, refl, ap, List, [], ◌∷◌, Bool, All, count, arith}
use docker_ls.Prelude.{if◌then◌else◌}
use docker_ls.Prelude.Int.{ℤ, pos, ◌+ℤ◌, ◌-ℤ◌, sub_ℕ, scale}
use docker_ls.Prelude.Float.{Float, finite, ◌≤F◌, ◌⊕◌, times, negated}
use docker_ls.Evidence.Vulnerability.{Vulnerability, probability_one}
use docker_ls.Evidence.Scan.{ScanResult, critical_count, high_count, medium_count}
use docker_ls.Evidence.Image.{DockerImage}
use docker_ls.Scoring.Score

-- A number of hundred-thousandths between 0 and 1.
abbrev pub IsProbability : Float → Type 0
IsProbability p = (e : ℕ) × (p ≡ finite (pos e)) × (e ≤ probability_one)

abbrev pub HasProbability : Vulnerability → Type 0
HasProbability v = IsProbability v.epss_score

-- The sum of the probabilities, in hundred-thousandths.
unfoldable pub epss_units : (vs : List Vulnerability) → All HasProbability vs → ℕ
epss_units [] h = 0
epss_units (v ∷ vs) (p, h) = p.0 + epss_units vs h

pub finite-⊕ : (m n : ℕ) → (finite (pos m) ⊕ finite (pos n)) ≡ finite (pos (m + n))
unfolding ◌⊕◌ ◌+ℤ◌
finite-⊕ m n = ground arith

pub times-finite : (k n : ℕ) → times k (finite (pos n)) ≡ finite (pos (k * n))
unfolding times scale
times-finite k n = ground arith

pub epss_total-eq :
    (vs : List Vulnerability) (h : All HasProbability vs)
    → Score.epss_total vs ≡ finite (pos (epss_units vs h))
unfolding Score.epss_total epss_units
epss_total-eq [] h = refl
epss_total-eq (v ∷ vs) (p, h) = rw (p.1, epss_total-eq vs h) (finite-⊕ p.0 (epss_units vs h))

-- What the findings cost.
unfoldable pub finding_units : (s : ScanResult) → All HasProbability s.vulnerabilities → ℕ
finding_units s h =
    critical_count s * Score.critical_penalty
    + high_count s * Score.high_penalty
    + medium_count s * Score.medium_penalty
    + Score.exploited_penalty * count (λ v. v.exploit_known) s.vulnerabilities
    + Score.high_epss_penalty
      * count (λ v. Score.high_epss_threshold ≤F v.epss_score) s.vulnerabilities
    + Score.epss_slope * epss_units s.vulnerabilities h

-- What does not depend on the findings.
unfoldable pub image_units : ℕ → DockerImage → Bool → ℕ
image_units now i is_eol = (if is_eol then Score.eol_penalty else 0) + Score.age_penalty now i

pub penalty-eq :
    (now : ℕ) (i : DockerImage) (s : ScanResult) (is_eol : Bool)
    (h : All HasProbability s.vulnerabilities)
    → Score.penalty now i s is_eol ≡ finite (pos (finding_units s h + image_units now i is_eol))
unfolding Score.penalty finding_units image_units
penalty-eq now i s is_eol h =
    rw (epss_total-eq s.vulnerabilities h, times-finite)
      (simp finite-⊕ (ap (λ n. finite (pos n)) (omega arith)))

-- The score before rounding.
unfoldable pub raw_units : ℕ → ℕ → ℤ
raw_units earned cost = sub_ℕ (Score.base_score + earned) cost

raw_units-eq :
    (earned cost : ℕ)
    → pos Score.base_score +ℤ (pos 0 -ℤ pos cost) +ℤ pos earned ≡ raw_units earned cost
unfolding raw_units ◌+ℤ◌ ◌-ℤ◌
raw_units-eq earned cost = ground arith

pub unrounded-eq :
    (now : ℕ) (i : DockerImage) (s : ScanResult) (is_eol is_lts : Bool)
    (h : All HasProbability s.vulnerabilities)
    → Score.unrounded now i s is_eol is_lts
      ≡ finite (raw_units (Score.bonus now i is_lts) (finding_units s h + image_units now i is_eol))
unfolding negated ◌⊕◌
unrounded-eq now i s is_eol is_lts h = rw (penalty-eq now i s is_eol h, raw_units-eq)

pub calculate-eq :
    (now : ℕ) (i : DockerImage) (s : ScanResult) (is_eol is_lts : Bool)
    (h : All HasProbability s.vulnerabilities)
    → Score.calculate now i s is_eol is_lts
      ≡ Score.reported (
          finite
            (raw_units (Score.bonus now i is_lts) (finding_units s h + image_units now i is_eol)))
unfolding Score.calculate
calculate-eq now i s is_eol is_lts h = ap Score.reported (unrounded-eq now i s is_eol is_lts h)
