-- ===== src/Scoring/Score/Unusable.antt =====
-- Values of a feed that are no probabilities: the entity discards them, and one that reaches the
-- score all the same makes it 0.
use docker_ls.Prelude.{
  ℕ, ◌≡◌, refl, ap, inl, inr, List, [], ◌∷◌, Bool, In, arith, Option, none, some,
}
use docker_ls.Prelude.{leb, leb→le, Bool-cases}
use docker_ls.Prelude.Int.{pos, negsuc}
use docker_ls.Prelude.Float.{Float, nan, inf, neg_inf, finite, ◌⊕◌, times, negated}
use docker_ls.Evidence.Vulnerability.{Vulnerability, probability, probability_one}
use docker_ls.Evidence.Scan.{ScanResult}
use docker_ls.Evidence.Image.{DockerImage}
use docker_ls.Scoring.Score
use docker_ls.Scoring.Score.{calculate, reported}
use docker_ls.Scoring.Score.Exact.{IsProbability}

⊕-nan : (x : Float) → (x ⊕ nan) ≡ nan
unfolding ◌⊕◌
⊕-nan nan = refl
⊕-nan inf = refl
⊕-nan neg_inf = refl
⊕-nan (finite z) = refl

nan-⊕ : (x : Float) → (nan ⊕ x) ≡ nan
unfolding ◌⊕◌
nan-⊕ x = refl

times-nan : (k : ℕ) → times k nan ≡ nan
unfolding times
times-nan k = refl

negated-nan : negated nan ≡ nan
unfolding negated
negated-nan = refl

reported-nan : reported nan ≡ 0
unfolding reported
reported-nan = refl

ruleset nan_laws = (⊕-nan, nan-⊕, times-nan, negated-nan, reported-nan)

epss_total-nan :
    (v : Vulnerability) (vs : List Vulnerability)
    → v.epss_score ≡ nan
    → In v vs
    → Score.epss_total vs ≡ nan
unfolding Score.epss_total
epss_total-nan v [] e m = elim m [ ]
epss_total-nan v (w ∷ vs) e (inl same) =
    rw (← ap (λ (x : Vulnerability). x.epss_score) same, e) (nan-⊕ _)
epss_total-nan v (w ∷ vs) e (inr later) = rw (epss_total-nan v vs e later) (⊕-nan _)

-- A scan in which one finding carries NaN for its EPSS value scores 0, the bottom of the scale,
-- whatever the image and the other findings are.
calculate-nan :
    (v : Vulnerability) (now : ℕ) (i : DockerImage) (s : ScanResult) (is_eol is_lts : Bool)
    → v.epss_score ≡ nan
    → In v s.vulnerabilities
    → calculate now i s is_eol is_lts ≡ 0
unfolding calculate Score.penalty
calculate-nan v now i s is_eol is_lts e m =
    rw (epss_total-nan v s.vulnerabilities e m) (simp nan_laws)

-- Whatever a feed answered, `_probability` makes it a number of hundred-thousandths from 0 to 1.
pub probability-IsProbability : (answer : Option Float) → IsProbability (probability answer)
unfolding probability
probability-IsProbability none = (0, refl, omega arith)
probability-IsProbability (some nan) = (0, refl, omega arith)
probability-IsProbability (some inf) = (0, refl, omega arith)
probability-IsProbability (some neg_inf) = (0, refl, omega arith)
probability-IsProbability (some (finite (pos n))) = elim (Bool-cases (leb n probability_one)) [
  | inl fits ↦ (n, ground arith, leb→le _ _ fits)
  | inr beyond ↦ (0, ground arith, omega arith)
]
probability-IsProbability (some (finite (negsuc n))) = (0, ground arith, omega arith)
