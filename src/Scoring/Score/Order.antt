-- ===== src/Scoring/Score/Order.antt =====
-- What moves a score down, and what cannot move it up.
use mathlib.Core.Path.{subst}
use docker_ls.Prelude.{ℕ, ◌+◌, ◌-◌, true, false, ◌≤◌, ◌≡◌, refl, ◌⊎◌, inl, inr, ◌∷◌, Bool, All}
use docker_ls.Prelude.{arith, leb, leb→le, le→leb, Bool-cases}
use docker_ls.Prelude.Int.{pos, negsuc, ◌≤ℤ◌}
use docker_ls.Prelude.Float.{finite}
use docker_ls.Evidence.Vulnerability.{Vulnerability, high, critical}
use docker_ls.Evidence.Scan.{ScanResult, critical_count, high_count, medium_count}
use docker_ls.Evidence.Image.{DockerImage}
use docker_ls.Scoring.Score
use docker_ls.Scoring.Score.{calculate, reported, unrounded}
use docker_ls.Scoring.Score.Rounding.{reported_mono, IsNear, reported-IsNear, near_gap}
use docker_ls.Scoring.Score.Exact.{
  HasProbability, finding_units, image_units, raw_units, calculate-eq, unrounded-eq, epss_units,
}

-- The same scan with one more finding.
abbrev pub with_finding : Vulnerability → ScanResult → ScanResult
with_finding v s = record s { vulnerabilities = v ∷ s.vulnerabilities }

-- A cost that is not lower gives a score that is not higher.
raw_units_antitone :
    (earned cheap dear : ℕ) → cheap ≤ dear → raw_units earned dear ≤ℤ raw_units earned cheap
unfolding raw_units
raw_units_antitone earned cheap dear h = ground arith

bonus-le : (now : ℕ) (i : DockerImage) (is_lts : Bool) → Score.bonus now i is_lts ≤ Score.max_bonus
unfolding Score.bonus
bonus-le now i is_lts = ground arith

module _ (earned cost : ℕ) where
  raw_units-pos :
      leb cost (Score.base_score + earned) ≡ true
      → raw_units earned cost ≡ pos (Score.base_score + earned - cost)
  unfolding raw_units
  raw_units-pos e = rw e refl

  raw_units-negsuc :
      leb cost (Score.base_score + earned) ≡ false
      → raw_units earned cost ≡ negsuc (cost - (Score.base_score + earned) - 1)
  unfolding raw_units
  raw_units-negsuc e = rw e refl

-- A HIGH finding costs a point more than all signals give.
near-raw_units :
    (more less dear cheap x y : ℕ)
    → more ≤ Score.max_bonus
    → less ≤ Score.max_bonus
    → cheap + Score.high_penalty ≤ dear
    → IsNear (finite (raw_units more dear)) x
    → IsNear (finite (raw_units less cheap)) y
    → (x + 9 ≤ y) ⊎ (x ≡ 0)
near-raw_units more less dear cheap x y hm hl h near_x near_y =
    elim (Bool-cases (leb dear (Score.base_score + more))) [
      | inl room ↦
          let fits : dear ≤ Score.base_score + more = leb→le _ _ room in
          let other : leb cheap (Score.base_score + less) ≡ true =
            le→leb cheap (Score.base_score + less) (omega arith) in
          inl (
            near_gap (Score.base_score + more - dear) (Score.base_score + less - cheap) x y
              (omega arith) (omega arith)
              (subst (λ z. IsNear (finite z) x) (raw_units-pos more dear room) near_x)
              (subst (λ z. IsNear (finite z) y) (raw_units-pos less cheap other) near_y))
      | inr lost ↦ inr (subst (λ z. IsNear (finite z) x) (raw_units-negsuc more dear lost) near_x)
    ]

module _ (v : Vulnerability) (s : ScanResult) (p : HasProbability v)
    (h : All HasProbability s.vulnerabilities) where
  finding_units-with_finding : finding_units s h ≤ finding_units (with_finding v s) (p, h)
  unfolding finding_units critical_count high_count medium_count epss_units
  finding_units-with_finding = ground arith

  finding_units-with_high :
      (v.severity ≡ high) ⊎ (v.severity ≡ critical)
      → finding_units s h + Score.high_penalty ≤ finding_units (with_finding v s) (p, h)
  unfolding finding_units critical_count high_count medium_count epss_units
  finding_units-with_high (inl e) = rw e (ground arith)
  finding_units-with_high (inr e) = rw e (ground arith)

  -- One more finding, of any severity, with or without a known exploit, never raises the score of
  -- an image, provided that every EPSS value is a probability.
  pub calculate-with_finding :
      (now : ℕ) (i : DockerImage) (is_eol is_lts : Bool)
      → calculate now i (with_finding v s) is_eol is_lts ≤ calculate now i s is_eol is_lts
  calculate-with_finding now i is_eol is_lts =
      rw
        (
          calculate-eq now i s is_eol is_lts h,
          calculate-eq now i (with_finding v s) is_eol is_lts (p, h),
        )
        (reported_mono _ _ (raw_units_antitone _ _ _ (omega (arith, finding_units-with_finding))))

  module _ (now : ℕ) (i j : DockerImage) (is_eol lts_i lts_j : Bool) where
    any_outweighs :
        (v.severity ≡ high) ⊎ (v.severity ≡ critical)
        → Score.age_penalty now i ≡ Score.age_penalty now j
        → (x y : ℕ) → IsNear (unrounded now j (with_finding v s) is_eol lts_j) x
        → IsNear (unrounded now i s is_eol lts_i) y
        → (x + 9 ≤ y) ⊎ (x ≡ 0)
    unfolding image_units
    any_outweighs severe same_age x y near_x near_y =
        near-raw_units (Score.bonus now j lts_j) _ _ _ x y (bonus-le now j lts_j)
          (bonus-le now i lts_i) (omega (arith, finding_units-with_high severe, same_age))
          (subst (λ z. IsNear z x) (unrounded-eq now j (with_finding v s) is_eol lts_j (p, h))
            near_x)
          (subst (λ z. IsNear z y) (unrounded-eq now i s is_eol lts_i h) near_y)

    -- Give any image j one more finding of severity HIGH or CRITICAL than image i has, and let the
    -- two have the same end-of-life status and the same age term. Then, whatever signals j has and i
    -- lacks (official, minimal, signed, long-term support, recent), j's score is at least nine tenths
    -- of a point below i's, or it is 0. The same holds of any scores that are next to the exact sums,
    -- so also where binary arithmetic breaks a tie otherwise. Every EPSS value is a probability.
    pub high_outweighs_bonus :
        (v.severity ≡ high) ⊎ (v.severity ≡ critical)
        → Score.age_penalty now i ≡ Score.age_penalty now j
        → ((calculate now j (with_finding v s) is_eol lts_j + 9 ≤ calculate now i s is_eol lts_i)
            ⊎ (calculate now j (with_finding v s) is_eol lts_j ≡ 0))
          × ((x y : ℕ)
              → IsNear (unrounded now j (with_finding v s) is_eol lts_j) x
              → IsNear (unrounded now i s is_eol lts_i) y
              → (x + 9 ≤ y) ⊎ (x ≡ 0))
    unfolding calculate
    high_outweighs_bonus severe same_age = (
      any_outweighs severe same_age _ _
          (reported-IsNear (unrounded now j (with_finding v s) is_eol lts_j))
          (reported-IsNear (unrounded now i s is_eol lts_i)),
      any_outweighs severe same_age,
    )
