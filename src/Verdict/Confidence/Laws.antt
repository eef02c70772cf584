-- ===== src/Verdict/Confidence/Laws.antt =====
-- What each level of confidence requires, and that evidence never counts against an image.
use docker_ls.Prelude.{ℕ, ◌≤◌, ◌≡◌, ◌≢◌, ◌↔◌, ◌⊎◌, [], Bool, true, false, Option, none, some, arith}
use docker_ls.Verdict.Confidence.{unverified, low, high, confidence_rank, ConfidenceInputs, assess}

-- HIGH is given exactly to a completed scan of a resolved digest that a second scanner corroborated
-- with no divergence, whose tag the registry does not refute, and with a quarter of the hardening
-- model or more determined.
assess_high_iff :
    (i : ConfidenceInputs)
    → ((assess i).0 ≡ high) ↔ (
        (i.scan_verified ≡ true)
        × (i.cross_validated ≡ true)
        × (i.scanners_disagree ≡ false)
        × (i.scanners_differ_slightly ≡ false)
        × (i.digest_resolved ≡ true)
        × (i.registry_verified ≢ some false)
        × (250 ≤ i.hardening_coverage))
unfolding assess
assess_high_iff i = (λ h. ground arith, λ h. ground arith)

-- UNVERIFIED is given exactly where the scan did not complete; LOW exactly where it did and the
-- registry refutes the tag, two scanners disagree, or the reference is neither pinned nor confirmed.
assess_floor_iff :
    (i : ConfidenceInputs)
    → (((assess i).0 ≡ unverified) ↔ (i.scan_verified ≡ false))
      × (((assess i).0 ≡ low) ↔ (
          (i.scan_verified ≡ true)
          × ((i.registry_verified ≡ some false)
              ⊎ (i.scanners_disagree ≡ true)
              ⊎ ((i.digest_resolved ≡ false) × (i.registry_verified ≢ some true)))))
unfolding assess
assess_floor_iff i =
    ((λ h. ground arith, λ h. ground arith), (λ h. ground arith, λ h. ground arith))

-- No level is given without a reason.
pub assess_reasons : (i : ConfidenceInputs) → (assess i).1 ≢ []
unfolding assess
assess_reasons i = ground arith

-- What the registry said, from a refutation to a confirmation.
abbrev pub standing : Option Bool → ℕ
standing (some false) = 0
standing none = 1
standing (some true) = 2

-- The inputs j hold all the evidence for the image that i holds, and no more against it.
pub record NoWorse (i j : ConfidenceInputs) : Type 0 where
  pub scan : i.scan_verified ≡ true → j.scan_verified ≡ true
  pub second : i.cross_validated ≡ true → j.cross_validated ≡ true
  pub disagree : j.scanners_disagree ≡ true → i.scanners_disagree ≡ true
  pub differ : j.scanners_differ_slightly ≡ true → i.scanners_differ_slightly ≡ true
  pub digest : i.digest_resolved ≡ true → j.digest_resolved ≡ true
  pub registry : standing i.registry_verified ≤ standing j.registry_verified
  pub coverage : i.hardening_coverage ≤ j.hardening_coverage

-- More evidence for an image, or less against it, never lowers its confidence.
pub assess_mono :
    (i j : ConfidenceInputs)
    → NoWorse i j
    → confidence_rank (assess i).0 ≤ confidence_rank (assess j).0
unfolding assess
assess_mono i j h = ground arith
