-- ===== src/CrossValidation/Laws.antt =====
-- Which differences between two scans make which outcome.
use docker_ls.Prelude.{◌≡◌, ◌≢◌, ◌↔◌, ◌⊎◌, inl, inr, refl, List, [], ◌∷◌, ◌++◌, true, false}
use docker_ls.Prelude.{In, is_empty, arith}
use docker_ls.Prelude.Text.{Text}
use docker_ls.Evidence.Vulnerability.{Severity, critical, high}
use docker_ls.Evidence.Scan.{ScanResult}
use docker_ls.CrossValidation.{
  CrossValidationOutcome, no_second_scanner, agreement, material_divergence, Tolerance, identities,
  compare_band, compare_scans, worse,
}
use docker_ls.CrossValidation.Sets.{minus, is_empty-minus}

-- Two lists hold the same texts.
abbrev pub SameSet : List Text → List Text → Type 0
SameSet xs ys = (x : Text) → In x xs ↔ In x ys

is_empty-both :
    (xs ys : List Text)
    → ((is_empty (minus xs ys) ≡ true) × (is_empty (minus ys xs) ≡ true)) ↔ SameSet xs ys
is_empty-both xs ys = (
  λ (e, d) x. ((is_empty-minus xs ys).0 e x, (is_empty-minus ys xs).0 d x),
  λ same. (
    (is_empty-minus xs ys).1 (λ x m. (same x).0 m),
    (is_empty-minus ys xs).1 (λ x m. (same x).1 m),
  ),
)

module _ (t : Tolerance) (level : Severity) (mine theirs : List Text) where
  compare_band-agreement : ((compare_band t level mine theirs).0 ≡ agreement) ↔ SameSet mine theirs
  unfolding compare_band
  compare_band-agreement = (
    λ h. (is_empty-both mine theirs).0 (ground arith),
    λ same. ground (arith, (is_empty-both mine theirs).1 same),
  )

  compare_band_comm : (compare_band t level mine theirs).0 ≡ (compare_band t level theirs mine).0
  unfolding compare_band
  compare_band_comm = ground arith

  compare_band-ne-no_second : (compare_band t level mine theirs).0 ≢ no_second_scanner
  unfolding compare_band
  compare_band-ne-no_second = ground arith

  compare_band_said :
      (compare_band t level mine theirs).0 ≡ material_divergence
      → is_empty (compare_band t level mine theirs).1 ≡ false
  unfolding compare_band
  compare_band_said h = ground arith

is_empty-append :
    {A : Type 0} (xs ys : List A)
    → (is_empty xs ≡ false) ⊎ (is_empty ys ≡ false)
    → is_empty (xs ++ ys) ≡ false
is_empty-append [] ys h = ground arith
is_empty-append (x ∷ xs) ys h = refl

worse-material :
    (a b : CrossValidationOutcome)
    → worse (worse agreement a) b ≡ material_divergence
    → (a ≡ material_divergence) ⊎ (b ≡ material_divergence)
worse-material a b h = ground arith

-- A material divergence is never reported without a word about the band it is in.
pub compare_scans_said :
    (t : Tolerance) (p s : ScanResult)
    → (compare_scans t p s).0 ≡ material_divergence
    → is_empty (compare_scans t p s).1 ≡ false
unfolding compare_scans
compare_scans_said t p s h =
    let (first, said) = compare_band t critical (identities critical p) (identities critical s) in
    let (second, more) = compare_band t high (identities high p) (identities high s) in
    is_empty-append said more (elim (worse-material first second h) [
      | inl c ↦ inl (compare_band_said t critical (identities critical p) (identities critical s) c)
      | inr d ↦ inr (compare_band_said t high (identities high p) (identities high s) d)
    ])

-- The outcome does not depend on which scanner is the first.
pub compare_scans_comm :
    (t : Tolerance) (p s : ScanResult) → (compare_scans t p s).0 ≡ (compare_scans t s p).0
unfolding compare_scans
compare_scans_comm t p s = ground (
  arith,
  compare_band_comm t critical (identities critical p) (identities critical s),
  compare_band_comm t high (identities high p) (identities high s),
)

worse-agreement :
    (a b : CrossValidationOutcome)
    → a ≢ no_second_scanner
    → b ≢ no_second_scanner
    → worse (worse agreement a) b ≡ agreement
    → (a ≡ agreement) × (b ≡ agreement)
worse-agreement a b ha hb h = ground arith

-- Two scans agree exactly when they name the same CRITICAL and the same HIGH findings, by CVE and
-- package; equal counts are not enough.
pub compare_scans-agreement :
    (t : Tolerance) (p s : ScanResult)
    → ((compare_scans t p s).0 ≡ agreement) ↔ (
        SameSet (identities critical p) (identities critical s)
        × SameSet (identities high p) (identities high s))
unfolding compare_scans
compare_scans-agreement t p s =
    let bands = compare_band-agreement t in
    (
      λ h.
          let (c, d) =
            worse-agreement _ _ (compare_band-ne-no_second t critical _ _)
              (compare_band-ne-no_second t high _ _) h in
          ((bands critical _ _).0 c, (bands high _ _).0 d),
      λ (c, h). rw ((bands critical _ _).1 c, (bands high _ _).1 h),
    )
