-- ===== src/Examples/Verdict.antt =====
-- The second opinion, the verdict and the ranking of the image of the examples.
use docker_ls.Prelude.{
  ◌≤◌, ◌≡◌, ◌↔◌, refl, List, [], ◌∷◌, Bool, true, false, none, some, arith, AllPairs, count, ◌==◌,
  ◌&&◌,
}
use docker_ls.Prelude.Text.{Text, codes, text_eq, upper, strip, lower}
use docker_ls.Evidence.Vulnerability.{Vulnerability, critical, high, finding_identity}
use docker_ls.Evidence.Scan.{is_verified}
use docker_ls.CrossValidation.{
  agreement, compare_scans, identities, default_tolerance, compare_band, is_material,
}
use docker_ls.CrossValidation.Sets.{minus, distinct}
use docker_ls.CrossValidation.Laws.{SameSet, compare_scans-agreement}
use docker_ls.Verdict.Confidence.{ConfidenceInputs, Confidence, confidence_rank, assess}
use docker_ls.Verdict.Confidence.Laws.{assess_mono}
use docker_ls.Verdict.Readiness.{ReadinessInputs}
use docker_ls.Verdict.Analysis.{
  ImageAnalysis, readiness_inputs, finalize_verdict, apply_second_opinion,
}
use docker_ls.Verdict.Analysis.Laws.{Deployable, production_ready_iff, second_opinion_material}
use docker_ls.Verdict.Ranking.{rank, ranks_at_least, reportable_score}
use docker_ls.Verdict.Ranking.Laws.{Precedes, rank_sorted}
use docker_ls.Examples.Data.{openssl, zlib, scan_of, analysis_of}

abbrev clean : ImageAnalysis
clean = analysis_of (scan_of (zlib ∷ []))

production_ready_iff_example :
    ((finalize_verdict clean true).production_ready ≡ true) ↔ Deployable clean
production_ready_iff_example = production_ready_iff clean true

-- Three HIGH findings that the first scanner does not report
abbrev flagged : List Vulnerability
flagged =
    openssl
    ∷ record openssl { package_name = codes "curl" }
    ∷ record openssl { package_name = codes "expat" }
    ∷ []

second_opinion_material_example :
    let verdict =
      finalize_verdict
        (apply_second_opinion default_tolerance (codes "grype") true clean (scan_of flagged))
        true in
    (verdict.production_ready ≡ false) × (confidence_rank verdict.confidence ≤ 1)
unfolding is_verified compare_scans compare_band is_material identities minus distinct text_eq
    finding_identity upper strip lower
second_opinion_material_example =
    second_opinion_material default_tolerance (codes "grype") true clean (scan_of flagged) true refl
      refl

compare_scans-agreement_example :
    let p = scan_of (zlib ∷ []) in
    let s = scan_of flagged in
    ((compare_scans default_tolerance p s).0 ≡ agreement) ↔ (
      SameSet (identities critical p) (identities critical s)
      × SameSet (identities high p) (identities high s))
compare_scans-agreement_example =
    compare_scans-agreement default_tolerance (scan_of (zlib ∷ [])) (scan_of flagged)

abbrev corroborated_inputs : ConfidenceInputs
corroborated_inputs = record {
  scan_verified = true;
  cross_validated = true;
  scanners_disagree = false;
  scanners_differ_slightly = false;
  digest_resolved = true;
  registry_verified = some true;
  hardening_coverage = 600;
}

abbrev disputed_inputs : ConfidenceInputs
disputed_inputs = record corroborated_inputs {
  cross_validated = false;
  scanners_disagree = true;
  registry_verified = none;
  hardening_coverage = 100;
}

assess_mono_example :
    confidence_rank (assess disputed_inputs).0 ≤ confidence_rank (assess corroborated_inputs).0
assess_mono_example = assess_mono disputed_inputs corroborated_inputs (record {
  scan = λ h. h;
  second = λ h. refl;
  disagree = λ h. refl;
  differ = λ h. h;
  digest = λ h. h;
  registry = omega arith;
  coverage = omega arith;
})

abbrev risky_inputs : ReadinessInputs
risky_inputs = readiness_inputs (analysis_of (scan_of (openssl ∷ []))) Confidence.medium

abbrev candidates : List ImageAnalysis
candidates =
    record clean { security_score = 900 }
    ∷ record clean { security_score = 950; confidence = Confidence.high }
    ∷ record clean { security_score = 900; hub_tag_verified = none }
    ∷ []

rank_sorted_example :
    AllPairs Precedes (rank candidates)
    × ((p : ImageAnalysis → Bool) → count p (rank candidates) ≡ count p candidates)
rank_sorted_example = rank_sorted candidates

-- The candidates that stand where the first of them does, in each term that the ranking reads
abbrev ranks_as_first : ImageAnalysis → Bool
ranks_as_first a =
    confidence_rank a.confidence == 0
    && a.security_score == 900
    && reportable_score a.hardening == 800
    && reportable_score a.attack_surface == 800
    && a.remediation_score == 100

alike :
    (a b : ImageAnalysis)
    → ranks_as_first a ≡ true
    → ranks_as_first b ≡ true
    → ranks_at_least a b ≡ true
unfolding ranks_at_least
alike a b p q = ground arith

abbrev reasons : List Text
reasons = codes "no shell" ∷ [] ∷ codes "signed" ∷ codes "no shell" ∷ []
