-- ===== src/Verdict/Analysis.antt =====
-- The analysis of one image (dockerls/application/dto/analysis.py) and how evidence is written into
-- it: `finalize_verdict` and `cross_validation_agreed` of dockerls/application/services/verdict.py,
-- and the end of `CrossValidator._validate_one`. Scores and coverages are in tenths and thousandths.
-- The texts of `why` and `trade_offs` are left out, with the fields that only reports read.
pub mod Laws
use docker_ls.Prelude.{
  ℕ, ◌-◌, List, [], Bool, true, false, not, is_empty, Option, if◌then◌else◌, leb,
}
use docker_ls.Prelude.{◌&&◌, length, ◌∷◌}
use docker_ls.Prelude.Text.{Text, contains}
use docker_ls.Evidence.Tristate.{Tristate}
use docker_ls.Evidence.Scan.{
  ScanResult, is_verified, critical_count, high_count, fixable_critical_count,
}
use docker_ls.Evidence.Image.{DockerImage, identity_confirmed}
use docker_ls.Scoring.Tier.{Tier}
use docker_ls.CrossValidation.{
  CrossValidationOutcome, agreement, minor_divergence, material_divergence, Tolerance, BandReport,
  compare_scans,
}
use docker_ls.Verdict.Confidence.{Confidence, ConfidenceInputs, Reason, assess}
use docker_ls.Verdict.Readiness.{BlockingReason, ReadinessInputs, evaluate, is_ready}

-- `DimensionReport`, without the lists that explain the score
pub record DimensionReport : Type 0 where
  pub score : ℕ
  pub coverage : ℕ
  pub reportable : Bool

pub record ImageAnalysis : Type 0 where
  pub image : DockerImage
  pub scan : ScanResult
  pub security_score : ℕ
  pub tier : Tier
  pub remediation_score : ℕ
  pub production_ready : Bool
  pub readiness_blockers : List BlockingReason
  pub eol_status : Tristate
  pub scan_divergence : List BandReport
  pub cross_validation : CrossValidationOutcome
  pub hub_tag_verified : Option Bool
  pub evidence_scanners : List Text
  pub hardening : DimensionReport
  pub attack_surface : DimensionReport
  pub confidence : Confidence
  pub confidence_reasons : List Reason

abbrev is_minor : CrossValidationOutcome → Bool
is_minor minor_divergence = true
is_minor _ = false

abbrev is_agreement : CrossValidationOutcome → Bool
is_agreement agreement = true
is_agreement _ = false

abbrev is_material_divergence : CrossValidationOutcome → Bool
is_material_divergence material_divergence = true
is_material_divergence _ = false

-- The inputs that `finalize_verdict` hands to `ConfidenceAssessment`.
unfoldable pub confidence_inputs : ImageAnalysis → Bool → ConfidenceInputs
confidence_inputs a cross_validated = record {
  scan_verified = is_verified a.scan;
  cross_validated = cross_validated;
  scanners_disagree = not (is_empty a.scan_divergence);
  scanners_differ_slightly = is_minor a.cross_validation;
  digest_resolved = identity_confirmed a.image;
  registry_verified = a.hub_tag_verified;
  hardening_coverage = a.hardening.coverage;
}

-- The inputs that it hands to `ProductionReadiness.evaluate`; the two limits keep their default 0.
unfoldable pub readiness_inputs : ImageAnalysis → Confidence → ReadinessInputs
readiness_inputs a confidence = record {
  tier = a.tier;
  confidence = confidence;
  scan_verified = is_verified a.scan;
  eol = a.eol_status;
  critical_count = critical_count a.scan;
  high_count = high_count a.scan;
  unfixable_critical_count = critical_count a.scan - fixable_critical_count a.scan;
  max_critical = 0;
  max_high = 0;
  has_material_divergence = not (is_empty a.scan_divergence);
}

-- `finalize_verdict`
unfoldable pub finalize_verdict : ImageAnalysis → Bool → ImageAnalysis
unfolding confidence_inputs readiness_inputs
finalize_verdict a cross_validated =
    let (level, reasons) = assess (confidence_inputs a cross_validated) in
    let blockers = evaluate (readiness_inputs a level) in
    record a {
      confidence = level;
      confidence_reasons = reasons;
      production_ready = is_ready blockers;
      readiness_blockers = blockers;
    }

-- `cross_validation_agreed`; `evidence_scanners` are the keys of `evidence_paths`.
unfoldable pub cross_validation_agreed : ImageAnalysis → Bool
cross_validation_agreed a =
    if is_agreement a.cross_validation
    then true
    else leb 2 (length a.evidence_scanners) && is_empty a.scan_divergence

-- `analysis.evidence_paths[scanner] = …`, where the scan kept its raw output
abbrev add_scanner : Text → Bool → List Text → List Text
add_scanner scanner kept scanners =
    if kept && not (contains scanners scanner) then scanner ∷ scanners else scanners

-- The end of `_validate_one`: what a second scan changes in the analysis. `scanner` names the second
-- scanner, and `kept` says whether its result has an `evidence_path`.
unfoldable pub apply_second_opinion :
    Tolerance → Text → Bool → ImageAnalysis → ScanResult → ImageAnalysis
apply_second_opinion t scanner kept a secondary =
    let (outcome, description) = compare_scans t a.scan secondary in
    if is_verified secondary
    then record a {
      evidence_scanners = add_scanner scanner kept a.evidence_scanners;
      cross_validation = outcome;
      scan_divergence = if is_material_divergence outcome then description else a.scan_divergence;
    }
    else a
