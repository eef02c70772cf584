-- ===== src/Verdict/Readiness.antt =====
-- dockerls/domain/value_objects/production_readiness.py
pub mod Laws
use docker_ls.Prelude.{ℕ, List, ◌++◌, Bool, not, ltb, is_empty, when}
use docker_ls.Evidence.Tristate.{Tristate, is_true}
use docker_ls.Scoring.Tier.{Tier, is_production_tier}
use docker_ls.Verdict.Confidence.{Confidence, medium, confidence_rank}

pub data BlockingReason : Type 0 where
  not_measured low_confidence end_of_life critical_findings : BlockingReason
  high_findings unfixable_critical scanner_divergence tier_too_low : BlockingReason

-- `MINIMUM_CONFIDENCE`
abbrev pub minimum_confidence : Confidence
minimum_confidence = medium

pub record ReadinessInputs : Type 0 where
  pub tier : Tier
  pub confidence : Confidence
  pub scan_verified : Bool
  pub eol : Tristate
  pub critical_count : ℕ
  pub high_count : ℕ
  pub unfixable_critical_count : ℕ
  pub max_critical : ℕ
  pub max_high : ℕ
  pub has_material_divergence : Bool

-- `ProductionReadiness.evaluate`: the blockers in the order in which they are appended.
unfoldable pub evaluate : ReadinessInputs → List BlockingReason
evaluate i =
    when (not i.scan_verified) not_measured
    ++ (when (ltb (confidence_rank i.confidence) (confidence_rank minimum_confidence))
          low_confidence
        ++ (when (is_true i.eol) end_of_life
            ++ (when (ltb i.max_critical i.critical_count) critical_findings
                ++ (when (ltb i.max_high i.high_count) high_findings
                    ++ (when (ltb 0 i.unfixable_critical_count) unfixable_critical
                        ++ (when i.has_material_divergence scanner_divergence
                            ++ when (not (is_production_tier i.tier)) tier_too_low))))))

-- `ProductionReadiness.is_ready`
unfoldable pub is_ready : List BlockingReason → Bool
is_ready blockers = is_empty blockers
