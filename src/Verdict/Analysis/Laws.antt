-- ===== src/Verdict/Analysis/Laws.antt =====
-- What the verdict of a whole analysis may claim.
use docker_ls.Prelude.{
  ◌≤◌, ◌≡◌, ◌≢◌, ◌↔◌, ◌⊎◌, inl, inr, [], Bool, true, false, some, arith, Bool-cases, is_empty, ap,
}
use docker_ls.Prelude.Text.{Text}
use docker_ls.Evidence.Tristate.{Tristate}
use docker_ls.Evidence.Scan.{ScanResult, is_verified, critical_count, high_count}
use docker_ls.Evidence.Image.{identity_confirmed}
use docker_ls.Scoring.Tier.{tier_index}
use docker_ls.CrossValidation.{material_divergence, minor_divergence, Tolerance, compare_scans}
use docker_ls.CrossValidation.Laws.{compare_scans_said}
use docker_ls.Verdict.Confidence.{confidence_rank, assess}
use docker_ls.Verdict.Readiness.{
  BlockingReason, not_measured, low_confidence, end_of_life, critical_findings, high_findings,
  scanner_divergence, tier_too_low,
}
use docker_ls.Verdict.Readiness.Laws.{is_ready_iff, Blocks}
use docker_ls.Verdict.Analysis.{
  ImageAnalysis, confidence_inputs, readiness_inputs, finalize_verdict, apply_second_opinion,
}

-- The facts that a production verdict stands on.
abbrev pub Deployable : ImageAnalysis → Type 0
Deployable a =
    (is_verified a.scan ≡ true)
    × (critical_count a.scan ≡ 0)
    × (high_count a.scan ≡ 0)
    × (a.scan_divergence ≡ [])
    × (tier_index a.tier ≤ 1)
    × (a.eol_status ≢ Tristate.true)
    × (a.hub_tag_verified ≢ some false)
    × ((identity_confirmed a.image ≡ true) ⊎ (a.hub_tag_verified ≡ some true))

module _ (a : ImageAnalysis) (cross_validated : Bool) where
  ready-Deployable : (finalize_verdict a cross_validated).production_ready ≡ true → Deployable a
  unfolding finalize_verdict assess
  ready-Deployable ready =
      let clear =
        (is_ready_iff (readiness_inputs a (assess (confidence_inputs a cross_validated)).0)).0
          ready in
      ground (
        arith,
        clear not_measured,
        clear low_confidence,
        clear end_of_life,
        clear critical_findings,
        clear high_findings,
        clear scanner_divergence,
        clear tier_too_low,
      )

  Deployable-ready : Deployable a → (finalize_verdict a cross_validated).production_ready ≡ true
  unfolding finalize_verdict assess
  Deployable-ready d =
      (is_ready_iff (readiness_inputs a (assess (confidence_inputs a cross_validated)).0)).1
        (unblocked)
    where
      unblocked :
          (r : BlockingReason)
          → ¬ Blocks r (readiness_inputs a (assess (confidence_inputs a cross_validated)).0)
      unblocked not_measured b = ground arith
      unblocked _ b = ground arith

  -- An analysis is called production ready exactly when it rests on a completed scan with no CRITICAL
  -- and no HIGH finding, there is no material divergence of two scanners, the tier is A or B, the
  -- release is not known to be at its end of life, the registry does not refute the tag, and it
  -- confirmed the platform digest or the tag.
  pub production_ready_iff :
      ((finalize_verdict a cross_validated).production_ready ≡ true) ↔ Deployable a
  production_ready_iff = (ready-Deployable, Deployable-ready)

module _ (t : Tolerance) (scanner : Text) (kept : Bool) (a : ImageAnalysis) (secondary : ScanResult)
    (cross_validated : Bool) (done : is_verified secondary ≡ true) where
  abbrev verdict : ImageAnalysis
  verdict = finalize_verdict (apply_second_opinion t scanner kept a secondary) cross_validated

  disputed :
      (compare_scans t a.scan secondary).0 ≡ material_divergence
      → is_empty (apply_second_opinion t scanner kept a secondary).scan_divergence ≡ false
  unfolding apply_second_opinion
  disputed h = ground (arith, compare_scans_said t a.scan secondary)

  not_ready :
      (compare_scans t a.scan secondary).0 ≡ material_divergence → verdict.production_ready ≡ false
  not_ready h = elim (Bool-cases verdict.production_ready) [
    | inl ready ↦
        let clear =
          ready-Deployable (apply_second_opinion t scanner kept a secondary) cross_validated
            ready in
        cc (ap is_empty clear.3, disputed h)
    | inr refused ↦ refused
  ]

  -- Where a completed second scan differs materially from the first, the verdict is not production
  -- ready and the confidence is at most LOW.
  pub second_opinion_material :
      (compare_scans t a.scan secondary).0 ≡ material_divergence
      → (verdict.production_ready ≡ false) × (confidence_rank verdict.confidence ≤ 1)
  unfolding finalize_verdict assess apply_second_opinion
  second_opinion_material h = (not_ready h, ground (arith, disputed h))

  -- Where a completed second scan differs in a minor way from the first, the confidence is not HIGH.
  pub second_opinion_minor :
      (compare_scans t a.scan secondary).0 ≡ minor_divergence
      → confidence_rank verdict.confidence ≤ 2
  unfolding finalize_verdict assess apply_second_opinion
  second_opinion_minor h = ground arith
