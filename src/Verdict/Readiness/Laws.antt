-- ===== src/Verdict/Readiness/Laws.antt =====
-- When an image is production ready, and which blockers are named when it is not.
use docker_ls.Prelude.{◌≤◌, ◌<◌, ◌≡◌, ◌↔◌, true, false, In, arith}
use docker_ls.Prelude.{is_empty_iff, All, All-when, All-append, All-In, In-when, In-first, In-later}
use docker_ls.Evidence.Tristate.{Tristate}
use docker_ls.Scoring.Tier.{tier_index}
use docker_ls.Verdict.Confidence.{confidence_rank}
use docker_ls.Verdict.Readiness.{
  BlockingReason, not_measured, low_confidence, end_of_life, critical_findings, high_findings,
  unfixable_critical, scanner_divergence, tier_too_low, ReadinessInputs, evaluate, is_ready,
}

-- The fact about the image that each blocker names.
abbrev pub Blocks : BlockingReason → ReadinessInputs → Type 0
Blocks not_measured i = i.scan_verified ≡ false
Blocks low_confidence i = confidence_rank i.confidence < 2
Blocks end_of_life i = i.eol ≡ Tristate.true
Blocks critical_findings i = i.max_critical < i.critical_count
Blocks high_findings i = i.max_high < i.high_count
Blocks unfixable_critical i = 0 < i.unfixable_critical_count
Blocks scanner_divergence i = i.has_material_divergence ≡ true
Blocks tier_too_low i = 2 ≤ tier_index i.tier

reported-Blocks : (i : ReadinessInputs) → All (λ r. Blocks r i) (evaluate i)
unfolding evaluate
reported-Blocks i = All-append _ _ _ (All-when _ _ _ (λ h. ground arith)) (
    All-append _ _ _ (All-when _ _ _ (λ h. ground arith)) (
      All-append _ _ _ (All-when _ _ _ (λ h. ground arith)) (
        All-append _ _ _ (All-when _ _ _ (λ h. ground arith)) (
          All-append _ _ _ (All-when _ _ _ (λ h. ground arith)) (
            All-append _ _ _ (All-when _ _ _ (λ h. ground arith))
              (All-append _ _ _ (All-when _ _ _ (λ h. h)) (All-when _ _ _ (λ h. ground arith))))))))

Blocks-reported : (i : ReadinessInputs) (r : BlockingReason) → Blocks r i → In r (evaluate i)
unfolding evaluate
Blocks-reported i not_measured h = In-first _ _ _ (ground arith)
Blocks-reported i low_confidence h = In-later _ _ _ _ (In-first _ _ _ (ground arith))
Blocks-reported i end_of_life h =
    In-later _ _ _ _ (In-later _ _ _ _ (In-first _ _ _ (ground arith)))
Blocks-reported i critical_findings h =
    In-later _ _ _ _ (In-later _ _ _ _ (In-later _ _ _ _ (In-first _ _ _ (ground arith))))
Blocks-reported i high_findings h =
    In-later _ _ _ _
      (In-later _ _ _ _ (In-later _ _ _ _ (In-later _ _ _ _ (In-first _ _ _ (ground arith)))))
Blocks-reported i unfixable_critical h = In-later _ _ _ _ (
    In-later _ _ _ _
      (In-later _ _ _ _ (In-later _ _ _ _ (In-later _ _ _ _ (In-first _ _ _ (ground arith))))))
Blocks-reported i scanner_divergence h = In-later _ _ _ _ (
    In-later _ _ _ _ (
      In-later _ _ _ _ (In-later _ _ _ _ (In-later _ _ _ _ (In-later _ _ _ _ (In-first _ _ _ h))))))
Blocks-reported i tier_too_low h = In-later _ _ _ _ (
    In-later _ _ _ _ (
      In-later _ _ _ _ (
        In-later _ _ _ _
          (In-later _ _ _ _ (In-later _ _ _ _ (In-later _ _ _ _ (In-when _ _ (ground arith))))))))

-- A blocker is reported exactly when its fact holds.
evaluate_iff : (r : BlockingReason) (i : ReadinessInputs) → In r (evaluate i) ↔ Blocks r i
evaluate_iff r i = (
  λ listed. All-In (λ r. Blocks r i) r (evaluate i) (reported-Blocks i) listed,
  Blocks-reported i r,
)

-- An image is ready exactly when no blocker's fact holds of it.
pub is_ready_iff :
    (i : ReadinessInputs) → (is_ready (evaluate i) ≡ true) ↔ ((r : BlockingReason) → ¬ Blocks r i)
unfolding is_ready
is_ready_iff i =
    let (found, unblocked) = is_empty_iff (evaluate i) in
    (
      λ ready r blocked. found ready r ((evaluate_iff r i).1 blocked),
      λ clear. unblocked (λ r listed. clear r ((evaluate_iff r i).0 listed)),
    )
