-- ===== src/Gate/Evaluate/Laws.antt =====
-- What each gate concludes.
use docker_ls.Prelude.{◌≤◌, ◌≡◌, ◌≢◌, ◌↔◌, ◌⊎◌, inl, inr, refl, List, [], ◌∷◌, true, false}
use docker_ls.Prelude.{
  Option, none, some, arith, any, all, is_empty, filter, In, ap, Bool-cases, length-filter,
  count_mono, any-false, any-false_of, all-false, all-false_of, any-true, any-true_of,
  is_empty-filter, if◌then◌else◌, not, ◌&&◌,
}
use docker_ls.Evidence.Tristate.{Tristate, is_true, is_known}
use docker_ls.Gate.Types.{
  Decimal, Threshold, threshold_index, Finding, GateOutcome, pass, fail, unmeasured,
}
use docker_ls.Gate.Evaluate.{
  Counts, at_or_above, evaluate_severity, kev_listed, kev_unknown, evaluate_kev, has_score, reaches,
  evaluate_epss,
}

-- The KEV gate by quantifiers over the findings.
evaluate_kev_lem :
    (findings : List Finding)
    → (evaluate_kev findings).outcome ≡ (
        if any kev_listed findings
        then fail
        else if not (is_empty findings) && all kev_unknown findings
        then unmeasured
        else pass)
unfolding evaluate_kev
evaluate_kev_lem findings = rw (is_empty-filter kev_listed findings) (ground arith)

any-reaches :
    (floor : Decimal) (findings : List Finding)
    → is_empty (filter (reaches floor) (filter has_score findings))
      ≡ not (any (reaches floor) findings)
any-reaches floor [] = refl
any-reaches floor (f ∷ fs) = ground (arith, any-reaches floor fs)

evaluate_epss_lem :
    (floor : Decimal) (findings : List Finding)
    → (evaluate_epss floor findings).outcome ≡ (
        if any (reaches floor) findings
        then fail
        else if not (is_empty findings) && not (any has_score findings)
        then unmeasured
        else pass)
unfolding evaluate_epss
evaluate_epss_lem floor findings =
    rw (any-reaches floor findings, is_empty-filter has_score findings) (ground arith)

not_true : (x : Tristate) → x ≢ Tristate.true → is_true x ≡ false
not_true x h = ground arith

not_unknown : (x : Tristate) → x ≢ Tristate.unknown → not (is_known x) ≡ false
not_unknown x h = ground arith

-- The two directions of the condition under which the KEV gate passes.
module _ (findings : List Finding) where
  abbrev kev_outcome : GateOutcome
  kev_outcome =
      if any kev_listed findings
      then fail
      else if not (is_empty findings) && all kev_unknown findings
      then unmeasured
      else pass

  abbrev KevPasses : Type 0
  KevPasses =
      ((f : Finding) → In f findings → f.kev ≢ Tristate.true)
      × ((findings ≡ []) ⊎ ((f : Finding) × In f findings × (f.kev ≢ Tristate.unknown)))

  kev_pass_to : kev_outcome ≡ pass → KevPasses
  kev_pass_to h = (
    λ f m e. cc (any-false kev_listed findings (ground arith) f m, ap is_true e),
    elim (Bool-cases (is_empty findings)) [
      | inl e ↦ inl (ground arith)
      | inr e ↦
          let (f, m, k) = all-false kev_unknown findings (ground arith) in
          inr (f, m, λ u. cc (k, ap (λ (x : Tristate). not (is_known x)) u))
    ],
  )

  kev_pass_from : KevPasses → kev_outcome ≡ pass
  kev_pass_from (clear, measured) =
      let unlisted = any-false_of kev_listed findings (λ f m. not_true f.kev (clear f m)) in
      elim measured [
        | inl e ↦ rw (unlisted, e)
        | inr (f, m, k) ↦
            let seen = all-false_of kev_unknown findings f m (not_unknown f.kev k) in
            rw (unlisted, seen) (ground arith)
      ]

-- The KEV gate passes exactly when no finding is listed in the catalogue and, if there are findings,
-- the catalogue answered for one of them at least.
evaluate_kev-pass :
    (findings : List Finding)
    → ((evaluate_kev findings).outcome ≡ pass) ↔ (
        ((f : Finding) → In f findings → f.kev ≢ Tristate.true)
        × ((findings ≡ []) ⊎ ((f : Finding) × In f findings × (f.kev ≢ Tristate.unknown))))
evaluate_kev-pass findings = rw evaluate_kev_lem (kev_pass_to findings, kev_pass_from findings)

scored : (f : Finding) → (has_score f ≡ true) ↔ (f.epss ≢ none)
scored f = (λ h. ground arith, λ h. ground arith)

-- The two directions of the condition under which the EPSS gate passes.
module _ (floor : Decimal) (findings : List Finding) where
  abbrev epss_outcome : GateOutcome
  epss_outcome =
      if any (reaches floor) findings
      then fail
      else if not (is_empty findings) && not (any has_score findings)
      then unmeasured
      else pass

  abbrev EpssPasses : Type 0
  EpssPasses =
      ((f : Finding) → In f findings → reaches floor f ≡ false)
      × ((findings ≡ []) ⊎ ((f : Finding) × In f findings × (f.epss ≢ none)))

  epss_pass_to : epss_outcome ≡ pass → EpssPasses
  epss_pass_to h = (
    any-false (reaches floor) findings (ground arith),
    elim (Bool-cases (is_empty findings)) [
      | inl e ↦ inl (ground arith)
      | inr e ↦
          let (f, m, k) = any-true has_score findings (ground arith) in inr (f, m, (scored f).0 k)
    ],
  )

  epss_pass_from : EpssPasses → epss_outcome ≡ pass
  epss_pass_from (low_scores, measured) =
      let unreached = any-false_of (reaches floor) findings low_scores in
      elim measured [
        | inl e ↦ rw (unreached, e)
        | inr (f, m, k) ↦
            let seen = any-true_of has_score findings f m ((scored f).1 k) in
            rw (unreached, seen) (ground arith)
      ]

-- The EPSS gate passes exactly when every score lies below the floor and, if there are findings, one
-- of them at least has a score.
evaluate_epss-pass :
    (floor : Decimal) (findings : List Finding)
    → ((evaluate_epss floor findings).outcome ≡ pass) ↔ (
        ((f : Finding) → In f findings → reaches floor f ≡ false)
        × ((findings ≡ []) ⊎ ((f : Finding) × In f findings × (f.epss ≢ none))))
evaluate_epss-pass floor findings =
    rw evaluate_epss_lem (epss_pass_to floor findings, epss_pass_from floor findings)

at_or_above_mono :
    (t u : Threshold)
    → threshold_index t ≤ threshold_index u
    → (f : Finding) → at_or_above t f ≡ true
    → at_or_above u f ≡ true
unfolding at_or_above
at_or_above_mono t u h f = ground arith

-- A severity gate that fails also fails at every milder threshold, on the same findings and counts.
pub evaluate_severity_mono :
    (t u : Threshold) (findings : List Finding) (counts : Option Counts)
    → threshold_index t ≤ threshold_index u
    → (evaluate_severity t findings counts).outcome ≡ fail
    → (evaluate_severity u findings counts).outcome ≡ fail
unfolding evaluate_severity
evaluate_severity_mono t u findings none h = ground (
  arith,
  count_mono (at_or_above t) (at_or_above u) findings (at_or_above_mono t u h),
  length-filter (at_or_above t) findings,
  length-filter (at_or_above u) findings,
)
evaluate_severity_mono t u findings (some c) h = ground arith
