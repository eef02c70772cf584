-- ===== src/BuildPolicy/Exact.antt =====
-- A build passes a merged policy exactly when it passes both.
use docker_ls.Prelude.{
  ◌≡◌, refl, ◌++◌, Bool, true, false, ◌||◌, ◌&&◌, not, is_empty, any, if◌then◌else◌, arith,
}
use docker_ls.Prelude.Text.{Text, codes, text_eq}
use docker_ls.Evidence.Tristate.{is_true}
use docker_ls.BuildPolicy.{
  BuildPolicy, severity_order, has_ceiling, any_ceiling, stricter, combined, merged_with,
}
use docker_ls.Gate.Types.{ok}
use docker_ls.BuildPolicy.Rules.{
  PolicyFacts, no_scan, other_registry, not_nonroot, missing_label, not_verified, check_scan,
  exceeds, check_ceilings, registry_refused, check_pinned, check_registries, check_bases,
  check_nonroot, is_missing, check_labels, check_provenance, evaluate_policy,
}
use docker_ls.BuildPolicy.Merging.{
  merged_with-combined, passes, passes-append, passes-when, passes-map-filter,
  passes-check_ceilings, passes-check_pinned, any-from_all, any-or, exceeds-stricter,
  has_ceiling-stricter, OneOpen, registry_refused-merged,
}

both_counted :
    (ran a b c d : Bool)
    → (if ran then not (a || b) else not (c || d))
      ≡ ((if ran then not a else not c) && (if ran then not b else not d))
both_counted true a b c d = ground arith
both_counted false a b c d = ground arith

module _ (p q : BuildPolicy) (gate : Text) (f : PolicyFacts) where
  abbrev merged : BuildPolicy
  unfolding combined
  merged = combined p q gate

  scan_exact : passes (check_scan merged f) ≡ (passes (check_scan p f) && passes (check_scan q f))
  unfolding check_scan combined
  scan_exact = ground (
    arith,
    passes-when ((p.require_scan || q.require_scan) && not f.scan_ran) no_scan,
    passes-when (p.require_scan && not f.scan_ran) no_scan,
    passes-when (q.require_scan && not f.scan_ran) no_scan,
  )

  nonroot_exact :
      passes (check_nonroot merged f) ≡ (passes (check_nonroot p f) && passes (check_nonroot q f))
  unfolding check_nonroot combined
  nonroot_exact = ground (
    arith,
    passes-when ((p.require_nonroot || q.require_nonroot) && not (is_true f.nonroot)) not_nonroot,
    passes-when (p.require_nonroot && not (is_true f.nonroot)) not_nonroot,
    passes-when (q.require_nonroot && not (is_true f.nonroot)) not_nonroot,
  )

  provenance_exact :
      passes (check_provenance merged f)
      ≡ (passes (check_provenance p f) && passes (check_provenance q f))
  unfolding check_provenance combined
  provenance_exact =
      let verified = text_eq f.provenance_status (codes "VERIFIED") in
      ground (
        arith,
        passes-when ((p.require_provenance || q.require_provenance) && not verified) not_verified,
        passes-when (p.require_provenance && not verified) not_verified,
        passes-when (q.require_provenance && not verified) not_verified,
      )

  labels_exact :
      passes (check_labels merged f) ≡ (passes (check_labels p f) && passes (check_labels q f))
  unfolding check_labels combined
  labels_exact =
      rw
        (
          passes-map-filter (is_missing f) missing_label merged.required_labels,
          passes-map-filter (is_missing f) missing_label p.required_labels,
          passes-map-filter (is_missing f) missing_label q.required_labels,
          any-from_all (is_missing f) p.required_labels q.required_labels,
        )
        (ground arith)

  pinned_exact :
      passes (check_pinned merged f) ≡ (passes (check_pinned p f) && passes (check_pinned q f))
  unfolding combined
  pinned_exact =
      rw (passes-check_pinned merged f, passes-check_pinned p f, passes-check_pinned q f)
        (ground arith)

  registries_exact :
      OneOpen p q
      → passes (check_registries merged f)
        ≡ (passes (check_registries p f) && passes (check_registries q f))
  unfolding check_registries combined
  registries_exact h =
      rw
        (
          passes-map-filter (registry_refused merged.allowed_base_registries)
              (λ b. other_registry b.reference) f.bases,
          passes-map-filter (registry_refused p.allowed_base_registries)
              (λ b. other_registry b.reference) f.bases,
          passes-map-filter (registry_refused q.allowed_base_registries)
              (λ b. other_registry b.reference) f.bases,
          any-or (registry_refused merged.allowed_base_registries)
              (registry_refused p.allowed_base_registries)
              (registry_refused q.allowed_base_registries)
              (λ b. registry_refused-merged p.allowed_base_registries q.allowed_base_registries b h)
              f.bases,
        )
        (ground arith)

  ceilings_exact :
      passes (check_ceilings merged f)
      ≡ (passes (check_ceilings p f) && passes (check_ceilings q f))
  unfolding combined
  ceilings_exact =
      rw
        (
          passes-check_ceilings merged f,
          passes-check_ceilings p f,
          passes-check_ceilings q f,
          any-or
              (λ s.
                exceeds (stricter (p.max_vulnerabilities s) (q.max_vulnerabilities s))
                  (f.severity_counts s))
              (λ s. exceeds (p.max_vulnerabilities s) (f.severity_counts s))
              (λ s. exceeds (q.max_vulnerabilities s) (f.severity_counts s))
              (λ s.
                exceeds-stricter (p.max_vulnerabilities s) (q.max_vulnerabilities s)
                  (f.severity_counts s))
              severity_order,
          any-or (λ s. has_ceiling (stricter (p.max_vulnerabilities s) (q.max_vulnerabilities s)))
              (λ s. has_ceiling (p.max_vulnerabilities s))
              (λ s. has_ceiling (q.max_vulnerabilities s))
              (λ s. has_ceiling-stricter (p.max_vulnerabilities s) (q.max_vulnerabilities s))
              severity_order,
        )
        (both_counted f.scan_ran
          (any (λ s. exceeds (p.max_vulnerabilities s) (f.severity_counts s)) severity_order)
          (any (λ s. exceeds (q.max_vulnerabilities s) (f.severity_counts s)) severity_order)
          (any_ceiling p.max_vulnerabilities) (any_ceiling q.max_vulnerabilities))

  passes-evaluate_policy :
      (r : BuildPolicy)
      → passes (evaluate_policy r f) ≡ (
          passes (check_scan r f)
          && (passes (check_ceilings r f)
              && ((passes (check_pinned r f) && passes (check_registries r f))
                  && (passes (check_nonroot r f)
                      && (passes (check_labels r f) && passes (check_provenance r f))))))
  unfolding evaluate_policy
  passes-evaluate_policy r =
      let labels = check_labels r f ++ check_provenance r f in
      let nonroot = check_nonroot r f ++ labels in
      let bases = check_bases r f ++ nonroot in
      let ceilings = check_ceilings r f ++ bases in
      rw
        (
          passes-append (check_scan r f) ceilings,
          passes-append (check_ceilings r f) bases,
          passes-append (check_bases r f) nonroot,
          passes-append (check_pinned r f) (check_registries r f),
          passes-append (check_nonroot r f) labels,
          passes-append (check_labels r f) (check_provenance r f),
        )
        refl

  combined_exact :
      OneOpen p q
      → passes (evaluate_policy merged f)
        ≡ (passes (evaluate_policy p f) && passes (evaluate_policy q f))
  unfolding combined
  combined_exact h =
      rw
        (
          passes-evaluate_policy merged,
          passes-evaluate_policy p,
          passes-evaluate_policy q,
          scan_exact,
          ceilings_exact,
          pinned_exact,
          registries_exact h,
          nonroot_exact,
          labels_exact,
          provenance_exact,
        )
        (ground arith)

-- Where at most one of two policies names allowed registries and the two can be merged, a build
-- violates nothing of the merged policy exactly when it violates nothing of either.
pub evaluate_policy_exact :
    (p q m : BuildPolicy) (f : PolicyFacts)
    → OneOpen p q
    → merged_with p q ≡ ok m
    → is_empty (evaluate_policy m f)
      ≡ (is_empty (evaluate_policy p f) && is_empty (evaluate_policy q f))
unfolding combined merged
evaluate_policy_exact p q m f h e =
    let (gate, same) = merged_with-combined p q m e in rw same (combined_exact p q gate f h)
