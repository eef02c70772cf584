-- ===== src/BuildPolicy/Rules.antt =====
-- `evaluate` and its six checks. A violation carries what its message is about.
use Prim.Native.Nat.{ℕ}
use docker_ls.Prelude.{
  List, [], ◌∷◌, ◌++◌, map, filter, Bool, false, ◌&&◌, not, Option, none, some, is_empty, any, when,
  ltb, if◌then◌else◌,
}
use docker_ls.Prelude.Text.{Text, codes, text_eq, lower, strip}
use docker_ls.Evidence.Tristate.{Tristate, is_true}
use docker_ls.Evidence.Vulnerability.{Severity}
use docker_ls.BuildPolicy.{BuildPolicy, severity_order, any_ceiling}

pub record BaseFact : Type 0 where
  pub reference : Text
  pub registry : Text
  pub pinned : Bool

-- `PolicyFacts`; a severity that was not counted has the count 0, and a label that is not there is
-- empty.
pub record PolicyFacts : Type 0 where
  pub scan_ran : Bool
  pub severity_counts : Severity → ℕ
  pub bases : List BaseFact
  pub labels : Text → Text
  pub nonroot : Tristate
  pub provenance_status : Text

pub data PolicyViolation : Type 0 where
  no_scan no_counts no_bases not_nonroot not_verified : PolicyViolation
  over_ceiling : Severity → PolicyViolation
  not_pinned other_registry missing_label : Text → PolicyViolation

-- `_check_scan`
unfoldable pub check_scan : BuildPolicy → PolicyFacts → List PolicyViolation
check_scan p f = when (p.require_scan && not f.scan_ran) no_scan

abbrev pub exceeds : Option ℕ → ℕ → Bool
exceeds none found = false
exceeds (some limit) found = ltb limit found

-- `_check_ceilings`
unfoldable pub check_ceilings : BuildPolicy → PolicyFacts → List PolicyViolation
check_ceilings p f =
    if not (any_ceiling p.max_vulnerabilities)
    then []
    else if not f.scan_ran
    then no_counts ∷ []
    else map over_ceiling
        (filter (λ s. exceeds (p.max_vulnerabilities s) (f.severity_counts s)) severity_order)

-- `(base.registry or "docker.io").lower()`
abbrev pub registry_of : BaseFact → Text
registry_of b = lower (if is_empty b.registry then codes "docker.io" else b.registry)

-- `registry in permitidos`
abbrev pub permits : List Text → BaseFact → Bool
permits registries b = any (λ r. text_eq (lower r) (registry_of b)) registries

abbrev pub registry_refused : List Text → BaseFact → Bool
registry_refused registries b = not (is_empty registries) && not (permits registries b)

unfoldable pub check_pinned : BuildPolicy → PolicyFacts → List PolicyViolation
check_pinned p f =
    if p.require_pinned_bases
    then when (is_empty f.bases) no_bases
      ++ map (λ b. not_pinned b.reference) (filter (λ b. not b.pinned) f.bases)
    else []

unfoldable pub check_registries : BuildPolicy → PolicyFacts → List PolicyViolation
check_registries p f =
    map (λ b. other_registry b.reference)
      (filter (registry_refused p.allowed_base_registries) f.bases)

-- `_check_bases`
abbrev pub check_bases : BuildPolicy → PolicyFacts → List PolicyViolation
check_bases p f = check_pinned p f ++ check_registries p f

-- `_check_nonroot`
unfoldable pub check_nonroot : BuildPolicy → PolicyFacts → List PolicyViolation
check_nonroot p f = when (p.require_nonroot && not (is_true f.nonroot)) not_nonroot

abbrev pub is_missing : PolicyFacts → Text → Bool
is_missing f label = is_empty (strip (f.labels label))

-- `_check_labels`
unfoldable pub check_labels : BuildPolicy → PolicyFacts → List PolicyViolation
check_labels p f = map missing_label (filter (is_missing f) p.required_labels)

-- `_check_provenance`
unfoldable pub check_provenance : BuildPolicy → PolicyFacts → List PolicyViolation
check_provenance p f =
    when (p.require_provenance && not (text_eq f.provenance_status (codes "VERIFIED"))) not_verified

-- `evaluate`
unfoldable pub evaluate_policy : BuildPolicy → PolicyFacts → List PolicyViolation
evaluate_policy p f =
    check_scan p f
    ++ (check_ceilings p f
        ++ (check_bases p f ++ (check_nonroot p f ++ (check_labels p f ++ check_provenance p f))))
