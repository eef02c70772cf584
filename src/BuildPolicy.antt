-- ===== src/BuildPolicy.antt =====
-- The policy of an organisation, checked at every build: dockerls/domain/value_objects/build_policy.py.
pub mod Rules
pub mod Merging
pub mod Exact
use Prim.Native.Nat.{ℕ, min}
use docker_ls.Prelude.{
  List, [], ◌∷◌, ◌++◌, Bool, true, false, ◌||◌, ◌&&◌, not, Option, none, some, is_empty, any,
  if◌then◌else◌,
}
use docker_ls.Prelude.Text.{Text, codes, contains}
use docker_ls.Evidence.Vulnerability.{Severity, critical, high, medium, low, unknown}
use docker_ls.Gate.Types.{Result, ok, err}
use docker_ls.Gate.Merge.{merge_gates}

-- `max_vulnerabilities`: the ceiling of each severity that has one. The reader of a policy refuses
-- other keys.
abbrev pub Ceilings : Type 0
Ceilings = Severity → Option ℕ

pub record BuildPolicy : Type 0 where
  pub fail_on : Text
  pub max_vulnerabilities : Ceilings
  pub require_scan : Bool
  pub require_pinned_bases : Bool
  pub require_nonroot : Bool
  pub required_labels : List Text
  pub allowed_base_registries : List Text
  pub require_provenance : Bool

-- `SEVERITY_ORDER`
abbrev pub severity_order : List Severity
severity_order = critical ∷ high ∷ medium ∷ low ∷ unknown ∷ []

abbrev pub has_ceiling : Option ℕ → Bool
has_ceiling none = false
has_ceiling (some limit) = true

abbrev pub any_ceiling : Ceilings → Bool
any_ceiling c = any (λ s. has_ceiling (c s)) severity_order

-- `is_empty`
unfoldable pub policy_is_empty : BuildPolicy → Bool
policy_is_empty p = not (
    not (is_empty p.fail_on)
    || (any_ceiling p.max_vulnerabilities
        || (p.require_scan
            || (p.require_pinned_bases
                || (p.require_nonroot
                    || (not (is_empty p.required_labels)
                        || (not (is_empty p.allowed_base_registries) || p.require_provenance)))))))

-- `effective_fail_on`
abbrev pub effective_fail_on : BuildPolicy → Text → Result Text
effective_fail_on p requested = merge_gates p.fail_on requested

-- `tuple(dict.fromkeys(xs))`, but for the keys that were seen
unfoldable pub from_keys : List Text → List Text → List Text
from_keys seen [] = []
from_keys seen (x ∷ xs) =
    let rest = from_keys (if contains seen x then seen else x ∷ seen) xs in
    if contains seen x then rest else x ∷ rest

-- `min(limit, tetos.get(severity, limit))`, and what the other policy has alone
abbrev pub stricter : Option ℕ → Option ℕ → Option ℕ
stricter none other = other
stricter (some limit) none = some limit
stricter (some limit) (some other) = some (min limit other)

-- The policy that `merged_with` makes, with the gates of both merged into one
unfoldable pub combined : BuildPolicy → BuildPolicy → Text → BuildPolicy
combined p other fail_on = record {
  fail_on = fail_on;
  max_vulnerabilities = λ s. stricter (p.max_vulnerabilities s) (other.max_vulnerabilities s);
  require_scan = p.require_scan || other.require_scan;
  require_pinned_bases = p.require_pinned_bases || other.require_pinned_bases;
  require_nonroot = p.require_nonroot || other.require_nonroot;
  required_labels = from_keys [] (p.required_labels ++ other.required_labels);
  allowed_base_registries =
      from_keys [] (p.allowed_base_registries ++ other.allowed_base_registries);
  require_provenance = p.require_provenance || other.require_provenance;
}

abbrev with_gate : BuildPolicy → BuildPolicy → Result Text → Result BuildPolicy
with_gate p other (ok gate) = ok (combined p other gate)
with_gate p other (err e) = err e

-- `merged_with`; the merging of the gates may fail.
unfoldable pub merged_with : BuildPolicy → BuildPolicy → Result BuildPolicy
unfolding combined
merged_with p other = with_gate p other (effective_fail_on p other.fail_on)

-- `production`
abbrev pub production : BuildPolicy
production = record {
  fail_on = codes "critical";
  max_vulnerabilities = λ s. none;
  require_scan = true;
  require_pinned_bases = true;
  require_nonroot = true;
  required_labels =
      codes "org.opencontainers.image.source"
      ∷ codes "org.opencontainers.image.vendor"
      ∷ codes "security.contact"
      ∷ [];
  allowed_base_registries = [];
  require_provenance = true;
}

-- `static_subset`
abbrev pub static_subset : BuildPolicy → BuildPolicy
static_subset p = record {
  fail_on = [];
  max_vulnerabilities = λ s. none;
  require_scan = false;
  require_pinned_bases = p.require_pinned_bases;
  require_nonroot = p.require_nonroot;
  required_labels = p.required_labels;
  allowed_base_registries = p.allowed_base_registries;
  require_provenance = false;
}
