-- ===== src/Inheritance.antt =====
-- dockerls/domain/value_objects/inheritance.py: whose finding it is, the base's or the build's. A
-- Python dictionary is the list of its items, in the order in which their keys were first put.
pub mod Origins
pub mod Plan
use Prim.Native.Nat.{min}
use docker_ls.Prelude.{ℕ, List, [], ◌∷◌, ◌++◌, map, Bool, true, false, ◌&&◌, not, if◌then◌else◌}
use docker_ls.Prelude.{any, filter, count, is_empty, leb, ltb, ◌==◌}
use docker_ls.Prelude.Text.{Text, text_eq, strip}
use docker_ls.Verdict.Ranking.Sorting.{first_then, sort_by}
use docker_ls.Evidence.Vulnerability.{
  Vulnerability, Severity, critical, high, medium, low, unknown, finding_identity,
}

pub data FindingOrigin : Type 0 where
  inherited introduced removed : FindingOrigin

abbrev pub same_origin : FindingOrigin → FindingOrigin → Bool
same_origin inherited inherited = true
same_origin introduced introduced = true
same_origin removed removed = true
same_origin _ _ = false

pub record AttributedFinding : Type 0 where
  pub identity : Text
  pub cve_id : Text
  pub package_name : Text
  pub severity : Severity
  pub origin : FindingOrigin
  pub fixed_version : Text

-- `AttributedFinding.fixable`
unfoldable pub fixable : AttributedFinding → Bool
fixable f = not (is_empty (strip f.fixed_version))

abbrev pub Items : Type 0
Items = List (Text × Vulnerability)

abbrev pub has_key : Items → Text → Bool
has_key items t = any (λ item. text_eq item.0 t) items

-- `items[key] = v`
unfoldable pub put : Text → Vulnerability → Items → Items
put key v [] = (key, v) ∷ []
put key v ((k, w) ∷ items) =
    let rest = put key v items in if text_eq k key then (k, v) ∷ items else (k, w) ∷ rest

-- `{finding_identity(v): v for v in found}`, from the items so far
unfoldable pub put_all : Items → List Vulnerability → Items
put_all items [] = items
put_all items (v ∷ found) = put_all (put (finding_identity v) v items) found

unfoldable pub by_identity : List Vulnerability → Items
unfolding put_all
by_identity found = put_all [] found

-- `_attributed`
abbrev pub attributed : FindingOrigin → Text × Vulnerability → AttributedFinding
attributed origin (identity, v) = record {
  identity = identity;
  cve_id = v.cve_id;
  package_name = v.package_name;
  severity = v.severity;
  origin = origin;
  fixed_version = v.fixed_version;
}

-- `attribute`: the findings of its report
unfoldable pub attribute : List Vulnerability → List Vulnerability → List AttributedFinding
attribute built base =
    let present = by_identity built in
    let before = by_identity base in
    map (λ item. attributed (if has_key before item.0 then inherited else introduced) item) present
    ++ map (attributed removed) (filter (λ item. not (has_key present item.0)) before)
