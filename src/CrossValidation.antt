-- ===== src/CrossValidation.antt =====
-- dockerls/application/services/cross_validation.py: the second opinion on a scan. A Python set of
-- identities is the list of its distinct elements; `magnitude / baseline > rel_tolerance` is compared
-- as whole numbers, with the tolerance as a fraction. The examples in the description are left out.
pub mod Sets
pub mod Laws
use Prim.Native.Nat.{max}
use docker_ls.Prelude.{ℕ, ◌+◌, ◌*◌, List, [], ◌∷◌, Bool, ◌&&◌, ◌++◌, filter, map, length, is_empty}
use docker_ls.Prelude.{ltb, leb, if◌then◌else◌}
use docker_ls.Prelude.Text.{Text}
use docker_ls.Evidence.Vulnerability.{Severity, critical, high, finding_identity}
use docker_ls.Evidence.Scan.{ScanResult, has_severity}
use Sets.{distinct, minus}

pub data CrossValidationOutcome : Type 0 where
  no_second_scanner agreement minor_divergence material_divergence : CrossValidationOutcome

-- `_SEVERITY_OF_OUTCOME`
abbrev pub severity_of_outcome : CrossValidationOutcome → ℕ
severity_of_outcome material_divergence = 3
severity_of_outcome minor_divergence = 2
severity_of_outcome agreement = 1
severity_of_outcome no_second_scanner = 0

-- `_worse`
abbrev pub worse : CrossValidationOutcome → CrossValidationOutcome → CrossValidationOutcome
worse a b = if leb (severity_of_outcome b) (severity_of_outcome a) then a else b

-- The tolerances of `CrossValidator`; the relative one is a fraction.
pub record Tolerance : Type 0 where
  pub absolute : ℕ
  pub relative_numerator : ℕ
  pub relative_denominator : ℕ

-- `DEFAULT_ABS_TOLERANCE` and `DEFAULT_REL_TOLERANCE`
abbrev pub default_tolerance : Tolerance
default_tolerance = record { absolute = 2; relative_numerator = 1; relative_denominator = 2 }

-- What the description says of one severity band.
pub record BandReport : Type 0 where
  pub severity : Severity
  pub mine : ℕ
  pub only_mine : ℕ
  pub theirs : ℕ
  pub only_theirs : ℕ

-- The set of identities that a scan has in one band.
unfoldable pub identities : Severity → ScanResult → List Text
identities level s = distinct (map finding_identity (filter (has_severity level) s.vulnerabilities))

unfoldable pub is_material : Tolerance → ℕ → ℕ → Bool
is_material t magnitude baseline =
    ltb t.absolute magnitude
    && ltb (t.relative_numerator * baseline) (magnitude * t.relative_denominator)

-- One pass of the loop: the outcome of a band, and what is said of it.
unfoldable pub compare_band :
    Tolerance → Severity → List Text → List Text → CrossValidationOutcome × List BandReport
unfolding is_material
compare_band t level mine theirs =
    let only_mine = minus mine theirs in
    let only_theirs = minus theirs mine in
    let magnitude = length only_mine + length only_theirs in
    let baseline = max (max (length mine) (length theirs)) 1 in
    if is_empty only_mine && is_empty only_theirs then (agreement, []) else (
      if is_material t magnitude baseline then material_divergence else minor_divergence,
      record {
        severity = level;
        mine = length mine;
        only_mine = length only_mine;
        theirs = length theirs;
        only_theirs = length only_theirs;
      }
          ∷ [],
    )

-- `CrossValidator.compare`, over `_COMPARED_SEVERITIES`
unfoldable pub compare_scans :
    Tolerance → ScanResult → ScanResult → CrossValidationOutcome × List BandReport
compare_scans t primary secondary =
    let (first, said) =
      compare_band t critical (identities critical primary) (identities critical secondary) in
    let (second, more) =
      compare_band t high (identities high primary) (identities high secondary) in
    (worse (worse agreement first) second, said ++ more)
