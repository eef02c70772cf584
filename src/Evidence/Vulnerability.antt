-- ===== src/Evidence/Vulnerability.antt =====
-- dockerls/domain/entities/vulnerability.py: one finding of a scanner, with the fields that decide
-- something. What is only displayed (descriptions, versions, dates, aliases) is left out.
use docker_ls.Prelude.{ℕ, ◌++◌, List, [], ◌∷◌, Bool, true, false, ◌&&◌, ◌||◌, Option, none, some}
use docker_ls.Prelude.{if◌then◌else◌, any, is_empty, not}
use docker_ls.Prelude.Int.{pos}
use docker_ls.Prelude.Float.{Float, nan, finite, is_finite, ◌≤F◌}
use docker_ls.Prelude.Text.{Text, codes, lower, upper, strip, occurs_in}
use docker_ls.Evidence.Tristate.{Tristate}

pub data Severity : Type 0 where
  critical high medium low unknown : Severity

abbrev pub same_severity : Severity → Severity → Bool
same_severity critical critical = true
same_severity high high = true
same_severity medium medium = true
same_severity low low = true
same_severity unknown unknown = true
same_severity _ _ = false

pub data FixStatus : Type 0 where
  fix_available no_fix under_investigation : FixStatus

pub data PackageOrigin : Type 0 where
  os language unknown : PackageOrigin

-- A probability is counted in hundred-thousandths, the precision that FIRST.org publishes.
abbrev pub probability_one : ℕ
probability_one = 100000

pub record Vulnerability : Type 0 where
  pub cve_id : Text
  pub severity : Severity
  pub package_type : Text
  pub target : Text
  pub package_name : Text
  pub fixed_version : Text
  pub exploit_known : Bool
  pub kev_status : Tristate
  pub epss_score : Float
  pub epss_known : Bool

-- The range test of `_probability`: what is no probability counts as no signal.
in_range : Float → Float
in_range number =
    if not (is_finite number)
      || not (finite (pos 0) ≤F number && number ≤F finite (pos probability_one))
    then finite (pos 0)
    else number

-- `_probability`; the argument is what `float(value)` returned, or `none` where it raised.
unfoldable pub probability : Option Float → Float
unfolding in_range
probability none = in_range nan
probability (some number) = in_range number

lang_markers : List Text
lang_markers =
    codes "lang-pkg"
    ∷ codes "node-pkg"
    ∷ codes "npm"
    ∷ codes "yarn"
    ∷ codes "python-pkg"
    ∷ codes "pip"
    ∷ codes "poetry"
    ∷ codes "gemspec"
    ∷ codes "gem"
    ∷ codes "cargo"
    ∷ codes "composer"
    ∷ codes "go-module"
    ∷ codes "gobinary"
    ∷ codes "jar"
    ∷ codes "pom"
    ∷ codes "conan"
    ∷ codes "nuget"
    ∷ codes "swift"
    ∷ codes "pub"
    ∷ codes "hex"
    ∷ codes "site-packages"
    ∷ codes "node_modules"
    ∷ []

os_markers : List Text
os_markers =
    codes "os-pkg"
    ∷ codes "apk"
    ∷ codes "deb"
    ∷ codes "rpm"
    ∷ codes "alpine"
    ∷ codes "debian"
    ∷ codes "ubuntu"
    ∷ codes "redhat"
    ∷ codes "centos"
    ∷ codes "amazon"
    ∷ codes "suse"
    ∷ codes "photon"
    ∷ codes "oracle"
    ∷ codes "rocky"
    ∷ codes "alma"
    ∷ codes "wolfi"
    ∷ codes "chainguard"
    ∷ []

-- `Vulnerability.origin`
unfoldable pub origin : Vulnerability → PackageOrigin
unfolding lang_markers os_markers lower occurs_in
origin v =
    let haystack = lower (v.package_type ++ (codes " " ++ v.target)) in
    if any (λ marker. occurs_in marker haystack) lang_markers
    then language
    else if any (λ marker. occurs_in marker haystack) os_markers
    then os
    else unknown

-- `Vulnerability.fix_status`
unfoldable pub fix_status : Vulnerability → FixStatus
fix_status v = if is_empty v.fixed_version then no_fix else fix_available

abbrev is_fix_available : FixStatus → Bool
is_fix_available fix_available = true
is_fix_available _ = false

-- `Vulnerability.is_fixable`
unfoldable pub is_fixable : Vulnerability → Bool
unfolding fix_status
is_fixable v = is_fix_available (fix_status v)

-- `finding_identity`
unfoldable pub finding_identity : Vulnerability → Text
finding_identity v = upper (strip v.cve_id) ++ (codes "|" ++ lower (strip v.package_name))
