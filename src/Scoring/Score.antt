-- ===== src/Scoring/Score.antt =====
-- dockerls/domain/value_objects/security_score.py. The unit of every weight below is the
-- 36,500,000th part of a point: in it a hundred-thousandth of an EPSS probability and the age of one
-- day, both of which the formula divides by, are whole numbers. A score is given in tenths of a point.
pub mod Rounding
pub mod Exact
pub mod Order
pub mod Unusable
use Prim.Native.Nat.{min}
use docker_ls.Prelude.{ℕ, suc, ◌+◌, ◌*◌, ◌/◌, ◌%◌, ◌||◌, ◌&&◌, List, [], ◌∷◌, Bool, count}
use docker_ls.Prelude.{ltb, if◌then◌else◌, Option, none, some}
use docker_ls.Prelude.Int.{ℤ, pos, negsuc, ◌-ℤ◌}
use docker_ls.Prelude.Float.{Float, finite, ◌≤F◌, ◌⊕◌, times, negated}
use docker_ls.Evidence.Vulnerability.{Vulnerability}
use docker_ls.Evidence.Scan.{
  ScanResult, critical_count, high_count, medium_count, is_ok, is_partial,
}
use docker_ls.Evidence.Image.{DockerImage, age_known, age_days, is_alpine, is_distroless}
use docker_ls.Evidence.Image.{is_hardened_source, recently_updated}

abbrev pub point : ℕ
point = 36500000

abbrev pub critical_penalty : ℕ
critical_penalty = 20 * point

abbrev pub high_penalty : ℕ
high_penalty = 5 * point

abbrev pub medium_penalty : ℕ
medium_penalty = 1 * point

abbrev pub eol_penalty : ℕ
eol_penalty = 20 * point

abbrev pub max_age_penalty : ℕ
max_age_penalty = 3 * point

abbrev pub exploited_penalty : ℕ
exploited_penalty = 10 * point

abbrev pub high_epss_penalty : ℕ
high_epss_penalty = 5 * point

-- 0.5 in hundred-thousandths
abbrev pub high_epss_threshold : Float
high_epss_threshold = finite (pos 50000)

-- 4 points for a probability of 1, as units for each hundred-thousandth.
abbrev pub epss_slope : ℕ
epss_slope = 4 * 365

-- A day of age as units: point / 365.
abbrev pub day_of_age : ℕ
day_of_age = 100000

abbrev pub whole_bonus : ℕ
whole_bonus = point

abbrev pub half_bonus : ℕ
half_bonus = 18250000

-- `MAX_BONUS`
abbrev pub max_bonus : ℕ
max_bonus = whole_bonus + whole_bonus + whole_bonus + half_bonus + half_bonus

-- `BASE_SCORE`
abbrev pub base_score : ℕ
base_score = 96 * point

unfoldable pub epss_total : List Vulnerability → Float
epss_total [] = finite (pos 0)
epss_total (v ∷ vs) = v.epss_score ⊕ epss_total vs

-- The age term: registries that do not date their tags are charged nothing.
unfoldable pub age_penalty : ℕ → DockerImage → ℕ
unfolding age_days
age_penalty now i = if age_known i then min (age_days now i * day_of_age) max_age_penalty else 0

-- `SecurityScore.penalty`
unfoldable pub penalty : ℕ → DockerImage → ScanResult → Bool → Float
unfolding critical_count high_count medium_count age_penalty
penalty now i s is_eol =
    finite (
      pos (
        critical_count s * critical_penalty
        + high_count s * high_penalty
        + medium_count s * medium_penalty))
    ⊕ finite (pos (exploited_penalty * count (λ v. v.exploit_known) s.vulnerabilities))
    ⊕ finite (
        pos
          (high_epss_penalty * count (λ v. high_epss_threshold ≤F v.epss_score) s.vulnerabilities))
    ⊕ times epss_slope (epss_total s.vulnerabilities)
    ⊕ finite (pos (if is_eol then eol_penalty else 0))
    ⊕ finite (pos (age_penalty now i))

-- `SecurityScore.bonus`
unfoldable pub bonus : ℕ → DockerImage → Bool → ℕ
unfolding is_alpine is_distroless is_hardened_source recently_updated
bonus now i is_lts =
    (if i.is_official then whole_bonus else 0)
    + (if is_distroless i || is_hardened_source i || is_alpine i then whole_bonus else 0)
    + (if i.is_signed then whole_bonus else 0)
    + (if is_lts then half_bonus else 0)
    + (if age_known i && recently_updated now i then half_bonus else 0)

-- `round(score, 1)` for a score that is not negative: to the nearest tenth, a tie to the even one.
-- Of a sum of floats next to a tie, the source may give the other of the two tenths.
unfoldable pub to_tenths : ℕ → ℕ
to_tenths n =
    let tenth : ℕ = 3650000 in
    let q = n / tenth in
    let r = n % tenth in
    if ltb (2 * r) tenth then q else if ltb tenth (2 * r) then q + 1 else q + q % 2

-- `round(score, 1)`, which is symmetric about 0.
unfoldable pub round_tenths : ℤ → ℤ
unfolding to_tenths
round_tenths (pos n) = pos (to_tenths n)
round_tenths (negsuc n) = pos 0 -ℤ pos (to_tenths (suc n))

-- `max(0.0, min(100.0, …))`
abbrev pub clamp : ℤ → ℕ
clamp (pos n) = min 1000 n
clamp (negsuc n) = 0

-- The end of `_calculate`: what is not a finite number is reported as 0.
unfoldable pub reported : Float → ℕ
unfolding round_tenths
reported (finite z) = clamp (round_tenths z)
reported _ = 0

-- `BASE_SCORE - self.penalty + self.bonus`
abbrev pub unrounded : ℕ → DockerImage → ScanResult → Bool → Bool → Float
unrounded now i s is_eol is_lts =
    finite (pos base_score) ⊕ negated (penalty now i s is_eol) ⊕ finite (pos (bonus now i is_lts))

-- `SecurityScore._calculate`
unfoldable pub calculate : ℕ → DockerImage → ScanResult → Bool → Bool → ℕ
calculate now i s is_eol is_lts = reported (unrounded now i s is_eol is_lts)

-- `SecurityScore(image, scan, is_eol, is_lts).value`; `none` is the `ValueError`.
unfoldable pub security_score : ℕ → DockerImage → ScanResult → Bool → Bool → Option ℕ
unfolding calculate
security_score now i s is_eol is_lts =
    if is_ok s.status || is_partial s.status then some (calculate now i s is_eol is_lts) else none
