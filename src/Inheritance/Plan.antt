-- ===== src/Inheritance/Plan.antt =====
-- The plan of work that a report gives: origin by whether a fix is published.
use docker_ls.Prelude.{
  ℕ, ◌+◌, ◌≤◌, ◌≡◌, refl, List, [], ◌∷◌, ◌++◌, Bool, true, false, ◌&&◌, not, arith,
}
use docker_ls.Prelude.{filter, count, length, is_empty, leb, when, AllPairs, AllPairs-weaken, ◌⊎◌}
use docker_ls.Prelude.Text.{text_leb}
use docker_ls.Evidence.Vulnerability.{Severity, critical, high, medium, low, unknown, same_severity}
use docker_ls.Verdict.Ranking.Sorting.{
  first_then, sort_by, insert_by, count-sort_by, AllPairs-sort_by,
}
use docker_ls.Inheritance.{
  FindingOrigin, inherited, introduced, removed, same_origin, AttributedFinding, fixable,
}

pub record RemediationBucket : Type 0 where
  pub origin : FindingOrigin
  pub fixable : Bool
  pub findings : List AttributedFinding

abbrev is_critical : AttributedFinding → Bool
is_critical f = same_severity f.severity critical

-- `RemediationBucket.critical`
abbrev pub critical_findings : RemediationBucket → ℕ
critical_findings b = count is_critical b.findings

-- `_SEVERITY_RANK.index`
abbrev pub severity_position : Severity → ℕ
severity_position critical = 0
severity_position high = 1
severity_position medium = 2
severity_position low = 3
severity_position unknown = 4

-- `_by_severity a <= _by_severity b`
unfoldable pub by_severity : AttributedFinding → AttributedFinding → Bool
by_severity a b =
    first_then (severity_position a.severity) (severity_position b.severity)
      (text_leb a.cve_id b.cve_id)

abbrev pub same_bool : Bool → Bool → Bool
same_bool true b = b
same_bool false b = not b

-- `InheritanceReport.of`, and of those the fixable ones, or the others
abbrev pub in_group : FindingOrigin → Bool → AttributedFinding → Bool
in_group origin fix f = same_origin f.origin origin && same_bool (fixable f) fix

-- One turn of the loops of `plan`
unfoldable pub bucket_of : FindingOrigin → Bool → List AttributedFinding → List RemediationBucket
bucket_of origin fix findings =
    let group = sort_by by_severity (filter (in_group origin fix) findings) in
    when (not (is_empty group)) (record { origin = origin; fixable = fix; findings = group })

-- `(-a.critical, -a.count) <= (-b.critical, -b.count)`
unfoldable pub by_critical : RemediationBucket → RemediationBucket → Bool
by_critical a b =
    first_then (critical_findings b) (critical_findings a)
      (leb (length b.findings) (length a.findings))

-- `plan`
unfoldable pub plan : List AttributedFinding → List RemediationBucket
plan findings = sort_by by_critical (
    bucket_of inherited true findings
    ++ (bucket_of inherited false findings
        ++ (bucket_of introduced true findings ++ bucket_of introduced false findings)))

-- `len(self.of(origin))`
abbrev pub count_of : FindingOrigin → List AttributedFinding → ℕ
count_of origin findings = count (λ f. same_origin f.origin origin) findings

-- `inherited_share` as a fraction: what it divides and what it divides by
unfoldable pub inherited_share : List AttributedFinding → ℕ × ℕ
inherited_share findings =
    (count_of inherited findings, count_of inherited findings + count_of introduced findings)

-- The findings of a plan that a predicate selects
abbrev pub planned : (AttributedFinding → Bool) → List RemediationBucket → ℕ
planned p [] = 0
planned p (b ∷ bs) = count p b.findings + planned p bs

module _ (p : AttributedFinding → Bool) where
  planned-append :
      (xs ys : List RemediationBucket) → planned p (xs ++ ys) ≡ planned p xs + planned p ys
  planned-append [] ys = omega arith
  planned-append (x ∷ xs) ys = omega (arith, planned-append xs ys)

  planned-insert_by :
      (b : RemediationBucket) (bs : List RemediationBucket)
      → planned p (insert_by by_critical b bs) ≡ count p b.findings + planned p bs
  unfolding insert_by
  planned-insert_by b [] = refl
  planned-insert_by b (c ∷ bs) = ground (arith, planned-insert_by b bs)

  planned-sort_by :
      (bs : List RemediationBucket) → planned p (sort_by by_critical bs) ≡ planned p bs
  unfolding sort_by
  planned-sort_by [] = refl
  planned-sort_by (b ∷ bs) =
      omega (arith, planned-insert_by b (sort_by by_critical bs), planned-sort_by bs)

  planned-when :
      (group : List AttributedFinding) (o : FindingOrigin) (fix : Bool)
      → planned p
          (when (not (is_empty group)) (record { origin = o; fixable = fix; findings = group }))
        ≡ count p group
  unfolding when
  planned-when [] o fix = refl
  planned-when (f ∷ fs) o fix = omega arith

  count-filter :
      (q : AttributedFinding → Bool) (fs : List AttributedFinding)
      → count p (filter q fs) ≡ count (λ f. p f && q f) fs
  count-filter q [] = refl
  count-filter q (f ∷ fs) = ground (arith, count-filter q fs)

  planned-bucket_of :
      (o : FindingOrigin) (fix : Bool) (fs : List AttributedFinding)
      → planned p (bucket_of o fix fs) ≡ count (λ f. p f && in_group o fix f) fs
  unfolding bucket_of
  planned-bucket_of o fix fs =
      let group = sort_by by_severity (filter (in_group o fix) fs) in
      omega (
        arith,
        planned-when group o fix,
        count-sort_by by_severity p (filter (in_group o fix) fs),
        count-filter (in_group o fix) fs,
      )

  -- Every finding that is in the image is in one of the four groups.
  count-groups :
      (fs : List AttributedFinding)
      → count (λ f. p f && in_group inherited true f) fs
          + count (λ f. p f && in_group inherited false f) fs
          + count (λ f. p f && in_group introduced true f) fs
          + count (λ f. p f && in_group introduced false f) fs
        ≡ count (λ f. p f && not (same_origin f.origin removed)) fs
  count-groups [] = refl
  count-groups (f ∷ fs) = ground (arith, count-groups fs)

by_critical_trans :
    (a b c : RemediationBucket)
    → by_critical a b ≡ true
    → by_critical b c ≡ true
    → by_critical a c ≡ true
unfolding by_critical
by_critical_trans a b c h k = ground arith

by_critical_total : (a b : RemediationBucket) → (by_critical a b ≡ true) ⊎ (by_critical b a ≡ true)
unfolding by_critical
by_critical_total a b = ground arith

by_critical-le :
    (a b : RemediationBucket) → by_critical a b ≡ true → critical_findings b ≤ critical_findings a
unfolding by_critical
by_critical-le a b h = ground arith

-- A plan holds every finding that is in the image as often as the report does, and none that was
-- removed; and of two of its groups the one with more CRITICAL findings stands first.
pub plan_lem :
    (findings : List AttributedFinding)
    → ((p : AttributedFinding → Bool)
        → planned p (plan findings)
          ≡ count (λ f. p f && not (same_origin f.origin removed)) findings)
      × AllPairs (λ a b. critical_findings b ≤ critical_findings a) (plan findings)
unfolding plan
plan_lem findings = (
  λ p.
      omega
        (arith, planned-sort_by p, planned-append p, planned-bucket_of p, count-groups p findings),
  AllPairs-weaken _ _ by_critical-le _
      (AllPairs-sort_by by_critical by_critical_total by_critical_trans _),
)
