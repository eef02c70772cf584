-- ===== src/Examples/Scanning.antt =====
-- Three tags of one image, two of which are of one line.
use docker_ls.Prelude.{
  ℕ, ◌+◌, ◌≤◌, ◌≡◌, ◌⊎◌, inl, refl, List, [], ◌∷◌, true, none, some, arith, count, length, Within,
}
use docker_ls.Prelude.Text.{Text, codes, strip, lower, text_eq}
use docker_ls.Scanning.Criteria.{Candidate, CandidateCriteria}
use docker_ls.Scanning.Versions.{version_and_variant, version_leb}
use docker_ls.Scanning.Lines.{
  superseded_tags, line_of, put_newest, same_line, tag_version, superseded, is_for,
}
use docker_ls.Scanning.Lines.Superseded.{StoodFor, superseded_tags-StoodFor}
use docker_ls.Scanning.Plan.{plan_scans}
use docker_ls.Scanning.Plan.Kept.{Distinct}
use docker_ls.Scanning.Plan.Conservation.{at_reference, excludes, plan_scans_lem}
use docker_ls.Examples.Data.{python_slim}

abbrev tag_at : ℕ → Text → Candidate
tag_at n t = record {
  object = n;
  image = record python_slim { tag = t; full_reference = t };
  architectures = codes "amd64" ∷ [];
}

abbrev listing : List Candidate
listing = tag_at 0 (codes "22.13") ∷ tag_at 1 (codes "22.14") ∷ tag_at 2 (codes "21-alpine") ∷ []

abbrev on_alpine : CandidateCriteria
on_alpine = record { architecture = none; runtime = none; distro = codes "alpine"; variant = none }

superseded_tags-StoodFor_example : StoodFor listing (record {
  reference = codes "22.13";
  reason = superseded;
  instead = some (tag_at 1 (codes "22.14"));
})
unfolding superseded_tags line_of version_and_variant strip put_newest same_line text_eq lower
    version_leb tag_version
superseded_tags-StoodFor_example = superseded_tags-StoodFor listing _ (inl refl)

listing-Distinct : Distinct listing
listing-Distinct = λ n. ground arith

plan_scans_lem_example :
    let plan = plan_scans listing 1 (some on_alpine) true in
    ((r : Text)
      → count (at_reference r) plan.selected
          + count (is_for r) plan.deferred
          + count (excludes r) plan.excluded
        ≡ count (at_reference r) listing)
    × (◌≡◌ {A = ℕ} 1 0 ⊎ (length plan.selected ≤ 1))
    × Within plan.selected listing
plan_scans_lem_example = plan_scans_lem listing 1 (some on_alpine) true listing-Distinct
