-- ===== src/Scanning/Lines.antt =====
-- `_superseded` of scan_plan.py: the tags that a newer one of the same line stands for.
pub mod Winners
pub mod Superseded
use docker_ls.Prelude.{
  ℕ, zero, suc, ◌+◌, List, [], ◌∷◌, ◌++◌, map, Bool, true, false, ◌&&◌, ◌||◌, Option, none, some,
}
use docker_ls.Prelude.{
  leb, ltb, ◌==◌, not, any, is_empty, filter, length, take, drop, if◌then◌else◌,
}
use docker_ls.Prelude.Text.{Text, text_eq, text_leb}
use docker_ls.Verdict.Ranking.Sorting.{first_then, sort_by}
use docker_ls.Evidence.Image.{DockerImage}
use docker_ls.Scanning.Versions.{Version, version_leb, version_ltb, version_and_variant}
use docker_ls.Scanning.Criteria.{
  Candidate, reference, Variant, same_variant, family_of_tag, variant_of_tag, major,
  CandidateCriteria, active, Exclusion, apply_criteria,
}

pub data DeferralReason : Type 0 where
  superseded over_budget time_budget : DeferralReason

-- `DeferredTag`; `instead` is the tag that the detail of a superseded one names.
pub record DeferredTag : Type 0 where
  pub reference : Text
  pub reason : DeferralReason
  pub instead : Option Candidate

-- The key of `newest`: the variant, how many components the version has, and the first of them.
pub record Line : Type 0 where
  pub variant : Text
  pub width : ℕ
  pub first : Version

abbrev pub same_version : Version → Version → Bool
same_version a b = version_leb a b && version_leb b a

unfoldable pub same_line : Line → Line → Bool
same_line a b = text_eq a.variant b.variant && (a.width == b.width && same_version a.first b.first)

abbrev line_made : Option Version × Text → Option Line
line_made (none, variant) = none
line_made (some version, variant) =
    some (record { variant = variant; width = length version; first = major version })

unfoldable pub line_of : Candidate → Option Line
line_of c = line_made (version_and_variant c.image.tag)

abbrev version_or_none : Option Version → Version
version_or_none none = []
version_or_none (some version) = version

-- The version of a tag that has one
unfoldable pub tag_version : Candidate → Version
tag_version c = version_or_none (version_and_variant c.image.tag).0

abbrev pub Newest : Type 0
Newest = List (Line × Candidate)

-- One turn of the first loop of `_superseded`
unfoldable pub put_newest : Line → Candidate → Newest → Newest
put_newest line c [] = (line, c) ∷ []
put_newest line c ((l, current) ∷ newest) =
    let rest = put_newest line c newest in
    if same_line l line
    then (l, if version_ltb (tag_version current) (tag_version c) then c else current) ∷ newest
    else (l, current) ∷ rest

unfoldable pub newest_from : Newest → List Candidate → Newest
newest_from newest [] = newest
newest_from newest (c ∷ cs) = elim (line_of c) [
  | none ↦ newest_from newest cs
  | some line ↦ newest_from (put_newest line c newest) cs
]

-- `id(image) in winners`
abbrev pub is_winner : Newest → Candidate → Bool
is_winner newest c = any (λ item. item.1.object == c.object) newest

abbrev pub newest_in : Newest → Line → Option Candidate
newest_in [] line = none
newest_in ((l, c) ∷ newest) line = if same_line l line then some c else newest_in newest line

-- The second loop of `_superseded`: the items that it puts, in order
unfoldable pub superseded_from : Newest → List Candidate → List DeferredTag
superseded_from newest [] = []
superseded_from newest (c ∷ cs) =
    let rest = superseded_from newest cs in
    elim (line_of c) [
      | none ↦ rest
      | some line ↦
          if is_winner newest c
          then rest
          else record {
            reference = reference c;
            reason = superseded;
            instead = newest_in newest line;
          }
            ∷ rest
    ]

-- `_superseded`, as the items put
unfoldable pub superseded_tags : List Candidate → List DeferredTag
unfolding newest_from superseded_from
superseded_tags cs = superseded_from (newest_from [] cs) cs

abbrev pub is_for : Text → DeferredTag → Bool
is_for r d = text_eq d.reference r

-- `superseded[reference]`: the item that was put last, if there is one
unfoldable pub last_for : List DeferredTag → Text → Option DeferredTag
last_for [] r = none
last_for (d ∷ ds) r = elim (last_for ds r) [
  | some e ↦ some e
  | none ↦ if is_for r d then some d else none
]

-- `[superseded[image.full_reference] for image in tags if image.full_reference in superseded]`
unfoldable pub deferrals : List DeferredTag → List Candidate → List DeferredTag
deferrals items [] = []
deferrals items (c ∷ cs) = elim (last_for items (reference c)) [
  | none ↦ deferrals items cs
  | some d ↦ d ∷ deferrals items cs
]

abbrev pub in_items : List DeferredTag → Candidate → Bool
in_items items c = any (is_for (reference c)) items
