-- ===== src/Scanning/Order.antt =====
-- `_priority` and `_representative_order` of scan_plan.py: whom the budget is spent on.
pub mod Rounds
pub mod Permutation
use docker_ls.Prelude.{
  ℕ, zero, suc, ◌+◌, List, [], ◌∷◌, ◌++◌, map, Bool, true, false, ◌&&◌, ◌||◌, Option, none, some,
}
use docker_ls.Prelude.{
  leb, ltb, ◌==◌, not, any, is_empty, filter, length, take, drop, if◌then◌else◌,
}
use docker_ls.Prelude.Text.{Text, text_eq, text_leb}
use docker_ls.Verdict.Ranking.Sorting.{first_then, sort_by}
use docker_ls.Evidence.Image.{DockerImage}
use docker_ls.Scanning.Versions.{Version, version_leb, version_ltb, version_and_variant}
use docker_ls.Scanning.Criteria.{
  Candidate, reference, Variant, same_variant, family_of_tag, variant_of_tag, major,
  CandidateCriteria, active, Exclusion, apply_criteria,
}
use docker_ls.Scanning.Lines.{same_version, tag_version}

abbrev published : DockerImage → ℕ
published i = elim i.last_updated [ none ↦ 0 | some moment ↦ moment ]

abbrev official_rank : Bool → ℕ
official_rank true = 0
official_rank false = 1

-- `_priority a <= _priority b`
unfoldable pub by_priority : Candidate → Candidate → Bool
by_priority a b =
    first_then (official_rank a.image.is_official) (official_rank b.image.is_official)
      (first_then (published b.image) (published a.image) (text_leb (reference a) (reference b)))

-- `list[depth]` as a list, which is empty where the index is out of range
abbrev pub at_index : List Candidate → ℕ → List Candidate
at_index [] depth = []
at_index (x ∷ xs) zero = x ∷ []
at_index (x ∷ xs) (suc depth) = at_index xs depth

-- The inner loop of a round
unfoldable pub at_depth : ℕ → List (List Candidate) → List Candidate
at_depth depth [] = []
at_depth depth (l ∷ ls) = at_index l depth ++ at_depth depth ls

-- `while len(out) < total`: a round for each depth, on fuel
unfoldable pub rounds : ℕ → ℕ → ℕ → List Candidate → List (List Candidate) → List Candidate
rounds zero depth total out ls = out
rounds (suc fuel) depth total out ls =
    let next = rounds fuel (suc depth) total (out ++ at_depth depth ls) ls in
    if leb total (length out) then out else next

-- `sum(len(l) for l in ls)`
abbrev pub total_length : List (List Candidate) → ℕ
total_length [] = 0
total_length (l ∷ ls) = length l + total_length ls

unfoldable pub round_robin : List (List Candidate) → List Candidate
unfolding rounds
round_robin ls = rounds (total_length ls) 0 (total_length ls) [] ls

abbrev pub VariantKey : Type 0
VariantKey = Text × Variant

abbrev pub same_variant_key : VariantKey → VariantKey → Bool
same_variant_key (f, v) (g, w) = text_eq f g && same_variant v w

abbrev pub Variants : Type 0
Variants = List (VariantKey × List Candidate)

-- `by_version.setdefault(version, {}).setdefault(variant, []).append(image)`
unfoldable pub put_variant : VariantKey → Candidate → Variants → Variants
put_variant key c [] = (key, c ∷ []) ∷ []
put_variant key c ((k, members) ∷ variants) =
    let rest = put_variant key c variants in
    if same_variant_key k key then (k, members ++ (c ∷ [])) ∷ variants else (k, members) ∷ rest

unfoldable pub put_version :
    Version → VariantKey → Candidate → List (Version × Variants) → List (Version × Variants)
unfolding put_variant
put_version version key c [] = (version, put_variant key c []) ∷ []
put_version version key c ((v, variants) ∷ versions) =
    let rest = put_version version key c versions in
    if same_version v version
    then (v, put_variant key c variants) ∷ versions
    else (v, variants) ∷ rest

unfoldable pub grouped : List (Version × Variants) → List Candidate → List (Version × Variants)
grouped versions [] = versions
grouped versions (c ∷ cs) =
    grouped
      (put_version (major (tag_version c)) (family_of_tag c.image, variant_of_tag c.image) c
        versions)
      cs

-- Two lines compare by the first of each; no line is empty.
unfoldable pub by_first : List Candidate → List Candidate → Bool
by_first [] m = true
by_first (x ∷ l) [] = false
by_first (x ∷ l) (y ∷ m) = by_priority x y

-- The line of one version
unfoldable pub line_order : Version × Variants → List Candidate
line_order (version, variants) =
    round_robin (sort_by by_first (map (λ group. sort_by by_priority group.1) variants))

-- `_representative_order`
unfoldable pub representative_order : List Candidate → List Candidate
representative_order images = round_robin (sort_by by_first (map line_order (grouped [] images)))
