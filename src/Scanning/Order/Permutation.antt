-- ===== src/Scanning/Order/Permutation.antt =====
-- Grouping and sorting lose no tag, so the order of preference is one of the tags that were given.
use docker_ls.Prelude.{ℕ, ◌+◌, ◌≡◌, refl, List, [], ◌∷◌, map, Bool, arith}
use docker_ls.Prelude.{count, if◌then◌else◌}
use docker_ls.Verdict.Ranking.Sorting.{sort_by, insert_by, count-sort_by}
use docker_ls.Scanning.Versions.{Version}
use docker_ls.Scanning.Criteria.{Candidate, family_of_tag, variant_of_tag, major}
use docker_ls.Scanning.Lines.{tag_version}
use docker_ls.Scanning.Order.{
  VariantKey, Variants, put_variant, put_version, grouped, by_priority, by_first, line_order,
  representative_order,
}
use docker_ls.Scanning.Order.Rounds.{lists_count, count-append, count-round_robin}

module _ (p : Candidate → Bool) where
  abbrev bit : Candidate → ℕ
  bit c = if p c then 1 else 0

  abbrev variants_count : Variants → ℕ
  variants_count [] = 0
  variants_count ((k, members) ∷ variants) = count p members + variants_count variants

  abbrev versions_count : List (Version × Variants) → ℕ
  versions_count [] = 0
  versions_count ((v, variants) ∷ versions) = variants_count variants + versions_count versions

  variants_count-put :
      (key : VariantKey) (c : Candidate) (variants : Variants)
      → variants_count (put_variant key c variants) ≡ bit c + variants_count variants
  unfolding put_variant
  variants_count-put key c [] = ground arith
  variants_count-put key c ((k, members) ∷ variants) =
      ground (arith, variants_count-put key c variants, count-append p members (c ∷ []))

  versions_count-put :
      (version : Version) (key : VariantKey) (c : Candidate) (versions : List (Version × Variants))
      → versions_count (put_version version key c versions) ≡ bit c + versions_count versions
  unfolding put_version
  versions_count-put version key c [] = ground (arith, variants_count-put key c [])
  versions_count-put version key c ((v, variants) ∷ versions) =
      ground (arith, versions_count-put version key c versions, variants_count-put key c variants)

  versions_count-grouped :
      (versions : List (Version × Variants)) (cs : List Candidate)
      → versions_count (grouped versions cs) ≡ versions_count versions + count p cs
  unfolding grouped
  versions_count-grouped versions [] = omega arith
  versions_count-grouped versions (c ∷ cs) =
      let version = major (tag_version c) in
      let key : VariantKey = (family_of_tag c.image, variant_of_tag c.image) in
      omega (
        arith,
        versions_count-grouped (put_version version key c versions) cs,
        versions_count-put version key c versions,
      )

  lists_count-insert_by :
      (l : List Candidate) (ls : List (List Candidate))
      → lists_count p (insert_by by_first l ls) ≡ count p l + lists_count p ls
  unfolding insert_by
  lists_count-insert_by l [] = refl
  lists_count-insert_by l (m ∷ ls) = ground (arith, lists_count-insert_by l ls)

  lists_count-sort_by :
      (ls : List (List Candidate)) → lists_count p (sort_by by_first ls) ≡ lists_count p ls
  unfolding sort_by
  lists_count-sort_by [] = refl
  lists_count-sort_by (l ∷ ls) =
      omega (arith, lists_count-insert_by l (sort_by by_first ls), lists_count-sort_by ls)

  lists_count-sorted :
      (variants : Variants)
      → lists_count p (map (λ group. sort_by by_priority group.1) variants)
        ≡ variants_count variants
  lists_count-sorted [] = refl
  lists_count-sorted ((k, members) ∷ variants) =
      omega (arith, count-sort_by by_priority p members, lists_count-sorted variants)

  count-line_order :
      (version : Version) (variants : Variants)
      → count p (line_order (version, variants)) ≡ variants_count variants
  unfolding line_order
  count-line_order version variants =
      let groups = map (λ group. sort_by by_priority group.1) variants in
      omega (
        arith,
        count-round_robin p (sort_by by_first groups),
        lists_count-sort_by groups,
        lists_count-sorted variants,
      )

  lists_count-line_order :
      (versions : List (Version × Variants))
      → lists_count p (map line_order versions) ≡ versions_count versions
  lists_count-line_order [] = refl
  lists_count-line_order ((v, variants) ∷ versions) =
      omega (arith, count-line_order v variants, lists_count-line_order versions)

  -- The loops of `_representative_order` end with every tag placed, as often as it was given.
  pub count-representative_order :
      (images : List Candidate) → count p (representative_order images) ≡ count p images
  unfolding representative_order
  count-representative_order images =
      let lines = map line_order (grouped [] images) in
      omega (
        arith,
        count-round_robin p (sort_by by_first lines),
        lists_count-sort_by lines,
        lists_count-line_order (grouped [] images),
        versions_count-grouped [] images,
      )
