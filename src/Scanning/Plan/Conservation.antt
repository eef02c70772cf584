-- ===== src/Scanning/Plan/Conservation.antt =====
-- No tag is lost between discovery and the plan, and the budget is kept.
use docker_ls.Prelude.{
  ℕ, zero, suc, ◌+◌, ◌≤◌, ◌≡◌, refl, ap, ◌⊎◌, inl, inr, List, [], ◌∷◌, ◌++◌, map, Bool, true, false,
  not, Option, none, some, arith,
}
use docker_ls.Prelude.{
  any, count, filter, length, take, drop, if◌then◌else◌, Bool-cases, Option-cases, Within,
  filter-Within, Within-self, Within-trans, Within-count, done, kept, left_out,
}
use docker_ls.Prelude.Text.{Text, text_eq, text_eq_iff}
use docker_ls.Verdict.Ranking.Sorting.{count-sort_by}
use docker_ls.Scanning.Criteria.{
  Candidate, reference, active, CandidateCriteria, Exclusion, evaluate_candidate, split_candidates,
  apply_criteria,
}
use docker_ls.Scanning.Lines.{DeferredTag, is_for, last_for, deferrals, in_items, superseded_tags}
use docker_ls.Scanning.Order.{by_priority}
use docker_ls.Scanning.Order.Permutation.{count-representative_order}
use docker_ls.Scanning.Plan.{
  object_in, beyond, after_criteria, order_of, survivors_of, choose, plan_scans,
}
use docker_ls.Scanning.Plan.Kept.{has_object, Distinct, count-split, count-object_in}

-- The two orders of preference hold every survivor once.
count-order_of :
    (spread : Bool) (p : Candidate → Bool) (cs : List Candidate)
    → count p (order_of spread cs) ≡ count p cs
unfolding order_of
count-order_of true p cs = count-representative_order p cs
count-order_of false p cs = count-sort_by by_priority p cs

count-take :
    (p : Candidate → Bool) (n : ℕ) (cs : List Candidate)
    → count p (take n cs) + count p (drop n cs) ≡ count p cs
count-take p zero cs = omega arith
count-take p (suc n) [] = refl
count-take p (suc n) (c ∷ cs) = omega (arith, count-take p n cs)

length-take-le : (n : ℕ) (cs : List Candidate) → length (take n cs) ≤ n
length-take-le zero cs = omega arith
length-take-le (suc n) [] = omega arith
length-take-le (suc n) (c ∷ cs) = omega (arith, length-take-le n cs)

length-count : (cs : List Candidate) → length cs ≡ count (λ c. true) cs
length-count [] = refl
length-count (c ∷ cs) = omega (arith, length-count cs)

-- How often a reference stands among tags, deferrals and exclusions.
abbrev pub at_reference : Text → Candidate → Bool
at_reference r c = text_eq (reference c) r

abbrev pub excludes : Text → Exclusion → Bool
excludes r e = text_eq e.reference r

-- A lookup finds an item with the reference, and misses exactly where none has it.
last_for_lem :
    (items : List DeferredTag) (t : Text)
    → ((last_for items t ≡ none) × (any (is_for t) items ≡ false))
      ⊎ ((d : DeferredTag) × (last_for items t ≡ some d)
          × (any (is_for t) items ≡ true)
          × (d.reference ≡ t))
unfolding last_for
last_for_lem [] t = inl (refl, refl)
last_for_lem (d ∷ items) t = elim (last_for_lem items t) [
  | inl (missing, others) ↦ elim (Bool-cases (is_for t d)) [
    | inl e ↦ inr (d, ground arith, ground arith, (text_eq_iff d.reference t).0 e)
    | inr e ↦ inl (ground arith, ground arith)
  ]
  | inr (x, found, others, q) ↦ inr (x, ground arith, ground arith, q)
]

module _ (r : Text) where
  count-append :
      (xs ys : List DeferredTag)
      → count (is_for r) (xs ++ ys) ≡ count (is_for r) xs + count (is_for r) ys
  count-append [] ys = omega arith
  count-append (x ∷ xs) ys = omega (arith, count-append xs ys)

  count-beyond :
      (cs : List Candidate) → count (is_for r) (map beyond cs) ≡ count (at_reference r) cs
  count-beyond [] = refl
  count-beyond (c ∷ cs) = omega (arith, count-beyond cs)

  count-deferrals :
      (items : List DeferredTag) (cs : List Candidate)
      → count (is_for r) (deferrals items cs) ≡ count (at_reference r) (filter (in_items items) cs)
  unfolding deferrals
  count-deferrals items [] = refl
  count-deferrals items (c ∷ cs) = elim (last_for_lem items (reference c)) [
    | inl (missing, others) ↦ ground (arith, count-deferrals items cs)
    | inr (d, found, others, q) ↦ ground (arith, count-deferrals items cs, ap (λ t. text_eq t r) q)
  ]

  count-split_candidates :
      (criteria : CandidateCriteria) (cs : List Candidate)
      → count (at_reference r) (split_candidates criteria cs).0
          + count (excludes r) (split_candidates criteria cs).1
        ≡ count (at_reference r) cs
  unfolding split_candidates evaluate_candidate
  count-split_candidates criteria [] = refl
  count-split_candidates criteria (c ∷ cs) = ground (arith, count-split_candidates criteria cs)

  count-after_criteria :
      (criteria : Option CandidateCriteria) (cs : List Candidate)
      → count (at_reference r) (after_criteria criteria cs).0
          + count (excludes r) (after_criteria criteria cs).1
        ≡ count (at_reference r) cs
  unfolding apply_criteria
  count-after_criteria none cs = omega arith
  count-after_criteria (some criteria) cs = ground (arith, count-split_candidates criteria cs)

module _ (tags : List Candidate) (distinct : Distinct tags) (budget : ℕ) (spread : Bool) where
  abbrev ranked : List Candidate
  ranked = order_of spread (survivors_of tags)

  chosen-le : (q : Candidate → Bool) → count q (take budget ranked) ≤ count q tags
  chosen-le q = omega (
    arith,
    count-take q budget ranked,
    count-order_of spread q (survivors_of tags),
    count-split q (in_items (superseded_tags tags)) tags,
  )

  abbrev within_budget : List Candidate
  within_budget = filter (object_in (take budget ranked)) tags

  length-within_budget : length within_budget ≤ budget
  length-within_budget = omega (
    arith,
    length-count within_budget,
    length-count (take budget ranked),
    length-take-le budget ranked,
    count-object_in tags distinct (λ c. true) (take budget ranked) chosen-le,
  )

  count-choose :
      (r : Text)
      → count (at_reference r) (choose tags budget spread).0
          + count (is_for r) (choose tags budget spread).1
        ≡ count (at_reference r) tags
  unfolding choose
  count-choose r =
      let items = superseded_tags tags in
      ground (
        arith,
        count-object_in tags distinct (at_reference r) (take budget ranked) chosen-le,
        count-append r (deferrals items tags) (map beyond (drop budget ranked)),
        count-beyond r (drop budget ranked),
        count-deferrals r items tags,
        count-take (at_reference r) budget ranked,
        count-order_of spread (at_reference r) (survivors_of tags),
        count-split (at_reference r) (in_items items) tags,
      )

  choose_bounded : (budget ≡ 0) ⊎ (length (choose tags budget spread).0 ≤ budget)
  unfolding choose
  choose_bounded = ground (arith, length-within_budget)

  if-Within :
      (b : Bool) (x y : List Candidate × List DeferredTag)
      → Within x.0 tags
      → Within y.0 tags
      → Within (if b then x else y).0 tags
  if-Within true x y h k = h
  if-Within false x y h k = k

  choose-Within : Within (choose tags budget spread).0 tags
  unfolding choose
  choose-Within =
      if-Within _ _ _ (Within-self tags)
        (if-Within _ _ _ (filter-Within _ tags) (filter-Within _ tags))

-- What the criteria keep are tags of the listing, in its order.
kept-Within :
    (criteria : CandidateCriteria) (cs : List Candidate)
    → Within (split_candidates criteria cs).0 cs
unfolding split_candidates
kept-Within criteria [] = done
kept-Within criteria (c ∷ cs) = elim (Option-cases (evaluate_candidate criteria c)) [
  | inl e ↦ rw (e, split_candidates) (kept (kept-Within criteria cs))
  | inr (x, e) ↦ rw (e, split_candidates) (left_out (kept-Within criteria cs))
]

after_criteria-Within :
    (criteria : Option CandidateCriteria) (cs : List Candidate)
    → Within (after_criteria criteria cs).0 cs
unfolding apply_criteria
after_criteria-Within none cs = Within-self cs
after_criteria-Within (some criteria) cs = elim (Bool-cases (not (active criteria))) [
  | inl e ↦ rw e (Within-self cs)
  | inr e ↦ rw e (kept-Within criteria cs)
]

-- Every reference stands among the selected, the deferred and the excluded tags of a plan as often as
-- among the discovered ones; no more tags are selected than the budget says, if there is one; and the
-- selected tags stand in the order of discovery. No two of the discovered tags are the same object.
pub plan_scans_lem :
    (tags : List Candidate) (budget : ℕ) (criteria : Option CandidateCriteria) (spread : Bool)
    → Distinct tags
    → let plan = plan_scans tags budget criteria spread in
      ((r : Text)
        → count (at_reference r) plan.selected
            + count (is_for r) plan.deferred
            + count (excludes r) plan.excluded
          ≡ count (at_reference r) tags)
      × ((budget ≡ 0) ⊎ (length plan.selected ≤ budget))
      × Within plan.selected tags
unfolding plan_scans
plan_scans_lem tags budget criteria spread distinct =
    let remaining = (after_criteria criteria tags).0 in
    let within = after_criteria-Within criteria tags in
    let apart : Distinct remaining =
      λ n. omega (arith, Within-count (has_object n) within, distinct n) in
    (
      λ r. omega (
        arith,
        count-choose remaining apart budget spread r,
        count-after_criteria r criteria tags,
      ),
      choose_bounded remaining apart budget spread,
      Within-trans (choose-Within remaining apart budget spread) within,
    )
