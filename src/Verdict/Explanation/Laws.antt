-- ===== src/Verdict/Explanation/Laws.antt =====
-- What is left of a list of reasons.
use docker_ls.Prelude.{◌≡◌, ◌≢◌, ◌↔◌, inl, inr, refl, ap, List, [], ◌∷◌, false, not, ◌&&◌, is_empty}
use docker_ls.Prelude.{
  In, All, All-In, AllPairs, Within, done, kept, left_out, Within-In, Bool-cases, arith,
}
use docker_ls.Prelude.Text.{Text, contains, text_eq, text_eq_iff}
use docker_ls.CrossValidation.Sets.{contains_iff}
use docker_ls.Verdict.Explanation.{unseen, deduplicate}

unseen-Within : (seen items : List Text) → Within (unseen seen items) items
unfolding unseen
unseen-Within seen [] = done
unseen-Within seen (item ∷ items) =
    elim (Bool-cases (not (is_empty item) && not (contains seen item))) [
      | inl e ↦ rw e (kept (unseen-Within (item ∷ seen) items))
      | inr e ↦ rw e (left_out (unseen-Within seen items))
    ]

All-map : {P Q : Text → Type 0} (xs : List Text) → ((t : Text) → P t → Q t) → All P xs → All Q xs
All-map [] k h = tt
All-map (x ∷ xs) k (h, hs) = (k x h, All-map xs k hs)

-- A reason with a text that is not among those seen.
abbrev Fresh : List Text → Text → Type 0
Fresh seen t = (t ≢ []) × (contains seen t ≡ false)

unseen-Fresh : (seen items : List Text) → All (Fresh seen) (unseen seen items)
unfolding unseen
unseen-Fresh seen [] = tt
unseen-Fresh seen (item ∷ items) =
    elim (Bool-cases (not (is_empty item) && not (contains seen item))) [
      | inl e ↦ rw e (
        (λ q. ground (arith, ap is_empty q), ground arith),
        All-map _ (λ t (n, h). (n, ground arith)) (unseen-Fresh (item ∷ seen) items),
      )
      | inr e ↦ rw e (unseen-Fresh seen items)
    ]

Fresh-ne : (seen : List Text) (item t : Text) → Fresh (item ∷ seen) t → t ≢ item
Fresh-ne seen item t (n, h) q = cc ((contains_iff (item ∷ seen) t).1 (inl q))

unseen-AllPairs : (seen items : List Text) → AllPairs (λ s t. t ≢ s) (unseen seen items)
unfolding unseen
unseen-AllPairs seen [] = tt
unseen-AllPairs seen (item ∷ items) =
    elim (Bool-cases (not (is_empty item) && not (contains seen item))) [
      | inl e ↦ rw e (
        All-map _ (Fresh-ne seen item) (unseen-Fresh (item ∷ seen) items),
        unseen-AllPairs (item ∷ seen) items,
      )
      | inr e ↦ rw e (unseen-AllPairs seen items)
    ]

is_empty-ne : (t : Text) → t ≢ [] → is_empty t ≡ false
is_empty-ne [] n = absurd (n refl)
is_empty-ne (c ∷ t) n = refl

In-unseen :
    (seen items : List Text) (t : Text) → In t items → Fresh seen t → In t (unseen seen items)
unfolding unseen
In-unseen seen [] t m f = absurd m
In-unseen seen (item ∷ items) t m (n, h) =
    elim (Bool-cases (not (is_empty item) && not (contains seen item))) [
      | inl e ↦ rw e (elim m [
        | inl q ↦ inl q
        | inr later ↦ elim (Bool-cases (text_eq t item)) [
          | inl same ↦ inl ((text_eq_iff t item).0 same)
          | inr differs ↦ inr (In-unseen (item ∷ seen) items t later (n, ground arith))
        ]
      ])
      | inr e ↦ rw e (elim m [
        | inl q ↦ absurd (ground (arith, is_empty-ne t n, ap is_empty q, ap (contains seen) q))
        | inr later ↦ In-unseen seen items t later (n, h)
      ])
    ]

-- What `_deduplicate` returns is its argument with some reasons left out, the order kept; no reason
-- is there twice, and every reason with a text is there.
deduplicate_lem :
    (items : List Text)
    → Within (deduplicate items) items
      × AllPairs (λ s t. t ≢ s) (deduplicate items)
      × ((t : Text) → In t (deduplicate items) ↔ (In t items × (t ≢ [])))
unfolding deduplicate
deduplicate_lem items = (
  unseen-Within [] items,
  unseen-AllPairs [] items,
  λ t. (
    λ m. (
      Within-In t (unseen-Within [] items) m,
      (All-In (Fresh []) t _ (unseen-Fresh [] items) m).0,
    ),
    λ (m, n). In-unseen [] items t m (n, refl),
  ),
)
