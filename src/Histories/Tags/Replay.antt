-- ===== src/Histories/Tags/Replay.antt =====
-- What a tag's history says after any sequence of answers of the registry.
use Prim.Native.Nat.{ℕ, ◌-◌, ◌≤◌}
use docker_ls.Prelude.{
  ◌≡◌, refl, ap, ◌∙◌, inl, inr, List, [], ◌∷◌, Bool, true, false, arith, if◌then◌else◌, is_empty,
  length, Bool-cases, Option-cases,
}
use docker_ls.Prelude.Text.{Text, text_eq, strip}
use docker_ls.Histories.Bounded.{max_observations, last_of}
use docker_ls.Histories.Bounded.Laws.{bounded, overflow, length-bounded, length-bounded-le}
use docker_ls.Histories.Bounded.Replay.{changes, observe, observe_all, observe_all_lem}
use docker_ls.Histories.Tags.{
  TagObservation, TagHistory, new_tag_history, moves, record_digest, record_all,
}

abbrev same_digest : TagObservation → TagObservation → Bool
same_digest a b = text_eq a.digest b.digest

-- The answers that hold a digest, as observations
unfoldable pub answered : List (Text × Text) → List TagObservation
answered [] = []
answered ((digest, observed_at) ∷ answers) =
    let rest = answered answers in
    if is_empty (strip digest)
    then rest
    else record { digest = strip digest; observed_at = observed_at } ∷ rest

-- The digests that the tag was seen to move through
unfoldable pub seen : List (Text × Text) → List TagObservation
unfolding answered changes
seen answers = changes same_digest (answered answers)

history_of : Text → List TagObservation × ℕ → TagHistory
history_of r (os, n) = record { reference = r; observations = os; dropped = n }

record_digest-blank :
    (h : TagHistory) (digest at : Text)
    → is_empty (strip digest) ≡ true
    → record_digest h digest at ≡ h
unfolding record_digest
record_digest-blank h digest at e = rw e refl

record_digest-observe :
    (r : Text) (os : List TagObservation) (n : ℕ) (digest at : Text)
    → is_empty (strip digest) ≡ false
    → record_digest (history_of r (os, n)) digest at
      ≡ history_of r
          (observe same_digest (os, n) (record { digest = strip digest; observed_at = at }))
unfolding record_digest observe history_of
record_digest-observe r os n digest at e = rw e (elim (Option-cases (last_of os)) [
  | inl l ↦ rw l refl
  | inr (o, l) ↦ rw l (elim (Bool-cases (text_eq o.digest (strip digest))) [
    | inl f ↦ rw f refl
    | inr f ↦ rw f refl
  ])
])

record_all-observe :
    (r : Text) (h : List TagObservation × ℕ) (answers : List (Text × Text))
    → record_all (history_of r h) answers
      ≡ history_of r (observe_all same_digest h (answered answers))
unfolding record_all answered observe_all
record_all-observe r h [] = refl
record_all-observe r (os, n) ((digest, at) ∷ answers) =
    elim (Bool-cases (is_empty (strip digest))) [
      | inl e ↦ rw e (
          rw (record_digest-blank (history_of r (os, n)) digest at e)
            (record_all-observe r (os, n) answers))
      | inr e ↦ rw e (
          rw (record_digest-observe r os n digest at e) (
            record_all-observe r
              (observe same_digest (os, n) (record { digest = strip digest; observed_at = at }))
              answers))
    ]

moves-kept :
    (r : Text) (os : List TagObservation)
    → moves (history_of r (bounded os, overflow os)) ≡ length os - 1
unfolding moves history_of bounded overflow
moves-kept r [] = omega arith
moves-kept r (o ∷ os) = omega (arith, length-bounded (o ∷ os))

-- From an empty history, after any sequence of answers: what is kept is the first digest that the
-- tag was seen at and the last 23 of those that it moved to, the others are counted as dropped, and
-- `moves` is the number of all the digests that the tag was seen to move through, less the first; no
-- more than 24 observations are kept. An answer with a blank digest is no observation.
pub record_all_lem :
    (r : Text) (answers : List (Text × Text))
    → ((record_all (new_tag_history r) answers).observations ≡ bounded (seen answers))
      × ((record_all (new_tag_history r) answers).dropped ≡ overflow (seen answers))
      × (moves (record_all (new_tag_history r) answers) ≡ length (seen answers) - 1)
      × (length (record_all (new_tag_history r) answers).observations ≤ max_observations)
unfolding seen history_of
record_all_lem r answers =
    let e =
      record_all-observe r ([], 0) answers
      ∙ ap (history_of r) (observe_all_lem same_digest (answered answers)) in
    (
      ap (λ h. h.observations) e,
      ap (λ h. h.dropped) e,
      ap moves e ∙ moves-kept r (seen answers),
      rw e (length-bounded-le (seen answers)),
    )
