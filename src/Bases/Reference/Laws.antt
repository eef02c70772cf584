-- ===== src/Bases/Reference/Laws.antt =====
-- A reference that is put together from parts falls into those parts again.
use mathlib.Core.List.{append_assoc}
use Prim.Native.Nat.{ℕ}
use docker_ls.Prelude.{◌≡◌, refl, sym, ap, ◌∙◌, [], ◌∷◌, ◌++◌, false, ◌||◌, arith}
use docker_ls.Prelude.Text.{Text}
use docker_ls.Bases.Reference.{
  has_char, before_first, after_first, up_to_last, after_last, split_reference,
}

pub has_char-append : (c : ℕ) (s t : Text) → has_char c (s ++ t) ≡ (has_char c s || has_char c t)
has_char-append c [] t = refl
has_char-append c (x ∷ s) t = ground (arith, has_char-append c s t)

pub has_char-before_first : (c : ℕ) (t : Text) → has_char c (before_first c t) ≡ false
unfolding before_first
has_char-before_first c [] = refl
has_char-before_first c (x ∷ t) = ground (arith, has_char-before_first c t)

-- A part of a text has no character that the text has not.
has_char-before_first_of :
    (c d : ℕ) (t : Text) → has_char c t ≡ false → has_char c (before_first d t) ≡ false
unfolding before_first
has_char-before_first_of c d [] h = refl
has_char-before_first_of c d (x ∷ t) h = ground (arith, has_char-before_first_of c d t)

has_char-after_first_of :
    (c d : ℕ) (t : Text) → has_char c t ≡ false → has_char c (after_first d t) ≡ false
unfolding after_first
has_char-after_first_of c d [] h = refl
has_char-after_first_of c d (x ∷ t) h = ground (arith, has_char-after_first_of c d t)

pub has_char-after_last : (c : ℕ) (t : Text) → has_char c (after_last c t) ≡ false
unfolding after_last
has_char-after_last c [] = refl
has_char-after_last c (x ∷ t) = ground (arith, has_char-after_last c t)

pub has_char-after_last_of :
    (c d : ℕ) (t : Text) → has_char c t ≡ false → has_char c (after_last d t) ≡ false
unfolding after_last
has_char-after_last_of c d [] h = refl
has_char-after_last_of c d (x ∷ t) h = ground (arith, has_char-after_last_of c d t)

has_char-up_to_last_of :
    (c d : ℕ) (t : Text) → has_char c t ≡ false → has_char c (up_to_last d t) ≡ false
unfolding up_to_last
has_char-up_to_last_of c d [] h = refl
has_char-up_to_last_of c d (x ∷ t) h = ground (arith, has_char-up_to_last_of c d t)

-- What stands before and after a separator that the first text has not
pub before_first-append :
    (c : ℕ) (s t : Text) → has_char c s ≡ false → before_first c (s ++ (c ∷ t)) ≡ s
unfolding before_first
before_first-append c [] t h = ground arith
before_first-append c (x ∷ s) t h = ground (arith, before_first-append c s t)

pub after_first-append :
    (c : ℕ) (s t : Text) → has_char c s ≡ false → after_first c (s ++ (c ∷ t)) ≡ t
unfolding after_first
after_first-append c [] t h = ground arith
after_first-append c (x ∷ s) t h = ground (arith, after_first-append c s t)

has_char-up_to_last : (c : ℕ) (t : Text) → has_char c (up_to_last c t) ≡ has_char c t
unfolding up_to_last
has_char-up_to_last c [] = refl
has_char-up_to_last c (x ∷ t) = ground (arith, has_char-up_to_last c t)

up_to_last_none : (c : ℕ) (t : Text) → has_char c t ≡ false → up_to_last c t ≡ []
unfolding up_to_last
up_to_last_none c [] h = refl
up_to_last_none c (x ∷ t) h = ground arith

pub after_last_none : (c : ℕ) (t : Text) → has_char c t ≡ false → after_last c t ≡ t
unfolding after_last
after_last_none c [] h = refl
after_last_none c (x ∷ t) h = ground arith

up_to_last-append :
    (c : ℕ) (t u : Text)
    → has_char c u ≡ false
    → up_to_last c (up_to_last c t ++ u) ≡ up_to_last c t
unfolding up_to_last
up_to_last-append c [] u h = up_to_last_none c u h
up_to_last-append c (x ∷ t) u h = ground (
  arith,
  up_to_last-append c t u h,
  up_to_last_none c u h,
  has_char-append c (up_to_last c t) u,
  has_char-up_to_last c t,
)

after_last-append :
    (c : ℕ) (t u : Text) → has_char c u ≡ false → after_last c (up_to_last c t ++ u) ≡ u
unfolding up_to_last after_last
after_last-append c [] u h = after_last_none c u h
after_last-append c (x ∷ t) u h = ground (
  arith,
  after_last-append c t u h,
  after_last_none c u h,
  has_char-append c (up_to_last c t) u,
  has_char-up_to_last c t,
)

-- `f"{name}:{tag}@{digest}"`
abbrev pub written : Text → Text → Text → Text
written name tag digest = name ++ (b':' ∷ (tag ++ (b'@' ∷ digest)))

module _ (head part tag digest : Text)
    (head_whole : up_to_last b'/' (head ++ (part ++ (b':' ∷ tag))) ≡ head)
    (part_whole : after_last b'/' (head ++ (part ++ (b':' ∷ tag))) ≡ part ++ (b':' ∷ tag))
    (no_at : has_char b'@' (head ++ (part ++ (b':' ∷ tag))) ≡ false)
    (no_colon : has_char b':' part ≡ false) where
  remainder-written :
      before_first b'@' ((head ++ (part ++ (b':' ∷ tag))) ++ (b'@' ∷ digest))
      ≡ head ++ (part ++ (b':' ∷ tag))
  remainder-written = before_first-append b'@' (head ++ (part ++ (b':' ∷ tag))) digest no_at

  split_reference-joined :
      split_reference ((head ++ (part ++ (b':' ∷ tag))) ++ (b'@' ∷ digest))
      ≡ record { name = head ++ part; tag = tag; digest = digest }
  unfolding split_reference
  split_reference-joined =
      rw
        (
          remainder-written,
          head_whole,
          part_whole,
          before_first-append b':' part tag no_colon,
          after_first-append b':' part tag no_colon,
          after_first-append b'@' (head ++ (part ++ (b':' ∷ tag))) digest no_at,
        )
        refl

-- The name that is read of any reference, written with a tag and a digest, is read again as that
-- name, that tag and that digest, where the tag has neither "@" nor "/".
pub split_reference-written :
    (r tag digest : Text)
    → has_char b'@' tag ≡ false
    → has_char b'/' tag ≡ false
    → split_reference (written (split_reference r).name tag digest)
      ≡ record { name = (split_reference r).name; tag = tag; digest = digest }
unfolding split_reference
split_reference-written r tag digest no_at no_slash =
    let remainder = before_first b'@' r in
    let head = up_to_last b'/' remainder in
    let part = before_first b':' (after_last b'/' remainder) in
    let part_slash : has_char b'/' part ≡ false =
      has_char-before_first_of b'/' b':' (after_last b'/' remainder)
        (has_char-after_last b'/' remainder) in
    let tail_slash : has_char b'/' (part ++ (b':' ∷ tag)) ≡ false =
      ground (arith, has_char-append b'/' part (b':' ∷ tag), part_slash, no_slash) in
    let remainder_at : has_char b'@' remainder ≡ false = has_char-before_first b'@' r in
    let head_at : has_char b'@' head ≡ false =
      has_char-up_to_last_of b'@' b'/' remainder remainder_at in
    let part_at : has_char b'@' part ≡ false =
      has_char-before_first_of b'@' b':' (after_last b'/' remainder)
        (has_char-after_last_of b'@' b'/' remainder remainder_at) in
    let all_at : has_char b'@' (head ++ (part ++ (b':' ∷ tag))) ≡ false = ground (
      arith,
      has_char-append b'@' head (part ++ (b':' ∷ tag)),
      has_char-append b'@' part (b':' ∷ tag),
      head_at,
      part_at,
      no_at,
    ) in
    let joined : (head ++ part) ++ (b':' ∷ (tag ++ (b'@' ∷ digest)))
        ≡ (head ++ (part ++ (b':' ∷ tag))) ++ (b'@' ∷ digest) =
      append_assoc head part (b':' ∷ (tag ++ (b'@' ∷ digest)))
      ∙ (ap (λ t. head ++ t) (sym (append_assoc part (b':' ∷ tag) (b'@' ∷ digest)))
          ∙ sym (append_assoc head (part ++ (b':' ∷ tag)) (b'@' ∷ digest))) in
    ap split_reference joined
    ∙ split_reference-joined head part tag digest
        (up_to_last-append b'/' remainder (part ++ (b':' ∷ tag)) tail_slash)
        (after_last-append b'/' remainder (part ++ (b':' ∷ tag)) tail_slash) all_at
        (has_char-before_first b':' (after_last b'/' remainder))

-- The tag that is read of a reference has neither "@" nor "/".
pub split_reference-tag :
    (r : Text)
    → (has_char b'@' (split_reference r).tag ≡ false)
      × (has_char b'/' (split_reference r).tag ≡ false)
unfolding split_reference
split_reference-tag r =
    let remainder = before_first b'@' r in
    (
      has_char-after_first_of b'@' b':' (after_last b'/' remainder)
          (has_char-after_last_of b'@' b'/' remainder (has_char-before_first b'@' r)),
      has_char-after_first_of b'/' b':' (after_last b'/' remainder)
          (has_char-after_last b'/' remainder),
    )
