-- ===== src/Identity/Parts/Laws.antt =====
-- Parts that hold no separator are read again from the text that they make.
use docker_ls.Prelude.{
  ℕ, ◌≡◌, refl, ap, ◌∙◌, List, [], ◌∷◌, ◌++◌, Bool, true, false, ◌&&◌, not, ◌==◌, all, arith,
  Bool-cases, inl, inr,
}
use docker_ls.Prelude.Text.{Text, is_space, lower_code, lower, lstrip, rstrip, strip}
use docker_ls.Bases.Reference.{has_char, after_last}
use docker_ls.Bases.Reference.Laws.{has_char-append}
use docker_ls.Identity.Parts.{onto_part, split_on, join_with, before_last}

pub split_on-append :
    (c : ℕ) (s t : Text) → has_char c s ≡ false → split_on c (s ++ (c ∷ t)) ≡ s ∷ split_on c t
unfolding split_on
split_on-append c [] t h = ground arith
split_on-append c (x ∷ s) t h =
    let other : (x == c) ≡ false = ground arith in
    rw (other, split_on-append c s t (ground arith)) refl

pub split_on-whole : (c : ℕ) (s : Text) → has_char c s ≡ false → split_on c s ≡ s ∷ []
unfolding split_on
split_on-whole c [] h = refl
split_on-whole c (x ∷ s) h =
    let other : (x == c) ≡ false = ground arith in
    rw (other, split_on-whole c s (ground arith)) refl

join_with-onto_part :
    (c x : ℕ) (part : Text) (parts : List Text)
    → join_with c (onto_part x (part ∷ parts)) ≡ x ∷ join_with c (part ∷ parts)
unfolding join_with
join_with-onto_part c x part [] = refl
join_with-onto_part c x part (next ∷ parts) = refl

-- `split` gives one part at least.
pub split_on-some :
    (c : ℕ) (t : Text) → (part : Text) × (parts : List Text) × (split_on c t ≡ part ∷ parts)
unfolding split_on
split_on-some c [] = ([], [], refl)
split_on-some c (x ∷ t) = elim (Bool-cases (x == c)) [
  | inl e ↦ ([], split_on c t, rw e refl)
  | inr e ↦ let (part, parts, q) = split_on-some c t in ((x ∷ part), parts, rw (e, q) refl)
]

pub join_with-split_on : (c : ℕ) (t : Text) → join_with c (split_on c t) ≡ t
unfolding split_on join_with
join_with-split_on c [] = refl
join_with-split_on c (x ∷ t) =
    let (part, parts, q) = split_on-some c t in
    let whole : join_with c (part ∷ parts) ≡ t = rw (← q) (join_with-split_on c t) in
    elim (Bool-cases (x == c)) [
      | inl e ↦ let same : x ≡ c = ground (arith, e) in rw (e, q) (ground (arith, whole, same))
      | inr e ↦ rw (e, q) (join_with-onto_part c x part parts ∙ ap (λ (r : Text). x ∷ r) whole)
    ]

-- The last separator
module _ (c : ℕ) (u : Text) (none_left : has_char c u ≡ false) where
  pub before_last-append : (s : Text) → before_last c (s ++ (c ∷ u)) ≡ s
  unfolding before_last
  before_last-append [] = rw none_left refl
  before_last-append (x ∷ s) =
      let found : has_char c (s ++ (c ∷ u)) ≡ true = ground (arith, has_char-append c s (c ∷ u)) in
      rw (found, before_last-append s) refl

  pub after_last-behind : (s : Text) → after_last c (s ++ (c ∷ u)) ≡ u
  unfolding after_last
  after_last-behind [] = rw none_left (ground arith)
  after_last-behind (x ∷ s) =
      let found : has_char c (s ++ (c ∷ u)) ≡ true = ground (arith, has_char-append c s (c ∷ u)) in
      rw (found, after_last-behind s) refl

-- Texts with nothing to strip and nothing to take to lower case
abbrev pub is_plain : ℕ → Bool
is_plain c = not (is_space c) && (lower_code c == c)

pub lower-plain : (t : Text) → all is_plain t ≡ true → lower t ≡ t
unfolding lower
lower-plain [] h = refl
lower-plain (c ∷ t) h =
    let same : lower_code c ≡ c = ground arith in rw (same, lower-plain t (ground arith)) refl

lstrip-plain : (t : Text) → all is_plain t ≡ true → lstrip t ≡ t
unfolding lstrip
lstrip-plain [] h = refl
lstrip-plain (c ∷ t) h = let solid : is_space c ≡ false = ground arith in rw solid refl

rstrip-plain : (t : Text) → all is_plain t ≡ true → rstrip t ≡ t
unfolding rstrip
rstrip-plain [] h = refl
rstrip-plain (c ∷ []) h = let solid : is_space c ≡ false = ground arith in rw solid refl
rstrip-plain (c ∷ d ∷ t) h = rw (rstrip-plain (d ∷ t) (ground arith)) refl

pub strip-plain : (t : Text) → all is_plain t ≡ true → strip t ≡ t
unfolding strip
strip-plain t h = rw (lstrip-plain t h) (rstrip-plain t h)

pub all-append {ℓ} :
    {A : Type ℓ} (p : A → Bool) (xs ys : List A) → all p (xs ++ ys) ≡ (all p xs && all p ys)
all-append p [] ys = refl
all-append p (x ∷ xs) ys = ground (arith, all-append p xs ys)
