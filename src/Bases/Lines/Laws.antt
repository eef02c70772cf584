-- ===== src/Bases/Lines/Laws.antt =====
-- How a text falls into words, and that those words are read again from the text that they make.
use Prim.Native.Nat.{ℕ}
use docker_ls.Prelude.{
  ◌≡◌, refl, ap, ◌∙◌, inl, inr, [], ◌∷◌, ◌++◌, true, false, ◌&&◌, not, is_empty, all, arith,
  Bool-cases,
}
use docker_ls.Prelude.Text.{Text, is_space}
use docker_ls.Bases.Lines.{Words, onto_words, words_of, joined_words}

joined_words-onto_words :
    (c : ℕ) (words : Words) → joined_words (onto_words c words) ≡ c ∷ joined_words words
unfolding joined_words
joined_words-onto_words c [] = ground arith
joined_words-onto_words c (([], s) ∷ words) = ground arith
joined_words-onto_words c ((d ∷ w, s) ∷ words) = ground arith

pub joined_words-words_of : (t : Text) → joined_words (words_of t) ≡ t
unfolding joined_words words_of
joined_words-words_of [] = refl
joined_words-words_of (c ∷ t) =
    joined_words-onto_words c (words_of t) ∙ ap (λ r. c ∷ r) (joined_words-words_of t)

abbrev pub Spaces : Text → Type 0
Spaces s = all is_space s ≡ true

abbrev pub Word : Text → Type 0
Word w = all (λ c. not (is_space c)) w ≡ true

-- How a text falls into words: no word but the first is empty, and between two words there is white
-- space.
abbrev pub Behind : Words → Type 0
Behind [] = Unit
Behind ((w, s) ∷ []) = Word w × (is_empty w ≡ false) × Spaces s
Behind ((w, s) ∷ v ∷ words) =
    Word w × (is_empty w ≡ false) × Spaces s × (is_empty s ≡ false) × Behind (v ∷ words)

abbrev pub Split : Words → Type 0
Split [] = Unit
Split ((w, s) ∷ []) = Word w × Spaces s × ((is_empty w && is_empty s) ≡ false)
Split ((w, s) ∷ v ∷ words) = Word w × Spaces s × (is_empty s ≡ false) × Behind (v ∷ words)

onto_words-Split : (c : ℕ) (words : Words) → Split words → Split (onto_words c words)
onto_words-Split c [] h = elim (Bool-cases (is_space c)) [
  | inl e ↦ rw e (refl, ground (arith, e), refl)
  | inr e ↦ rw e (ground (arith, e), refl, refl)
]
onto_words-Split c (([], s) ∷ []) (w, sp, some_of) = elim (Bool-cases (is_space c)) [
  | inl e ↦ rw e (refl, ground (arith, e, sp), refl)
  | inr e ↦ rw e (ground (arith, e), sp, refl)
]
onto_words-Split c ((d ∷ w, s) ∷ []) (word, sp, some_of) = elim (Bool-cases (is_space c)) [
  | inl e ↦ rw e (refl, ground (arith, e), refl, (word, refl, sp))
  | inr e ↦ rw e (ground (arith, e, word), sp, refl)
]
onto_words-Split c (([], s) ∷ v ∷ words) (word, sp, between, rest) =
    elim (Bool-cases (is_space c)) [
      | inl e ↦ rw e (refl, ground (arith, e, sp), refl, rest)
      | inr e ↦ rw e (ground (arith, e), sp, between, rest)
    ]
onto_words-Split c ((d ∷ w, s) ∷ v ∷ words) (word, sp, between, rest) =
    elim (Bool-cases (is_space c)) [
      | inl e ↦ rw e (refl, ground (arith, e), refl, (word, refl, sp, between, rest))
      | inr e ↦ rw e (ground (arith, e, word), sp, between, rest)
    ]

pub words_of-Split : (t : Text) → Split (words_of t)
unfolding words_of
words_of-Split [] = tt
words_of-Split (c ∷ t) = onto_words-Split c (words_of t) (words_of-Split t)

-- No white space stands in front.
abbrev Bare : Words → Type 0
Bare [] = Unit
Bare ((w, s) ∷ words) = is_empty w ≡ false

Behind-Bare : (words : Words) → Behind words → Bare words
Behind-Bare [] h = tt
Behind-Bare ((w, s) ∷ []) h = h.1
Behind-Bare ((w, s) ∷ v ∷ words) h = h.1

onto_words-Bare :
    (c : ℕ) (words : Words)
    → is_space c ≡ true
    → Bare words
    → onto_words c words ≡ ([], c ∷ []) ∷ words
onto_words-Bare c [] e h = rw e refl
onto_words-Bare c ((w, s) ∷ words) e h = rw e (rw h refl)

words_of_empty : words_of [] ≡ []
unfolding words_of
words_of_empty = refl

words_of-Spaces :
    (s t : Text) (words : Words)
    → Spaces s
    → is_empty s ≡ false
    → words_of t ≡ words
    → Bare words
    → words_of (s ++ t) ≡ ([], s) ∷ words
unfolding words_of
words_of-Spaces [] t words h k e b = cc
words_of-Spaces (c ∷ []) t words h k e b = rw e (onto_words-Bare c words (ground (arith, h)) b)
words_of-Spaces (c ∷ d ∷ s) t words h k e b =
    rw (words_of-Spaces (d ∷ s) t words (ground (arith, h)) refl e b)
      (let space : is_space c ≡ true = ground (arith, h) in rw space refl)

words_of-Word :
    (w t s : Text) (words : Words)
    → Word w
    → words_of t ≡ ([], s) ∷ words
    → words_of (w ++ t) ≡ (w, s) ∷ words
unfolding words_of
words_of-Word [] t s words h e = e
words_of-Word (c ∷ w) t s words h e =
    rw (words_of-Word w t s words (ground (arith, h)) e)
      (let letter : is_space c ≡ false = ground (arith, h) in rw letter refl)

words_of-last : (w : Text) → Word w → is_empty w ≡ false → words_of (w ++ []) ≡ (w, []) ∷ []
unfolding words_of
words_of-last [] h k = cc
words_of-last (c ∷ []) h k = let letter : is_space c ≡ false = ground (arith, h) in rw letter refl
words_of-last (c ∷ d ∷ w) h k =
    rw (words_of-last (d ∷ w) (ground (arith, h)) refl)
      (let letter : is_space c ≡ false = ground (arith, h) in rw letter refl)

-- Words that are split in that way are read again from the text that they make.
words_of-Behind : (words : Words) → Behind words → words_of (joined_words words) ≡ words
unfolding joined_words
words_of-Behind [] h = words_of_empty
words_of-Behind ((w, []) ∷ []) (word, some_of, sp) = words_of-last w word some_of
words_of-Behind ((w, c ∷ s) ∷ []) (word, some_of, sp) =
    words_of-Word w ((c ∷ s) ++ []) (c ∷ s) [] word
      (words_of-Spaces (c ∷ s) [] [] sp refl words_of_empty tt)
words_of-Behind ((w, s) ∷ v ∷ words) (word, some_of, sp, between, rest) =
    words_of-Word w (s ++ joined_words (v ∷ words)) s (v ∷ words) word (
      words_of-Spaces s (joined_words (v ∷ words)) (v ∷ words) sp between
        (words_of-Behind (v ∷ words) rest) (Behind-Bare (v ∷ words) rest))

pub words_of-Split_joined : (words : Words) → Split words → words_of (joined_words words) ≡ words
unfolding joined_words
words_of-Split_joined [] h = words_of_empty
words_of-Split_joined ((w, c ∷ s) ∷ []) (word, sp, some_of) =
    words_of-Word w ((c ∷ s) ++ []) (c ∷ s) [] word
      (words_of-Spaces (c ∷ s) [] [] sp refl words_of_empty tt)
words_of-Split_joined ((w, []) ∷ []) (word, sp, some_of) =
    words_of-last w word (ground (arith, some_of))
words_of-Split_joined ((w, s) ∷ v ∷ words) (word, sp, between, rest) =
    words_of-Word w (s ++ joined_words (v ∷ words)) s (v ∷ words) word (
      words_of-Spaces s (joined_words (v ∷ words)) (v ∷ words) sp between
        (words_of-Behind (v ∷ words) rest) (Behind-Bare (v ∷ words) rest))
