-- ===== src/Bases/Lines/Swap.antt =====
-- The reference of a `FROM` line is read, and another one that is put in its place is read again.
use mathlib.Core.List.{append_assoc}
use mathlib.Core.Path.{subst}
use docker_ls.Prelude.{
  ◌≡◌, refl, sym, ap, ◌∙◌, inl, inr, [], ◌∷◌, ◌++◌, true, false, ◌&&◌, not, Option, none, some,
  is_empty, if◌then◌else◌, arith, Option-cases,
}
use docker_ls.Prelude.Text.{Text, codes, text_eq, upper}
use docker_ls.Bases.Lines.{
  Words, words_of, joined_words, FromLine, behind, is_flag, flags_match, behind_match,
  keyword_match, line_match, from_match, with_base,
}
use docker_ls.Bases.Lines.Laws.{Spaces, Word, Behind, Split, words_of-Split, words_of-Split_joined}

-- The text has no white space, is not empty, and does not read as a flag.
abbrev pub Token : Text → Type 0
Token t = Word t × (is_empty t ≡ false) × (is_flag t ≡ false)

abbrev swap : Text → FromLine → FromLine
swap new m = record { prefix = m.prefix; reference = new; suffix = m.suffix }

-- Words whose match is m with another reference, and that make up its text
record Swapped (match : Words → Option FromLine) (Shape : Words → Type 0) (new : Text)
    (m : FromLine) : Type 0 where
  words : Words
  matched : match words ≡ some (swap new m)
  joined : joined_words words ≡ with_base new m
  shaped : Shape words

behind-swap : (t new : Text) (m : FromLine) → with_base new (behind t m) ≡ t ++ with_base new m
behind-swap t new m = append_assoc t m.prefix (new ++ m.suffix)

-- What is put in front of words that are not none
Behind-more :
    (w s : Text) (words : Words)
    → Word w
    → is_empty w ≡ false
    → Spaces s
    → is_empty s ≡ false
    → is_empty words ≡ false
    → Behind words
    → Behind ((w, s) ∷ words)
Behind-more w s [] a b c d e f = cc
Behind-more w s (v ∷ words) a b c d e f = (a, b, c, d, f)

flags_match-some :
    (words : Words) (m : FromLine) → flags_match words ≡ some m → is_empty words ≡ false
unfolding flags_match
flags_match-some [] m e = cc
flags_match-some (v ∷ words) m e = refl

Behind-renamed :
    (new w s : Text) (words : Words)
    → Token new
    → Behind ((w, s) ∷ words)
    → Behind ((new, s) ∷ words)
Behind-renamed new w s [] (word, some_of, plain) (a, c, sp) = (word, some_of, sp)
Behind-renamed new w s (v ∷ words) (word, some_of, plain) (a, c, sp, between, rest) =
    (word, some_of, sp, between, rest)

Behind-last :
    (w s : Text) (words : Words)
    → Behind ((w, s) ∷ words)
    → is_empty words ≡ false
    → Word w × (is_empty w ≡ false) × Spaces s × (is_empty s ≡ false) × Behind words
Behind-last w s [] b h = cc
Behind-last w s (v ∷ words) b h = b

abbrev first_match : Text → Text → Words → FromLine
first_match w s words = record { prefix = []; reference = w; suffix = s ++ joined_words words }

abbrev after_flag : Text → Words → Option FromLine
after_flag w words = if is_flag w then flags_match words else none

flags_match-first :
    (w s : Text) (words : Words)
    → after_flag w words ≡ none
    → flags_match ((w, s) ∷ words) ≡ some (first_match w s words)
unfolding flags_match
flags_match-first w s words e = rw e refl

flags_match-later :
    (w s : Text) (words : Words) (m : FromLine)
    → after_flag w words ≡ some m
    → flags_match ((w, s) ∷ words) ≡ some (behind (w ++ s) m)
unfolding flags_match
flags_match-later w s words m e = rw e refl

first-Swapped :
    (new w s : Text) (words : Words)
    → Token new
    → Behind ((w, s) ∷ words)
    → Swapped flags_match Behind new (first_match w s words)
unfolding joined_words
first-Swapped new w s words t b = record {
  words = (new, s) ∷ words;
  matched = flags_match-first new s words (rw t.2 refl);
  joined = refl;
  shaped = Behind-renamed new w s words t b;
}

later-Swapped :
    (new w s : Text) (words : Words) (m : FromLine)
    → Behind ((w, s) ∷ words)
    → is_empty words ≡ false
    → is_flag w ≡ true
    → Swapped flags_match Behind new m
    → Swapped flags_match Behind new (behind (w ++ s) m)
unfolding joined_words
later-Swapped new w s words m b h flag r =
    let (a, c, sp, between, rest) = Behind-last w s words b h in
    record {
      words = (w, s) ∷ r.words;
      matched = flags_match-later w s r.words (swap new m) (rw flag r.matched);
      joined =
          ap (λ t. w ++ (s ++ t)) r.joined
          ∙ (sym (append_assoc w s (with_base new m)) ∙ sym (behind-swap (w ++ s) new m));
      shaped =
          Behind-more w s r.words a c sp between (flags_match-some r.words (swap new m) r.matched)
            r.shaped;
    }

flags-Swapped :
    (new : Text) (words : Words) (m : FromLine)
    → Token new
    → Behind words
    → flags_match words ≡ some m
    → Swapped flags_match Behind new m
flags-Swapped new [] m t b e = absurd (let h = flags_match-some [] m e in cc)
flags-Swapped new ((w, s) ∷ words) m t b e = elim (Option-cases (after_flag w words)) [
  | inl q ↦
      let k : first_match w s words ≡ m = (let x = flags_match-first w s words q in cc) in
      subst (λ y. Swapped flags_match Behind new y) k (first-Swapped new w s words t b)
  | inr (n, q) ↦
      let k : behind (w ++ s) n ≡ m = (let x = flags_match-later w s words n q in cc) in
      let flag : is_flag w ≡ true = ground (arith, q) in
      let later : flags_match words ≡ some n = ground (arith, q) in
      let h = flags_match-some words n later in
      let (a, c, sp, between, rest) = Behind-last w s words b h in
      subst (λ y. Swapped flags_match Behind new y) k
        (later-Swapped new w s words n b h flag (flags-Swapped new words n t rest later))
]

keyword_match-step :
    (w s : Text) (words : Words) (m : FromLine)
    → keyword_match ((w, s) ∷ words) ≡ some m
    → (text_eq (upper w) (codes "FROM") && not (is_empty s)) ≡ true
unfolding keyword_match
keyword_match-step w s words m e = ground (arith, e)

keyword_match-flags :
    (w s : Text) (words : Words)
    → (text_eq (upper w) (codes "FROM") && not (is_empty s)) ≡ true
    → keyword_match ((w, s) ∷ words) ≡ behind_match (w ++ s) (flags_match words)
unfolding keyword_match
keyword_match-flags w s words e = rw e refl

behind_match-some :
    (t : Text) (o : Option FromLine) (m : FromLine)
    → behind_match t o ≡ some m
    → (n : FromLine) × (o ≡ some n) × (behind t n ≡ m)
behind_match-some t none m e = cc
behind_match-some t (some n) m e = (n, refl, cc)

keyword_match-some :
    (words : Words) (m : FromLine) → keyword_match words ≡ some m → is_empty words ≡ false
unfolding keyword_match
keyword_match-some [] m e = cc
keyword_match-some (v ∷ words) m e = refl

keyword-Swapped :
    (new : Text) (words : Words) (m : FromLine)
    → Token new
    → Behind words
    → keyword_match words ≡ some m
    → Swapped keyword_match Behind new m
unfolding joined_words
keyword-Swapped new [] m t b e = absurd (let h = keyword_match-some [] m e in cc)
keyword-Swapped new ((w, s) ∷ words) m t b e =
    let k = keyword_match-step w s words m e in
    let (n, found, same) =
      behind_match-some (w ++ s) (flags_match words) m
        (sym (keyword_match-flags w s words k) ∙ e) in
    let (a, c, sp, between, rest) = Behind-last w s words b (flags_match-some words n found) in
    let r = flags-Swapped new words n t rest found in
    subst (λ y. Swapped keyword_match Behind new y) same
      (record {
        words = (w, s) ∷ r.words;
        matched = keyword_match-flags w s r.words k ∙ ap (behind_match (w ++ s)) r.matched;
        joined =
            ap (λ u. w ++ (s ++ u)) r.joined
            ∙ (sym (append_assoc w s (with_base new n)) ∙ sym (behind-swap (w ++ s) new n));
        shaped =
            Behind-more w s r.words a c sp between (flags_match-some r.words (swap new n) r.matched)
              r.shaped;
      })

Split-Behind :
    (w s : Text) (words : Words)
    → is_empty w ≡ false
    → Split ((w, s) ∷ words)
    → Behind ((w, s) ∷ words)
Split-Behind w s [] h (word, sp, some_of) = (word, h, sp)
Split-Behind w s (v ∷ words) h (word, sp, between, rest) = (word, h, sp, between, rest)

Behind-Split : (words : Words) → Behind words → Split words
Behind-Split [] b = tt
Behind-Split ((w, s) ∷ []) (word, h, sp) = (word, sp, rw h refl)
Behind-Split ((w, s) ∷ v ∷ words) (word, h, sp, between, rest) = (word, sp, between, rest)

Split-more :
    (s : Text) (words : Words)
    → Spaces s
    → is_empty s ≡ false
    → is_empty words ≡ false
    → Behind words
    → Split (([], s) ∷ words)
Split-more s [] sp between h b = cc
Split-more s (v ∷ words) sp between h b = (refl, sp, between, b)

Split-last :
    (w s : Text) (words : Words)
    → Split ((w, s) ∷ words)
    → is_empty words ≡ false
    → Spaces s × (is_empty s ≡ false) × Behind words
Split-last w s [] b h = cc
Split-last w s (v ∷ words) (word, sp, between, rest) h = (sp, between, rest)

line_match-led :
    (s : Text) (words : Words) → line_match (([], s) ∷ words) ≡ behind_match s (keyword_match words)
unfolding line_match
line_match-led s words = refl

line_match-plain :
    (w s : Text) (words : Words)
    → is_empty w ≡ false
    → line_match ((w, s) ∷ words) ≡ keyword_match ((w, s) ∷ words)
unfolding line_match
line_match-plain w s words h = rw h refl

keyword_match-line :
    (words : Words) (m : FromLine)
    → Behind words
    → keyword_match words ≡ some m
    → line_match words ≡ some m
keyword_match-line [] m b e = absurd (let h = keyword_match-some [] m e in cc)
keyword_match-line ((w, s) ∷ []) m b e = line_match-plain w s [] b.1 ∙ e
keyword_match-line ((w, s) ∷ v ∷ words) m b e = line_match-plain w s (v ∷ words) b.1 ∙ e

line_match-some :
    (words : Words) (m : FromLine) → line_match words ≡ some m → is_empty words ≡ false
unfolding line_match
line_match-some [] m e = cc
line_match-some (v ∷ words) m e = refl

line-Swapped :
    (new : Text) (words : Words) (m : FromLine)
    → Token new
    → Split words
    → line_match words ≡ some m
    → Swapped line_match Split new m
unfolding joined_words
line-Swapped new [] m t b e = absurd (let h = line_match-some [] m e in cc)
line-Swapped new (([], s) ∷ words) m t b e =
    let (n, found, same) =
      behind_match-some s (keyword_match words) m (sym (line_match-led s words) ∙ e) in
    let (sp, between, rest) = Split-last [] s words b (keyword_match-some words n found) in
    let r = keyword-Swapped new words n t rest found in
    subst (λ y. Swapped line_match Split new y) same
      (record {
        words = ([], s) ∷ r.words;
        matched = line_match-led s r.words ∙ ap (behind_match s) r.matched;
        joined = ap (λ u. s ++ u) r.joined ∙ sym (behind-swap s new n);
        shaped =
            Split-more s r.words sp between (keyword_match-some r.words (swap new n) r.matched)
              r.shaped;
      })
line-Swapped new ((c ∷ w, s) ∷ words) m t b e =
    let r =
      keyword-Swapped new ((c ∷ w, s) ∷ words) m t (Split-Behind (c ∷ w) s words refl b)
        (sym (line_match-plain (c ∷ w) s words refl) ∙ e) in
    record {
      words = r.words;
      matched = keyword_match-line r.words (swap new m) r.shaped r.matched;
      joined = r.joined;
      shaped = Behind-Split r.words r.shaped;
    }

-- Where `_FROM_LINE` matches a line and another reference, a token that is no flag, is written in
-- the place of its reference, it matches the new line with the same prefix, that reference and the
-- same suffix.
pub from_match-with_base :
    (line new : Text) (m : FromLine)
    → Token new
    → from_match line ≡ some m
    → from_match (with_base new m)
      ≡ some (record { prefix = m.prefix; reference = new; suffix = m.suffix })
unfolding from_match
from_match-with_base line new m t e =
    let r = line-Swapped new (words_of line) m t (words_of-Split line) e in
    ap (λ u. line_match (words_of u)) (sym r.joined)
    ∙ (ap line_match (words_of-Split_joined r.words r.shaped) ∙ r.matched)
