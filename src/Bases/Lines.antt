-- ===== src/Bases/Lines.antt =====
-- `_FROM_LINE` and `_ARG_LINE`: the lines of a Dockerfile that name a base image, or a value of one.
pub mod Laws
pub mod Swap
use Prim.Native.Nat.{ℕ}
use docker_ls.Prelude.{
  List, [], ◌∷◌, ◌++◌, Bool, true, false, ◌&&◌, ◌||◌, not, Option, none, some, leb, ◌==◌, is_empty,
  if◌then◌else◌,
}
use docker_ls.Prelude.Text.{Text, codes, text_eq, upper, is_space}

-- A text as its words, each with the white space behind it; a text that begins with white space
-- has an empty first word.
abbrev pub Words : Type 0
Words = List (Text × Text)

abbrev pub onto_words : ℕ → Words → Words
onto_words c [] = if is_space c then ([], c ∷ []) ∷ [] else (c ∷ [], []) ∷ []
onto_words c ((w, s) ∷ words) =
    if not (is_space c)
    then (c ∷ w, s) ∷ words
    else if is_empty w
    then ([], c ∷ s) ∷ words
    else ([], c ∷ []) ∷ (w, s) ∷ words

unfoldable pub words_of : Text → Words
words_of [] = []
words_of (c ∷ t) = onto_words c (words_of t)

unfoldable pub joined_words : Words → Text
joined_words [] = []
joined_words ((w, s) ∷ words) = w ++ (s ++ joined_words words)

-- A match of `_FROM_LINE`
pub record FromLine : Type 0 where
  pub prefix : Text
  pub reference : Text
  pub suffix : Text

abbrev pub behind : Text → FromLine → FromLine
behind t m = record { prefix = t ++ m.prefix; reference = m.reference; suffix = m.suffix }

-- `--\S+`
abbrev pub is_flag : Text → Bool
is_flag [] = false
is_flag (a ∷ []) = false
is_flag (a ∷ b ∷ t) = a == b'-' && (b == b'-' && not (is_empty t))

abbrev pub or_word : Text → Text → Text → Option FromLine → Option FromLine
or_word w s rest none = some (record { prefix = []; reference = w; suffix = s ++ rest })
or_word w s rest (some m) = some (behind (w ++ s) m)

-- `(?:--\S+\s+)*)(?P<reference>\S+)(?P<suffix>.*)$`: where nothing follows the flags, the last of them
-- is the reference.
unfoldable pub flags_match : Words → Option FromLine
unfolding joined_words
flags_match [] = none
flags_match ((w, s) ∷ words) =
    or_word w s (joined_words words) (if is_flag w then flags_match words else none)

abbrev pub behind_match : Text → Option FromLine → Option FromLine
behind_match t none = none
behind_match t (some m) = some (behind t m)

-- `FROM\s+`
unfoldable pub keyword_match : Words → Option FromLine
keyword_match [] = none
keyword_match ((w, s) ∷ words) =
    if text_eq (upper w) (codes "FROM") && not (is_empty s)
    then behind_match (w ++ s) (flags_match words)
    else none

-- `\s*`
unfoldable pub line_match : Words → Option FromLine
line_match [] = none
line_match ((w, s) ∷ words) =
    if is_empty w then behind_match s (keyword_match words) else keyword_match ((w, s) ∷ words)

-- `_FROM_LINE.match`
unfoldable pub from_match : Text → Option FromLine
from_match line = line_match (words_of line)

-- `f"{prefix}{reference}{suffix}"`, with another reference
abbrev pub with_base : Text → FromLine → Text
with_base new m = m.prefix ++ (new ++ m.suffix)
