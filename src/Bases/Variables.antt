-- ===== src/Bases/Variables.antt =====
-- `_ARG_LINE`, `_expand` and `_variable_name`: values that a Dockerfile declares for its references.
use Prim.Native.Nat.{ℕ}
use docker_ls.Prelude.{
  ◌≡◌, refl, ap, arith, List, [], ◌∷◌, ◌++◌, Bool, false, ◌&&◌, ◌||◌, not, Option, none, some, leb,
  ◌==◌, is_empty, if◌then◌else◌, all,
}
use docker_ls.Prelude.Text.{Text, codes, text_eq, upper, strip}
use docker_ls.Bases.Reference.{has_char, before_first, after_first}
use docker_ls.Bases.Lines.{Words, words_of, joined_words}

-- `[A-Za-z_]` and `[A-Za-z0-9_]`
abbrev pub starts_name : ℕ → Bool
starts_name c = (leb b'A' c && leb c b'Z') || ((leb b'a' c && leb c b'z') || c == b'_')

abbrev pub in_name : ℕ → Bool
in_name c = starts_name c || (leb b'0' c && leb c b'9')

abbrev pub is_name : Text → Bool
is_name [] = false
is_name (c ∷ t) = starts_name c && all in_name t

-- A match of `_ARG_LINE`, and what follows it
pub record ArgLine : Type 0 where
  pub prefix : Text
  pub name : Text
  pub value : Text
  pub tail : Text

-- `(?P<name>…)=)(?P<value>\S*)`
abbrev assignment_match : Text → Words → Option ArgLine
assignment_match before [] = none
assignment_match before ((v, s) ∷ words) =
    if has_char b'=' v && is_name (before_first b'=' v)
    then some (record {
      prefix = before ++ (before_first b'=' v ++ (b'=' ∷ []));
      name = before_first b'=' v;
      value = after_first b'=' v;
      tail = s ++ joined_words words;
    })
    else none

-- `ARG\s+`
abbrev arg_keyword : Text → Words → Option ArgLine
arg_keyword before [] = none
arg_keyword before ((w, s) ∷ words) =
    if text_eq (upper w) (codes "ARG") && not (is_empty s)
    then assignment_match (before ++ (w ++ s)) words
    else none

abbrev arg_words : Words → Option ArgLine
arg_words [] = none
arg_words ((w, s) ∷ words) =
    if is_empty w then arg_keyword s words else arg_keyword [] ((w, s) ∷ words)

-- `_ARG_LINE.match`
unfoldable pub arg_match : Text → Option ArgLine
arg_match line = arg_words (words_of line)

-- The values of `ARG` lines; the last one of a name counts.
abbrev pub Args : Type 0
Args = List (Text × Text)

unfoldable pub value_of : Args → Text → Option Text
value_of [] name = none
value_of ((n, v) ∷ args) name = elim (value_of args name) [
  | some later ↦ some later
  | none ↦ if text_eq n name then some v else none
]

-- `args.get(name, match.group(0))`
abbrev pub or_text : Option Text → Text → Text
or_text none raw = raw
or_text (some v) raw = v

-- How far a match of `_VARIABLE` has been read: nothing, the dollar, or a name behind it
pub data Reading : Type 0 where
  outside dollar : Reading
  braced bare : Text → Reading

-- What was read without a match in the end
abbrev raw_of : Reading → Text
raw_of outside = []
raw_of dollar = codes "$"
raw_of (braced name) = codes "${" ++ name
raw_of (bare name) = b'$' ∷ name

-- What a match that ends here is replaced by
abbrev finished : Args → Reading → Text
finished args (bare name) = or_text (value_of args name) (raw_of (bare name))
finished args r = raw_of r

-- Whether a character carries a match on
abbrev goes_on : Reading → ℕ → Option Reading
goes_on outside c = none
goes_on dollar c =
    if c == b'{' then some (braced []) else if starts_name c then some (bare (c ∷ [])) else none
goes_on (braced []) c = if starts_name c then some (braced (c ∷ [])) else none
goes_on (braced (d ∷ name)) c = if in_name c then some (braced ((d ∷ name) ++ (c ∷ []))) else none
goes_on (bare name) c = if in_name c then some (bare (name ++ (c ∷ []))) else none

abbrev closes : Reading → ℕ → Bool
closes (braced (d ∷ name)) c = c == b'}'
closes r c = false

abbrev name_read : Reading → Text
name_read (braced name) = name
name_read r = []

-- `_VARIABLE.sub`, from a state of reading
unfoldable pub expand_from : Args → Reading → Text → Text
expand_from args r [] = finished args r
expand_from args r (c ∷ t) = elim (goes_on r c) [
  | some more ↦ expand_from args more t
  | none ↦
      if closes r c
      then or_text (value_of args (name_read r)) (raw_of r ++ (c ∷ []))
        ++ expand_from args outside t
      else if c == b'$'
      then finished args r ++ expand_from args dollar t
      else finished args r ++ (c ∷ expand_from args outside t)
]

-- `_expand`
unfoldable pub expand : Args → Text → Text
unfolding expand_from
expand args reference = expand_from args outside reference

-- The name in `${name}` or `$name`
abbrev braced_name : Text → Text
braced_name [] = []
braced_name (c ∷ t) =
    if c == b'{'
      && (has_char b'}' t && (is_empty (after_first b'}' t) && is_name (before_first b'}' t)))
    then before_first b'}' t
    else if is_name (c ∷ t)
    then c ∷ t
    else []

abbrev dollar_name : Text → Text
dollar_name [] = []
dollar_name (c ∷ t) = if c == b'$' then braced_name t else []

-- `_variable_name`
unfoldable pub variable_name : Text → Text
variable_name value = dollar_name (strip value)

expand_from_plain :
    (args : Args) (t : Text) → has_char b'$' t ≡ false → expand_from args outside t ≡ t
unfolding expand_from
expand_from_plain args [] h = refl
expand_from_plain args (c ∷ t) h =
    let plain : (c == b'$') ≡ false = ground (arith, h) in
    rw plain (ap (λ u. c ∷ u) (expand_from_plain args t (ground (arith, h))))

-- A reference without a dollar stays as it is.
pub expand_plain : (args : Args) (t : Text) → has_char b'$' t ≡ false → expand args t ≡ t
unfolding expand
expand_plain args t h = expand_from_plain args t h
