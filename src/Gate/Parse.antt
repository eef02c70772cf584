-- ===== src/Gate/Parse.antt =====
-- `Gate.parse` and `GateSet.parse`.
pub mod RoundTrip
pub mod Canonical
use docker_ls.Prelude.{
  ℕ, ◌+◌, ◌*◌, ◌-◌, List, [], ◌∷◌, ◌++◌, Bool, true, false, ◌&&◌, Option, none, some,
}
use docker_ls.Prelude.{leb, ◌==◌, is_empty, not, filter, map, if◌then◌else◌}
use docker_ls.Prelude.Text.{Text, codes, text_eq, lower, strip, lstrip}
use docker_ls.Gate.Types.{
  Decimal, decimal_leb, Gate, GateKind, severity, kev, epss, threshold_of, Result, ok, err,
  no_gate_named, epss_outside, unknown_gate, ◌>>=◌,
}

abbrev is_digit : ℕ → Bool
is_digit c = leb b'0' c && leb c b'9'

-- The part of `\d*\.?\d+` behind the point: one digit at least.
fraction : ℕ → ℕ → Text → Option Decimal
fraction acc places [] =
    if places == 0 then none else some (record { mantissa = acc; scale = places })
fraction acc places (c ∷ t) =
    let rest = fraction (acc * 10 + (c - b'0')) (places + 1) t in if is_digit c then rest else none

-- `(\d*\.?\d+)$`: digits, and if a point follows, one digit or more behind it.
decimal : ℕ → Bool → Text → Option Decimal
unfolding fraction
decimal acc seen [] = if seen then some (record { mantissa = acc; scale = 0 }) else none
decimal acc seen (c ∷ t) =
    let rest = decimal (acc * 10 + (c - b'0')) true t in
    if is_digit c then rest else if c == b'.' then fraction acc 0 t else none

-- `=?\s*(\d*\.?\d+)$`
floor_of : Text → Option Decimal
unfolding decimal lstrip
floor_of [] = none
floor_of (c ∷ t) =
    if c == b'=' then decimal 0 false (lstrip t) else decimal 0 false (lstrip (c ∷ t))

-- `>=?\s*(\d*\.?\d+)$`
comparison : Text → Option Decimal
unfolding floor_of
comparison [] = none
comparison (c ∷ t) = if c == b'>' then floor_of t else none

-- `_EPSS.match(text)`, the group
unfoldable pub epss_match : Text → Option Decimal
unfolding comparison lstrip
epss_match (c ∷ d ∷ e ∷ f ∷ t) =
    if c == b'e' && d == b'p' && e == b's' && f == b's' then comparison (lstrip t) else none
epss_match _ = none

abbrev pub one : Decimal
one = record { mantissa = 1; scale = 0 }

epss_gate : Text → Option Decimal → Result Gate
epss_gate text none = err (unknown_gate text)
epss_gate text (some floor) =
    if decimal_leb floor one
    then ok (record { kind = epss floor; raw = text })
    else err (epss_outside floor)

-- `Gate.parse` behind its first line, which strips the value and takes it to lower case
unfoldable pub parse_text : Text → Result Gate
unfolding epss_gate
parse_text text = if is_empty text then err no_gate_named else elim (threshold_of text) [
  | some t ↦ ok (record { kind = severity t; raw = text })
  | none ↦
      if text_eq text (codes "kev")
      then ok (record { kind = kev; raw = text })
      else epss_gate text (epss_match text)
]

-- `Gate.parse`
unfoldable pub parse : Text → Result Gate
parse value = parse_text (lower (strip value))

-- `str.split(",")`
abbrev onto_first : ℕ → List Text → List Text
onto_first c [] = (c ∷ []) ∷ []
onto_first c (piece ∷ pieces) = (c ∷ piece) ∷ pieces

unfoldable pub split : Text → List Text
split [] = [] ∷ []
split (c ∷ t) = let rest = split t in if c == b',' then [] ∷ rest else onto_first c rest

-- `",".join(pieces)`
unfoldable pub join : List Text → Text
join [] = []
join (piece ∷ []) = piece
join (piece ∷ next ∷ pieces) = piece ++ (b',' ∷ join (next ∷ pieces))

-- `[piece.strip() for piece in value.split(",") if piece.strip()]`
unfoldable pub pieces_of : Text → List Text
unfolding split
pieces_of value = filter (λ piece. not (is_empty piece)) (map strip (split value))

-- `tuple(Gate.parse(part) for part in parts)`: the first error is raised.
unfoldable pub parse_all : List Text → Result (List Gate)
parse_all [] = ok []
parse_all (part ∷ parts) = do gate ← parse part; gates ← parse_all parts; ok (gate ∷ gates)

-- `GateSet.parse`
unfoldable pub parse_set : Text → Result (List Gate)
unfolding pieces_of
parse_set value =
    let parts = pieces_of value in if is_empty parts then err no_gate_named else parse_all parts
