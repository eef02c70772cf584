-- ===== src/Gate/Parse/Canonical.antt =====
-- Every gate of an accepted set is canonical, and a set has one gate at least.
use docker_ls.Prelude.{ℕ, ◌≡◌, List, [], ◌∷◌, map, Bool, false, arith, not}
use docker_ls.Prelude.{All, is_empty, filter, ◌==◌, Bool-cases, inl, inr}
use docker_ls.Prelude.Text.{Text, strip}
use docker_ls.Prelude.Text.Laws.{CommaFree, strip-CommaFree}
use docker_ls.Gate.Types.{Gate, ok}
use docker_ls.Gate.Parse.{parse, split, onto_first, pieces_of, parse_all, parse_set}
use docker_ls.Gate.Parse.RoundTrip.{Canonical, parse-Canonical}

onto_first-CommaFree :
    (c : ℕ) (ps : List Text)
    → (c == b',') ≡ false
    → All CommaFree ps
    → All CommaFree (onto_first c ps)
onto_first-CommaFree c [] h hs = ((h, tt), tt)
onto_first-CommaFree c (p ∷ ps) h (k, hs) = ((h, k), hs)

split-CommaFree : (t : Text) → All CommaFree (split t)
unfolding split
split-CommaFree [] = (tt, tt)
split-CommaFree (c ∷ t) = elim (Bool-cases (c == b',')) [
  | inl e ↦ rw e (tt, split-CommaFree t)
  | inr e ↦ rw e (onto_first-CommaFree c (split t) e (split-CommaFree t))
]

filter-All : (p : Text → Bool) (ts : List Text) → All CommaFree ts → All CommaFree (filter p ts)
filter-All p [] h = tt
filter-All p (t ∷ ts) (h, hs) = elim (Bool-cases (p t)) [
  | inl e ↦ rw e (h, filter-All p ts hs)
  | inr e ↦ rw e (filter-All p ts hs)
]

map-strip-CommaFree : (ts : List Text) → All CommaFree ts → All CommaFree (map strip ts)
map-strip-CommaFree [] h = tt
map-strip-CommaFree (t ∷ ts) (h, hs) = (strip-CommaFree t h, map-strip-CommaFree ts hs)

pieces_of-CommaFree : (t : Text) → All CommaFree (pieces_of t)
unfolding pieces_of
pieces_of-CommaFree t =
    filter-All (λ piece. not (is_empty piece)) (map strip (split t))
      (map-strip-CommaFree (split t) (split-CommaFree t))

-- What a successful `parse_all` on one part and the rest has done.
parse_all-cons :
    (p : Text) (ps : List Text) (gs : List Gate)
    → parse_all (p ∷ ps) ≡ ok gs
    → (g : Gate) × (rest : List Gate) × (parse p ≡ ok g)
      × (parse_all ps ≡ ok rest)
      × (gs ≡ g ∷ rest)
unfolding parse_all
parse_all-cons p ps gs h = ground arith

parse_all-Canonical :
    (ps : List Text) (gs : List Gate) → All CommaFree ps → parse_all ps ≡ ok gs → All Canonical gs
parse_all-Canonical [] gs h e = let none_left : gs ≡ [] = unfold parse_all in cc in rw none_left tt
parse_all-Canonical (p ∷ ps) gs (h, hs) e =
    let (g, rest, first, later, shape) = parse_all-cons p ps gs e in
    rw shape (parse-Canonical p g h first, parse_all-Canonical ps rest hs later)

parse_all-named :
    (ps : List Text) (gs : List Gate)
    → is_empty ps ≡ false
    → parse_all ps ≡ ok gs
    → is_empty gs ≡ false
parse_all-named [] gs h e = cc
parse_all-named (p ∷ ps) gs h e =
    let (g, rest, first, later, shape) = parse_all-cons p ps gs e in rw shape

pub parse_set-Canonical :
    (v : Text) (gs : List Gate) → parse_set v ≡ ok gs → All Canonical gs × (is_empty gs ≡ false)
unfolding parse_set
parse_set-Canonical v gs h = elim (Bool-cases (is_empty (pieces_of v))) [
  | inl e ↦ cc
  | inr e ↦
      let read : parse_all (pieces_of v) ≡ ok gs = ground arith in
      (
        parse_all-Canonical (pieces_of v) gs (pieces_of-CommaFree v) read,
        parse_all-named (pieces_of v) gs e read,
      )
]
