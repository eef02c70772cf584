-- ===== src/Gate/Parse/RoundTrip.antt =====
-- A gate's text reads back as that gate, and so does the text of several gates.
use docker_ls.Prelude.{◌≡◌, refl, ◌∙◌, ap, List, [], ◌∷◌, ◌++◌, map, false, arith}
use docker_ls.Prelude.{All, is_empty, not, filter}
use docker_ls.Prelude.Text.{Text, strip, lower}
use docker_ls.Prelude.Text.Laws.{
  strip-strip, strip-lower, lower-lower, CommaFree, strip-CommaFree, lower-CommaFree,
}
use docker_ls.Gate.Types.{Gate, ok, Threshold, critical, high, medium, low}
use docker_ls.Gate.Types.{threshold_name, severity, threshold_of}
use docker_ls.Gate.Parse.{parse_text, parse, split, join, parse_all, parse_set}

-- What the merge of gates needs to know of a gate that was read from a text.
pub record Canonical (g : Gate) : Type 0 where
  pub reads : parse g.raw ≡ ok g
  pub free : CommaFree g.raw
  pub stripped : strip g.raw ≡ g.raw
  pub named : is_empty g.raw ≡ false

parse_text-raw : (t : Text) (g : Gate) → parse_text t ≡ ok g → (g.raw ≡ t) × (is_empty t ≡ false)
unfolding parse_text
parse_text-raw t g h = ground arith

strip_of_lower : (v : Text) → strip (lower (strip v)) ≡ lower (strip v)
strip_of_lower v = strip-lower (strip v) ∙ ap lower (strip-strip v)

-- The text that an accepted gate carries is accepted too, and names the same gate.
pub parse-raw : (v : Text) (g : Gate) → parse v ≡ ok g → parse g.raw ≡ ok g
unfolding parse
parse-raw v g h =
    let (raw, _) = parse_text-raw (lower (strip v)) g h in
    ap (λ t. parse_text (lower (strip t))) raw
    ∙ ap (λ t. parse_text (lower t)) (strip_of_lower v)
    ∙ ap parse_text (lower-lower (strip v))
    ∙ h

pub parse-Canonical : (v : Text) (g : Gate) → CommaFree v → parse v ≡ ok g → Canonical g
parse-Canonical v g free h =
    let (raw, named) = parse_text-raw (lower (strip v)) g (unfold parse in h) in
    record {
      reads = parse-raw v g h;
      free = rw raw (lower-CommaFree (strip v) (strip-CommaFree v free));
      stripped = rw (raw, strip_of_lower v);
      named = rw raw named;
    }

-- The gate that a threshold's name stands for.
abbrev pub severity_gate : Threshold → Gate
severity_gate t = record { kind = severity t; raw = threshold_name t }

pub severity_gate-Canonical : (t : Threshold) → Canonical (severity_gate t)
unfolding parse parse_text threshold_of lower strip
severity_gate-Canonical critical = record {
  reads = refl;
  free = ground arith;
  stripped = refl;
  named = refl;
}
severity_gate-Canonical high = record {
  reads = refl;
  free = ground arith;
  stripped = refl;
  named = refl;
}
severity_gate-Canonical medium = record {
  reads = refl;
  free = ground arith;
  stripped = refl;
  named = refl;
}
severity_gate-Canonical low = record {
  reads = refl;
  free = ground arith;
  stripped = refl;
  named = refl;
}

split-append : (p rest : Text) → CommaFree p → split (p ++ (b',' ∷ rest)) ≡ p ∷ split rest
unfolding split
split-append [] rest h = refl
split-append (c ∷ p) rest (h, k) = rw (h, split-append p rest k)

split-eq_self : (p : Text) → CommaFree p → split p ≡ p ∷ []
unfolding split
split-eq_self [] h = refl
split-eq_self (c ∷ p) (h, k) = rw (h, split-eq_self p k)

split-join : (p : Text) (ps : List Text) → All CommaFree (p ∷ ps) → split (join (p ∷ ps)) ≡ p ∷ ps
unfolding join
split-join p [] (h, hs) = split-eq_self p h
split-join p (q ∷ ps) (h, hs) =
    rw (split-append p (join (q ∷ ps)) h) (ap (λ l. p ∷ l) (split-join q ps hs))

abbrev pub raws : List Gate → List Text
raws = map (λ g. g.raw)

pieces_of-raws :
    (gs : List Gate)
    → All Canonical gs
    → filter (λ piece. not (is_empty piece)) (map strip (raws gs)) ≡ raws gs
pieces_of-raws [] h = refl
pieces_of-raws (g ∷ gs) (h, hs) =
    rw (h.stripped, h.named) (ap (λ l. g.raw ∷ l) (pieces_of-raws gs hs))

raws-CommaFree : (gs : List Gate) → All Canonical gs → All CommaFree (raws gs)
raws-CommaFree [] h = tt
raws-CommaFree (g ∷ gs) (h, hs) = (h.free, raws-CommaFree gs hs)

parse_all-raws : (gs : List Gate) → All Canonical gs → parse_all (raws gs) ≡ ok gs
unfolding parse_all
parse_all-raws [] h = refl
parse_all-raws (g ∷ gs) (h, hs) = rw (h.reads, parse_all-raws gs hs)

-- The texts of canonical gates, joined by commas, read back as those gates.
pub parse_set-join :
    (g : Gate) (gs : List Gate)
    → All Canonical (g ∷ gs)
    → parse_set (join (raws (g ∷ gs))) ≡ ok (g ∷ gs)
unfolding parse_set
parse_set-join g gs h =
    rw (split-join g.raw (raws gs) (raws-CommaFree (g ∷ gs) h), pieces_of-raws (g ∷ gs) h)
      (parse_all-raws (g ∷ gs) h)
