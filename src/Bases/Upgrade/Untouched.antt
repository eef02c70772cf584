-- ===== src/Bases/Upgrade/Untouched.antt =====
-- What `rewrite` leaves alone.
use Prim.Native.Nat.{ℕ, suc}
use docker_ls.Prelude.{
  ◌≡◌, ◌≢◌, refl, ap, inl, inr, List, [], ◌∷◌, map, In, true, ◌&&◌, Option, none, some, is_empty,
  if◌then◌else◌, arith, ◌==◌, ==_iff, Bool-cases,
}
use docker_ls.Prelude.Text.{Text}
use docker_ls.Bases.Upgrade.{
  BaseFinding, proposes, Edits, edit_at, from_edits, arg_edits, rewrite_line, rewrite_lines,
  rewrite_bases,
}

-- The line of a number, where the first has the number that is given first
abbrev pub line_at : ℕ → List (Text × Text) → ℕ → Option (Text × Text)
line_at number [] n = none
line_at number (l ∷ lines) n = if number == n then some l else line_at (suc number) lines n

-- No finding that proposes something is about the line.
abbrev pub Unnamed : List BaseFinding → ℕ → Type 0
Unnamed findings n =
    (f : BaseFinding)
    → In f findings
    → proposes f ≡ true
    → (f.base.line ≢ n) × (f.base.digest_arg_line ≢ n)

module _ (n : ℕ) where
  from_edits-none :
      (findings : List BaseFinding) → Unnamed findings n → edit_at (from_edits findings) n ≡ none
  unfolding from_edits edit_at
  from_edits-none [] h = refl
  from_edits-none (f ∷ fs) h =
      ground (arith, from_edits-none fs (λ g m. h g (inr m)), h f (inl refl))

  arg_edits-none :
      (findings : List BaseFinding) → Unnamed findings n → edit_at (arg_edits findings) n ≡ none
  unfolding arg_edits edit_at
  arg_edits-none [] h = refl
  arg_edits-none (f ∷ fs) h = ground (arith, arg_edits-none fs (λ g m. h g (inr m)), h f (inl refl))

  module _ (froms args : Edits) (no_from : edit_at froms n ≡ none)
      (no_arg : edit_at args n ≡ none) where
    rewrite_line-kept : (line : Text) → rewrite_line froms args n line ≡ (line, 0)
    unfolding rewrite_line
    rewrite_line-kept line = rw no_from (rw no_arg refl)

    rewrite_lines-kept :
        (number : ℕ) (lines : List (Text × Text))
        → line_at number (rewrite_lines froms args number lines).0 n ≡ line_at number lines n
    unfolding rewrite_lines
    rewrite_lines-kept number [] = refl
    rewrite_lines-kept number ((line, ending) ∷ lines) = elim (Bool-cases (number == n)) [
      | inl e ↦
          let same : (rewrite_line froms args number line).0 ≡ line =
            rw ((==_iff number n).0 e) (ap (λ p. p.0) (rewrite_line-kept line)) in
          rw e (ap (λ t. some (t, ending)) same)
      | inr e ↦ rw e (rewrite_lines-kept (suc number) lines)
    ]

rewrite_lines-endings :
    (froms args : Edits) (number : ℕ) (lines : List (Text × Text))
    → map (λ l. l.1) (rewrite_lines froms args number lines).0 ≡ map (λ l. l.1) lines
unfolding rewrite_lines
rewrite_lines-endings froms args number [] = refl
rewrite_lines-endings froms args number ((line, ending) ∷ lines) =
    ap (λ l. ending ∷ l) (rewrite_lines-endings froms args (suc number) lines)

-- `rewrite` keeps the number of lines and what ends each of them, and a line that no finding with a
-- proposal is about stays as it is.
pub rewrite_bases_lem :
    (lines : List (Text × Text)) (findings : List BaseFinding) (n : ℕ)
    → Unnamed findings n
    → (map (λ l. l.1) (rewrite_bases lines findings).0 ≡ map (λ l. l.1) lines)
      × (line_at 1 (rewrite_bases lines findings).0 n ≡ line_at 1 lines n)
unfolding rewrite_bases
rewrite_bases_lem lines findings n h =
    elim (Bool-cases (is_empty (from_edits findings) && is_empty (arg_edits findings))) [
      | inl e ↦ rw e (refl, refl)
      | inr e ↦ rw e (
        rewrite_lines-endings (from_edits findings) (arg_edits findings) 1 lines,
        rewrite_lines-kept n (from_edits findings) (arg_edits findings)
            (from_edits-none n findings h) (arg_edits-none n findings h) 1 lines,
      )
    ]
