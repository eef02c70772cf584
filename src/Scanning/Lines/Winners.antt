-- ===== src/Scanning/Lines/Winners.antt =====
-- The tag that each line keeps, through one turn of the loop of `_superseded`.
use docker_ls.Prelude.{
  ◌≡◌, ◌↔◌, ◌⊎◌, refl, inl, inr, [], ◌∷◌, true, false, Option, none, some, arith,
}
use docker_ls.Prelude.{if◌then◌else◌, Bool-cases}
use docker_ls.Prelude.Text.{text_eq_iff}
use docker_ls.Scanning.Versions.{Version, version_leb, version_ltb}
use docker_ls.Scanning.Criteria.{Candidate}
use docker_ls.Scanning.Lines.{Line, same_line, tag_version, Newest, put_newest, newest_in}

pub version_leb_self : (a : Version) → version_leb a a ≡ true
unfolding version_leb
version_leb_self [] = refl
version_leb_self (x ∷ a) = ground (arith, version_leb_self a)

version_leb_antisymm : (a b : Version) → version_leb a b ≡ true → version_leb b a ≡ true → a ≡ b
unfolding version_leb
version_leb_antisymm [] [] h k = refl
version_leb_antisymm [] (y ∷ b) h k = cc
version_leb_antisymm (x ∷ a) [] h k = cc
version_leb_antisymm (x ∷ a) (y ∷ b) h k = ground (arith, version_leb_antisymm a b)

pub version_leb_total : (a b : Version) → (version_leb a b ≡ true) ⊎ (version_leb b a ≡ true)
unfolding version_leb
version_leb_total [] b = inl refl
version_leb_total (x ∷ a) [] = inr refl
version_leb_total (x ∷ a) (y ∷ b) = ground (arith, version_leb_total a b)

pub version_leb_trans :
    (a b c : Version) → version_leb a b ≡ true → version_leb b c ≡ true → version_leb a c ≡ true
unfolding version_leb
version_leb_trans [] b c h k = refl
version_leb_trans (x ∷ a) [] c h k = cc
version_leb_trans (x ∷ a) (y ∷ b) [] h k = cc
version_leb_trans (x ∷ a) (y ∷ b) (z ∷ c) h k = ground (arith, version_leb_trans a b c)

pub same_line_iff : (a b : Line) → (same_line a b ≡ true) ↔ (a ≡ b)
unfolding same_line
same_line_iff a b = (
  λ e. ground (arith, text_eq_iff a.variant b.variant, version_leb_antisymm a.first b.first),
  λ e. ground (arith, text_eq_iff a.variant b.variant, version_leb_self a.first, e),
)

-- Whom a line keeps when a tag is added to it.
abbrev pub kept_one : Option Candidate → Candidate → Candidate
kept_one none c = c
kept_one (some w) c = if version_ltb (tag_version w) (tag_version c) then c else w

newest_in-put_same :
    (line m : Line) (c w : Candidate) (newest : Newest)
    → newest_in (put_newest line c ((line, w) ∷ newest)) m ≡ (
        if same_line line m
        then some (kept_one (newest_in ((line, w) ∷ newest) line) c)
        else newest_in ((line, w) ∷ newest) m)
unfolding put_newest
newest_in-put_same line m c w newest =
    let e = (same_line_iff line line).1 refl in
    elim (Bool-cases (same_line line m)) [
      | inl f ↦ rw (e, newest_in) (rw (f, newest_in) refl)
      | inr f ↦ rw (e, newest_in) (rw (f, newest_in) refl)
    ]

same_line-apart :
    (l line m : Line) → same_line l line ≡ false → same_line l m ≡ true → same_line line m ≡ false
same_line-apart l line m e f =
    ground (arith, same_line_iff l line, same_line_iff line m, same_line_iff l m)

pub newest_in-put :
    (line m : Line) (c : Candidate) (newest : Newest)
    → newest_in (put_newest line c newest) m
      ≡ (if same_line line m then some (kept_one (newest_in newest line) c) else newest_in newest m)
unfolding put_newest
newest_in-put line m c [] = refl
newest_in-put line m c ((l, w) ∷ newest) = elim (Bool-cases (same_line l line)) [
  | inl e ↦ rw ((same_line_iff l line).0 e) (newest_in-put_same line m c w newest)
  | inr e ↦
      rw (e, newest_in)
        (elim (Bool-cases (same_line l m)) [
          | inl f ↦ rw (f, newest_in) (rw (same_line-apart l line m e f, newest_in) refl)
          | inr f ↦ rw (f, newest_in) (newest_in-put line m c newest)
        ])
]
