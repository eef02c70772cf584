-- ===== src/Examples/Bases.antt =====
-- A Dockerfile of two lines, whose base is named by its tag alone.
use docker_ls.Prelude.{◌≡◌, refl, List, [], ◌∷◌, map, inl, inr, some, arith}
use docker_ls.Prelude.Text.{Text, codes, text_eq, upper}
use docker_ls.Bases.Lines.{
  FromLine, from_match, with_base, line_match, words_of, keyword_match, flags_match,
}
use docker_ls.Bases.Reference.{split_reference, after_first, before_first, up_to_last, after_last}
use docker_ls.Bases.Variables.{expand}
use docker_ls.Bases.Upgrade.{
  BaseFinding, pinned_current, classify_base, declared_base, proposed_reference, rewrite_bases,
  arg_line_of,
}
use docker_ls.Bases.Upgrade.Settled.{proposal, upgrade_settled}
use docker_ls.Bases.Upgrade.Untouched.{line_at, rewrite_bases_lem}

abbrev from_line : Text
from_line = codes "FROM --platform=linux/amd64 registry:5000/python:3.13 AS build"

abbrev match : FromLine
match = record {
  prefix = codes "FROM --platform=linux/amd64 ";
  reference = codes "registry:5000/python:3.13";
  suffix = codes " AS build";
}

abbrev current : Text
current = codes "sha256:aa"

upgrade_settled_example :
    (n : FromLine) × (from_match (with_base (proposal [] [] 1 match current) match) ≡ some n)
    × ((classify_base (declared_base [] [] 1 n) current).status ≡ pinned_current)
unfolding from_match line_match words_of keyword_match text_eq upper flags_match proposed_reference
    classify_base declared_base split_reference after_first expand up_to_last before_first
    after_last
upgrade_settled_example =
    upgrade_settled [] [] 1 from_line current match refl refl (refl, refl, refl) refl

abbrev file : List (Text × Text)
file = (from_line, codes "\n") ∷ (codes "RUN make", codes "\n") ∷ []

abbrev finding : BaseFinding
finding = classify_base (declared_base [] [] 1 match) current

rewrite_bases_lem_example :
    (map (λ l. l.1) (rewrite_bases file (finding ∷ [])).0 ≡ map (λ l. l.1) file)
    × (line_at 1 (rewrite_bases file (finding ∷ [])).0 2 ≡ line_at 1 file 2)
unfolding classify_base declared_base arg_line_of split_reference after_first expand
rewrite_bases_lem_example =
    rewrite_bases_lem file (finding ∷ []) 2
      (λ f m h. elim m [ inl e ↦ rw e (omega arith, omega arith) | inr n ↦ absurd n ])
