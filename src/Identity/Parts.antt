-- ===== src/Identity/Parts.antt =====
-- Texts that fall into parts at a separator: `str.split` and `str.join`, and `str.rpartition`.
pub mod Laws
use docker_ls.Prelude.{ℕ, List, [], ◌∷◌, ◌++◌, Bool, ◌||◌, ◌==◌, if◌then◌else◌}
use docker_ls.Prelude.Text.{Text}
use docker_ls.Bases.Reference.{has_char}

abbrev pub onto_part : ℕ → List Text → List Text
onto_part x [] = (x ∷ []) ∷ []
onto_part x (part ∷ parts) = (x ∷ part) ∷ parts

-- `t.split(c)`
unfoldable pub split_on : ℕ → Text → List Text
split_on c [] = [] ∷ []
split_on c (x ∷ t) = let rest = split_on c t in if x == c then [] ∷ rest else onto_part x rest

-- `c.join(parts)`
unfoldable pub join_with : ℕ → List Text → Text
join_with c [] = []
join_with c (part ∷ []) = part
join_with c (part ∷ next ∷ parts) = part ++ (c ∷ join_with c (next ∷ parts))

-- What stands before the last separator, and nothing if there is none: the first of what
-- `t.rpartition(c)` gives
unfoldable pub before_last : ℕ → Text → Text
before_last c [] = []
before_last c (x ∷ t) = let rest = x ∷ before_last c t in if has_char c t then rest else []
