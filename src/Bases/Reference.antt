-- ===== src/Bases/Reference.antt =====
-- `_split_reference`: the name, the tag and the digest of an image reference.
pub mod Laws
use Prim.Native.Nat.{ℕ}
use docker_ls.Prelude.{List, [], ◌∷◌, ◌++◌, Bool, true, false, ◌||◌, ◌==◌, if◌then◌else◌}
use docker_ls.Prelude.Text.{Text}

-- `c in t`
abbrev pub has_char : ℕ → Text → Bool
has_char c [] = false
has_char c (x ∷ t) = x == c || has_char c t

-- The first and the last of what `t.partition(c)` gives
unfoldable pub before_first : ℕ → Text → Text
before_first c [] = []
before_first c (x ∷ t) = let rest = x ∷ before_first c t in if x == c then [] else rest

unfoldable pub after_first : ℕ → Text → Text
after_first c [] = []
after_first c (x ∷ t) = let rest = after_first c t in if x == c then t else rest

-- The first two of what `t.rpartition(c)` gives, joined, and the last of it
unfoldable pub up_to_last : ℕ → Text → Text
up_to_last c [] = []
up_to_last c (x ∷ t) =
    let rest = x ∷ up_to_last c t in if has_char c t then rest else if x == c then x ∷ [] else []

unfoldable pub after_last : ℕ → Text → Text
after_last c [] = []
after_last c (x ∷ t) =
    let rest = after_last c t in if has_char c t then rest else if x == c then t else x ∷ t

pub record Reference : Type 0 where
  pub name : Text
  pub tag : Text
  pub digest : Text

-- `_split_reference`
unfoldable pub split_reference : Text → Reference
split_reference reference =
    let remainder = before_first b'@' reference in
    let last = after_last b'/' remainder in
    record {
      name = up_to_last b'/' remainder ++ before_first b':' last;
      tag = after_first b':' last;
      digest = after_first b'@' reference;
    }
