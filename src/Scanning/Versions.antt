-- ===== src/Scanning/Versions.antt =====
-- The version that a tag begins with, and how versions compare.
use docker_ls.Prelude.{
  ℕ, ◌+◌, ◌*◌, ◌-◌, List, [], ◌∷◌, ◌++◌, Bool, true, false, ◌&&◌, ◌||◌, Option, none, some,
}
use docker_ls.Prelude.{leb, ltb, ◌==◌, not, if◌then◌else◌}
use docker_ls.Prelude.Text.{Text, strip, lower}

-- A tuple of numbers
abbrev pub Version : Type 0
Version = List ℕ

-- `a <= b` on tuples
unfoldable pub version_leb : Version → Version → Bool
version_leb [] b = true
version_leb (x ∷ a) [] = false
version_leb (x ∷ a) (y ∷ b) =
    let rest = version_leb a b in if ltb x y then true else if ltb y x then false else rest

-- `a < b`
abbrev pub version_ltb : Version → Version → Bool
version_ltb a b = not (version_leb b a)

abbrev is_digit : ℕ → Bool
is_digit c = leb b'0' c && leb c b'9'

-- Whether the text begins with a digit
abbrev digit_next : Text → Bool
digit_next [] = false
digit_next (c ∷ t) = is_digit c

-- `v?` at the front, where a lower or an upper v may stand
abbrev skip_v : Text → Text
skip_v [] = []
skip_v (c ∷ t) = if c == b'v' || c == b'V' then t else c ∷ t

abbrev or_else {ℓ} : {A : Type ℓ} → Option A → Option A → Option A
or_else none b = b
or_else (some a) b = some a

-- What may follow the version: nothing, or a separator and the variant.
abbrev variant_end : Version → Text → Option (Version × Text)
variant_end version [] = some (version, [])
variant_end version (c ∷ t) =
    if c == b'-' || (c == b'_' || c == b'.') then some (version, t) else none

-- `(\d+(?:\.\d+)*)(?:[-_.](.*))?$` behind a first digit: the components before this one, and this one
-- so far. Where the longest match fails at its end, one component less is tried.
version_parts : Version → ℕ → Text → Option (Version × Text)
version_parts before n [] = variant_end (before ++ (n ∷ [])) []
version_parts before n (c ∷ t) =
    let more = version_parts before (n * 10 + (c - b'0')) t in
    let deeper = version_parts (before ++ (n ∷ [])) 0 t in
    if is_digit c
    then more
    else if c == b'.' && digit_next t
    then or_else deeper (variant_end (before ++ (n ∷ [])) (c ∷ t))
    else variant_end (before ++ (n ∷ [])) (c ∷ t)

-- `_VERSION_PREFIX.match` of scan_plan.py
abbrev match_version : Text → Option (Version × Text)
match_version t = if digit_next t then version_parts [] 0 t else none

-- `_version_and_variant`
unfoldable pub version_and_variant : Text → Option Version × Text
unfolding version_parts
version_and_variant tag = elim (match_version (skip_v (strip tag))) [
  | none ↦ (none, lower (strip tag))
  | some (version, variant) ↦ (some version, lower variant)
]

-- `^v?(\d+(?:\.\d+)*)`: the longest version at the front
longest_version : Version → ℕ → Text → Version
longest_version before n [] = before ++ (n ∷ [])
longest_version before n (c ∷ t) =
    let more = longest_version before (n * 10 + (c - b'0')) t in
    let deeper = longest_version (before ++ (n ∷ [])) 0 t in
    if is_digit c then more else if c == b'.' && digit_next t then deeper else before ++ (n ∷ [])

-- `version_of_tag`
unfoldable pub version_of_tag : Text → Option Version
unfolding longest_version
version_of_tag tag =
    let t = skip_v (lower (strip tag)) in
    if digit_next t then some (longest_version [] 0 t) else none
