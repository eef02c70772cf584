-- ===== src/Histories/Bounded.antt =====
-- The part that the two `record` functions share: a list of observations that keeps its first one
-- and its last ones, with a count of those that were dropped.
pub mod Laws
pub mod Replay
use Prim.Native.Nat.{ℕ, ◌+◌, ◌-◌}
use docker_ls.Prelude.{
  List, [], ◌∷◌, ◌++◌, Bool, Option, none, some, ltb, if◌then◌else◌, length, drop,
}

-- `MAX_OBSERVATIONS`
abbrev pub max_observations : ℕ
max_observations = 24

-- `entries[-n:]`
unfoldable pub last_n : {A : Type 0} → ℕ → List A → List A
last_n n xs = drop (length xs - n) xs

-- `observations[-1]`
unfoldable pub last_of : {A : Type 0} → List A → Option A
last_of [] = none
last_of (x ∷ []) = some x
last_of (x ∷ y ∷ xs) = last_of (y ∷ xs)

-- `(entries[0], *entries[-(MAX_OBSERVATIONS - 1) :])`
abbrev pub pruned : {A : Type 0} → List A → List A
pruned [] = []
pruned (x ∷ xs) = x ∷ last_n (max_observations - 1) (x ∷ xs)

-- The end of `record`: the entries and the count of dropped ones after an observation is added
unfoldable pub push : {A : Type 0} → List A → ℕ → A → List A × ℕ
push observations dropped x =
    let entries = observations ++ (x ∷ []) in
    if ltb max_observations (length entries)
    then (pruned entries, dropped + (length entries - max_observations))
    else (entries, dropped)
