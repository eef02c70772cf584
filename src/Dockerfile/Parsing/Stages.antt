-- ===== src/Dockerfile/Parsing/Stages.antt =====
-- `_resolve_final_stage`: the user and the base of the final stage, by way of the aliases.
pub mod Laws
use docker_ls.Prelude.{
  ℕ, zero, suc, ◌+◌, ◌-◌, List, [], ◌∷◌, Bool, true, false, ◌||◌, is_empty, any, length, Option,
  none, some, if◌then◌else◌, ◌==◌,
}
use docker_ls.Prelude.Text.{Text, lower}
use docker_ls.Prelude.Dict.{Dict, set_item, get_item}
use docker_ls.Dockerfile.Info.{DockerfileInfo}

-- `_Stage`
pub record Stage : Type 0 where
  pub base : Text
  pub alias : Option Text
  pub user : Option Text
  pub uid : Option ℕ

-- The number of a stage stands for its `id`.
unfoldable pub stage_at : List Stage → ℕ → Option Stage
stage_at [] n = none
stage_at (s ∷ stages) zero = some s
stage_at (s ∷ stages) (suc n) = stage_at stages n

abbrev named : Option Text → ℕ → Dict ℕ → Dict ℕ
named none n d = d
named (some alias) n d = if is_empty alias then d else set_item (lower alias) n d

unfoldable pub by_alias_from : ℕ → List Stage → Dict ℕ → Dict ℕ
by_alias_from n [] d = d
by_alias_from n (s ∷ stages) d = by_alias_from (n + 1) stages (named s.alias n d)

-- `by_alias`: where two stages share an alias, the later one has it.
unfoldable pub by_alias : List Stage → Dict ℕ
unfolding by_alias_from
by_alias stages = by_alias_from 0 stages []

pub data Walk : Type 0 where
  out_of_fuel ended : Walk
  found : Stage → Walk

abbrev pub visited_before : ℕ → List ℕ → Bool
visited_before n visited = any (λ m. m == n) visited

module _ (stages : List Stage) where
  -- The stage that a base names
  abbrev pub parent_of : Stage → Option ℕ
  parent_of s = get_item (lower s.base) (by_alias stages)

  -- The first loop: the stage whose `USER` is in effect
  unfoldable pub walk_user : ℕ → List ℕ → Option ℕ → Walk
  unfolding stage_at
  walk_user fuel visited none = ended
  walk_user zero visited (some n) = out_of_fuel
  walk_user (suc fuel) visited (some n) =
      if visited_before n visited then ended else elim (stage_at stages n) [
        | none ↦ ended
        | some s ↦ elim s.user [
          | none ↦ walk_user fuel (n ∷ visited) (parent_of s)
          | some u ↦ found s
        ]
      ]

  -- The second loop: the stage whose base no alias names
  unfoldable pub walk_base : ℕ → List ℕ → Option ℕ → Walk
  unfolding stage_at
  walk_base fuel visited none = ended
  walk_base zero visited (some n) = out_of_fuel
  walk_base (suc fuel) visited (some n) =
      if visited_before n visited then ended else elim (stage_at stages n) [
        | none ↦ ended
        | some s ↦ elim (parent_of s) [
          | none ↦ found s
          | some m ↦ walk_base fuel (n ∷ visited) (some m)
        ]
      ]

  -- As many stages as there are can be visited before one is visited again.
  abbrev pub fuel_for_stages : ℕ
  fuel_for_stages = suc (length stages)

  abbrev pub final_stage : Option ℕ
  final_stage = if is_empty stages then none else some (length stages - 1)

abbrev pub with_final_user : Walk → DockerfileInfo → DockerfileInfo
with_final_user (found s) i = record i {
  has_user_directive = true;
  user_name = s.user;
  user_uid = s.uid;
}
with_final_user ended i = i
with_final_user out_of_fuel i = i

abbrev pub with_final_base : Walk → DockerfileInfo → DockerfileInfo
with_final_base (found s) i = record i { final_base_image = some s.base }
with_final_base ended i = i
with_final_base out_of_fuel i = i

-- `_resolve_final_stage`
unfoldable pub resolve_final_stage : List Stage → DockerfileInfo → DockerfileInfo
unfolding walk_user walk_base
resolve_final_stage stages i =
    with_final_base (walk_base stages (fuel_for_stages stages) [] (final_stage stages))
      (with_final_user (walk_user stages (fuel_for_stages stages) [] (final_stage stages)) i)
