-- ===== src/Prelude/Dict.antt =====
-- A Python dictionary with texts as keys: its items, in the order in which their keys were first put.
use mathlib.Core.Path.{◌≡◌, refl}
use mathlib.Core.Bool.{Bool, ◌||◌}
use mathlib.Core.List.{List, [], ◌∷◌}
use mathlib.Core.Option.{Option, none, some}
use native.Mathlib.Omega.{arith}
use docker_ls.Prelude.Tests.{if◌then◌else◌}
use docker_ls.Prelude.Lists.{any}
use docker_ls.Prelude.Text.{Text, text_eq, text_eq_iff}

abbrev pub Dict {ℓ} : Type ℓ → Type ℓ
Dict V = List (Text × V)

module _ {ℓ} {V : Type ℓ} where
  -- `key in d`
  abbrev pub in_dict : Text → Dict V → Bool
  in_dict key d = any (λ item. text_eq item.0 key) d

  -- `d[key] = v`
  unfoldable pub set_item : Text → V → Dict V → Dict V
  set_item key v [] = (key, v) ∷ []
  set_item key v ((k, w) ∷ d) =
      let rest = set_item key v d in if text_eq k key then (k, v) ∷ d else (k, w) ∷ rest

  -- `d.get(key)`
  unfoldable pub get_item : Text → Dict V → Option V
  get_item key [] = none
  get_item key ((k, w) ∷ d) = let rest = get_item key d in if text_eq k key then some w else rest

  pub set_item-in_dict :
      (key t : Text) (v : V) (d : Dict V)
      → in_dict t (set_item key v d) ≡ (text_eq key t || in_dict t d)
  unfolding set_item
  set_item-in_dict key t v [] = ground arith
  set_item-in_dict key t v ((k, w) ∷ d) =
      ground (arith, set_item-in_dict key t v d, text_eq_iff k key)

  pub get_item-set_item :
      (key t : Text) (v : V) (d : Dict V)
      → get_item t (set_item key v d) ≡ (if text_eq key t then some v else get_item t d)
  unfolding set_item get_item
  get_item-set_item key t v [] = refl
  get_item-set_item key t v ((k, w) ∷ d) =
      ground
        (arith, get_item-set_item key t v d, text_eq_iff k key, text_eq_iff k t, text_eq_iff key t)
