-- ===== src/Runs/Json.antt =====
-- JSON values as `json.loads` gives them. A number is its truth and what `str` prints of it.
use docker_ls.Prelude.{
  List, [], ◌∷◌, Bool, true, false, not, is_empty, Option, none, some, if◌then◌else◌,
}
use docker_ls.Prelude.Text.{Text, codes, text_eq}

mutual
  pub data Value : Type 0 where
    null : Value
    boolean : Bool → Value
    number : Bool → Text → Value
    text : Text → Value
    array : Elements → Value
    object : Fields → Value

  pub data Elements : Type 0 where
    nil : Elements
    cons : Value → Elements → Elements

  pub data Fields : Type 0 where
    end : Fields
    field : Text → Value → Fields → Fields

unfoldable pub values_of : Elements → List Value
values_of nil = []
values_of (cons v items) = v ∷ values_of items

-- `d.get(key)`
unfoldable pub value_at : Text → Fields → Option Value
value_at key end = none
value_at key (field k v fields) =
    let rest = value_at key fields in if text_eq k key then some v else rest

-- `bool(v)`
abbrev pub is_truthy : Value → Bool
is_truthy null = false
is_truthy (boolean b) = b
is_truthy (number truth printed) = truth
is_truthy (text t) = not (is_empty t)
is_truthy (array nil) = false
is_truthy (array (cons v items)) = true
is_truthy (object end) = false
is_truthy (object (field k v fields)) = true

-- `printed` is what `str` prints of a list or of a dictionary.
module _ (printed : Value → Text) where
  -- `str(v)`
  unfoldable pub str : Value → Text
  str null = codes "None"
  str (boolean true) = codes "True"
  str (boolean false) = codes "False"
  str (number truth t) = t
  str (text t) = t
  str (array items) = printed (array items)
  str (object fields) = printed (object fields)

  -- `str(d.get(key, ""))`
  unfoldable pub str_or_missing : Text → Fields → Text
  unfolding str value_at
  str_or_missing key fields = elim (value_at key fields) [ none ↦ [] | some v ↦ str v ]

  -- `str(d.get(key) or "")`
  unfoldable pub str_or_empty : Text → Fields → Text
  unfolding str value_at
  str_or_empty key fields = elim (value_at key fields) [
    | none ↦ []
    | some v ↦ if is_truthy v then str v else []
  ]

-- `d.get(key)` if that is a dictionary, else an empty one
unfoldable pub object_at : Text → Fields → Fields
unfolding value_at
object_at key fields = elim (value_at key fields) [ some (object inner) ↦ inner | _ ↦ end ]

-- `d.get(key)` if that is a list, else an empty one
unfoldable pub list_at : Text → Fields → List Value
unfolding value_at values_of
list_at key fields = elim (value_at key fields) [ some (array items) ↦ values_of items | _ ↦ [] ]

-- The dictionaries of a list
unfoldable pub objects : List Value → List Fields
objects [] = []
objects (object fields ∷ values) = fields ∷ objects values
objects (_ ∷ values) = objects values
