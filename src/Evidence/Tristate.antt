-- ===== src/Evidence/Tristate.antt =====
-- dockerls/domain/value_objects/tristate.py: facts that are true, false or not determined.
use docker_ls.Prelude.{Bool, Option, none, some}

pub data Tristate : Type 0 where
  true false unknown : Tristate

-- `Tristate.of`
abbrev pub tristate_of : Option Bool → Tristate
tristate_of none = unknown
tristate_of (some Bool.true) = true
tristate_of (some Bool.false) = false

abbrev pub is_known : Tristate → Bool
is_known unknown = Bool.false
is_known _ = Bool.true

abbrev pub is_true : Tristate → Bool
is_true true = Bool.true
is_true _ = Bool.false

abbrev pub is_false : Tristate → Bool
is_false false = Bool.true
is_false _ = Bool.false
