-- ===== src/Gate/Types.antt =====
-- The types of gate.py. An EPSS floor or value is a decimal fraction as it is written; the reasons of
-- a verdict are texts for people and are left out, and so is what a finding carries only for display.
use docker_ls.Prelude.{ℕ, ◌*◌, ◌^◌, List, Bool, Option, none, some, leb, if◌then◌else◌}
use docker_ls.Prelude.Text.{Text, codes, text_eq, lower, strip}
use docker_ls.Evidence.Tristate.{Tristate}

-- mantissa / 10 ^ scale
pub record Decimal : Type 0 where
  pub mantissa : ℕ
  pub scale : ℕ

-- `a <= b`
abbrev pub decimal_leb : Decimal → Decimal → Bool
decimal_leb a b = leb (a.mantissa * 10 ^ b.scale) (b.mantissa * 10 ^ a.scale)

-- `SEVERITY_THRESHOLDS`, from the most severe to the mildest, and its `index`
pub data Threshold : Type 0 where
  critical high medium low : Threshold

abbrev pub threshold_index : Threshold → ℕ
threshold_index critical = 0
threshold_index high = 1
threshold_index medium = 2
threshold_index low = 3

abbrev pub threshold_name : Threshold → Text
threshold_name critical = codes "critical"
threshold_name high = codes "high"
threshold_name medium = codes "medium"
threshold_name low = codes "low"

-- The threshold that a text names, if it names one.
unfoldable pub threshold_of : Text → Option Threshold
unfolding text_eq
threshold_of t =
    if text_eq t (threshold_name critical)
    then some critical
    else if text_eq t (threshold_name high)
    then some high
    else if text_eq t (threshold_name medium)
    then some medium
    else if text_eq t (threshold_name low)
    then some low
    else none

pub record Finding : Type 0 where
  pub cve_id : Text
  pub severity : Text
  pub kev : Tristate
  pub epss : Option Decimal

-- `Finding.severity_rank`; `none` is -1.
unfoldable pub severity_rank : Finding → Option ℕ
unfolding threshold_of lower strip
severity_rank f = elim (threshold_of (lower (strip f.severity))) [
  | none ↦ none
  | some t ↦ some (threshold_index t)
]

-- `GateKind` with the parameter that a gate of that kind has
pub data GateKind : Type 0 where
  severity : Threshold → GateKind
  kev : GateKind
  epss : Decimal → GateKind

-- `Gate`
pub record Gate : Type 0 where
  pub kind : GateKind
  pub raw : Text

pub data GateOutcome : Type 0 where
  pass fail unmeasured : GateOutcome

pub record GateVerdict : Type 0 where
  pub outcome : GateOutcome
  pub kind : GateKind
  pub offenders : List Finding

-- `InvalidGateError`; an unknown gate is named by its text as `parse` reads it, stripped and in lower
-- case, where the message quotes the argument.
pub data InvalidGate : Type 0 where
  no_gate_named : InvalidGate
  epss_outside : Decimal → InvalidGate
  unknown_gate : Text → InvalidGate

pub data Result {ℓ} (A : Type ℓ) : Type ℓ where
  ok : A → Result A
  err : InvalidGate → Result A

infixl 10 ◌>>=◌
abbrev pub ◌>>=◌ {ℓ κ} : {A : Type ℓ} {B : Type κ} → Result A → (A → Result B) → Result B
ok a >>= f = f a
err e >>= f = err e
