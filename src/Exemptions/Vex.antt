-- ===== src/Exemptions/Vex.antt =====
-- dockerls/domain/value_objects/vex.py: exemptions as OpenVEX statements. A date is its ordinal;
-- how `isoformat` writes it is a parameter.
use docker_ls.Prelude.{
  ℕ, List, [], ◌∷◌, ◌++◌, Bool, true, false, not, is_empty, Option, none, some, if◌then◌else◌,
}
use docker_ls.Prelude.Text.{Text, codes, lower, strip, text_eq}

pub data VexStatus : Type 0 where
  not_affected affected fixed under_investigation : VexStatus

abbrev pub is_not_affected : VexStatus → Bool
is_not_affected not_affected = true
is_not_affected _ = false

pub data VexJustification : Type 0 where
  component_not_present vulnerable_code_not_present : VexJustification
  vulnerable_code_not_in_execute_path : VexJustification
  vulnerable_code_cannot_be_controlled_by_adversary : VexJustification
  inline_mitigations_already_exist : VexJustification

-- `str(justification)`
unfoldable pub justification_text : VexJustification → Text
justification_text component_not_present = codes "component_not_present"
justification_text vulnerable_code_not_present = codes "vulnerable_code_not_present"
justification_text vulnerable_code_not_in_execute_path = codes "vulnerable_code_not_in_execute_path"
justification_text vulnerable_code_cannot_be_controlled_by_adversary =
    codes "vulnerable_code_cannot_be_controlled_by_adversary"
justification_text inline_mitigations_already_exist = codes "inline_mitigations_already_exist"

abbrev pub justifications : List VexJustification
justifications =
    component_not_present ∷ vulnerable_code_not_present ∷ vulnerable_code_not_in_execute_path
    ∷ vulnerable_code_cannot_be_controlled_by_adversary ∷ inline_mitigations_already_exist ∷ []

-- `VexJustification(text)`; `none` is its `ValueError`.
unfoldable pub named_in : List VexJustification → Text → Option VexJustification
unfolding justification_text
named_in [] t = none
named_in (j ∷ js) t =
    let rest = named_in js t in if text_eq (justification_text j) t then some j else rest

-- `parse_justification`
unfoldable pub parse_justification : Text → Option VexJustification
unfolding named_in
parse_justification value = named_in justifications (lower (strip value))

pub record VexStatement : Type 0 where
  pub cve : Text
  pub status : VexStatus
  pub justification : Option VexJustification
  pub action_statement : Text

-- The three ways in which `__post_init__` refuses a statement
pub data InvalidVexStatement : Type 0 where
  no_identifier unjustified misplaced : InvalidVexStatement

pub data Result {ℓ} (A : Type ℓ) : Type ℓ where
  ok : A → Result A
  err : InvalidVexStatement → Result A

infixl 5 ◌>>=◌
abbrev pub ◌>>=◌ {ℓ κ} : {A : Type ℓ} {B : Type κ} → Result A → (A → Result B) → Result B
ok a >>= f = f a
err e >>= f = err e

-- `VexStatement.__post_init__`
unfoldable pub made_statement : VexStatement → Result VexStatement
made_statement s = if is_empty (strip s.cve) then err no_identifier else elim s.justification [
  | none ↦ if is_not_affected s.status then err unjustified else ok s
  | some j ↦ if not (is_not_affected s.status) then err misplaced else ok s
]

pub record ExemptionInput : Type 0 where
  pub cve : Text
  pub justification : Text
  pub expires : Option ℕ
  pub vex_justification : Text

pub record VexDocument : Type 0 where
  pub author : Text
  pub products : List Text
  pub statements : List VexStatement
  pub timestamp : Text

abbrev pub no_reason : Text
no_reason = codes "exempted in .dockerls-ignore.yaml, with no reason given"

module _ (isoformat : ℕ → Text) where
  abbrev pub expiry_note : ℕ → Text
  expiry_note day = codes "exemption expires on " ++ isoformat day

  -- `_with_expiry`
  unfoldable pub with_expiry : Text → Option ℕ → Text
  with_expiry text none = text
  with_expiry [] (some day) = expiry_note day
  with_expiry (c ∷ text) (some day) = (c ∷ text) ++ (codes "; " ++ expiry_note day)

  -- `statement_for`
  unfoldable pub statement_for : ExemptionInput → Result VexStatement
  unfolding parse_justification with_expiry made_statement
  statement_for e = elim (parse_justification e.vex_justification) [
    | some declared ↦ made_statement (record {
      cve = e.cve;
      status = not_affected;
      justification = some declared;
      action_statement = with_expiry [] e.expires;
    })
    | none ↦ made_statement (record {
      cve = e.cve;
      status = affected;
      justification = none;
      action_statement =
          with_expiry (if is_empty e.justification then no_reason else e.justification) e.expires;
    })
  ]

  unfoldable pub statements_for : List ExemptionInput → Result (List VexStatement)
  unfolding statement_for
  statements_for [] = ok []
  statements_for (e ∷ exemptions) = do
    statement ← statement_for e
    rest ← statements_for exemptions
    ok (statement ∷ rest)

  -- `build_document`
  unfoldable pub build_document : List ExemptionInput → List Text → Text → Text → Result VexDocument
  unfolding statements_for
  build_document exemptions products author timestamp = do
    statements ← statements_for exemptions
    ok (record {
      author = author;
      products = products;
      statements = statements;
      timestamp = timestamp;
    })
