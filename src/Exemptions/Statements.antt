-- ===== src/Exemptions/Statements.antt =====
-- What an exemption states in a VEX document.
use docker_ls.Prelude.{
  ℕ, ◌≡◌, ◌≢◌, ◌↔◌, List, [], ◌∷◌, ◌++◌, map, false, is_empty, none, some, if◌then◌else◌,
}
use docker_ls.Prelude.Text.{Text, lower, strip}
use docker_ls.Exemptions.Vex.{
  VexJustification, justification_text, not_affected, affected, VexStatement, ExemptionInput,
  VexDocument, ok, with_expiry, expiry_note, build_document, no_reason,
}
use docker_ls.Exemptions.Rules.{IgnoreRule, exemption_of}

-- The text is the name of the justification, but for upper case and white space around it.
abbrev pub Declares : Text → VexJustification → Type 0
Declares text j = lower (strip text) ≡ justification_text j

-- What a statement says of an exemption
pub record States (isoformat : ℕ → Text) (e : ExemptionInput) (s : VexStatement) : Type 0 where
  pub cve_same : s.cve ≡ e.cve
  pub justified :
      (j : VexJustification) → (s.justification ≡ some j) ↔ (Declares e.vex_justification j)
  pub not_affected_iff :
      (s.status ≡ not_affected) ↔ ((j : VexJustification) × Declares e.vex_justification j)
  pub otherwise_affected : s.status ≢ not_affected → s.status ≡ affected
  pub dated :
      (day : ℕ)
      → e.expires ≡ some day
      → (text : Text) × (s.action_statement ≡ text ++ expiry_note isoformat day)

module _ (isoformat : ℕ → Text) where
  module _ (e : ExemptionInput) (named : is_empty (strip e.cve) ≡ false) where
    abbrev declared_statement : VexJustification → VexStatement
    declared_statement j = record {
      cve = e.cve;
      status = not_affected;
      justification = some j;
      action_statement = with_expiry isoformat [] e.expires;
    }

    abbrev free_statement : VexStatement
    free_statement = record {
      cve = e.cve;
      status = affected;
      justification = none;
      action_statement =
          with_expiry isoformat (if is_empty e.justification then no_reason else e.justification)
            e.expires;
    }

  -- One statement for each exemption, in their order
  abbrev pub Stated : List ExemptionInput → List VexStatement → Type 0
  Stated [] [] = Unit
  Stated [] (s ∷ statements) = ⊥
  Stated (e ∷ exemptions) [] = ⊥
  Stated (e ∷ exemptions) (s ∷ statements) = States isoformat e s × Stated exemptions statements

  -- The document of the rules is made, and has one statement for each of them.
  abbrev pub Documented : List Text → Text → Text → List IgnoreRule → Type 0
  Documented products author stamp rules =
      (d : VexDocument) × (build_document isoformat (map exemption_of rules) products author stamp
        ≡ ok d)
      × Stated (map exemption_of rules) d.statements
