-- ===== src/Examples/Exemptions.antt =====
-- Rules of an ignore file, and the document that is made of them.
use docker_ls.Prelude.{ℕ, ◌≡◌, refl, ◌↔◌, List, [], ◌∷◌, false, Option, none, some, any, In}
use docker_ls.Prelude.Text.{Text, codes, lower, lstrip, rstrip, strip, text_eq, upper}
use docker_ls.Exemptions.Vex.{named_in, justification_text, parse_justification}
use docker_ls.Exemptions.Rules.{
  IgnoreRule, active_ids, apply_ignore_rules, is_expired, known_vex_justification, load_rules,
  matches_from, upper_cve, validated,
}
use docker_ls.Exemptions.Laws.{exempts, apply_ignore_rules_iff}
use docker_ls.Evidence.Scan.{ScanResult}
use docker_ls.Examples.Data.{scan_of, openssl, zlib}

abbrev rule : IgnoreRule
rule = record {
  cve = codes " cve-2024-0001";
  justification = codes "accepted";
  expires = some 20;
  vex_justification = codes "Component_Not_Present";
}

abbrev blank : IgnoreRule
blank = record { cve = codes " "; justification = []; expires = none; vex_justification = [] }

abbrev read_rule : IgnoreRule
read_rule = record {
  cve = codes "CVE-2024-0001";
  justification = codes "accepted";
  expires = some 20;
  vex_justification = codes "component_not_present";
}

abbrev entries : List (Option IgnoreRule)
entries = some blank ∷ none ∷ some rule ∷ []

loaded : load_rules 20 entries ≡ read_rule ∷ []
unfolding load_rules validated upper_cve known_vex_justification parse_justification named_in
    justification_text matches_from is_expired strip lstrip rstrip lower upper text_eq
loaded = refl

expired : load_rules 21 entries ≡ []
unfolding load_rules validated upper_cve known_vex_justification parse_justification named_in
    justification_text matches_from is_expired strip lstrip rstrip lower upper text_eq
expired = refl

abbrev scan : ScanResult
scan = scan_of (openssl ∷ zlib ∷ [])

apply_ignore_rules_iff_example :
    (In openssl (apply_ignore_rules scan (active_ids 20 (read_rule ∷ blank ∷ []))).vulnerabilities)
    ↔ (In openssl scan.vulnerabilities
        × (any (exempts 20 openssl) (read_rule ∷ blank ∷ []) ≡ false))
apply_ignore_rules_iff_example = apply_ignore_rules_iff 20 (read_rule ∷ blank ∷ []) scan openssl

abbrev on_day : ℕ → Text
on_day day = codes "2026-01-20"
