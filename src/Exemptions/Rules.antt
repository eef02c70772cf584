-- ===== src/Exemptions/Rules.antt =====
-- dockerls/utils/ignore_file.py: the rules of `.dockerls-ignore.yaml`. What the YAML parser and
-- pydantic read of the file is an argument: an entry is `none` where its fields have wrong types.
use docker_ls.Prelude.{
  ℕ, List, [], ◌∷◌, map, filter, Bool, true, false, ◌&&◌, ◌||◌, not, is_empty, Option, none, some,
  if◌then◌else◌, leb, ltb, ◌==◌,
}
use docker_ls.Prelude.Text.{Text, contains, lower, strip, upper}
use docker_ls.Evidence.Scan.{ScanResult}
use docker_ls.Exemptions.Vex.{ExemptionInput, parse_justification}

pub record IgnoreRule : Type 0 where
  pub cve : Text
  pub justification : Text
  pub expires : Option ℕ
  pub vex_justification : Text

-- `[A-Z]`, `[A-Z0-9]` and `[-_.]`
abbrev pub is_upper : ℕ → Bool
is_upper c = leb b'A' c && leb c b'Z'

abbrev pub is_letter_or_digit : ℕ → Bool
is_letter_or_digit c = is_upper c || (leb b'0' c && leb c b'9')

abbrev pub is_joint : ℕ → Bool
is_joint c = c == b'-' || c == b'_' || c == b'.'

-- Where a match of `_ADVISORY_ID` stands: before its first letter, in its first segment, behind a
-- joint, and in a later segment
pub data Position : Type 0 where
  start in_first behind in_later : Position

abbrev pub advance : Position → ℕ → Option Position
advance start c = if is_upper c then some in_first else none
advance in_first c =
    if is_letter_or_digit c then some in_first else if is_joint c then some behind else none
advance behind c = if is_letter_or_digit c then some in_later else none
advance in_later c =
    if is_letter_or_digit c then some in_later else if is_joint c then some behind else none

abbrev pub accepts_end : Position → Bool
accepts_end in_later = true
accepts_end _ = false

-- `_ADVISORY_ID.match(text)`
unfoldable pub matches_from : Position → Text → Bool
matches_from at [] = accepts_end at
matches_from at (c ∷ t) = elim (advance at c) [ none ↦ false | some next ↦ matches_from next t ]

-- `_upper_cve`; `none` is its `ValueError`.
unfoldable pub upper_cve : Text → Option Text
unfolding matches_from
upper_cve v = let text = upper (strip v) in if matches_from start text then some text else none

-- `_known_vex_justification`
unfoldable pub known_vex_justification : Text → Option Text
unfolding parse_justification
known_vex_justification v =
    let text = lower (strip v) in
    if is_empty text
    then some []
    else elim (parse_justification text) [ none ↦ none | some j ↦ some text ]

-- `IgnoreRule.model_validate`
unfoldable pub validated : IgnoreRule → Option IgnoreRule
unfolding upper_cve known_vex_justification
validated r = elim (upper_cve r.cve) [
  | none ↦ none
  | some cve ↦ elim (known_vex_justification r.vex_justification) [
    | none ↦ none
    | some justification ↦ some (record r { cve = cve; vex_justification = justification })
  ]
]

-- `is_expired`
unfoldable pub is_expired : ℕ → IgnoreRule → Bool
is_expired today r = elim r.expires [ none ↦ false | some day ↦ ltb day today ]

-- The loop of `load_ignore_rules`
unfoldable pub load_rules : ℕ → List (Option IgnoreRule) → List IgnoreRule
unfolding validated is_expired
load_rules today [] = []
load_rules today (none ∷ entries) = load_rules today entries
load_rules today (some entry ∷ entries) =
    let rest = load_rules today entries in
    elim (validated entry) [
      | none ↦ rest
      | some rule ↦ if is_expired today rule then rest else rule ∷ rest
    ]

-- What is there at the path of the file: nothing, what cannot be read or is no mapping, a mapping
-- without `ignores`, one in which that is no iterable (null, a number, a truth value), and one with
-- entries. The characters of a text and the keys of a mapping are entries that pydantic refuses.
pub data IgnoreFile : Type 0 where
  missing unreadable no_mapping without_ignores no_iterable : IgnoreFile
  listed : List (Option IgnoreRule) → IgnoreFile

-- `load_ignore_rules`; `none` is the `TypeError` of `for entry in entries`.
unfoldable pub load_ignore_rules : ℕ → IgnoreFile → Option (List IgnoreRule)
unfolding load_rules
load_ignore_rules today missing = some []
load_ignore_rules today unreadable = some []
load_ignore_rules today no_mapping = some []
load_ignore_rules today without_ignores = some []
load_ignore_rules today no_iterable = none
load_ignore_rules today (listed entries) = some (load_rules today entries)

-- `active_ignored_cve_ids`
unfoldable pub active_ids : ℕ → List IgnoreRule → List Text
unfolding is_expired
active_ids today rules =
    map (λ r. r.cve) (filter (λ r. not (is_expired today r) && not (is_empty (strip r.cve))) rules)

-- `_apply_ignore_rules` of dockerls/application/use_cases/recommend_images.py
unfoldable pub apply_ignore_rules : ScanResult → List Text → ScanResult
apply_ignore_rules s ignored = record s {
  vulnerabilities = filter (λ v. not (contains ignored (upper v.cve_id))) s.vulnerabilities;
}

-- What dockerls/cli/commands/vex_cmd.py makes of a rule
abbrev pub exemption_of : IgnoreRule → ExemptionInput
exemption_of r = record {
  cve = r.cve;
  justification = r.justification;
  expires = r.expires;
  vex_justification = r.vex_justification;
}
