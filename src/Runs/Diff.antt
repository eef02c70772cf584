-- ===== src/Runs/Diff.antt =====
-- dockerls/application/services/run_diff.py: what changed between two saved runs, and why. A run is
-- the JSON object that the store read.
pub mod Laws
pub mod Whole
use docker_ls.Prelude.{
  ℕ, List, [], ◌∷◌, ◌++◌, map, filter, Bool, true, false, ◌&&◌, ◌||◌, not, is_empty, Option, none,
  some, if◌then◌else◌,
}
use docker_ls.Prelude.Text.{Text, codes, lower, strip, text_eq, upper}
use docker_ls.Prelude.Dict.{Dict, in_dict, set_item, get_item}
use docker_ls.Runs.Json.{
  Value, object, Fields, value_at, str_or_missing, str_or_empty, object_at, list_at, objects,
}

pub data Cause : Type 0 where
  image_changed scanner_database_changed image_and_database_changed : Cause
  unexplained no_change not_comparable : Cause

-- What a note says
pub data Note : Type 0 where
  nothing digest_unknown revision_unknown same_yet_different : Note
  different_scanners : Text → Text → Note

pub record RunFinding : Type 0 where
  pub cve_id : Text
  pub package_name : Text
  pub installed_version : Text
  pub severity : Text
  pub fixed_version : Text

pub record ImageDiff : Type 0 where
  pub reference : Text
  pub cause : Cause
  pub note : Note
  pub previous_digest : Text
  pub current_digest : Text
  pub previous_db_revision : Text
  pub current_db_revision : Text
  pub new : List RunFinding
  pub removed : List RunFinding

pub data RunNote : Type 0 where
  compared different_question nothing_in_both : RunNote

pub record RunDiff : Type 0 where
  pub previous_run_id : Text
  pub previous_created_at : Text
  pub compatible : Bool
  pub note : RunNote
  pub images : List ImageDiff

-- `_provenance`, less its default
pub record Provenance : Type 0 where
  pub db_revision : Text
  pub scanner : Text
  pub scanner_version : Text

unfoldable pub is_there : Option Value → Bool
is_there none = false
is_there (some v) = true

-- `_analyses`
unfoldable pub analyses : Fields → List Fields
unfolding value_at is_there list_at objects
analyses document = elim (value_at (codes "result") document) [
  | some (object result) ↦
      if is_there (value_at (codes "scan") result)
      then result ∷ []
      else objects (list_at (codes "recommendations") result)
        ++ objects (list_at (codes "alternatives") result)
  | _ ↦ []
]

-- `_cause`
abbrev pub cause_of : Bool → Bool → Bool → Cause
cause_of image db difference =
    if image && db
    then image_and_database_changed
    else if image
    then image_changed
    else if db
    then scanner_database_changed
    else if difference
    then unexplained
    else no_change

abbrev pub is_unexplained : Cause → Bool
is_unexplained unexplained = true
is_unexplained _ = false

module _ (printed : Value → Text) where
  -- `scope_of` of dockerls/infrastructure/run_store.py
  unfoldable pub scope_of : Fields → List Text
  scope_of document =
      str_or_missing printed (codes "command") document
      ∷ lower (str_or_missing printed (codes "query") document)
      ∷ str_or_missing printed (codes "platform") document
      ∷ str_or_missing printed (codes "filters") document
      ∷ []

  unfoldable pub finding_of : Fields → RunFinding
  finding_of v = record {
    cve_id = upper (strip (str_or_empty printed (codes "cve_id") v));
    package_name = lower (strip (str_or_empty printed (codes "package_name") v));
    installed_version = strip (str_or_empty printed (codes "installed_version") v);
    severity = str_or_empty printed (codes "severity") v;
    fixed_version = str_or_empty printed (codes "fixed_version") v;
  }

  -- `f"{cve_id}|{package}|{installed_version}"`
  unfoldable pub key_of : RunFinding → Text
  key_of f = f.cve_id ++ (b'|' ∷ (f.package_name ++ (b'|' ∷ f.installed_version)))

  unfoldable pub put_findings : Dict RunFinding → List Fields → Dict RunFinding
  put_findings found [] = found
  put_findings found (v ∷ vulns) =
      put_findings (set_item (key_of (finding_of v)) (finding_of v) found) vulns

  -- `_findings`
  unfoldable pub findings_of : Fields → Dict RunFinding
  unfolding put_findings object_at list_at objects
  findings_of analysis =
      put_findings []
        (objects (list_at (codes "vulnerabilities") (object_at (codes "scan") analysis)))

  -- `_reference`, `_digest`
  unfoldable pub reference_of : Fields → Text
  reference_of analysis =
      str_or_empty printed (codes "full_reference") (object_at (codes "image") analysis)

  unfoldable pub digest_of : Fields → Text
  digest_of analysis = str_or_empty printed (codes "digest") (object_at (codes "image") analysis)

  unfoldable pub provenance_of : Fields → Provenance
  provenance_of analysis =
      let prov = object_at (codes "provenance") analysis in
      record {
        db_revision = str_or_empty printed (codes "db_revision") prov;
        scanner = str_or_empty printed (codes "scanner") prov;
        scanner_version = str_or_empty printed (codes "scanner_version") prov;
      }

  -- The entry before anything of it is judged
  unfoldable pub opened : Text → Fields → Fields → ImageDiff
  opened reference old new = record {
    reference = reference;
    cause = not_comparable;
    note = nothing;
    previous_digest = digest_of old;
    current_digest = digest_of new;
    previous_db_revision = (provenance_of old).db_revision;
    current_db_revision = (provenance_of new).db_revision;
    new = [];
    removed = [];
  }

  -- The findings whose keys the other run has not
  unfoldable pub only_in : Dict RunFinding → Dict RunFinding → List RunFinding
  only_in found others = map (λ item. item.1) (filter (λ item. not (in_dict item.0 others)) found)

  -- The cause and the note of a pair that can be compared
  unfoldable pub judged : ImageDiff → Bool → Bool → Bool → ImageDiff
  judged entry image db_unknown db_changed =
      let difference = not (is_empty entry.new && is_empty entry.removed) in
      let cause = cause_of image (db_changed && not db_unknown) difference in
      if db_unknown && not image
      then record entry {
        cause = if difference then unexplained else cause;
        note = revision_unknown;
      }
      else if is_unexplained cause
      then record entry { cause = cause; note = same_yet_different }
      else record entry { cause = cause }

  -- One round of the loop in `diff_runs`, for an image that both runs have
  unfoldable pub compared_pair : Text → Fields → Fields → ImageDiff
  unfolding opened judged
  compared_pair reference old new =
      let entry = opened reference old new in
      let before = provenance_of old in
      let after = provenance_of new in
      if not (text_eq before.scanner after.scanner)
      then record entry { note = different_scanners before.scanner after.scanner }
      else if is_empty entry.previous_digest || is_empty entry.current_digest
      then record entry { note = digest_unknown }
      else let image = not (text_eq entry.previous_digest entry.current_digest) in
        let db_unknown = is_empty before.db_revision || is_empty after.db_revision in
        let db_changed =
          db_unknown
          || not (text_eq before.db_revision after.db_revision)
          || not (text_eq before.scanner_version after.scanner_version) in
        judged
          (record entry {
            new = only_in (findings_of new) (findings_of old);
            removed = only_in (findings_of old) (findings_of new);
          })
          image db_unknown db_changed

  -- `{_reference(a): a for a in _analyses(previous) if _reference(a)}`, from the items so far
  unfoldable pub by_reference : Dict Fields → List Fields → Dict Fields
  by_reference found [] = found
  by_reference found (a ∷ rest) =
      by_reference (if is_empty (reference_of a) then found else set_item (reference_of a) a found)
        rest

  unfoldable pub compared_all : Dict Fields → List Fields → List ImageDiff
  unfolding get_item compared_pair
  compared_all before [] = []
  compared_all before (a ∷ rest) =
      let later = compared_all before rest in
      elim (get_item (reference_of a) before) [
        | none ↦ later
        | some old ↦ compared_pair (reference_of a) old a ∷ later
      ]

  unfoldable pub same_scope : List Text → List Text → Bool
  same_scope [] [] = true
  same_scope (s ∷ ss) (t ∷ ts) = text_eq s t && same_scope ss ts
  same_scope _ _ = false

  -- `diff_runs`
  unfoldable pub diff_runs : Fields → Fields → RunDiff
  unfolding scope_of same_scope analyses by_reference compared_all
  diff_runs previous current =
      let images = compared_all (by_reference [] (analyses previous)) (analyses current) in
      let same = same_scope (scope_of previous) (scope_of current) in
      record {
        previous_run_id = str_or_missing printed (codes "run_id") previous;
        previous_created_at = str_or_missing printed (codes "created_at") previous;
        compatible = same;
        note =
            if same
            then (if is_empty images then nothing_in_both else compared)
            else different_question;
        images = if same then images else [];
      }
