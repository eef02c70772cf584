-- ===== src/Runs/Diff/Laws.antt =====
-- What a cause says of the two runs that an image is compared in.
use docker_ls.Prelude.{
  ◌≡◌, refl, sym, List, [], ◌∷◌, Bool, true, false, ◌&&◌, ◌||◌, not, is_empty, arith, All,
  Bool-cases, inl, inr,
}
use docker_ls.Prelude.Text.{Text, codes, text_eq, text_eq_iff}
use docker_ls.Prelude.Dict.{Dict, in_dict, set_item}
use docker_ls.Runs.Json.{Value, Fields, object_at, list_at, objects}
use docker_ls.Runs.Diff.{
  Cause, image_changed, scanner_database_changed, image_and_database_changed, unexplained,
  no_change, not_comparable, RunFinding, ImageDiff, finding_of, key_of, put_findings, findings_of,
  reference_of, digest_of, provenance_of, opened, only_in, judged, compared_pair,
}

abbrev pub same_image : ImageDiff → Bool
same_image e = text_eq e.previous_digest e.current_digest

abbrev pub digests_known : ImageDiff → Bool
digests_known e = not (is_empty e.previous_digest || is_empty e.current_digest)

abbrev pub revisions_known : ImageDiff → Bool
revisions_known e = not (is_empty e.previous_db_revision || is_empty e.current_db_revision)

abbrev pub lists_nothing : ImageDiff → Bool
lists_nothing e = is_empty e.new && is_empty e.removed

-- What must hold of an entry with that cause; `database` says that the revision of the database or
-- the version of the scanner differs.
abbrev pub Says : Cause → Bool → ImageDiff → Type 0
Says image_changed database e = (digests_known e ≡ true) × (same_image e ≡ false)
Says scanner_database_changed database e =
    (digests_known e ≡ true)
    × (same_image e ≡ true)
    × (revisions_known e ≡ true)
    × (database ≡ true)
Says image_and_database_changed database e =
    (digests_known e ≡ true)
    × (same_image e ≡ false)
    × (revisions_known e ≡ true)
    × (database ≡ true)
Says unexplained database e =
    (digests_known e ≡ true)
    × (same_image e ≡ true)
    × ((revisions_known e && database) ≡ false)
    × (lists_nothing e ≡ false)
Says no_change database e =
    (digests_known e ≡ true)
    × (same_image e ≡ true)
    × ((revisions_known e && database) ≡ false)
    × (lists_nothing e ≡ true)
Says not_comparable database e = lists_nothing e ≡ true

module _ (printed : Value → Text) (e : ImageDiff) (known : digests_known e ≡ true) where
  judged_cases :
      (same revisions database nothing_listed : Bool)
      → same_image e ≡ same
      → revisions_known e ≡ revisions
      → lists_nothing e ≡ nothing_listed
      → let result = judged printed e (not same) (not revisions) (not revisions || database) in
        Says result.cause database result
  unfolding judged
  judged_cases true true true true s r l = (known, s, r, refl)
  judged_cases true true true false s r l = (known, s, r, refl)
  judged_cases true true false true s r l = rw l (known, s, rw r refl, l)
  judged_cases true true false false s r l = rw l (known, s, rw r refl, l)
  judged_cases true false true true s r l = rw l (known, s, rw r refl, l)
  judged_cases true false true false s r l = rw l (known, s, rw r refl, l)
  judged_cases true false false true s r l = rw l (known, s, rw r refl, l)
  judged_cases true false false false s r l = rw l (known, s, rw r refl, l)
  judged_cases false true true true s r l = (known, s, r, refl)
  judged_cases false true true false s r l = (known, s, r, refl)
  judged_cases false true false true s r l = (known, s)
  judged_cases false true false false s r l = (known, s)
  judged_cases false false true true s r l = (known, s)
  judged_cases false false true false s r l = (known, s)
  judged_cases false false false true s r l = (known, s)
  judged_cases false false false false s r l = (known, s)

  judged-Says :
      (database : Bool)
      → let unknown = not (revisions_known e) in
        let result = judged printed e (not (same_image e)) unknown (unknown || database) in
        Says result.cause database result
  judged-Says database =
      judged_cases (same_image e) (revisions_known e) database (lists_nothing e) refl refl refl

not-not : (b : Bool) → not (not b) ≡ b
not-not true = refl
not-not false = refl

or-negated : (b p q : Bool) → (b || p || q) ≡ (not (not b) || (p || q))
or-negated b p q = ground arith

-- The findings of an analysis stand under their keys.
module _ (printed : Value → Text) where
  abbrev Keyed : Dict RunFinding → Type 0
  Keyed found = All (λ item. item.0 ≡ key_of printed item.1) found

  set_item-Keyed :
      (f : RunFinding) (found : Dict RunFinding)
      → Keyed found
      → Keyed (set_item (key_of printed f) f found)
  unfolding set_item
  set_item-Keyed f [] h = (refl, tt)
  set_item-Keyed f ((k, w) ∷ found) (h, hs) = elim (Bool-cases (text_eq k (key_of printed f))) [
    | inl e ↦ rw e ((text_eq_iff k (key_of printed f)).0 e, hs)
    | inr e ↦ rw e (h, set_item-Keyed f found hs)
  ]

  put_findings-Keyed :
      (found : Dict RunFinding) (vulns : List Fields)
      → Keyed found
      → Keyed (put_findings printed found vulns)
  unfolding put_findings
  put_findings-Keyed found [] h = h
  put_findings-Keyed found (v ∷ vulns) h =
      put_findings-Keyed
        (set_item (key_of printed (finding_of printed v)) (finding_of printed v) found) vulns
        (set_item-Keyed (finding_of printed v) found h)

  findings_of-Keyed : (a : Fields) → Keyed (findings_of printed a)
  unfolding findings_of
  findings_of-Keyed a =
      put_findings-Keyed []
        (objects (list_at (codes "vulnerabilities") (object_at (codes "scan") a))) tt

  abbrev pub NotIn : Dict RunFinding → List RunFinding → Type 0
  NotIn others = All (λ f. in_dict (key_of printed f) others ≡ false)

  only_in-NotIn :
      (found others : Dict RunFinding) → Keyed found → NotIn others (only_in printed found others)
  unfolding only_in
  only_in-NotIn [] others h = tt
  only_in-NotIn ((k, f) ∷ found) others (h, hs) = elim (Bool-cases (in_dict k others)) [
    | inl e ↦ rw e (only_in-NotIn found others hs)
    | inr e ↦ rw e (rw (← h) e, only_in-NotIn found others hs)
  ]

  -- `database` of a pair: the revision or the version of the scanner differs.
  abbrev pub database_differs : Fields → Fields → Bool
  database_differs old new =
      not (text_eq (provenance_of printed old).db_revision (provenance_of printed new).db_revision)
      || not (
          text_eq (provenance_of printed old).scanner_version
            (provenance_of printed new).scanner_version)

  -- What is said of a pair, and what is listed of it
  pub record Compared (old new : Fields) (e : ImageDiff) : Type 0 where
    pub reference_same : e.reference ≡ reference_of printed new
    pub previous : e.previous_digest ≡ digest_of printed old
    pub current : e.current_digest ≡ digest_of printed new
    pub says : Says e.cause (database_differs old new) e
    pub new_only : NotIn (findings_of printed old) e.new
    pub removed_only : NotIn (findings_of printed new) e.removed

  judged_fields :
      (e : ImageDiff) (image unknown database : Bool)
      → let result = judged printed e image unknown database in
        (result.reference ≡ e.reference)
        × (result.previous_digest ≡ e.previous_digest)
        × (result.current_digest ≡ e.current_digest)
        × (result.new ≡ e.new)
        × (result.removed ≡ e.removed)
  unfolding judged
  judged_fields e image unknown database =
      (ground arith, ground arith, ground arith, ground arith, ground arith)

  module _ (old new : Fields) where
    abbrev entry : ImageDiff
    entry = record (opened printed (reference_of printed new) old new) {
      new = only_in printed (findings_of printed new) (findings_of printed old);
      removed = only_in printed (findings_of printed old) (findings_of printed new);
    }

    judged-Compared :
        digests_known entry ≡ true
        → Compared old new (
            judged printed entry
              (not (same_image entry))
              (not (revisions_known entry))
              (not (revisions_known entry) || database_differs old new))
    unfolding opened
    judged-Compared known =
        let (r, p, c, n, m) =
          judged_fields entry (not (same_image entry)) (not (revisions_known entry))
            (not (revisions_known entry) || database_differs old new) in
        record {
          reference_same = r;
          previous = p;
          current = c;
          says = judged-Says printed entry known (database_differs old new);
          new_only = rw n (
              only_in-NotIn (findings_of printed new) (findings_of printed old)
                (findings_of-Keyed new));
          removed_only = rw m (
              only_in-NotIn (findings_of printed old) (findings_of printed new)
                (findings_of-Keyed old));
        }

    judged-Compared_of :
        (unknown changed : Bool)
        → unknown ≡ not (revisions_known entry)
        → changed ≡ (not (revisions_known entry) || database_differs old new)
        → digests_known entry ≡ true
        → Compared old new (judged printed entry (not (same_image entry)) unknown changed)
    judged-Compared_of unknown changed u c known = rw (u, c) (judged-Compared known)

    abbrev revision_missing : Bool
    revision_missing =
        is_empty (provenance_of printed old).db_revision
        || is_empty (provenance_of printed new).db_revision

    abbrev revision_differs : Bool
    revision_differs =
        not
          (text_eq (provenance_of printed old).db_revision (provenance_of printed new).db_revision)

    abbrev version_differs : Bool
    version_differs = not (
        text_eq (provenance_of printed old).scanner_version
          (provenance_of printed new).scanner_version)

    abbrev same_scanner : Bool
    same_scanner = text_eq (provenance_of printed old).scanner (provenance_of printed new).scanner

    abbrev digest_missing : Bool
    digest_missing = is_empty (digest_of printed old) || is_empty (digest_of printed new)

    pub compared_pair-Compared :
        Compared old new (compared_pair printed (reference_of printed new) old new)
    unfolding compared_pair opened
    compared_pair-Compared = elim (Bool-cases same_scanner) [
      | inr e ↦ rw e (record {
        reference_same = refl;
        previous = refl;
        current = refl;
        says = refl;
        new_only = tt;
        removed_only = tt;
      })
      | inl e ↦ elim (Bool-cases digest_missing) [
        | inl f ↦
            rw (e, f)
              (record {
                reference_same = refl;
                previous = refl;
                current = refl;
                says = refl;
                new_only = tt;
                removed_only = tt;
              })
        | inr f ↦
            let known : digests_known entry ≡ true = unfold opened in rw f refl in
            rw (e, f)
              (judged-Compared_of revision_missing
                (revision_missing || revision_differs || version_differs)
                (sym (not-not revision_missing))
                (or-negated revision_missing revision_differs version_differs) known)
      ]
    ]
