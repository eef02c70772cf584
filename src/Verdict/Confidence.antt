-- ===== src/Verdict/Confidence.antt =====
-- dockerls/domain/value_objects/confidence.py. Coverage is in thousandths; a reason is named by a
-- constructor instead of its English text.
pub mod Laws
use docker_ls.Prelude.{ℕ, List, [], ◌∷◌, ◌++◌, Bool, true, false, ◌&&◌, Option, none, some}
use docker_ls.Prelude.{not, ltb, is_empty, when, if◌then◌else◌}

pub data Confidence : Type 0 where
  unverified low medium high : Confidence

-- `Confidence.is_recommendable`
abbrev pub is_recommendable : Confidence → Bool
is_recommendable unverified = false
is_recommendable _ = true

-- `confidence_rank`: the position in `CONFIDENCE_ORDER`.
abbrev pub confidence_rank : Confidence → ℕ
confidence_rank unverified = 0
confidence_rank low = 1
confidence_rank medium = 2
confidence_rank high = 3

pub record ConfidenceInputs : Type 0 where
  pub scan_verified : Bool
  pub cross_validated : Bool
  pub scanners_disagree : Bool
  pub scanners_differ_slightly : Bool
  pub digest_resolved : Bool
  pub registry_verified : Option Bool
  pub hardening_coverage : ℕ

pub data Reason : Type 0 where
  no_completed_scan tag_not_in_registry scanners_disagreed not_pinned : Reason
  one_scanner findings_differed no_digest thin_coverage : Reason
  scanned_and_pinned corroborated : Reason

-- 0.25
abbrev pub thin_coverage_limit : ℕ
thin_coverage_limit = 250

abbrev refuted : Option Bool → Bool
refuted (some false) = true
refuted _ = false

abbrev confirmed : Option Bool → Bool
confirmed (some true) = true
confirmed _ = false

gaps : ConfidenceInputs → List Reason
unfolding when
gaps i =
    when (not i.cross_validated) one_scanner
    ++ (when i.scanners_differ_slightly findings_differed
        ++ (when (not i.digest_resolved) no_digest
            ++ when (ltb i.hardening_coverage thin_coverage_limit) thin_coverage))

-- `ConfidenceAssessment._assess`: the level, and the reasons that it leaves in `_reasons`.
unfoldable pub assess : ConfidenceInputs → Confidence × List Reason
unfolding gaps when
assess i =
    if not i.scan_verified
    then (unverified, no_completed_scan ∷ [])
    else if refuted i.registry_verified
    then (low, tag_not_in_registry ∷ [])
    else if i.scanners_disagree
    then (low, scanners_disagreed ∷ [])
    else if not i.digest_resolved && not (confirmed i.registry_verified)
    then (low, not_pinned ∷ [])
    else if not (is_empty (gaps i))
    then (medium, gaps i)
    else (high, scanned_and_pinned ∷ when i.cross_validated corroborated)
