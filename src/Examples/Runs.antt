-- ===== src/Examples/Runs.antt =====
-- Saved runs and their summaries.
use docker_ls.Prelude.{ℕ, ◌≡◌, refl, ◌↔◌, [], ◌∷◌, true, is_empty, some}
use docker_ls.Prelude.Text.{Text, codes}
use docker_ls.Runs.Json.{Value, text, array, object, nil, cons, Fields, end, field}
use docker_ls.Runs.Diff.{ImageDiff, image_changed, nothing, finding_of}
use docker_ls.Runs.Summary.{AnalysisResult, summarize_recommendation, items_of, is_complete}
use docker_ls.Runs.Ci.{status_of, pass}
use docker_ls.Runs.Ci.Laws.{status_of-pass}
use docker_ls.Verdict.Analysis.{ImageAnalysis, finalize_verdict}
use docker_ls.Verdict.Analysis.Laws.{Deployable}
use docker_ls.Examples.Data.{analysis_of, scan_of}

abbrev as_list : Value → Text
as_list v = codes "[...]"

-- An `analyze` of node:22 with that digest, database and finding
abbrev image_of : Text → Fields
image_of digest =
    field (codes "full_reference") (text (codes "node:22"))
      (field (codes "digest") (text digest) end)

abbrev finding : Text → Value
finding cve =
    object
      (field (codes "cve_id") (text cve) (field (codes "package_name") (text (codes "zlib")) end))

abbrev analysis : Text → Text → Text → Fields
analysis digest revision cve = field (codes "image") (object (image_of digest)) (
    field (codes "provenance")
      (object (
        field (codes "db_revision") (text revision)
          (field (codes "scanner") (text (codes "trivy")) end)))
      (field (codes "scan")
        (object (field (codes "vulnerabilities") (array (cons (finding cve) nil)) end)) end))

abbrev run_of : Fields → Fields
run_of a = field (codes "command") (text (codes "analyze")) (field (codes "result") (object a) end)

abbrev monday : Fields
monday = analysis (codes "sha256:aa") (codes "7") (codes "CVE-1")

abbrev tuesday : Fields
tuesday = analysis (codes "sha256:bb") [] (codes "CVE-2")

abbrev entry : ImageDiff
entry = record {
  reference = codes "node:22";
  cause = image_changed;
  note = nothing;
  previous_digest = codes "sha256:aa";
  current_digest = codes "sha256:bb";
  previous_db_revision = codes "7";
  current_db_revision = [];
  new =
      finding_of as_list (
        field (codes "cve_id") (text (codes "CVE-2"))
          (field (codes "package_name") (text (codes "zlib")) end))
      ∷ [];
  removed =
      finding_of as_list (
        field (codes "cve_id") (text (codes "CVE-1"))
          (field (codes "package_name") (text (codes "zlib")) end))
      ∷ [];
}

abbrev clean : ImageAnalysis
clean = analysis_of (scan_of [])

abbrev result : AnalysisResult
result = record {
  recommendations = finalize_verdict clean true ∷ [];
  alternatives = [];
  unverified = codes "NOT_FOUND" ∷ [];
  baseline_met = true;
  filters_note = [];
  completeness = codes "COMPLETE";
  pending_checks = [];
}

status_of-pass_example : (status_of (summarize_recommendation result (some 60)) 0 ≡ pass) ↔ (
    (is_complete result.completeness ≡ true)
    × (◌≡◌ {A = ℕ} 0 0)
    × (is_empty result.pending_checks ≡ true)
    × (result.baseline_met ≡ true)
    × Deployable clean)
status_of-pass_example = status_of-pass result clean true [] (some 60) 0 (unfold items_of in refl)
