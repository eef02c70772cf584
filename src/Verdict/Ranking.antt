-- ===== src/Verdict/Ranking.antt =====
-- `ranking_key` and `rank` of dockerls/application/services/verdict.py. Python's `sorted` is stable,
-- also with `reverse=True`: candidates with equal keys keep their order.
pub mod Sorting
pub mod Laws
use docker_ls.Prelude.{ℕ, List, Bool, ltb, leb, if◌then◌else◌}
use docker_ls.Verdict.Analysis.{ImageAnalysis, DimensionReport}
use docker_ls.Verdict.Confidence.{confidence_rank}
use Sorting.{sort_by, first_then}

-- The score of a dimension, or 0 where its coverage is too thin to report it.
abbrev pub reportable_score : DimensionReport → ℕ
reportable_score d = if d.reportable then d.score else 0

-- `ranking_key a >= ranking_key b`: the tuples are compared term by term. The fourth term is negated,
-- so that less attack surface ranks higher.
unfoldable pub ranks_at_least : ImageAnalysis → ImageAnalysis → Bool
ranks_at_least a b = first_then (confidence_rank b.confidence) (confidence_rank a.confidence) (
    first_then b.security_score a.security_score (
      first_then (reportable_score b.hardening) (reportable_score a.hardening) (
        first_then (reportable_score a.attack_surface) (reportable_score b.attack_surface)
          (leb b.remediation_score a.remediation_score))))

-- `rank`
unfoldable pub rank : List ImageAnalysis → List ImageAnalysis
rank analyses = sort_by ranks_at_least analyses
