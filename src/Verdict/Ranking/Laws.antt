-- ===== src/Verdict/Ranking/Laws.antt =====
-- The ranking as a policy.
use docker_ls.Prelude.{
  ◌≤◌, ◌≡◌, ◌⊎◌, List, Bool, true, AllPairs, count, filter, arith, leb, AllPairs-weaken,
}
use docker_ls.Verdict.Confidence.{confidence_rank}
use docker_ls.Verdict.Analysis.{ImageAnalysis}
use docker_ls.Verdict.Ranking.{reportable_score, ranks_at_least, rank}
use docker_ls.Verdict.Ranking.Sorting.{
  first_then, sort_by, first_then_trans, first_then_total, count-sort_by, AllPairs-sort_by,
  filter-sort_by,
}

-- The tails of the comparison, from the fourth term, the third and the second.
abbrev by_surface : ImageAnalysis → ImageAnalysis → Bool
by_surface a b =
    first_then (reportable_score a.attack_surface) (reportable_score b.attack_surface)
      (leb b.remediation_score a.remediation_score)

abbrev by_hardening : ImageAnalysis → ImageAnalysis → Bool
by_hardening a b =
    first_then (reportable_score b.hardening) (reportable_score a.hardening) (by_surface a b)

abbrev by_score : ImageAnalysis → ImageAnalysis → Bool
by_score a b = first_then b.security_score a.security_score (by_hardening a b)

module _ (a b c : ImageAnalysis) where
  by_surface_trans : by_surface a b ≡ true → by_surface b c ≡ true → by_surface a c ≡ true
  by_surface_trans p q =
      first_then_trans (reportable_score a.attack_surface) (reportable_score b.attack_surface)
        (reportable_score c.attack_surface) (leb b.remediation_score a.remediation_score)
        (leb c.remediation_score b.remediation_score) (leb c.remediation_score a.remediation_score)
        (λ r s. ground arith) p q

  by_hardening_trans : by_hardening a b ≡ true → by_hardening b c ≡ true → by_hardening a c ≡ true
  by_hardening_trans p q =
      first_then_trans (reportable_score c.hardening) (reportable_score b.hardening)
        (reportable_score a.hardening) (by_surface b c) (by_surface a b) (by_surface a c)
        (λ r s. by_surface_trans s r) q p

  by_score_trans : by_score a b ≡ true → by_score b c ≡ true → by_score a c ≡ true
  by_score_trans p q =
      first_then_trans c.security_score b.security_score a.security_score (by_hardening b c)
        (by_hardening a b) (by_hardening a c) (λ r s. by_hardening_trans s r) q p

  ranks_at_least_trans :
      ranks_at_least a b ≡ true → ranks_at_least b c ≡ true → ranks_at_least a c ≡ true
  unfolding ranks_at_least
  ranks_at_least_trans p q =
      first_then_trans (confidence_rank c.confidence) (confidence_rank b.confidence)
        (confidence_rank a.confidence) (by_score b c) (by_score a b) (by_score a c)
        (λ r s. by_score_trans s r) q p

ranks_at_least_total :
    (a b : ImageAnalysis) → (ranks_at_least a b ≡ true) ⊎ (ranks_at_least b a ≡ true)
unfolding ranks_at_least
ranks_at_least_total a b =
    first_then_total (confidence_rank b.confidence) (confidence_rank a.confidence) (by_score a b)
      (by_score b a)
      (first_then_total b.security_score a.security_score (by_hardening a b) (by_hardening b a) (
        first_then_total (reportable_score b.hardening) (reportable_score a.hardening)
          (by_surface a b) (by_surface b a) (ground arith)))

-- What it means to stand in front of another candidate: no lower confidence; at equal confidence no
-- lower security score; and only where both are equal do hardening, then attack surface (less is
-- better), then remediation decide.
abbrev pub Precedes : ImageAnalysis → ImageAnalysis → Type 0
Precedes a b =
    (confidence_rank b.confidence ≤ confidence_rank a.confidence)
    × (confidence_rank b.confidence ≡ confidence_rank a.confidence
        → (b.security_score ≤ a.security_score)
          × (b.security_score ≡ a.security_score
              → (reportable_score b.hardening ≤ reportable_score a.hardening)
                × (reportable_score b.hardening ≡ reportable_score a.hardening
                    → (reportable_score a.attack_surface ≤ reportable_score b.attack_surface)
                      × (reportable_score a.attack_surface ≡ reportable_score b.attack_surface
                          → b.remediation_score ≤ a.remediation_score))))

Precedes-of_rank : (a b : ImageAnalysis) → ranks_at_least a b ≡ true → Precedes a b
unfolding ranks_at_least
Precedes-of_rank a b h =
    (ground arith, λ c. (ground arith, λ s. (ground arith, λ d. (ground arith, λ e. ground arith))))

-- In a ranking every candidate precedes all that follow it, and each is there as often as before.
pub rank_sorted :
    (analyses : List ImageAnalysis)
    → AllPairs Precedes (rank analyses)
      × ((p : ImageAnalysis → Bool) → count p (rank analyses) ≡ count p analyses)
unfolding rank
rank_sorted analyses = (
  AllPairs-weaken _ _ Precedes-of_rank (sort_by ranks_at_least analyses)
      (AllPairs-sort_by ranks_at_least ranks_at_least_total ranks_at_least_trans analyses),
  λ p. count-sort_by ranks_at_least p analyses,
)

-- Candidates that rank alike stay in the order in which they were given.
rank_stable :
    (p : ImageAnalysis → Bool) (analyses : List ImageAnalysis)
    → ((a b : ImageAnalysis) → p a ≡ true → p b ≡ true → ranks_at_least a b ≡ true)
    → filter p (rank analyses) ≡ filter p analyses
unfolding rank
rank_stable p analyses alike = filter-sort_by ranks_at_least p analyses alike
