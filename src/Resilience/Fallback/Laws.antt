-- ===== src/Resilience/Fallback/Laws.antt =====
-- Which result a fallback gives, and what it counts.
use docker_ls.Prelude.{
  ◌≡◌, refl, inl, inr, List, [], ◌∷◌, Bool, ◌||◌, ◌&&◌, not, if◌then◌else◌, count, any, arith,
  Bool-cases,
}
use docker_ls.Evidence.Scan.{is_verified, is_scanner_fault}
use docker_ls.Resilience.Fallback.{
  FallbackScanner, new_fallback_scanner, Answers, ensure_secondary_ready, fallback_scan,
  after_scans,
}

-- The primary scanner failed by a fault of its own.
abbrev pub faulty : Answers → Bool
faulty a = not (is_verified a.primary) && is_scanner_fault a.primary.error_kind

abbrev pub asks_secondary : Answers → Bool
asks_secondary a = faulty a && a.secondary_available

abbrev pub recovers : Answers → Bool
recovers a = asks_secondary a && is_verified a.secondary

-- A scan gives the secondary's result exactly where the primary failed by a fault of its own and
-- the secondary is available and measured the image; else it gives the primary's. So the result is
-- of a completed scan exactly where the primary completed or the secondary recovered it.
pub fallback_scan_lem :
    (a : Answers) (s : FallbackScanner)
    → ((fallback_scan a s).0 ≡ (if recovers a then a.secondary else a.primary))
      × (is_verified (fallback_scan a s).0 ≡ (is_verified a.primary || recovers a))
unfolding fallback_scan
fallback_scan_lem a s = elim (Bool-cases (is_verified a.primary)) [
  | inl e ↦ rw e (refl, e)
  | inr e ↦ rw e (elim (Bool-cases (is_scanner_fault a.primary.error_kind)) [
    | inr f ↦ rw f (refl, e)
    | inl f ↦ rw f (elim (Bool-cases a.secondary_available) [
      | inr g ↦ rw g (refl, e)
      | inl g ↦ rw g (elim (Bool-cases (is_verified a.secondary)) [
        | inl h ↦ rw h (refl, h)
        | inr h ↦ rw h (refl, e)
      ])
    ])
  ])
]

-- What a fallback counts
record Counted (scans : List Answers) (s : FallbackScanner) : Type 0 where
  attempts : s.fallback_attempts ≡ count faulty scans
  successes : s.fallback_successes ≡ count recovers scans
  ready : s.secondary_ready ≡ any asks_secondary scans
  refreshed : s.refreshes ≡ (if any asks_secondary scans then 1 else 0)

fallback_scan-Counted :
    (a : Answers) (scans : List Answers) (s : FallbackScanner)
    → Counted scans s
    → Counted (a ∷ scans) (fallback_scan a s).1
unfolding fallback_scan ensure_secondary_ready
fallback_scan-Counted a scans s c = record {
  attempts = ground (arith, c.attempts);
  successes = ground (arith, c.successes);
  ready = ground (arith, c.ready);
  refreshed = ground (arith, c.refreshed, c.ready);
}

after_scans-Counted :
    (scans : List Answers) → Counted scans (after_scans scans new_fallback_scanner)
unfolding after_scans
after_scans-Counted [] = record {
  attempts = refl;
  successes = refl;
  ready = refl;
  refreshed = refl;
}
after_scans-Counted (a ∷ earlier) =
    fallback_scan-Counted a earlier (after_scans earlier new_fallback_scanner)
      (after_scans-Counted earlier)

-- After any scans a new fallback has counted each fault of the primary as an attempt and each
-- recovered image as a success, and it has refreshed the database of the secondary once if a scan
-- came to ask it, and never otherwise.
pub after_scans_lem :
    (scans : List Answers)
    → let s = after_scans scans new_fallback_scanner in
      (s.fallback_attempts ≡ count faulty scans)
      × (s.fallback_successes ≡ count recovers scans)
      × (s.refreshes ≡ (if any asks_secondary scans then 1 else 0))
after_scans_lem scans = (attempts, successes, refreshed)
  where
    open (after_scans-Counted scans) use {attempts, successes, refreshed}
