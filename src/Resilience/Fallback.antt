-- ===== src/Resilience/Fallback.antt =====
-- `FallbackScanner` of dockerls/application/services/fallback_scanner.py. The two scanners are not
-- modelled: what they answer enters with each scan. Scans follow each other: scans that overlap are
-- not modelled.
pub mod Laws
use Prim.Native.Nat.{ℕ, ◌+◌}
use docker_ls.Prelude.{List, [], ◌∷◌, Bool, true, false, ◌||◌, ◌&&◌, not, if◌then◌else◌}
use docker_ls.Evidence.Scan.{ScanResult, is_verified, is_scanner_fault}

-- The fields that a scan changes; `refreshes` counts the calls of `_refresh` for the secondary.
pub record FallbackScanner : Type 0 where
  pub fallback_attempts : ℕ
  pub fallback_successes : ℕ
  pub secondary_ready : Bool
  pub refreshes : ℕ

abbrev pub new_fallback_scanner : FallbackScanner
new_fallback_scanner = record {
  fallback_attempts = 0;
  fallback_successes = 0;
  secondary_ready = false;
  refreshes = 0;
}

-- What the scanners would answer in one scan
pub record Answers : Type 0 where
  pub primary : ScanResult
  pub secondary_available : Bool
  pub secondary : ScanResult

-- `_ensure_secondary_ready`, whose lock makes it one step; a refresh that fails is only
-- logged, and one that raises an exception is not modelled.
unfoldable pub ensure_secondary_ready : FallbackScanner → FallbackScanner
ensure_secondary_ready s =
    if s.secondary_ready
    then s
    else record s { secondary_ready = true; refreshes = s.refreshes + 1 }

abbrev attempted : FallbackScanner → FallbackScanner
attempted s = record s { fallback_attempts = s.fallback_attempts + 1 }

abbrev recovered : FallbackScanner → FallbackScanner
recovered s = record s { fallback_successes = s.fallback_successes + 1 }

-- `scan`
unfoldable pub fallback_scan : Answers → FallbackScanner → ScanResult × FallbackScanner
fallback_scan a s =
    if is_verified a.primary || not (is_scanner_fault a.primary.error_kind)
    then (a.primary, s)
    else if not a.secondary_available
    then (a.primary, attempted s)
    else if not (is_verified a.secondary)
    then (a.primary, ensure_secondary_ready (attempted s))
    else (a.secondary, recovered (ensure_secondary_ready (attempted s)))

-- The scanner after some scans, the latest first
unfoldable pub after_scans : List Answers → FallbackScanner → FallbackScanner
after_scans [] s = s
after_scans (a ∷ earlier) s = (fallback_scan a (after_scans earlier s)).1
