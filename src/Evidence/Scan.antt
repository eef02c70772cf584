-- ===== src/Evidence/Scan.antt =====
-- dockerls/domain/entities/scan_result.py: a scanner's result and its counts.
use docker_ls.Prelude.{ℕ, List, Bool, true, false, ◌&&◌, is_empty, not, count, length}
use docker_ls.Prelude.Text.{Text}
use docker_ls.Evidence.Vulnerability.{Vulnerability, Severity, critical, high, medium, low}
use docker_ls.Evidence.Vulnerability.{same_severity, is_fixable}

pub data ScanStatus : Type 0 where
  ok error timeout partial : ScanStatus

pub data ScanErrorKind : Type 0 where
  none db_init_failed timeout auth_required not_found rate_limited : ScanErrorKind
  invalid_output scanner_missing blocked_by_policy platform_unavailable : ScanErrorKind
  deadline_exceeded unknown : ScanErrorKind

-- `ScanErrorKind.is_scanner_fault`
unfoldable pub is_scanner_fault : ScanErrorKind → Bool
is_scanner_fault db_init_failed = true
is_scanner_fault ScanErrorKind.timeout = true
is_scanner_fault rate_limited = true
is_scanner_fault invalid_output = true
is_scanner_fault scanner_missing = true
is_scanner_fault unknown = true
is_scanner_fault _ = false

pub record ScanResult : Type 0 where
  pub vulnerabilities : List Vulnerability
  pub scan_timestamp : Text
  pub status : ScanStatus
  pub error_kind : ScanErrorKind

abbrev pub is_ok : ScanStatus → Bool
is_ok ok = true
is_ok _ = false

abbrev pub is_partial : ScanStatus → Bool
is_partial partial = true
is_partial _ = false

-- `ScanResult.is_verified`
unfoldable pub is_verified : ScanResult → Bool
is_verified s = is_ok s.status && not (is_empty s.scan_timestamp)

abbrev pub has_severity : Severity → Vulnerability → Bool
has_severity level v = same_severity v.severity level

unfoldable pub critical_count : ScanResult → ℕ
critical_count s = count (has_severity critical) s.vulnerabilities

unfoldable pub high_count : ScanResult → ℕ
high_count s = count (has_severity high) s.vulnerabilities

unfoldable pub medium_count : ScanResult → ℕ
medium_count s = count (has_severity medium) s.vulnerabilities

unfoldable pub low_count : ScanResult → ℕ
low_count s = count (has_severity low) s.vulnerabilities

unfoldable pub total_count : ScanResult → ℕ
total_count s = length s.vulnerabilities

unfoldable pub fixable_count : ScanResult → ℕ
fixable_count s = count is_fixable s.vulnerabilities

unfoldable pub fixable_high_count : ScanResult → ℕ
fixable_high_count s = count (λ v. has_severity high v && is_fixable v) s.vulnerabilities

unfoldable pub fixable_critical_count : ScanResult → ℕ
fixable_critical_count s = count (λ v. has_severity critical v && is_fixable v) s.vulnerabilities
