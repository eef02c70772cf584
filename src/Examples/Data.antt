-- ===== src/Examples/Data.antt =====
-- An image, its scan and its analysis, as the examples use them.
use docker_ls.Prelude.{ℕ, ◌*◌, List, [], ◌∷◌, true, false, some}
use docker_ls.Prelude.Int.{pos}
use docker_ls.Prelude.Float.{finite}
use docker_ls.Prelude.Text.{codes}
use docker_ls.Evidence.Tristate.{Tristate}
use docker_ls.Evidence.Vulnerability.{Vulnerability, high, medium}
use docker_ls.Evidence.Scan.{ScanResult, ScanStatus, ScanErrorKind}
use docker_ls.Evidence.Image.{DockerImage}
use docker_ls.Scoring.Tier.{Tier}
use docker_ls.CrossValidation.{no_second_scanner}
use docker_ls.Verdict.Confidence.{unverified}
use docker_ls.Verdict.Analysis.{ImageAnalysis, DimensionReport}

-- A HIGH finding of EPSS 0.6, with a fix
abbrev pub openssl : Vulnerability
openssl = record {
  cve_id = codes "CVE-2024-0001";
  severity = high;
  package_type = codes "deb";
  target = codes "debian";
  package_name = codes "openssl";
  fixed_version = codes "3.0.14";
  exploit_known = false;
  kev_status = Tristate.false;
  epss_score = finite (pos 60000);
  epss_known = true;
}

-- A MEDIUM finding without a fix
abbrev pub zlib : Vulnerability
zlib = record openssl {
  cve_id = codes "CVE-2024-0002";
  severity = medium;
  package_name = codes "zlib";
  fixed_version = [];
  epss_score = finite (pos 1000);
}

abbrev pub scan_of : List Vulnerability → ScanResult
scan_of found = record {
  vulnerabilities = found;
  scan_timestamp = codes "2026-01-01T00:00:00Z";
  status = ScanStatus.ok;
  error_kind = ScanErrorKind.none;
}

abbrev pub noon : ℕ
noon = 10 * 86400000000

-- `python:3.13-slim`, ten days old at noon
abbrev pub python_slim : DockerImage
python_slim = record {
  name = codes "python";
  tag = codes "3.13-slim";
  digest = codes "sha256:aa";
  last_updated = some 0;
  is_official = true;
  is_signed = false;
  full_reference = codes "python:3.13-slim";
  identity_status = codes "CONFIRMED";
  architecture = codes "amd64";
  os = codes "linux";
  platform = codes "linux/amd64";
}

abbrev pub report : DimensionReport
report = record { score = 800; coverage = 600; reportable = true }

abbrev pub analysis_of : ScanResult → ImageAnalysis
analysis_of s = record {
  image = python_slim;
  scan = s;
  security_score = 930;
  tier = Tier.a;
  remediation_score = 100;
  production_ready = false;
  readiness_blockers = [];
  eol_status = Tristate.false;
  scan_divergence = [];
  cross_validation = no_second_scanner;
  hub_tag_verified = some true;
  evidence_scanners = codes "trivy" ∷ [];
  hardening = report;
  attack_surface = report;
  confidence = unverified;
  confidence_reasons = [];
}
