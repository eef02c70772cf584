-- ===== src/Examples/Gate.antt =====
-- Gates on concrete texts and findings.
use docker_ls.Prelude.{◌≡◌, ◌↔◌, refl, List, [], none, some, Option}
use docker_ls.Prelude.Text.{codes, strip, lower}
use docker_ls.Evidence.Tristate.{Tristate}
use docker_ls.Gate.Types.{Decimal, Finding, Gate, threshold_of, ok, high, medium}
use docker_ls.Gate.Parse.{parse, parse_set, parse_all, parse_text, epss_match, join}
use docker_ls.Gate.Evaluate.{Counts, evaluate_set}
use docker_ls.Gate.Merge.{merge_gates, merge_sides, with_strictest, collect}
use docker_ls.Gate.Merge.Exact.{merge_gates_exact}

-- 0.5
abbrev half : Decimal
half = record { mantissa = 5; scale = 1 }

abbrev openssl : Finding
openssl = record {
  cve_id = codes "CVE-2024-0001";
  severity = codes "HIGH";
  kev = Tristate.unknown;
  epss = some (record { mantissa = 42; scale = 2 });
}

abbrev zlib : Finding
zlib = record {
  cve_id = codes "CVE-2024-0002";
  severity = codes "MEDIUM";
  kev = Tristate.false;
  epss = none;
}

-- One HIGH and one MEDIUM finding in the whole scan
abbrev counts : Counts
counts high = 1
counts medium = 1
counts _ = 0

merge_gates_exact_example :
    (gs more ms : List Gate) × (parse_set (strip (codes "kev,high")) ≡ ok gs)
    × (parse_set (strip (codes "medium,epss>=0.5")) ≡ ok more)
    × (parse_set (codes "medium,kev,epss>=0.5") ≡ ok ms)
    × ((findings : List Finding) (counts : Option Counts)
        → (evaluate_set ms findings counts ≡ [])
          ↔ ((evaluate_set gs findings counts ≡ []) × (evaluate_set more findings counts ≡ [])))
unfolding merge_gates strip merge_sides parse_set parse_all parse parse_text lower threshold_of
    epss_match join with_strictest collect
merge_gates_exact_example =
    merge_gates_exact (codes "kev,high") (codes "medium,epss>=0.5") (codes "medium,kev,epss>=0.5")
      refl refl refl
