-- ===== src/Examples/Inheritance.antt =====
-- The image of the examples against a base that has one of its two findings.
use docker_ls.Prelude.{◌≤◌, ◌≡◌, [], ◌∷◌, Bool, ◌&&◌, not, map, count, AllPairs}
use docker_ls.Prelude.Text.{contains}
use docker_ls.Evidence.Vulnerability.{finding_identity}
use docker_ls.Inheritance.{AttributedFinding, introduced, removed, same_origin, attribute}
use docker_ls.Inheritance.Origins.{is_at, bit, has_origin, attribute-count}
use docker_ls.Inheritance.Plan.{planned, critical_findings, plan, plan_lem}
use docker_ls.Examples.Data.{openssl, zlib}

attribute-count_example :
    count
      (is_at (finding_identity openssl) introduced)
      (attribute (openssl ∷ zlib ∷ []) (zlib ∷ []))
    ≡ bit (
        has_origin introduced
          (contains (map finding_identity (openssl ∷ zlib ∷ [])) (finding_identity openssl))
          (contains (map finding_identity (zlib ∷ [])) (finding_identity openssl)))
attribute-count_example =
    attribute-count (openssl ∷ zlib ∷ []) (zlib ∷ []) (finding_identity openssl) introduced

plan_lem_example :
    let findings = attribute (openssl ∷ zlib ∷ []) (zlib ∷ []) in
    ((p : AttributedFinding → Bool)
      → planned p (plan findings) ≡ count (λ f. p f && not (same_origin f.origin removed)) findings)
    × AllPairs (λ a b. critical_findings b ≤ critical_findings a) (plan findings)
plan_lem_example = plan_lem (attribute (openssl ∷ zlib ∷ []) (zlib ∷ []))
