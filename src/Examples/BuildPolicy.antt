-- ===== src/Examples/BuildPolicy.antt =====
-- The profile of production with the policy of a repository.
use docker_ls.Prelude.{◌≡◌, inl, ℕ, refl, [], ◌∷◌, true, false, ◌&&◌, Option, none, some, is_empty}
use docker_ls.Prelude.Text.{codes, text_eq, lower, strip}
use docker_ls.Evidence.Tristate.{Tristate}
use docker_ls.Evidence.Vulnerability.{Severity, high}
use docker_ls.BuildPolicy.{BuildPolicy, production, combined, merged_with}
use docker_ls.Gate.Types.{ok, threshold_of}
use docker_ls.Gate.Parse.{parse_set, parse_all, parse, parse_text, join}
use docker_ls.Gate.Merge.{merge_gates, merge_sides, with_strictest, collect}
use docker_ls.BuildPolicy.Rules.{BaseFact, PolicyFacts, registry_refused, evaluate_policy}
use docker_ls.BuildPolicy.Merging.{registry_loosened}
use docker_ls.BuildPolicy.Exact.{evaluate_policy_exact}

abbrev few_high : Severity → Option ℕ
few_high high = some 5
few_high s = none

abbrev declared : BuildPolicy
declared = record production {
  max_vulnerabilities = few_high;
  required_labels = codes "security.contact" ∷ [];
  allowed_base_registries = codes "ghcr.io" ∷ [];
}

abbrev hub_base : BaseFact
hub_base = record { reference = codes "python:3.13"; registry = []; pinned = true }

abbrev built : PolicyFacts
built = record {
  scan_ran = true;
  severity_counts = λ s. 2;
  bases = hub_base ∷ [];
  labels = λ label. codes "team";
  nonroot = Tristate.true;
  provenance_status = codes "VERIFIED";
}

-- What the gates of production and of the repository merge into is `critical` again.
abbrev both : BuildPolicy
both = combined production declared (codes "critical")

gates_merged : merge_gates (codes "critical") (codes "critical") ≡ ok (codes "critical")
unfolding merge_gates strip merge_sides parse_set parse_all parse parse_text lower threshold_of join
    with_strictest collect
gates_merged = refl

both_merged : merged_with production declared ≡ ok both
unfolding merged_with
both_merged = rw gates_merged refl

evaluate_policy_exact_example :
    is_empty (evaluate_policy both built)
    ≡ (is_empty (evaluate_policy production built) && is_empty (evaluate_policy declared built))
evaluate_policy_exact_example =
    evaluate_policy_exact production declared both built (inl refl) both_merged

abbrev on_hub : BuildPolicy
on_hub = record production { allowed_base_registries = codes "docker.io" ∷ [] }

abbrev looser : BuildPolicy
looser = combined declared on_hub (codes "critical")

looser_merged : merged_with declared on_hub ≡ ok looser
unfolding merged_with
looser_merged = rw gates_merged refl

registry_loosened_example : registry_refused looser.allowed_base_registries hub_base ≡ false
unfolding text_eq lower
registry_loosened_example =
    registry_loosened declared on_hub looser hub_base looser_merged refl refl
