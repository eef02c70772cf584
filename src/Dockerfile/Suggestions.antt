-- ===== src/Dockerfile/Suggestions.antt =====
-- `suggest_hardening`: a suggestion keeps its title and its priority; its texts are left out.
pub mod Laws
use docker_ls.Prelude.{ℕ, ◌==◌, List, ◌++◌, Bool, ◌&&◌, ◌||◌, not, is_empty, any, when, ltb}
use docker_ls.Prelude.Text.{codes}
use docker_ls.Prelude.Dict.{in_dict}
use docker_ls.Dockerfile.Info.{SeverityLevel, critical, high, medium, low, DockerfileInfo}
use docker_ls.Dockerfile.Checks.{is_minimal_base}

-- The titles of the suggestions, in the order of the function
pub data Title : Type 0 where
  upgrade_base_image add_non_root_user remove_secrets_from_env add_healthcheck : Title
  add_security_labels clean_package_manager_cache use_multi_stage_build : Title

-- `HardeningRule`
pub record HardeningRule : Type 0 where
  pub priority : SeverityLevel
  pub title : Title

abbrev rule : SeverityLevel → Title → HardeningRule
rule priority title = record { priority = priority; title = title }

unfoldable pub suggest_hardening : DockerfileInfo → List HardeningRule
unfolding is_minimal_base
suggest_hardening i =
    when (i.uses_latest_tag || not (is_minimal_base i)) (rule high upgrade_base_image)
    ++ (when (not i.has_user_directive) (rule high add_non_root_user)
        ++ (when i.has_secrets_in_env (rule critical remove_secrets_from_env)
            ++ (when (not i.has_healthcheck) (rule low add_healthcheck)
                ++ (when (not i.has_labels || not (in_dict (codes "security.scanner") i.labels))
                      (rule low add_security_labels)
                    ++ (when (not (is_empty i.package_managers_used) && not i.cache_cleaned)
                          (rule medium clean_package_manager_cache)
                        ++ when (ltb i.stages 2 && not (is_empty i.package_managers_used))
                            (rule medium use_multi_stage_build))))))

abbrev place : Title → ℕ
place upgrade_base_image = 0
place add_non_root_user = 1
place remove_secrets_from_env = 2
place add_healthcheck = 3
place add_security_labels = 4
place clean_package_manager_cache = 5
place use_multi_stage_build = 6

-- Whether one of the suggestions has the title
abbrev pub suggests : Title → List HardeningRule → Bool
suggests t rules = any (λ r. place r.title == place t) rules
