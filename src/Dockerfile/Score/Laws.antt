-- ===== src/Dockerfile/Score/Laws.antt =====
-- When a Dockerfile is valid, and what its score then is.
use mathlib.Core.List.{append_assoc, append-nil}
use docker_ls.Prelude.{
  ℕ, ◌≡◌, refl, sym, ap, ◌∙◌, ◌≤◌, List, [], ◌∷◌, ◌++◌, Bool, true, false, ◌&&◌, not, is_empty, any,
  arith,
}
use docker_ls.Dockerfile.Info.{
  ValidationStatus, pass, warn, fail, skip, ValidationCheck, DockerfileValidationResult, tallied,
  no_checks, add_check, is_valid, DockerfileInfo, BuildContext,
}
use docker_ls.Dockerfile.Checks.{
  or_blank, is_root_user, check_base_image, check_non_root_user, check_multi_stage,
  check_secrets_in_env, check_package_cache, check_healthcheck, check_security_labels,
  check_minimal_base, check_no_sudo, check_entrypoint_form, check_shell_usage, check_dockerignore,
  unverified_fetch, check_add_vs_copy, check_remote_script_execution, check_setuid,
  check_pinned_package_versions, all_checks, add_all, validate,
}
use docker_ls.Dockerfile.Score.{analyze, deductions, dockerfile_score, dockerfile_tier, c}
use docker_ls.Dockerfile.Score.Graded.{
  is_fail, fails, Graded, Graded-append, Graded-check_base_image, Graded-check_non_root_user,
  Graded-check_multi_stage, Graded-check_secrets_in_env, Graded-check_package_cache,
  Graded-check_healthcheck, Graded-check_security_labels, Graded-check_minimal_base,
  Graded-check_no_sudo, Graded-check_entrypoint_form, Graded-check_shell_usage,
  Graded-check_add_vs_copy, Graded-check_remote_script_execution, Graded-check_setuid,
  Graded-check_multi_arch_awareness, Graded-check_dockerignore,
  Graded-check_pinned_package_versions,
}

-- What every check that can fail asks for
abbrev pub sound : DockerfileInfo → Bool
sound i =
    not i.uses_latest_tag
    && (i.has_user_directive && not (is_empty (or_blank i.user_name)) && not (is_root_user i))
    && is_empty i.secret_env_vars
    && is_empty i.secret_build_args
    && not i.uses_sudo
    && not (any unverified_fetch i.add_commands)
    && not i.pipes_remote_script_to_shell
    && not i.sets_setuid_bit

module _ (d : BuildContext) (i : DockerfileInfo) where
  Graded-all_checks : Graded (not (sound i)) 32 (all_checks d i)
  unfolding all_checks
  Graded-all_checks =
      let (e, f) = Graded-append (check_base_image i) _ (Graded-check_base_image i) (
        Graded-append (check_non_root_user i) _ (Graded-check_non_root_user i) (
          Graded-append (check_multi_stage i) _ (Graded-check_multi_stage i) (
            Graded-append (check_secrets_in_env i) _ (Graded-check_secrets_in_env i) (
              Graded-append (check_package_cache i) _ (Graded-check_package_cache i) (
                Graded-append (check_healthcheck i) _ (Graded-check_healthcheck i) (
                  Graded-append (check_security_labels i) _ (Graded-check_security_labels i) (
                    Graded-append (check_minimal_base i) _ (Graded-check_minimal_base i) (
                      Graded-append (check_no_sudo i) _ (Graded-check_no_sudo i) (
                        Graded-append (check_entrypoint_form i) _ (Graded-check_entrypoint_form i) (
                          Graded-append (check_shell_usage i) _ (Graded-check_shell_usage i) (
                            Graded-append (check_dockerignore d) _ (Graded-check_dockerignore d) (
                              Graded-append (check_add_vs_copy i) _ (Graded-check_add_vs_copy i) (
                                Graded-append (check_remote_script_execution i) _
                                  (Graded-check_remote_script_execution i)
                                  (Graded-append (check_setuid i) _ (Graded-check_setuid i) (
                                    Graded-append (check_pinned_package_versions d i) _
                                      (Graded-check_pinned_package_versions d i)
                                      (Graded-check_multi_arch_awareness i)))))))))))))))) in
      (ground (arith, e), λ none_fails. ground (arith, f none_fails))

is_valid-tallied :
    (s : ValidationStatus) (r : DockerfileValidationResult)
    → is_valid (tallied s r) ≡ (is_valid r && not (is_fail s))
unfolding is_valid
is_valid-tallied pass r = ground arith
is_valid-tallied warn r = ground arith
is_valid-tallied fail r = ground arith
is_valid-tallied skip r = ground arith

checks-tallied :
    (s : ValidationStatus) (r : DockerfileValidationResult) → (tallied s r).checks ≡ r.checks
checks-tallied pass r = refl
checks-tallied warn r = refl
checks-tallied fail r = refl
checks-tallied skip r = refl

is_valid-add_check :
    (x : ValidationCheck) (r : DockerfileValidationResult)
    → is_valid (add_check x r) ≡ (is_valid r && not (fails x))
unfolding add_check is_valid
is_valid-add_check x r = is_valid-tallied x.status (record r { checks = r.checks ++ (x ∷ []) })

checks-add_check :
    (x : ValidationCheck) (r : DockerfileValidationResult)
    → (add_check x r).checks ≡ r.checks ++ (x ∷ [])
unfolding add_check
checks-add_check x r = checks-tallied x.status (record r { checks = r.checks ++ (x ∷ []) })

is_valid-add_all :
    (checks : List ValidationCheck) (r : DockerfileValidationResult)
    → is_valid (add_all checks r) ≡ (is_valid r && not (any fails checks))
unfolding add_all
is_valid-add_all [] r = ground arith
is_valid-add_all (x ∷ checks) r =
    ground (arith, is_valid-add_all checks (add_check x r), is_valid-add_check x r)

checks-add_all :
    (checks : List ValidationCheck) (r : DockerfileValidationResult)
    → (add_all checks r).checks ≡ r.checks ++ checks
unfolding add_all
checks-add_all [] r = sym (append-nil r.checks)
checks-add_all (x ∷ checks) r =
    checks-add_all checks (add_check x r)
    ∙ rw (checks-add_check x r) (append_assoc r.checks (x ∷ []) checks)

not-not : (b : Bool) → not (not b) ≡ b
not-not true = refl
not-not false = refl

pub validate_iff : (d : BuildContext) (i : DockerfileInfo) → is_valid (validate d i) ≡ sound i
unfolding validate is_valid
validate_iff d i =
    is_valid-add_all (all_checks d i) no_checks
    ∙ ap not ((Graded-all_checks d i).0)
    ∙ not-not (sound i)

checks-validate : (d : BuildContext) (i : DockerfileInfo) → (validate d i).checks ≡ all_checks d i
unfolding validate
checks-validate d i = checks-add_all (all_checks d i) no_checks

tier-invalid :
    (score : ℕ) (r : DockerfileValidationResult) → is_valid r ≡ false → dockerfile_tier score r ≡ c
unfolding is_valid dockerfile_tier
tier-invalid score r e = ground arith

-- A Dockerfile is valid exactly when no check that can fail does: no base that moves, a `USER` that is
-- neither blank nor root, no secret in `ENV` or `ARG`, no sudo, no unverified remote `ADD`, no remote
-- script piped to a shell and no setuid bit. What is valid scores at least 68, and what is not has the
-- tier C.
pub analyze_lem :
    (d : BuildContext) (i : DockerfileInfo)
    → (is_valid (validate d i) ≡ sound i)
      × (is_valid (validate d i) ≡ true → 68 ≤ (analyze d i).security_score)
      × (is_valid (validate d i) ≡ false → (analyze d i).security_tier ≡ c)
unfolding analyze dockerfile_score
analyze_lem d i = (
  validate_iff d i,
  λ e.
      (let few =
          (Graded-all_checks d i).1
            ((Graded-all_checks d i).0 ∙ ap not (sym (validate_iff d i) ∙ e)) in
        let k = ap deductions (checks-validate d i) in omega (arith, few, k)),
  λ e. tier-invalid (dockerfile_score (validate d i)) (validate d i) e,
)
