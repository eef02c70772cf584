-- ===== src/Dockerfile/Score/Graded.antt =====
-- Where each check fails, and what it costs where it does not.
use docker_ls.Prelude.{
  ℕ, ◌≡◌, refl, ◌+◌, ◌≤◌, List, [], ◌∷◌, ◌++◌, Bool, true, false, ◌&&◌, ◌||◌, not, is_empty, any,
  filter, arith,
}
use docker_ls.Dockerfile.Info.{
  ValidationStatus, pass, warn, fail, skip, ValidationCheck, DockerfileInfo, BuildContext,
  DockerIgnore, absent, unreadable, content,
}
use docker_ls.Dockerfile.Checks.{
  or_blank, is_root_user, check_base_image, check_non_root_user, check_multi_stage,
  check_secrets_in_env, check_package_cache, check_healthcheck, check_security_labels,
  check_minimal_base, check_no_sudo, check_entrypoint_form, check_shell_usage, judged_dockerignore,
  check_dockerignore, unverified_fetch, check_add_vs_copy, check_remote_script_execution,
  check_setuid, check_pinned_package_versions, check_multi_arch_awareness,
}
use docker_ls.Dockerfile.Score.{deductions}

abbrev pub is_fail : ValidationStatus → Bool
is_fail fail = true
is_fail pass = false
is_fail warn = false
is_fail skip = false

abbrev pub fails : ValidationCheck → Bool
fails check = is_fail check.status

-- The checks fail exactly under the test, and cost at most `k` where none fails.
abbrev pub Graded : Bool → ℕ → List ValidationCheck → Type 0
Graded refused k checks =
    (any fails checks ≡ refused) × (any fails checks ≡ false → deductions checks ≤ k)

pub any-append :
    (xs ys : List ValidationCheck) → any fails (xs ++ ys) ≡ (any fails xs || any fails ys)
any-append [] ys = refl
any-append (x ∷ xs) ys = ground (arith, any-append xs ys)

pub deductions-append :
    (xs ys : List ValidationCheck) → deductions (xs ++ ys) ≡ deductions xs + deductions ys
unfolding deductions
deductions-append [] ys = ground arith
deductions-append (x ∷ xs) ys = ground (arith, deductions-append xs ys)

pub Graded-append :
    {b d : Bool} {k l : ℕ} (xs ys : List ValidationCheck)
    → Graded b k xs
    → Graded d l ys
    → Graded (b || d) (k + l) (xs ++ ys)
Graded-append xs ys (e, f) (g, h) = (
  ground (arith, any-append xs ys, e, g),
  λ none_fails. ground (arith, any-append xs ys, deductions-append xs ys, f, h, none_fails),
)

pub any-filter {ℓ} :
    {A : Type ℓ} (p : A → Bool) (xs : List A) → any p xs ≡ not (is_empty (filter p xs))
any-filter p [] = refl
any-filter p (x ∷ xs) = ground (arith, any-filter p xs)

module _ (i : DockerfileInfo) where
  pub Graded-check_base_image : Graded (i.uses_latest_tag) 0 (check_base_image i)
  unfolding deductions check_base_image
  Graded-check_base_image = (ground arith, λ e. ground arith)

  pub Graded-check_non_root_user :
      Graded
        (not
          (i.has_user_directive && not (is_empty (or_blank i.user_name)) && not (is_root_user i)))
        0
        (check_non_root_user i)
  unfolding deductions check_non_root_user
  Graded-check_non_root_user = (ground arith, λ e. ground arith)

  pub Graded-check_multi_stage : Graded (false) 4 (check_multi_stage i)
  unfolding deductions check_multi_stage
  Graded-check_multi_stage = (ground arith, λ e. ground arith)

  pub Graded-check_secrets_in_env :
      Graded
        (not (is_empty i.secret_env_vars) || not (is_empty i.secret_build_args))
        0
        (check_secrets_in_env i)
  unfolding deductions check_secrets_in_env
  Graded-check_secrets_in_env = (ground arith, λ e. ground arith)

  pub Graded-check_package_cache : Graded (false) 4 (check_package_cache i)
  unfolding deductions check_package_cache
  Graded-check_package_cache = (ground arith, λ e. ground arith)

  pub Graded-check_healthcheck : Graded (false) 1 (check_healthcheck i)
  unfolding deductions check_healthcheck
  Graded-check_healthcheck = (ground arith, λ e. ground arith)

  pub Graded-check_security_labels : Graded (false) 1 (check_security_labels i)
  unfolding deductions check_security_labels
  Graded-check_security_labels = (ground arith, λ e. ground arith)

  pub Graded-check_minimal_base : Graded (false) 4 (check_minimal_base i)
  unfolding deductions check_minimal_base
  Graded-check_minimal_base = (ground arith, λ e. ground arith)

  pub Graded-check_no_sudo : Graded (i.uses_sudo) 0 (check_no_sudo i)
  unfolding deductions check_no_sudo
  Graded-check_no_sudo = (ground arith, λ e. ground arith)

  pub Graded-check_entrypoint_form : Graded (false) 4 (check_entrypoint_form i)
  unfolding deductions check_entrypoint_form
  Graded-check_entrypoint_form = (ground arith, λ e. ground arith)

  pub Graded-check_shell_usage : Graded (false) 4 (check_shell_usage i)
  unfolding deductions check_shell_usage
  Graded-check_shell_usage = (ground arith, λ e. ground arith)

  pub Graded-check_add_vs_copy :
      Graded (any unverified_fetch i.add_commands) 4 (check_add_vs_copy i)
  unfolding deductions check_add_vs_copy
  Graded-check_add_vs_copy =
      let k = any-filter unverified_fetch i.add_commands in
      (ground (arith, k), λ e. ground (arith, k, e))

  pub Graded-check_remote_script_execution :
      Graded (i.pipes_remote_script_to_shell) 0 (check_remote_script_execution i)
  unfolding deductions check_remote_script_execution
  Graded-check_remote_script_execution = (ground arith, λ e. ground arith)

  pub Graded-check_setuid : Graded (i.sets_setuid_bit) 0 (check_setuid i)
  unfolding deductions check_setuid
  Graded-check_setuid = (ground arith, λ e. ground arith)

  pub Graded-check_multi_arch_awareness : Graded (false) 1 (check_multi_arch_awareness i)
  unfolding deductions check_multi_arch_awareness
  Graded-check_multi_arch_awareness = (ground arith, λ e. ground arith)

pub Graded-judged_dockerignore : (d : DockerIgnore) → Graded false 1 (judged_dockerignore d)
unfolding deductions
Graded-judged_dockerignore absent = (refl, λ e. ground arith)
Graded-judged_dockerignore unreadable = (refl, λ e. ground arith)
Graded-judged_dockerignore (content t) = (ground arith, λ e. ground arith)

pub Graded-check_dockerignore : (d : BuildContext) → Graded false 1 (check_dockerignore d)
unfolding check_dockerignore
Graded-check_dockerignore d = Graded-judged_dockerignore d.dockerignore

pub Graded-check_pinned_package_versions :
    (d : BuildContext) (i : DockerfileInfo) → Graded false 4 (check_pinned_package_versions d i)
unfolding deductions check_pinned_package_versions
Graded-check_pinned_package_versions d i = (ground arith, λ e. ground arith)
