-- ===== src/Dockerfile/Suggestions/Laws.antt =====
-- Which rules that a Dockerfile breaks a suggestion answers.
use docker_ls.Prelude.{ℕ, ◌≡◌, List, false, ◌&&◌, ◌||◌, not, is_empty, any, when, arith}
use docker_ls.Dockerfile.Info.{DockerfileInfo}
use docker_ls.Dockerfile.Checks.{
  or_blank, is_root_user, is_minimal_base, check_base_image, check_non_root_user,
  check_secrets_in_env,
}
use docker_ls.Dockerfile.Score.Graded.{
  fails, Graded-check_base_image, Graded-check_non_root_user, Graded-check_secrets_in_env,
}
use docker_ls.Dockerfile.Parsing.{Directive, parse_dockerfile}
use docker_ls.Dockerfile.Parsing.Laws.{Consistent-parse_dockerfile}
use docker_ls.Dockerfile.Suggestions.{
  upgrade_base_image, add_non_root_user, remove_secrets_from_env, suggest_hardening, suggests,
}

module _ (i : DockerfileInfo) where
  suggests-upgrade_base_image :
      suggests upgrade_base_image (suggest_hardening i)
      ≡ (i.uses_latest_tag || not (is_minimal_base i))
  unfolding suggest_hardening when
  suggests-upgrade_base_image = ground arith

  suggests-add_non_root_user :
      suggests add_non_root_user (suggest_hardening i) ≡ not i.has_user_directive
  unfolding suggest_hardening when
  suggests-add_non_root_user = ground arith

  suggests-remove_secrets_from_env :
      suggests remove_secrets_from_env (suggest_hardening i) ≡ i.has_secrets_in_env
  unfolding suggest_hardening when
  suggests-remove_secrets_from_env = ground arith

unanswered :
    (i : DockerfileInfo)
    → i.has_secrets_in_env ≡ not (is_empty i.secret_env_vars)
    → let rules = suggest_hardening i in
      ((any fails (check_base_image i) && not (suggests upgrade_base_image rules)) ≡ false)
      × ((any fails (check_non_root_user i) && not (suggests add_non_root_user rules))
          ≡ (i.has_user_directive && (is_empty (or_blank i.user_name) || is_root_user i)))
      × ((any fails (check_secrets_in_env i) && not (suggests remove_secrets_from_env rules))
          ≡ (is_empty i.secret_env_vars && not (is_empty i.secret_build_args)))
unanswered i h = (
  ground (arith, (Graded-check_base_image i).0, suggests-upgrade_base_image i),
  ground (arith, (Graded-check_non_root_user i).0, suggests-add_non_root_user i),
  ground (arith, (Graded-check_secrets_in_env i).0, suggests-remove_secrets_from_env i, h),
)

-- For every Dockerfile that is read, a base that moves is always answered by a suggestion. A user that
-- is root, or blank, is left without one exactly where a `USER` names it, and secrets are exactly
-- where no `ENV` but some `ARG` writes them.
pub unanswered_lem :
    (directives : List (ℕ × Directive))
    → let i = parse_dockerfile directives in
      let rules = suggest_hardening i in
      ((any fails (check_base_image i) && not (suggests upgrade_base_image rules)) ≡ false)
      × ((any fails (check_non_root_user i) && not (suggests add_non_root_user rules))
          ≡ (i.has_user_directive && (is_empty (or_blank i.user_name) || is_root_user i)))
      × ((any fails (check_secrets_in_env i) && not (suggests remove_secrets_from_env rules))
          ≡ (is_empty i.secret_env_vars && not (is_empty i.secret_build_args)))
unanswered_lem directives =
    unanswered (parse_dockerfile directives) (Consistent-parse_dockerfile directives)
