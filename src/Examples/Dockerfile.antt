-- ===== src/Examples/Dockerfile.antt =====
-- Two Dockerfiles: one whose final stage takes the user of its builder, and one that installs with
-- sudo and writes a token in an `ARG`.
use docker_ls.Prelude.{
  ℕ, ◌≡◌, refl, ◌↔◌, ◌≤◌, List, [], ◌∷◌, true, false, ◌&&◌, ◌||◌, not, is_empty, any, none, some,
}
use docker_ls.Prelude.Text.{occurs_in, text_eq, lower, strip, codes}
use docker_ls.Prelude.Dict.{set_item, get_item}
use docker_ls.Bases.Reference.{before_first, after_last, after_first}
use docker_ls.Identity.Reference.{split_repository_and_tag}
use docker_ls.Dockerfile.Info.{BuildContext, absent, is_valid}
use docker_ls.Dockerfile.Checks.{
  or_blank, is_root_user, check_base_image, check_non_root_user, check_secrets_in_env, validate,
}
use docker_ls.Dockerfile.Score.{analyze, c}
use docker_ls.Dockerfile.Score.Graded.{fails}
use docker_ls.Dockerfile.Score.Laws.{sound, analyze_lem}
use docker_ls.Dockerfile.Parsing.{
  RunCommand, Directive, from, run_line, user, arg, parse_from, parse_user, parse_line, parse_lines,
  at_start, parse_dockerfile,
}
use docker_ls.Dockerfile.Parsing.Laws.{parse_dockerfile-dangerous}
use docker_ls.Dockerfile.Parsing.Texts.{is_secret_name, user_of}
use docker_ls.Dockerfile.Parsing.Stages.{
  by_alias, Stage, resolve_final_stage, out_of_fuel, found, walk_user, fuel_for_stages,
}
use docker_ls.Dockerfile.Parsing.Stages.Laws.{InEffect, walk_user_lem}
use docker_ls.Dockerfile.Suggestions.{
  upgrade_base_image, add_non_root_user, remove_secrets_from_env, suggest_hardening, suggests,
}
use docker_ls.Dockerfile.Suggestions.Laws.{unanswered_lem}

abbrev no_context : BuildContext
no_context = record { dockerignore = absent; has_lockfile = false }

abbrev builder : List (ℕ × Directive)
builder =
    (1, from (codes "node:22") (some (codes "Builder")))
    ∷ (2, user (codes "app:1000"))
    ∷ (3, from (codes "builder") none)
    ∷ []

abbrev installs : RunCommand
installs = record {
  command = codes "sudo apt-get install curl";
  runs_sudo = true;
  managers = codes "apt" ∷ [];
  pipes_remote_script = false;
  sets_setuid = false;
  mounts_secret = false;
  unpinned = [];
}

abbrev careless : List (ℕ × Directive)
careless =
    (1, from (codes "debian") none)
    ∷ (2, arg (codes "NPM_TOKEN") (some (codes "abc")))
    ∷ (3, run_line installs)
    ∷ (4, user (codes "root"))
    ∷ []

abbrev stages_of_builder : List Stage
stages_of_builder = (parse_lines builder at_start).stages

analyze_lem_example :
    (is_valid (validate no_context (parse_dockerfile builder)) ≡ sound (parse_dockerfile builder))
    × (is_valid (validate no_context (parse_dockerfile builder)) ≡ true
        → 68 ≤ (analyze no_context (parse_dockerfile builder)).security_score)
    × (is_valid (validate no_context (parse_dockerfile builder)) ≡ false
        → (analyze no_context (parse_dockerfile builder)).security_tier ≡ c)
analyze_lem_example = analyze_lem no_context (parse_dockerfile builder)

parse_dockerfile-dangerous_example :
    is_valid (validate no_context (parse_dockerfile careless)) ≡ false
unfolding is_secret_name occurs_in lower
parse_dockerfile-dangerous_example = parse_dockerfile-dangerous no_context careless refl

walk_user_lem_example :
    (¬ walk_user stages_of_builder (fuel_for_stages stages_of_builder) [] (some 1) ≡ out_of_fuel)
    × ((t : Stage)
        → (walk_user stages_of_builder (fuel_for_stages stages_of_builder) [] (some 1) ≡ found t)
          ↔ InEffect stages_of_builder 1 t)
walk_user_lem_example = walk_user_lem stages_of_builder 1

unanswered_lem_example :
    let i = parse_dockerfile careless in
    let rules = suggest_hardening i in
    ((any fails (check_base_image i) && not (suggests upgrade_base_image rules)) ≡ false)
    × ((any fails (check_non_root_user i) && not (suggests add_non_root_user rules))
        ≡ (i.has_user_directive && (is_empty (or_blank i.user_name) || is_root_user i)))
    × ((any fails (check_secrets_in_env i) && not (suggests remove_secrets_from_env rules))
        ≡ (is_empty i.secret_env_vars && not (is_empty i.secret_build_args)))
unanswered_lem_example = unanswered_lem careless

builder_user : (parse_dockerfile builder).user_name ≡ some (codes "app")
unfolding parse_dockerfile parse_lines parse_line parse_from parse_user resolve_final_stage get_item
    by_alias set_item text_eq lower strip before_first
builder_user = refl

builder_base : (parse_dockerfile builder).final_base_image ≡ some (codes "node:22")
unfolding parse_dockerfile parse_lines parse_line parse_from parse_user resolve_final_stage get_item
    by_alias set_item text_eq lower strip
builder_base = refl

builder-sound : sound (parse_dockerfile builder) ≡ true
unfolding parse_dockerfile parse_lines parse_line parse_from parse_user resolve_final_stage get_item
    by_alias set_item text_eq lower strip occurs_in split_repository_and_tag after_last before_first
    is_root_user after_first
builder-sound = refl

-- The alias of a later stage hides the image of that name.
abbrev hidden : List (ℕ × Directive)
hidden =
    (1, from (codes "node") (some (codes "base")))
    ∷ (2, from (codes "scratch") (some (codes "node")))
    ∷ (3, user (codes "app"))
    ∷ (4, from (codes "base") none)
    ∷ []

hidden_user : (parse_dockerfile hidden).user_name ≡ some (codes "app")
unfolding parse_dockerfile parse_lines parse_line parse_from parse_user resolve_final_stage get_item
    by_alias set_item text_eq lower strip before_first
hidden_user = refl

root_by_zeros : user_of (codes "00") ≡ (codes "00", none)
unfolding user_of before_first after_first
root_by_zeros = refl

group_as_uid : user_of (codes "app:0") ≡ (codes "app", some 0)
unfolding user_of before_first after_first
group_as_uid = refl
