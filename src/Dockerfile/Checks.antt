-- ===== src/Dockerfile/Checks.antt =====
-- `DockerfileValidator`: the checks on what was read of a Dockerfile. Each gives the checks that it
-- adds, in order.
use docker_ls.Prelude.{
  ℕ, List, [], ◌∷◌, ◌++◌, Bool, false, ◌&&◌, ◌||◌, not, is_empty, any, all, filter, Option, none,
  some, if◌then◌else◌, ltb, ◌==◌,
}
use docker_ls.Prelude.Text.{Text, codes, lower, occurs_in, starts_with, strip, text_eq}
use docker_ls.Prelude.Dict.{in_dict}
use docker_ls.Dockerfile.Info.{
  ValidationStatus, pass, warn, fail, skip, SeverityLevel, critical, high, medium, low, info,
  CheckName, base_image_pinned, non_root_user, multi_stage_build, secrets_not_in_env,
  buildkit_secret_mount_used, package_cache_clean, healthcheck_present, security_labels,
  minimal_base, no_sudo, entrypoint_exec_form, shell_usage, dockerignore_complete,
  dockerignore_exists, add_not_used_for_copy, no_unverified_remote_script, no_setuid_binaries_added,
  package_versions_pinned, multi_arch_build_declared, multi_arch_pinned_packages, ValidationCheck,
  DockerfileValidationResult, no_checks, add_check, AddCommand, DockerfileInfo, BuildContext,
  DockerIgnore, absent, unreadable, content,
}

abbrev one : CheckName → ValidationStatus → SeverityLevel → List ValidationCheck
one check status severity =
    record { check = check; status = status; severity = severity; line = none } ∷ []

abbrev at_line : CheckName → ValidationStatus → SeverityLevel → Option ℕ → List ValidationCheck
at_line check status severity line =
    record { check = check; status = status; severity = severity; line = line } ∷ []

-- `_check_base_image`
unfoldable pub check_base_image : DockerfileInfo → List ValidationCheck
check_base_image i =
    if i.uses_latest_tag then one base_image_pinned fail high else one base_image_pinned pass info

abbrev pub or_blank : Option Text → Text
or_blank none = []
or_blank (some t) = t

abbrev pub is_zero : Option ℕ → Bool
is_zero none = false
is_zero (some n) = n == 0

-- `_is_root_user`
unfoldable pub is_root_user : DockerfileInfo → Bool
is_root_user i =
    let name = lower (strip (or_blank i.user_name)) in
    text_eq name (codes "root") || text_eq name (codes "0") || is_zero i.user_uid

-- `_check_non_root_user`
unfoldable pub check_non_root_user : DockerfileInfo → List ValidationCheck
unfolding is_root_user
check_non_root_user i =
    if i.has_user_directive && not (is_empty (or_blank i.user_name)) && not (is_root_user i)
    then one non_root_user pass info
    else one non_root_user fail high

-- `_check_multi_stage`
unfoldable pub check_multi_stage : DockerfileInfo → List ValidationCheck
check_multi_stage i =
    if ltb 1 i.stages then one multi_stage_build pass info else one multi_stage_build warn medium

-- `_check_secrets_in_env`
unfoldable pub check_secrets_in_env : DockerfileInfo → List ValidationCheck
check_secrets_in_env i =
    (if not (is_empty i.secret_env_vars) || not (is_empty i.secret_build_args)
      then one secrets_not_in_env fail critical
      else one secrets_not_in_env pass info)
    ++ (if i.uses_secret_mount then one buildkit_secret_mount_used pass info else [])

-- `_check_package_cache`
unfoldable pub check_package_cache : DockerfileInfo → List ValidationCheck
check_package_cache i =
    if not (is_empty i.package_managers_used)
    then (if i.cache_cleaned
        then one package_cache_clean pass info
        else one package_cache_clean warn medium)
    else []

-- `_check_healthcheck`
unfoldable pub check_healthcheck : DockerfileInfo → List ValidationCheck
check_healthcheck i =
    if i.has_healthcheck
    then one healthcheck_present pass info
    else one healthcheck_present warn low

-- `_check_security_labels`
unfoldable pub check_security_labels : DockerfileInfo → List ValidationCheck
check_security_labels i =
    if in_dict (codes "security.scanner") i.labels && in_dict (codes "maintainer") i.labels
    then one security_labels pass info
    else one security_labels warn low

abbrev pub last_or_blank : List Text → Text
last_or_blank [] = []
last_or_blank (t ∷ []) = t
last_or_blank (t ∷ u ∷ ts) = last_or_blank (u ∷ ts)

abbrev pub minimal_markers : List Text
minimal_markers =
    codes "alpine" ∷ codes "distroless" ∷ codes "slim" ∷ codes "chainguard" ∷ codes "wolfi" ∷ []

-- `info.final_base_image or …`
abbrev pub final_base : DockerfileInfo → Text
final_base i =
    if is_empty (or_blank i.final_base_image)
    then last_or_blank i.base_images
    else or_blank i.final_base_image

-- `_is_minimal_base`
unfoldable pub is_minimal_base : DockerfileInfo → Bool
is_minimal_base i = any (λ marker. occurs_in marker (lower (final_base i))) minimal_markers

-- `_check_minimal_base`
unfoldable pub check_minimal_base : DockerfileInfo → List ValidationCheck
unfolding is_minimal_base
check_minimal_base i =
    if is_minimal_base i then one minimal_base pass info else one minimal_base warn medium

-- `_check_no_sudo`
unfoldable pub check_no_sudo : DockerfileInfo → List ValidationCheck
check_no_sudo i = if i.uses_sudo then one no_sudo fail high else one no_sudo pass info

-- The form of an `ENTRYPOINT` or a `CMD`
abbrev form_of : CheckName → Option Text → List ValidationCheck
form_of check directive =
    if is_empty (or_blank directive)
    then one check skip info
    else if starts_with (or_blank directive) (codes "[")
    then one check pass info
    else one check warn medium

-- `_check_entrypoint_form`
unfoldable pub check_entrypoint_form : DockerfileInfo → List ValidationCheck
check_entrypoint_form i = form_of entrypoint_exec_form i.entrypoint

-- `_check_shell_usage`
unfoldable pub check_shell_usage : DockerfileInfo → List ValidationCheck
check_shell_usage i = form_of shell_usage i.cmd

abbrev pub recommended_entries : List Text
recommended_entries =
    codes ".git" ∷ codes ".env" ∷ codes "node_modules" ∷ codes "__pycache__" ∷ codes "*.log" ∷ []

-- What a `.dockerignore` shows
abbrev pub judged_dockerignore : DockerIgnore → List ValidationCheck
judged_dockerignore absent = one dockerignore_exists warn low
judged_dockerignore unreadable = one dockerignore_complete skip info
judged_dockerignore (content t) =
    if all (λ item. occurs_in item (lower t)) recommended_entries
    then one dockerignore_complete pass info
    else one dockerignore_complete warn low

-- `_check_dockerignore`
unfoldable pub check_dockerignore : BuildContext → List ValidationCheck
check_dockerignore c = judged_dockerignore c.dockerignore

abbrev pub unverified_fetch : AddCommand → Bool
unverified_fetch a = not (is_empty a.remote) && not a.checksummed

abbrev pub unpacks : AddCommand → Bool
unpacks a = not (is_empty a.archives)

abbrev pub first_line : List AddCommand → Option ℕ
first_line [] = none
first_line (a ∷ commands) = some a.line

-- `_check_add_vs_copy`
unfoldable pub check_add_vs_copy : DockerfileInfo → List ValidationCheck
check_add_vs_copy i =
    let remote = filter unverified_fetch i.add_commands in
    let archives = filter unpacks i.add_commands in
    if is_empty i.add_commands
    then one add_not_used_for_copy pass info
    else if not (is_empty remote)
    then at_line add_not_used_for_copy fail high (first_line remote)
    else if not (is_empty archives)
    then at_line add_not_used_for_copy warn medium (first_line archives)
    else at_line add_not_used_for_copy warn low (first_line i.add_commands)

abbrev pub head_or_none : List ℕ → Option ℕ
head_or_none [] = none
head_or_none (n ∷ ns) = some n

-- `_check_remote_script_execution`
unfoldable pub check_remote_script_execution : DockerfileInfo → List ValidationCheck
check_remote_script_execution i =
    if not i.pipes_remote_script_to_shell
    then one no_unverified_remote_script pass info
    else at_line no_unverified_remote_script fail high (head_or_none i.remote_script_lines)

-- `_check_setuid`
unfoldable pub check_setuid : DockerfileInfo → List ValidationCheck
check_setuid i =
    if not i.sets_setuid_bit
    then one no_setuid_binaries_added pass info
    else at_line no_setuid_binaries_added fail high (head_or_none i.setuid_lines)

abbrev pub runs_npm : Text → Bool
runs_npm command =
    occurs_in (codes "npm install") (lower command)
    || occurs_in (codes "npm ci") (lower command)
    || occurs_in (codes "npm add") (lower command)

-- `npm_used`
unfoldable pub npm_used : DockerfileInfo → Bool
npm_used i =
    any (λ p. text_eq p.manager (codes "npm")) i.unpinned_packages || any runs_npm i.run_commands

-- `_check_pinned_package_versions`
unfoldable pub check_pinned_package_versions : BuildContext → DockerfileInfo → List ValidationCheck
unfolding npm_used
check_pinned_package_versions c i =
    if is_empty i.unpinned_packages && not (npm_used i && not c.has_lockfile)
    then one package_versions_pinned pass info
    else one package_versions_pinned warn medium

-- `_check_multi_arch_awareness`
unfoldable pub check_multi_arch_awareness : DockerfileInfo → List ValidationCheck
check_multi_arch_awareness i =
    if not i.declares_multi_arch
    then []
    else one multi_arch_build_declared pass info
      ++ (if is_empty i.unpinned_packages then [] else one multi_arch_pinned_packages warn low)

-- The checks of `validate`, in its order
unfoldable pub all_checks : BuildContext → DockerfileInfo → List ValidationCheck
all_checks c i =
    check_base_image i
    ++ (check_non_root_user i
        ++ (check_multi_stage i
            ++ (check_secrets_in_env i
                ++ (check_package_cache i
                    ++ (check_healthcheck i
                        ++ (check_security_labels i
                            ++ (check_minimal_base i
                                ++ (check_no_sudo i
                                    ++ (check_entrypoint_form i
                                        ++ (check_shell_usage i
                                            ++ (check_dockerignore c
                                                ++ (check_add_vs_copy i
                                                    ++ (check_remote_script_execution i
                                                        ++ (check_setuid i
                                                            ++ (check_pinned_package_versions c i
                                                            ++ check_multi_arch_awareness
                                                            i)))))))))))))))

unfoldable pub add_all :
    List ValidationCheck → DockerfileValidationResult → DockerfileValidationResult
unfolding add_check
add_all [] r = r
add_all (c ∷ checks) r = add_all checks (add_check c r)

-- `validate`, behind the reading of the file
unfoldable pub validate : BuildContext → DockerfileInfo → DockerfileValidationResult
unfolding add_all all_checks
validate c i = add_all (all_checks c i) no_checks
