-- ===== src/Dockerfile/Parsing/Laws.antt =====
-- What the reading of a whole file keeps of its directives.
use Prim.Native.Nat.{max}
use docker_ls.Prelude.{
  ℕ, ◌≡◌, refl, ◌∙◌, List, [], ◌∷◌, ◌++◌, Bool, true, false, ◌&&◌, ◌||◌, not, is_empty, any, filter,
  length, arith,
}
use docker_ls.Prelude.Text.{Text}
use docker_ls.Dockerfile.Info.{DockerfileInfo, AddCommand, BuildContext, is_valid}
use docker_ls.Dockerfile.Checks.{unverified_fetch, validate}
use docker_ls.Dockerfile.Score.Graded.{any-filter}
use docker_ls.Dockerfile.Score.Laws.{sound, validate_iff}
use docker_ls.Dockerfile.Parsing.Texts.{append_new, append_all_new, is_secret_name}
use docker_ls.Dockerfile.Parsing.Stages.{
  Stage, Walk, out_of_fuel, ended, found, with_final_user, with_final_base, resolve_final_stage,
}
use docker_ls.Dockerfile.Parsing.{
  Directive, from, run_line, add, env, label, user, healthcheck, entrypoint, cmd, arg, other,
  DockerfileParser, writes_secret, parse_run, parse_env, parse_arg, parse_from, parse_line,
  parse_lines, at_start, parse_dockerfile,
}

-- Whether a directive alone condemns the file
abbrev pub dangerous : Directive → Bool
dangerous (run_line r) = r.runs_sudo || r.pipes_remote_script || r.sets_setuid
dangerous (add a) = unverified_fetch a
dangerous (env names) = any is_secret_name names
dangerous (arg name value) = writes_secret name value
dangerous (from image alias) = false
dangerous (label pairs) = false
dangerous (user word) = false
dangerous healthcheck = false
dangerous (entrypoint t) = false
dangerous (cmd t) = false
dangerous other = false

abbrev condemned : DockerfileInfo → Bool
condemned i =
    not (is_empty i.secret_env_vars)
    || not (is_empty i.secret_build_args)
    || i.uses_sudo
    || any unverified_fetch i.add_commands
    || i.pipes_remote_script_to_shell
    || i.sets_setuid_bit

is_empty-append_new : (t : Text) (ts : List Text) → is_empty (append_new t ts) ≡ false
unfolding append_new
is_empty-append_new t [] = refl
is_empty-append_new t (u ∷ ts) = ground arith

is_empty-append_all_new :
    (new ts : List Text) → is_empty (append_all_new new ts) ≡ (is_empty new && is_empty ts)
unfolding append_all_new
is_empty-append_all_new [] ts = refl
is_empty-append_all_new (t ∷ new) ts =
    ground (arith, is_empty-append_all_new new (append_new t ts), is_empty-append_new t ts)

any_unverified-append :
    (xs ys : List AddCommand)
    → any unverified_fetch (xs ++ ys) ≡ (any unverified_fetch xs || any unverified_fetch ys)
any_unverified-append [] ys = refl
any_unverified-append (x ∷ xs) ys = ground (arith, any_unverified-append xs ys)

-- One directive condemns the file, or it leaves the verdict as it was.
condemned-parse_line :
    (line : ℕ) (d : Directive) (p : DockerfileParser)
    → condemned (parse_line line d p).info ≡ (condemned p.info || dangerous d)
unfolding parse_line parse_run parse_env parse_arg parse_from
condemned-parse_line line (from image alias) p = ground arith
condemned-parse_line line (run_line r) p = ground arith
condemned-parse_line line (add a) p =
    ground (arith, any_unverified-append p.info.add_commands (a ∷ []))
condemned-parse_line line (env names) p = ground (
  arith,
  is_empty-append_all_new (filter is_secret_name names) p.info.secret_env_vars,
  any-filter is_secret_name names,
)
condemned-parse_line line (label pairs) p = ground arith
condemned-parse_line line (user word) p = ground arith
condemned-parse_line line healthcheck p = ground arith
condemned-parse_line line (entrypoint t) p = ground arith
condemned-parse_line line (cmd t) p = ground arith
condemned-parse_line line (arg name value) p =
    ground (arith, is_empty-append_new name p.info.secret_build_args)
condemned-parse_line line other p = ground arith

abbrev endangers : ℕ × Directive → Bool
endangers d = dangerous d.1

condemned-parse_lines :
    (directives : List (ℕ × Directive)) (p : DockerfileParser)
    → condemned (parse_lines directives p).info ≡ (condemned p.info || any endangers directives)
unfolding parse_lines
condemned-parse_lines [] p = ground arith
condemned-parse_lines ((line, d) ∷ directives) p =
    ground
      (arith, condemned-parse_lines directives (parse_line line d p), condemned-parse_line line d p)

condemned-with_final_user :
    (w : Walk) (i : DockerfileInfo) → condemned (with_final_user w i) ≡ condemned i
condemned-with_final_user out_of_fuel i = refl
condemned-with_final_user ended i = refl
condemned-with_final_user (found s) i = refl

condemned-with_final_base :
    (w : Walk) (i : DockerfileInfo) → condemned (with_final_base w i) ≡ condemned i
condemned-with_final_base out_of_fuel i = refl
condemned-with_final_base ended i = refl
condemned-with_final_base (found s) i = refl

condemned-resolve_final_stage :
    (stages : List Stage) (i : DockerfileInfo)
    → condemned (resolve_final_stage stages i) ≡ condemned i
unfolding resolve_final_stage
condemned-resolve_final_stage stages i =
    condemned-with_final_base _ (with_final_user _ i) ∙ condemned-with_final_user _ i

condemned-parse_dockerfile :
    (directives : List (ℕ × Directive))
    → condemned (parse_dockerfile directives) ≡ any endangers directives
unfolding parse_dockerfile
condemned-parse_dockerfile directives =
    let p = parse_lines directives at_start in
    condemned-resolve_final_stage p.stages (record p.info { stages = max 1 (length p.stages) })
    ∙ condemned-parse_lines directives at_start

not-sound : (i : DockerfileInfo) → condemned i ≡ true → sound i ≡ false
not-sound i e = ground arith

-- A file with a dangerous directive anywhere is not valid, whatever the other directives are: a `RUN`
-- with sudo, a remote script piped to a shell or a setuid bit, an `ADD` that fetches without a
-- checksum, an `ENV` with a secret name, or an `ARG` that gives one a value.
pub parse_dockerfile-dangerous :
    (c : BuildContext) (directives : List (ℕ × Directive))
    → any endangers directives ≡ true
    → is_valid (validate c (parse_dockerfile directives)) ≡ false
parse_dockerfile-dangerous c directives e =
    validate_iff c (parse_dockerfile directives)
    ∙ not-sound (parse_dockerfile directives) (condemned-parse_dockerfile directives ∙ e)

-- A secret in `ENV` is recorded with its name.
abbrev Consistent : DockerfileInfo → Type 0
Consistent i = i.has_secrets_in_env ≡ not (is_empty i.secret_env_vars)

Consistent-parse_line :
    (line : ℕ) (d : Directive) (p : DockerfileParser)
    → Consistent p.info
    → Consistent (parse_line line d p).info
unfolding parse_line parse_run parse_env parse_arg parse_from
Consistent-parse_line line (from image alias) p h = h
Consistent-parse_line line (run_line r) p h = h
Consistent-parse_line line (add a) p h = h
Consistent-parse_line line (env names) p h =
    ground (arith, is_empty-append_all_new (filter is_secret_name names) p.info.secret_env_vars, h)
Consistent-parse_line line (label pairs) p h = h
Consistent-parse_line line (user word) p h = h
Consistent-parse_line line healthcheck p h = h
Consistent-parse_line line (entrypoint t) p h = h
Consistent-parse_line line (cmd t) p h = h
Consistent-parse_line line (arg name value) p h = h
Consistent-parse_line line other p h = h

Consistent-parse_lines :
    (directives : List (ℕ × Directive)) (p : DockerfileParser)
    → Consistent p.info
    → Consistent (parse_lines directives p).info
unfolding parse_lines
Consistent-parse_lines [] p h = h
Consistent-parse_lines ((line, d) ∷ directives) p h =
    Consistent-parse_lines directives (parse_line line d p) (Consistent-parse_line line d p h)

Consistent-with_final_user :
    (w : Walk) (i : DockerfileInfo) → Consistent i → Consistent (with_final_user w i)
Consistent-with_final_user out_of_fuel i h = h
Consistent-with_final_user ended i h = h
Consistent-with_final_user (found s) i h = h

Consistent-with_final_base :
    (w : Walk) (i : DockerfileInfo) → Consistent i → Consistent (with_final_base w i)
Consistent-with_final_base out_of_fuel i h = h
Consistent-with_final_base ended i h = h
Consistent-with_final_base (found s) i h = h

pub Consistent-parse_dockerfile :
    (directives : List (ℕ × Directive)) → Consistent (parse_dockerfile directives)
unfolding parse_dockerfile resolve_final_stage
Consistent-parse_dockerfile directives =
    let p = parse_lines directives at_start in
    Consistent-with_final_base _ _ (
      Consistent-with_final_user _ (record p.info { stages = max 1 (length p.stages) })
        (Consistent-parse_lines directives at_start refl))
