-- ===== src/Dockerfile/Parsing.antt =====
-- `DockerfileParser`, behind its regular expressions: a directive keeps the groups of its match.
pub mod Texts
pub mod Stages
pub mod Laws
use Prim.Native.Nat.{max}
use docker_ls.Prelude.{
  ℕ, ◌+◌, ◌*◌, ◌-◌, List, [], ◌∷◌, ◌++◌, Bool, true, false, ◌&&◌, ◌||◌, not, is_empty, any, all,
  filter, length, Option, none, some, if◌then◌else◌, ltb, leb, ◌==◌, when,
}
use docker_ls.Prelude.Text.{
  Text, codes, contains, is_space, lower, occurs_in, starts_with, strip, text_eq,
}
use docker_ls.Prelude.Dict.{Dict, set_item}
use docker_ls.Dockerfile.Info.{AddCommand, UnpinnedPackage, DockerfileInfo, no_info}
use docker_ls.Dockerfile.Checks.{or_blank}
use docker_ls.Dockerfile.Parsing.Texts.{
  from_reference, is_scratch, is_moving_reference, is_secret_name, append_new, append_all_new,
  user_of,
}
use docker_ls.Dockerfile.Parsing.Stages.{Stage, resolve_final_stage}

-- A `RUN`: its command, and what the regular expressions find in it
pub record RunCommand : Type 0 where
  pub command : Text
  pub runs_sudo : Bool
  pub managers : List Text
  pub pipes_remote_script : Bool
  pub sets_setuid : Bool
  pub mounts_secret : Bool
  pub unpinned : List UnpinnedPackage

pub data Directive : Type 0 where
  from : Text → Option Text → Directive
  run_line : RunCommand → Directive
  add : AddCommand → Directive
  env : List Text → Directive
  label : Dict Text → Directive
  user : Text → Directive
  healthcheck : Directive
  entrypoint cmd : Text → Directive
  arg : Text → Option Text → Directive
  other : Directive

-- `DockerfileParser`: what it has read so far
pub record DockerfileParser : Type 0 where
  pub info : DockerfileInfo
  pub stages : List Stage

-- `self._stages[-1]`
abbrev pub on_last : (Stage → Stage) → List Stage → List Stage
on_last f [] = []
on_last f (s ∷ []) = f s ∷ []
on_last f (s ∷ r ∷ stages) = s ∷ on_last f (r ∷ stages)

abbrev pub has_alias : Text → Option Text → Bool
has_alias reference none = false
has_alias reference (some alias) = not (is_empty alias) && text_eq (lower alias) (lower reference)

-- Whether a `FROM` moves the base of the image
unfoldable pub moves_base : Text → List Stage → Bool
unfolding from_reference is_scratch is_moving_reference
moves_base image stages =
    not (any (λ s. has_alias (from_reference image) s.alias) stages)
    && not (is_scratch image)
    && is_moving_reference (from_reference image)

-- The texts of a `RUN` that clean a cache
abbrev pub cache_clean_patterns : List Text
cache_clean_patterns =
    codes "rm -rf /var/cache/apk/*"
    ∷ codes "rm -rf /var/cache/apt/archives"
    ∷ codes "apt-get clean"
    ∷ codes "rm -rf ~/.cache/pip"
    ∷ codes "npm cache clean"
    ∷ codes "--no-cache-dir"
    ∷ codes "--no-install-recommends"
    ∷ []

abbrev pub platform_arg_names : List Text
platform_arg_names =
    codes "targetplatform"
    ∷ codes "targetarch"
    ∷ codes "targetos"
    ∷ codes "targetvariant"
    ∷ codes "buildplatform"
    ∷ codes "buildarch"
    ∷ codes "buildos"
    ∷ []

abbrev pub set_all : Dict Text → Dict Text → Dict Text
set_all [] d = d
set_all ((k, v) ∷ pairs) d = set_all pairs (set_item k v d)

-- The `RUN` branch
unfoldable pub parse_run : ℕ → RunCommand → DockerfileInfo → DockerfileInfo
unfolding append_all_new
parse_run line r i = record i {
  run_commands = i.run_commands ++ (r.command ∷ []);
  uses_sudo = i.uses_sudo || r.runs_sudo;
  package_managers_used = append_all_new r.managers i.package_managers_used;
  pipes_remote_script_to_shell = i.pipes_remote_script_to_shell || r.pipes_remote_script;
  remote_script_lines = i.remote_script_lines ++ when r.pipes_remote_script line;
  sets_setuid_bit = i.sets_setuid_bit || r.sets_setuid;
  setuid_lines = i.setuid_lines ++ when r.sets_setuid line;
  uses_secret_mount = i.uses_secret_mount || r.mounts_secret;
  unpinned_packages = i.unpinned_packages ++ r.unpinned;
  cache_cleaned = i.cache_cleaned || any (λ p. occurs_in p r.command) cache_clean_patterns;
}

-- The `ENV` branch
unfoldable pub parse_env : List Text → DockerfileInfo → DockerfileInfo
unfolding append_all_new is_secret_name
parse_env names i =
    let secrets = filter is_secret_name names in
    record i {
      has_secrets_in_env = i.has_secrets_in_env || not (is_empty secrets);
      secret_env_vars = append_all_new secrets i.secret_env_vars;
    }

-- Whether an `ARG` writes a secret
abbrev pub writes_secret : Text → Option Text → Bool
writes_secret name value = not (is_empty (or_blank value)) && is_secret_name name

-- The `ARG` branch
unfoldable pub parse_arg : Text → Option Text → DockerfileInfo → DockerfileInfo
unfolding append_new is_secret_name
parse_arg name value i = record i {
  declares_multi_arch = i.declares_multi_arch || contains platform_arg_names (lower name);
  secret_build_args =
      if writes_secret name value then append_new name i.secret_build_args else i.secret_build_args;
}

-- The `FROM` branch
unfoldable pub parse_from : Text → Option Text → DockerfileParser → DockerfileParser
unfolding from_reference moves_base
parse_from image alias p = record {
  info = record p.info {
    declares_multi_arch = p.info.declares_multi_arch || occurs_in (codes "--platform=") image;
    base_images = p.info.base_images ++ (image ∷ []);
    uses_latest_tag = p.info.uses_latest_tag || moves_base image p.stages;
  };
  stages =
      p.stages
      ++ (record { base = from_reference image; alias = alias; user = none; uid = none } ∷ []);
}

-- The `USER` branch
unfoldable pub parse_user : Text → List Stage → List Stage
unfolding user_of
parse_user word stages =
    on_last (λ s. record s { user = some (user_of word).0; uid = (user_of word).1 }) stages

-- `_parse_line`
unfoldable pub parse_line : ℕ → Directive → DockerfileParser → DockerfileParser
unfolding parse_from parse_run parse_env parse_arg parse_user
parse_line line (from image alias) p = parse_from (strip image) alias p
parse_line line (run_line r) p = record p { info = parse_run line r p.info }
parse_line line (add a) p = record p {
  info = record p.info { add_commands = p.info.add_commands ++ (a ∷ []) };
}
parse_line line (env names) p = record p { info = parse_env names p.info }
parse_line line (label pairs) p = record p {
  info = record p.info {
    labels = set_all pairs p.info.labels;
    has_labels = p.info.has_labels || not (is_empty pairs);
  };
}
parse_line line (user word) p = record p { stages = parse_user word p.stages }
parse_line line healthcheck p = record p { info = record p.info { has_healthcheck = true } }
parse_line line (entrypoint t) p = record p { info = record p.info { entrypoint = some (strip t) } }
parse_line line (cmd t) p = record p { info = record p.info { cmd = some (strip t) } }
parse_line line (arg name value) p = record p { info = parse_arg name value p.info }
parse_line line other p = p

-- The directives with their lines, in the order of the file
unfoldable pub parse_lines : List (ℕ × Directive) → DockerfileParser → DockerfileParser
unfolding parse_line
parse_lines [] p = p
parse_lines ((line, d) ∷ directives) p = parse_lines directives (parse_line line d p)

abbrev pub at_start : DockerfileParser
at_start = record { info = no_info; stages = [] }

-- `parse`, behind the reading of the lines
unfoldable pub parse_dockerfile : List (ℕ × Directive) → DockerfileInfo
unfolding parse_lines resolve_final_stage
parse_dockerfile directives =
    let p = parse_lines directives at_start in
    resolve_final_stage p.stages (record p.info { stages = max 1 (length p.stages) })
