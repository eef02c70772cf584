-- ===== src/Dockerfile/Info.antt =====
-- dockerls/domain/entities/dockerfile_analysis.py: what is read of a Dockerfile, and the result of
-- its validation. A check keeps its name, status, severity and line; its texts are left out.
use docker_ls.Prelude.{ℕ, ◌+◌, List, [], ◌∷◌, ◌++◌, Bool, false, Option, none, ◌==◌}
use docker_ls.Prelude.Text.{Text}
use docker_ls.Prelude.Dict.{Dict}

pub data ValidationStatus : Type 0 where
  pass warn fail skip : ValidationStatus

pub data SeverityLevel : Type 0 where
  critical high medium low info : SeverityLevel

pub data CheckName : Type 0 where
  base_image_pinned non_root_user multi_stage_build secrets_not_in_env : CheckName
  buildkit_secret_mount_used package_cache_clean healthcheck_present security_labels : CheckName
  minimal_base no_sudo entrypoint_exec_form shell_usage dockerignore_complete : CheckName
  dockerignore_exists add_not_used_for_copy no_unverified_remote_script : CheckName
  no_setuid_binaries_added package_versions_pinned multi_arch_build_declared : CheckName
  multi_arch_pinned_packages : CheckName

pub record ValidationCheck : Type 0 where
  pub check : CheckName
  pub status : ValidationStatus
  pub severity : SeverityLevel
  pub line : Option ℕ

pub record DockerfileValidationResult : Type 0 where
  pub passed : ℕ
  pub warnings : ℕ
  pub errors : ℕ
  pub skipped : ℕ
  pub checks : List ValidationCheck

abbrev pub no_checks : DockerfileValidationResult
no_checks = record { passed = 0; warnings = 0; errors = 0; skipped = 0; checks = [] }

-- `is_valid`
unfoldable pub is_valid : DockerfileValidationResult → Bool
is_valid r = r.errors == 0

-- `total_checks`
unfoldable pub total_checks : DockerfileValidationResult → ℕ
total_checks r = r.passed + r.warnings + r.errors + r.skipped

-- The counter that `add_check` raises
abbrev pub tallied : ValidationStatus → DockerfileValidationResult → DockerfileValidationResult
tallied pass r = record r { passed = r.passed + 1 }
tallied warn r = record r { warnings = r.warnings + 1 }
tallied fail r = record r { errors = r.errors + 1 }
tallied skip r = record r { skipped = r.skipped + 1 }

-- `add_check`
unfoldable pub add_check : ValidationCheck → DockerfileValidationResult → DockerfileValidationResult
add_check c r = tallied c.status (record r { checks = r.checks ++ (c ∷ []) })

-- An `ADD`: its line, and what of its sources is fetched or unpacked
pub record AddCommand : Type 0 where
  pub line : ℕ
  pub remote : List Text
  pub archives : List Text
  pub checksummed : Bool

pub record UnpinnedPackage : Type 0 where
  pub line : ℕ
  pub manager : Text
  pub package_name : Text

-- `DockerfileInfo`, the fields that a check or a suggestion reads
pub record DockerfileInfo : Type 0 where
  pub base_images : List Text
  pub stages : ℕ
  pub has_user_directive : Bool
  pub user_name : Option Text
  pub user_uid : Option ℕ
  pub final_base_image : Option Text
  pub has_healthcheck : Bool
  pub has_labels : Bool
  pub labels : Dict Text
  pub entrypoint : Option Text
  pub cmd : Option Text
  pub has_secrets_in_env : Bool
  pub secret_env_vars : List Text
  pub secret_build_args : List Text
  pub package_managers_used : List Text
  pub cache_cleaned : Bool
  pub uses_sudo : Bool
  pub uses_latest_tag : Bool
  pub add_commands : List AddCommand
  pub run_commands : List Text
  pub pipes_remote_script_to_shell : Bool
  pub remote_script_lines : List ℕ
  pub sets_setuid_bit : Bool
  pub setuid_lines : List ℕ
  pub uses_secret_mount : Bool
  pub unpinned_packages : List UnpinnedPackage
  pub declares_multi_arch : Bool

-- `DockerfileInfo()`
abbrev pub no_info : DockerfileInfo
no_info = record {
  base_images = [];
  stages = 1;
  has_user_directive = false;
  user_name = none;
  user_uid = none;
  final_base_image = none;
  has_healthcheck = false;
  has_labels = false;
  labels = [];
  entrypoint = none;
  cmd = none;
  has_secrets_in_env = false;
  secret_env_vars = [];
  secret_build_args = [];
  package_managers_used = [];
  cache_cleaned = false;
  uses_sudo = false;
  uses_latest_tag = false;
  add_commands = [];
  run_commands = [];
  pipes_remote_script_to_shell = false;
  remote_script_lines = [];
  sets_setuid_bit = false;
  setuid_lines = [];
  uses_secret_mount = false;
  unpinned_packages = [];
  declares_multi_arch = false;
}

-- What stands beside the Dockerfile: its `.dockerignore`, and whether there is a
-- `package-lock.json`
pub data DockerIgnore : Type 0 where
  absent unreadable : DockerIgnore
  content : Text → DockerIgnore

pub record BuildContext : Type 0 where
  pub dockerignore : DockerIgnore
  pub has_lockfile : Bool
