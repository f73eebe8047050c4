-- ===== src/Context.antt =====
-- celily/src/context.rs: what a run is made of, from the arguments, the configuration and the host.
pub mod Mounts
pub mod Environment
pub mod Devices
pub mod Resolve
pub mod Parts
pub mod Safe
pub mod Worktree
pub mod Sockets
pub mod Priority
mod Tests
use celily.Prelude.{ℕ, ℤ, Bool, Option, none, some, List}
use celily.Prelude.Text.{Text}
use celily.Paths.{FilePath}
use celily.Backend.Mount.{AccessMode, WrittenMount, Mount}
use celily.Validate.Files.{FileSystem, ValidateError}
use celily.Network.Rule.{NetworkRule}
use celily.Lxd.Instance.{Device}
use celily.Instance.{InstanceKind}
use celily.Config.Rules.{ConfigError}

-- The arguments that the context depends on.
pub record Args : Type 0 where
  pub image : Option Text
  pub vm : Bool
  pub cpu : Option ℕ
  pub memory : Option Text
  pub disk : Option Text
  pub processes : Option ℤ
  pub container_uid : Option ℕ
  pub container_gid : Option ℕ
  pub user : Option Text
  pub as_root : Bool
  pub project_target : Option Text
  pub worktree : Option Text
  pub worktree_user_name : Option Text
  pub worktree_user_email : Option Text
  pub mount_project : Bool
  pub no_mount_project : Bool
  pub project_readwrite : Bool
  pub no_project_readwrite : Bool
  pub cli_mounts : List WrittenMount
  pub cli_env : List Text
  pub cli_pass_env : List Text
  pub name : Option Text
  pub keep_instance : Bool

-- What the host answers: its files, its user, its environment, and a random identifier.
pub record Host : Type 0 where
  pub fs : FileSystem
  pub uid : ℕ
  pub gid : ℕ
  pub var : Text → Option Text
  pub uuid : Text

-- The directories of a run, as they are written, and the home also with its links resolved.
pub record Places : Type 0 where
  pub cwd : FilePath
  pub home : Text
  pub home_canon : FilePath
  pub config_dir : Text
  pub allowed_dirs : List Text
  pub allowed_files : List Text

-- A mount that a run asks for, before its source is validated.
pub record AskedMount : Type 0 where
  pub source : Text
  pub target : FilePath
  pub access : AccessMode

pub data ContextError : Type 0 where
  invalid_username : Text → ContextError
  invalid_path : ValidateError → ContextError
  no_config_dir : ContextError
  invalid_env : Text → ContextError
  invalid_rule : ConfigError → ContextError

pub record RunContext : Type 0 where
  pub image : Text
  pub kind : InstanceKind
  pub cpu : ℕ
  pub memory : Text
  pub disk : Text
  pub processes : ℤ
  pub disk_priority : Option ℕ
  pub memory_enforce : Option Text
  pub network_ingress : Option Text
  pub network_egress : Option Text
  pub exec_uid : ℕ
  pub exec_gid : ℕ
  pub container_uid : ℕ
  pub container_gid : ℕ
  pub project_dir : FilePath
  pub container_home : FilePath
  pub raw_idmap : Option Text
  pub mounts : List Mount
  pub env_map : List (Text × Text)
  pub name : Text
  pub ephemeral : Bool
  pub description : Text
  pub instance_uuid : Text
  pub network_allow : List NetworkRule
  pub security_nesting : Bool
  pub secure_boot : Bool
  pub extra_devices : List Device

-- `a.or(b)` and `unwrap_or`
abbrev pub or {ℓ} : {A : Type ℓ} → Option A → Option A → Option A
or (some a) other = some a
or none other = other

abbrev pub unwrap_or {ℓ} : {A : Type ℓ} → Option A → A → A
unwrap_or (some a) default = a
unwrap_or none default = default
