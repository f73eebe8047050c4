-- ===== src/Config/Merge.antt =====
-- The `Config` of celily/src/config/mod.rs and its parts, and how a profile is merged over another.
pub mod Layers
use celily.Prelude.{ℕ, ℤ, Bool, Option, none, some, List, [], ◌∷◌, ◌++◌}
use celily.Prelude.Text.{Text}
use celily.Paths.{FilePath}
use celily.Backend.Mount.{AccessMode, WrittenMount}
use celily.Instance.{InstanceKind}
use celily.Config.Rules.{ConfigNetworkRule}

pub data BackendKind : Type 0 where
  lxd incus : BackendKind

pub record BackendConfig : Type 0 where
  pub kind : Option BackendKind
  pub project : Option Text
  pub pool : Option Text

pub record Limits : Type 0 where
  pub cpu : Option ℕ
  pub memory : Option Text
  pub disk : Option Text
  pub processes : Option ℤ
  pub disk_priority : Option ℕ
  pub memory_enforce : Option Text
  pub network_ingress : Option Text
  pub network_egress : Option Text

pub record WorktreeConfig : Type 0 where
  pub user_name : Option Text
  pub user_email : Option Text

pub record ProxyDevice : Type 0 where
  pub connect : Text
  pub listen : Text
  pub mode : Text

pub record Volume : Type 0 where
  pub name : Text
  pub target : Text
  pub access : AccessMode

-- `D` and `S` stand for the kinds of distributions and of secret providers of celily-lib. The
-- environment is a list of its entries, of which the first one for a name counts.
pub record Config (D S : Type 0) : Type 0 where
  pub backend : BackendConfig
  pub image : Option Text
  pub kind : Option InstanceKind
  pub user : Option Text
  pub container_uid : Option ℕ
  pub container_gid : Option ℕ
  pub distro : Option D
  pub security_nesting : Option Bool
  pub secure_boot : Option Bool
  pub limits : Limits
  pub mounts : List WrittenMount
  pub allowed_dirs : List Text
  pub allowed_files : List Text
  pub env : List (Text × Text)
  pub project_target : Option Text
  pub pass_env : List Text
  pub secret_provider : Option S
  pub network_allow : List ConfigNetworkRule
  pub project_readwrite : Option Bool
  pub worktree : WorktreeConfig
  pub mount_project : Option Bool
  pub pre_run : List Text
  pub proxy : List ProxyDevice
  pub volumes : List Volume

-- `overwrite_some`: the right one wins where it is set.
unfoldable pub overwrite_some {ℓ} : {A : Type ℓ} → Option A → Option A → Option A
overwrite_some left none = left
overwrite_some left (some value) = some value

unfoldable pub merge_backend : BackendConfig → BackendConfig → BackendConfig
merge_backend a b = record {
  kind = overwrite_some a.kind b.kind;
  project = overwrite_some a.project b.project;
  pool = overwrite_some a.pool b.pool;
}

unfoldable pub merge_limits : Limits → Limits → Limits
merge_limits a b = record {
  cpu = overwrite_some a.cpu b.cpu;
  memory = overwrite_some a.memory b.memory;
  disk = overwrite_some a.disk b.disk;
  processes = overwrite_some a.processes b.processes;
  disk_priority = overwrite_some a.disk_priority b.disk_priority;
  memory_enforce = overwrite_some a.memory_enforce b.memory_enforce;
  network_ingress = overwrite_some a.network_ingress b.network_ingress;
  network_egress = overwrite_some a.network_egress b.network_egress;
}

unfoldable pub merge_worktree : WorktreeConfig → WorktreeConfig → WorktreeConfig
merge_worktree a b = record {
  user_name = overwrite_some a.user_name b.user_name;
  user_email = overwrite_some a.user_email b.user_email;
}

-- The entries of the right environment come first, so they win.
abbrev pub overwrite_env : List (Text × Text) → List (Text × Text) → List (Text × Text)
overwrite_env left right = right ++ left

-- `Config::merge`, by the strategy of each field.
unfoldable pub merge : {D S : Type 0} → Config D S → Config D S → Config D S
unfolding merge_backend merge_limits merge_worktree
merge a b = record {
  backend = merge_backend a.backend b.backend;
  image = overwrite_some a.image b.image;
  kind = overwrite_some a.kind b.kind;
  user = overwrite_some a.user b.user;
  container_uid = overwrite_some a.container_uid b.container_uid;
  container_gid = overwrite_some a.container_gid b.container_gid;
  distro = overwrite_some a.distro b.distro;
  security_nesting = overwrite_some a.security_nesting b.security_nesting;
  secure_boot = overwrite_some a.secure_boot b.secure_boot;
  limits = merge_limits a.limits b.limits;
  mounts = a.mounts ++ b.mounts;
  allowed_dirs = a.allowed_dirs ++ b.allowed_dirs;
  allowed_files = a.allowed_files ++ b.allowed_files;
  env = overwrite_env a.env b.env;
  project_target = overwrite_some a.project_target b.project_target;
  pass_env = a.pass_env ++ b.pass_env;
  secret_provider = overwrite_some a.secret_provider b.secret_provider;
  network_allow = a.network_allow ++ b.network_allow;
  project_readwrite = overwrite_some a.project_readwrite b.project_readwrite;
  worktree = merge_worktree a.worktree b.worktree;
  mount_project = overwrite_some a.mount_project b.mount_project;
  pre_run = a.pre_run ++ b.pre_run;
  proxy = a.proxy ++ b.proxy;
  volumes = a.volumes ++ b.volumes;
}
