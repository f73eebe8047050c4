-- ===== src/Context/Tests.antt =====
-- A context of a run in worktree mode, with a socket and a variable of its own.
use celily.Prelude.{◌≡◌, refl, true, false, none, some, [], ◌∷◌, ◌++◌, All}
use celily.Prelude.Text.{codes, text_beq, strip_prefix}
use celily.Prelude.Text.Split.{split, split_once}
use celily.Prelude.Fallible.{ok}
use celily.Paths.{
  FilePath, root, components, join, normal_pieces, path_beq, strip_path, is_under_or_eq,
  expand_container_tilde,
}
use celily.Backend.Mount.{read_only}
use celily.Validate.Files.{
  canonicalize_in_home, ancestors, written_ancestors, refuse_symlinks, parent,
}
use celily.Validate.Forbidden.{under, check, check_all}
use celily.Validate.MountSource.{validate_mount_source}
use celily.Validate.ProxyConnect.{
  build_proxy_forbidden_list, runtime_dir_of, refuse_writable, validate_proxy_connect,
}
use celily.Paths.Raw.{display, join_text, absolute, expand_host_tilde}
use celily.Lxd.Instance.{Device}
use celily.Naming.{is_valid_username}
use celily.Config.Merge.{Config}
use celily.Context.{Args, Host, Places, RunContext, or}
use celily.Context.Mounts.{
  mount_project, project_readwrite, requested_mounts, canonicalize_allowlist, forbidden_list,
  validate_mounts, resolve_mounts,
}
use celily.Context.Environment.{Env, pass_all, add_cli, resolve_env}
use celily.Context.Devices.{proxy_devices}
use celily.Context.Resolve.{
  convert_rules, container_home_of, project_target_of, assemble, resolve_context,
}
use celily.Context.Safe.{AreResolved, asked, resolve_context-AreResolved}
use celily.Context.Worktree.{IsReadOnlyProject, worktree-IsReadOnlyProject}
use celily.Context.Sockets.{IsHandedOut, extra_devices-All}
use celily.Context.Priority.{lookup, passed, given, lookup-resolve_env}

abbrev home : FilePath
home = root ∷ codes "home" ∷ codes "dev" ∷ []

abbrev project : FilePath
project = home ++ codes "project" ∷ []

abbrev args : Args
args = record {
  image = none;
  vm = false;
  cpu = none;
  memory = none;
  disk = none;
  processes = none;
  container_uid = none;
  container_gid = none;
  user = none;
  as_root = false;
  project_target = none;
  worktree = some (codes "fix");
  worktree_user_name = none;
  worktree_user_email = none;
  mount_project = false;
  no_mount_project = false;
  project_readwrite = true;
  no_project_readwrite = false;
  cli_mounts = [];
  cli_env = codes "A=1" ∷ [];
  cli_pass_env = codes "TERM" ∷ [];
  name = some (codes "inst");
  keep_instance = false;
}

abbrev cfg : Config (Unit {0}) (Unit {0})
cfg = record {
  backend = record { kind = none; project = none; pool = none };
  image = none;
  kind = none;
  user = none;
  container_uid = none;
  container_gid = none;
  distro = none;
  security_nesting = none;
  secure_boot = none;
  limits = record {
    cpu = none;
    memory = none;
    disk = none;
    processes = none;
    disk_priority = none;
    memory_enforce = none;
    network_ingress = none;
    network_egress = none;
  };
  mounts = [];
  allowed_dirs = [];
  allowed_files = [];
  env = (codes "A", codes "0") ∷ [];
  project_target = none;
  pass_env = [];
  secret_provider = none;
  network_allow = [];
  project_readwrite = none;
  worktree = record { user_name = none; user_email = none };
  mount_project = none;
  pre_run = [];
  proxy =
      record {
        connect = codes "unix:/run/player.sock";
        listen = codes "unix:/tmp/p";
        mode = codes "0600";
      }
      ∷ [];
  volumes = [];
}

abbrev host : Host
host = record {
  fs = record {
    current_dir = none;
    canonicalize = λ p. some (components p);
    is_symlink = λ p. false;
    is_dir = λ p. true;
    is_file = λ p. false;
    exists = λ p. true;
  };
  uid = 1000;
  gid = 1000;
  var = λ name. some (codes "/run");
  uuid = codes "0123456789abcdef";
}

abbrev places : Places
places = record {
  cwd = project;
  home = codes "/home/dev";
  home_canon = home;
  config_dir = codes "/home/dev/.config";
  allowed_dirs = codes "~/project" ∷ [];
  allowed_files = [];
}

abbrev env : Env
env = (codes "A", codes "1") ∷ (codes "TERM", codes "/run") ∷ (codes "A", codes "0") ∷ []

abbrev ctx : RunContext
ctx =
    assemble args cfg host places
      (record { source = project; target = home ++ codes "project" ∷ []; access = read_only } ∷ [])
      env []
      (Device.proxy (codes "unix:/run/player.sock") (codes "unix:/tmp/p") 1000 1000 1000 1000
          (codes "0600")
        ∷ [])

resolved : resolve_context args cfg host places ≡ ok ctx
unfolding resolve_context is_valid_username canonicalize_in_home validate_mount_source
    validate_proxy_connect absolute join_text written_ancestors ancestors refuse_symlinks parent
    components check_all check build_proxy_forbidden_list runtime_dir_of under join is_under_or_eq
    path_beq strip_path refuse_writable text_beq split split_once normal_pieces mount_project
    project_readwrite forbidden_list canonicalize_allowlist validate_mounts requested_mounts
    resolve_mounts expand_host_tilde expand_container_tilde display pass_all add_cli resolve_env
    proxy_devices convert_rules container_home_of project_target_of strip_prefix
resolved = refl

resolve_context-AreResolved_example :
    AreResolved host.fs places (asked args cfg host places ctx) ctx.mounts
resolve_context-AreResolved_example = resolve_context-AreResolved args cfg host places ctx resolved

worktree-IsReadOnlyProject_example :
    IsReadOnlyProject host.fs project home (project_target_of args cfg) ctx.mounts
worktree-IsReadOnlyProject_example =
    worktree-IsReadOnlyProject args cfg host places ctx (codes "fix") refl resolved

extra_devices-All_example : All (IsHandedOut host home ctx.mounts) ctx.extra_devices
extra_devices-All_example = extra_devices-All args cfg host places ctx resolved

env_resolved : resolve_env host.var cfg.env [] (codes "TERM" ∷ []) (codes "A=1" ∷ []) ≡ ok env
unfolding resolve_env text_beq split_once pass_all add_cli
env_resolved = refl

lookup-resolve_env_example :
    lookup (codes "A") env
    ≡ or
        (given (codes "A") (codes "A=1" ∷ []))
        (or (passed host.var (codes "A") (codes "TERM" ∷ [])) (lookup (codes "A") cfg.env))
lookup-resolve_env_example =
    lookup-resolve_env host.var cfg.env [] (codes "TERM" ∷ []) (codes "A=1" ∷ []) env env_resolved
      (codes "A")
