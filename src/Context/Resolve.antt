-- ===== src/Context/Resolve.antt =====
-- `resolve_context` and `resolve_git_identity`.
use celily.Prelude.{
  ℕ, pos, true, false, not, ◌&&◌, Option, none, some, List, [], ◌∷◌, ◌++◌, map, if◌then◌else◌,
}
use celily.Prelude.Text.{Text, codes}
use celily.Prelude.Text.Decimal.{to_string}
use celily.Prelude.Fallible.{Result, ok, ◌>>=◌, ◌>>◌, fail_if, ok_or, map_err}
use celily.Paths.{FilePath, components, strip_path, expand_container_tilde}
use celily.Backend.Mount.{Mount}
use celily.Network.Rule.{NetworkRule}
use celily.Paths.Raw.{display}
use celily.Lxd.Instance.{Device}
use celily.Instance.{InstanceKind, container, vm}
use celily.Naming.{instance_name, is_valid_username}
use celily.Config.Rules.{ConfigNetworkRule, into_library}
use celily.Config.Merge.{Config, WorktreeConfig}
use celily.Context.{
  Args, Host, Places, RunContext, ContextError, invalid_username, invalid_rule, or, unwrap_or,
}
use celily.Context.Mounts.{mount_project, requested_mounts, resolve_mounts}
use celily.Context.Environment.{Env, resolve_env}
use celily.Context.Devices.{proxy_devices, volume_device}

unfoldable pub convert_rules : List ConfigNetworkRule → Result ContextError (List NetworkRule)
convert_rules [] = ok []
convert_rules (rule ∷ rules) = do
  converted ← map_err invalid_rule (into_library rule)
  rest ← convert_rules rules
  ok (converted ∷ rest)

abbrev pub relative_text : Option FilePath → Option Text
relative_text none = none
relative_text (some rest) = some (display rest)

abbrev pub idmap : Host → ℕ → ℕ → Text
idmap host uid gid =
    codes "uid "
    ++ (to_string host.uid
        ++ b' '
          ∷ (to_string uid ++ (codes "\ngid " ++ (to_string host.gid ++ b' ' ∷ to_string gid))))

-- A VM has no map of ids.
unfoldable pub raw_idmap : Host → InstanceKind → ℕ → ℕ → Option Text
raw_idmap host vm uid gid = none
raw_idmap host container uid gid = some (idmap host uid gid)

module _ {D S : Type 0} (args : Args) (cfg : Config D S) where
  abbrev pub image_of : Text
  image_of = unwrap_or (or args.image cfg.image) (codes "celily")

  abbrev pub kind_of : InstanceKind
  kind_of = if args.vm then vm else unwrap_or cfg.kind container

  abbrev pub user_name : Text
  user_name = unwrap_or (or args.user cfg.user) (codes "dev")

  abbrev pub uid_of : ℕ
  uid_of = unwrap_or (or args.container_uid cfg.container_uid) 1000

  abbrev pub gid_of : ℕ
  gid_of = unwrap_or (or args.container_gid cfg.container_gid) 1000

  unfoldable pub container_home_of : FilePath
  container_home_of =
      if args.as_root then components (codes "/root") else components (codes "/home/" ++ user_name)

  unfoldable pub project_target_of : FilePath
  project_target_of =
      expand_container_tilde
        (unwrap_or (or args.project_target cfg.project_target) (codes "~/project"))
        container_home_of

  -- The context of what has been validated and converted.
  unfoldable pub assemble :
      Host → Places → List Mount → Env → List NetworkRule → List Device → RunContext
  unfolding raw_idmap container_home_of project_target_of mount_project
  assemble host places mounts env_map network_allow proxies = record {
    image = image_of;
    kind = kind_of;
    cpu = unwrap_or (or args.cpu cfg.limits.cpu) 2;
    memory = unwrap_or (or args.memory cfg.limits.memory) (codes "4GiB");
    disk = unwrap_or (or args.disk cfg.limits.disk) (codes "4GiB");
    processes = unwrap_or (or args.processes cfg.limits.processes) (pos 1024);
    disk_priority = cfg.limits.disk_priority;
    memory_enforce = cfg.limits.memory_enforce;
    network_ingress = cfg.limits.network_ingress;
    network_egress = cfg.limits.network_egress;
    exec_uid = if args.as_root then 0 else uid_of;
    exec_gid = if args.as_root then 0 else gid_of;
    container_uid = uid_of;
    container_gid = gid_of;
    project_dir = if mount_project args cfg then project_target_of else container_home_of;
    container_home = container_home_of;
    raw_idmap = raw_idmap host kind_of uid_of gid_of;
    mounts = mounts;
    env_map = env_map;
    name = unwrap_or args.name (
        instance_name (display places.cwd)
          (relative_text (strip_path (components places.home) places.cwd)) image_of host.uuid);
    ephemeral = not args.keep_instance;
    description =
        codes "celily run (" ++ (image_of ++ (codes " at " ++ (display places.cwd ++ codes ")")));
    instance_uuid = host.uuid;
    network_allow = network_allow;
    security_nesting = unwrap_or cfg.security_nesting false;
    secure_boot = unwrap_or cfg.secure_boot true;
    extra_devices = proxies ++ map (volume_device container_home_of) cfg.volumes;
  }

  unfoldable pub resolve_context : Host → Places → Result ContextError RunContext
  unfolding resolve_mounts requested_mounts resolve_env convert_rules proxy_devices assemble
  resolve_context host places = do
    fail_if (not (is_valid_username user_name) && not args.as_root) (invalid_username user_name)
    mounts ←
        resolve_mounts host.fs places
          (requested_mounts args cfg places.cwd places.home container_home_of project_target_of)
    env_map ← resolve_env host.var cfg.env cfg.pass_env args.cli_pass_env args.cli_env
    network_allow ← convert_rules cfg.network_allow
    proxies ← proxy_devices host places.home_canon mounts uid_of gid_of cfg.proxy
    ok (assemble host places mounts env_map network_allow proxies)

-- The first of the argument, the configuration and git's answer.
unfoldable pub resolve_git_identity :
    Args → WorktreeConfig → (Text → Option Text) → Result Text (Text × Text)
resolve_git_identity args wc git_config = do
  user_name ←
      ok_or (or args.worktree_user_name (or wc.user_name (git_config (codes "user.name"))))
        (codes "user.name")
  user_email ←
      ok_or (or args.worktree_user_email (or wc.user_email (git_config (codes "user.email"))))
        (codes "user.email")
  ok (user_name, user_email)
