-- ===== src/Lxd/Instance.antt =====
-- celily-lib/src/backend/lxd/instance.rs and mod.rs: the commands that make and use an instance.
pub mod Exec
pub mod Devices
use celily.Prelude.{
  ℕ, ℤ, pos, negsuc, suc, Bool, true, false, not, Option, none, some, List, [], ◌∷◌, ◌++◌, map,
  ◌==◌, if◌then◌else◌,
}
use celily.Prelude.Text.{Text, text_eq, codes}
use celily.Prelude.Text.Split.{join}
use celily.Prelude.Text.Decimal.{to_string}
use celily.Paths.{FilePath, root}
use celily.Paths.Raw.{display}
use celily.Backend.Mount.{AccessMode, read_only, read_write}

-- The client of one daemon: its program, project, remote and storage pool.
pub record LxcBackend : Type 0 where
  pub remote : Option Text
  pub project : Option Text
  pub pool : Text
  pub binary : Text

-- A device of celily-lib/src/backend/mod.rs.
pub data Device : Type 0 where
  disk : FilePath → FilePath → AccessMode → Device
  volume : Text → FilePath → AccessMode → Device
  proxy : Text → Text → ℕ → ℕ → ℕ → ℕ → Text → Device

pub record InstanceConfig : Type 0 where
  pub image : Text
  pub ephemeral : Bool
  pub vm : Bool
  pub secure_boot : Bool
  pub cpu : Option ℕ
  pub memory : Option Text
  pub disk_size : Option Text
  pub processes : Option ℤ
  pub disk_priority : Option ℕ
  pub memory_enforce : Option Text
  pub raw_idmap : Option Text
  pub security_nesting : Bool

-- An option with its value, if there is one.
abbrev pub flag : Text → Option Text → List Text
flag name none = []
flag name (some value) = name ∷ value ∷ []

-- `key=value`
abbrev pub pair : Text → Text → Text
pair key value = key ++ b'=' ∷ value

abbrev pub when : Bool → List Text → List Text
when true args = args
when false args = []

abbrev show_int : ℤ → Text
show_int (pos n) = to_string n
show_int (negsuc n) = b'-' ∷ to_string (suc n)

-- `lxc_project_command`: the program, then the project and the remote.
unfoldable pub lxc_project_command : LxcBackend → List Text
lxc_project_command backend =
    backend.binary
    ∷ (flag (codes "--project") backend.project ++ flag (codes "--remote") backend.remote)

abbrev access_args : FilePath → AccessMode → List Text
access_args target read_only = pair (codes "path") (display target) ∷ codes "readonly=true" ∷ []
access_args target read_write = pair (codes "path") (display target) ∷ []

-- The type of a device, then its properties.
unfoldable pub device_args : LxcBackend → Device → List Text
unfolding display to_string
device_args backend (Device.disk source target access) =
    codes "disk" ∷ pair (codes "source") (display source) ∷ access_args target access
device_args backend (Device.volume name target access) =
    codes "disk"
    ∷ pair (codes "pool") backend.pool
    ∷ pair (codes "source") name
    ∷ access_args target access
device_args backend (Device.proxy connect listen uid gid host_uid host_gid mode) =
    codes "proxy"
    ∷ codes "bind=instance"
    ∷ pair (codes "connect") connect
    ∷ pair (codes "listen") listen
    ∷ pair (codes "mode") mode
    ∷ pair (codes "uid") (to_string uid)
    ∷ pair (codes "gid") (to_string gid)
    ∷ pair (codes "security.uid") (to_string host_uid)
    ∷ pair (codes "security.gid") (to_string host_gid)
    ∷ []

abbrev set_config : Text → Option Text → List Text
set_config key none = []
set_config key (some value) = codes "--config" ∷ pair key value ∷ []

abbrev map_text {ℓ} : {A : Type ℓ} → (A → Text) → Option A → Option Text
map_text f none = none
map_text f (some a) = some (f a)

-- Keys that a VM does not have are left out for one.
unfoldable pub create_args : LxcBackend → Text → InstanceConfig → List Text
unfolding lxc_project_command to_string
create_args backend name config =
    lxc_project_command backend
    ++ ((codes "init"
          ∷ config.image
          ∷ name
          ∷ codes "--no-profiles"
          ∷ codes "--storage"
          ∷ backend.pool
          ∷ [])
        ++ (flag (codes "--device") (map_text (λ size. codes "root,size=" ++ size) config.disk_size)
            ++ (when config.ephemeral (codes "--ephemeral" ∷ [])
                ++ (when config.vm (
                      codes "--vm"
                      ∷ when (not config.secure_boot)
                          (codes "--config" ∷ codes "boot.mode=uefi-nosecureboot" ∷ []))
                    ++ (set_config (codes "limits.cpu") (map_text to_string config.cpu)
                        ++ (set_config (codes "limits.memory") config.memory
                            ++ (when (not config.vm) (
                                  set_config (codes "limits.processes")
                                    (map_text show_int config.processes))
                                ++ (when (not config.vm) (
                                      set_config (codes "limits.disk.priority")
                                        (map_text to_string config.disk_priority))
                                    ++ (when (not config.vm) (
                                          set_config (codes "limits.memory.enforce")
                                            config.memory_enforce)
                                        ++ (set_config (codes "raw.idmap") config.raw_idmap
                                            ++ (when config.security_nesting (
                                                  when (not config.vm) (
                                                    codes "--config"
                                                    ∷ codes "security.nesting=true"
                                                    ∷ []))
                                                ++ (codes "--config"
                                                    ∷ codes "security.devlxd=false"
                                                    ∷ []))))))))))))

unfoldable pub attach_args : LxcBackend → Text → Text → Option Text → Option Text → List Text
unfolding lxc_project_command
attach_args backend name bridge_name ingress egress =
    lxc_project_command backend
    ++ ((codes "config"
          ∷ codes "device"
          ∷ codes "add"
          ∷ name
          ∷ codes "eth0"
          ∷ codes "nic"
          ∷ codes "nictype=bridged"
          ∷ pair (codes "parent") bridge_name
          ∷ [])
        ++ (property (codes "limits.ingress") ingress ++ property (codes "limits.egress") egress))
  where
    property : Text → Option Text → List Text
    property key none = []
    property key (some value) = pair key value ∷ []

unfoldable pub env_args : List (Text × Text) → List Text
env_args [] = []
env_args ((key, value) ∷ env) = codes "--env" ∷ pair key value ∷ env_args env

-- The arguments of `exec_command` after those of the daemon.
unfoldable pub exec_args : Text → List Text → List (Text × Text) → FilePath → ℕ → ℕ → List Text
unfolding display env_args to_string
exec_args name cmd env cwd uid gid =
    codes "exec"
    ∷ name
    ∷ codes "--user"
    ∷ to_string uid
    ∷ codes "--group"
    ∷ to_string gid
    ∷ codes "--cwd"
    ∷ display cwd
    ∷ (env_args env ++ codes "--" ∷ cmd)

-- `exec_command`, which both `exec` and `exec_argv` run.
unfoldable pub exec_argv :
    LxcBackend → Text → List Text → List (Text × Text) → FilePath → ℕ → ℕ → List Text
unfolding lxc_project_command exec_args
exec_argv backend name cmd env cwd uid gid =
    lxc_project_command backend ++ exec_args name cmd env cwd uid gid

abbrev optional_pair : Text → Option Text → List (Text × Text)
optional_pair key none = []
optional_pair key (some value) = (key, value) ∷ []

abbrev proxy_pairs : Option Text → List (Text × Text)
proxy_pairs none = []
proxy_pairs (some url) =
    (codes "HTTP_PROXY", url)
    ∷ (codes "HTTPS_PROXY", url)
    ∷ (codes "NO_PROXY", [])
    ∷ (codes "NODE_USE_ENV_PROXY", codes "1")
    ∷ (codes "NODE_USE_SYSTEM_CA", codes "1")
    ∷ []

-- The environment of `exec`: the caller's, then the home, then the proxy.
abbrev pub exec_env : List (Text × Text) → Option FilePath → Option Text → List (Text × Text)
exec_env env home proxy_url =
    env ++ (optional_pair (codes "HOME") (map_text display home) ++ proxy_pairs proxy_url)
