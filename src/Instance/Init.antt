-- ===== src/Instance/Init.antt =====
-- celily-lib/src/instance/prepared.rs: `init`.
use celily.Prelude.{ℕ, ◌+◌, Bool, true, false, ◌&&◌, some, List, [], ◌∷◌, ◌++◌, is_empty}
use celily.Prelude.Text.{Text, codes}
use celily.Prelude.Text.Decimal.{to_string}
use celily.Prelude.Fallible.{Result, ok, err}
use celily.Effects.{Action, done, bind, join, or_drop, ◌>>=◌, ◌>>◌, lift}
use celily.Paths.{FilePath}
use celily.Backend.Mount.{Mount}
use celily.Network.Params.{to_create_bridge_params}
use celily.Lxd.Instance.{Device, InstanceConfig}
use celily.Instance.{
  Call, Answer, NetworkError, InstanceError, network_failed, container, vm, InstanceKind,
  LaunchConfig, InstanceGuard, NetworkIsolation, Initialized, Drop, Step, do_call, drop_instance,
  drop_isolation,
}
use celily.Instance.Isolation.{setup}

abbrev pub is_vm : InstanceKind → Bool
is_vm container = false
is_vm vm = true

unfoldable pub instance_config : LaunchConfig → InstanceConfig
instance_config config = record {
  image = config.image;
  ephemeral = config.ephemeral;
  vm = is_vm config.kind;
  secure_boot = config.secure_boot;
  cpu = some config.limits.cpu;
  memory = some config.limits.memory;
  disk_size = some config.limits.disk;
  processes = some config.limits.processes;
  disk_priority = config.limits.disk_priority;
  memory_enforce = config.limits.memory_enforce;
  raw_idmap = config.raw_idmap;
  security_nesting = config.security_nesting;
}

abbrev pub disk_of : Mount → Device
disk_of mount = Device.disk mount.source mount.target mount.access

abbrev pub guard_of : LaunchConfig → InstanceGuard
guard_of config = record { name = config.name; keep = config.keep }

abbrev pub attach_call : LaunchConfig → Call
attach_call config =
    Call.attach_to_bridge config.name config.bridge_name config.limits.network_ingress
      config.limits.network_egress

abbrev pub Isolated : Type 0 → Type 0
Isolated E = Result (NetworkError E) (NetworkIsolation × Text)

module _ {E : Type 0} (config : LaunchConfig) where
  -- One mount as a disk, unless it is skipped.
  abbrev pub add_mount : Bool → ℕ → Mount → Step E (Unit {0})
  add_mount true i mount = lift (ok tt)
  add_mount false i mount =
      do_call (codes "failed to add disk device")
        (Call.add_device config.name (codes "mount" ++ to_string i) (disk_of mount))

  -- The mounts, from the index of the first; a VM has no mounts of single files.
  unfoldable pub add_mounts : (FilePath → Bool) → ℕ → List Mount → Step E (Unit {0})
  unfolding bind
  add_mounts is_file i [] = lift (ok tt)
  add_mounts is_file i (mount ∷ mounts) =
      add_mount (is_vm config.kind && is_file mount.source) i mount
      >> add_mounts is_file (i + 1) mounts

  unfoldable pub add_extra : ℕ → List Device → Step E (Unit {0})
  unfolding bind
  add_extra i [] = lift (ok tt)
  add_extra i (device ∷ devices) = do
    do_call (codes "failed to add extra device")
        (Call.add_device config.name (codes "extra" ++ to_string i) device)
    add_extra (i + 1) devices

  abbrev pub describe : Bool → Step E (Unit {0})
  describe true = lift (ok tt)
  describe false =
      do_call (codes "failed to set description")
        (Call.set_description config.name config.description)

  unfoldable pub add_devices : (FilePath → Bool) → Step E (Unit {0})
  unfolding bind add_mounts add_extra
  add_devices is_file = do
    add_mounts is_file 0 config.mounts
    add_extra 0 config.extra_devices
    describe (is_empty config.description)

  unfoldable pub drop_isolated : Isolated E → Drop E
  unfolding drop_isolation
  drop_isolated (err _) = done tt
  drop_isolated (ok (isolation, _)) = drop_isolation isolation

  -- `devices_result?; iso_result?`: the error of the devices comes first, and drops the isolation.
  unfoldable pub joined :
      Isolated E × Result (InstanceError E) (Unit {0}) → Step E (NetworkIsolation × Text)
  unfolding bind drop_isolated
  joined (isolated, err e) = bind (drop_isolated isolated) (λ _. done (err e))
  joined (err e, ok _) = lift (err (network_failed e))
  joined (ok isolated, ok _) = lift (ok isolated)

  -- The isolation is a local from here on: an early return drops it.
  unfoldable pub attach : NetworkIsolation × Text → Step E Initialized
  unfolding bind or_drop drop_isolation
  attach (isolation, ca_cert) =
      or_drop
        (do_call (codes "failed to attach instance to bridge") (attach_call config) >>= λ _.
          lift (ok (record { guard = guard_of config; isolation = isolation; ca_cert = ca_cert })))
        (drop_isolation isolation)

  abbrev pub setup_of : Bool → Action Call (Answer E) (NetworkError E) (NetworkIsolation × Text)
  setup_of provider =
      setup config.bridge_name (to_create_bridge_params config.network config.keep) config.network
        provider

  -- The isolation and the devices at once, under the guard of the instance.
  unfoldable pub isolate : List Bool → (FilePath → Bool) → Bool → Step E Initialized
  unfolding bind join setup add_devices joined attach to_create_bridge_params
  isolate schedule is_file provider = do
    both ← bind (join schedule (setup_of provider) (add_devices is_file)) (λ both. lift (ok both))
    isolated ← joined both
    attach isolated

  -- `init`, on each schedule of the isolation and the devices.
  unfoldable pub init : List Bool → (FilePath → Bool) → Bool → Step E Initialized
  unfolding bind or_drop instance_config drop_instance isolate
  init schedule is_file provider = do
    do_call (codes "failed to create instance") (Call.create config.name (instance_config config))
    or_drop (isolate schedule is_file provider) (drop_instance (guard_of config))
