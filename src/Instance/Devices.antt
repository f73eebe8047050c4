-- ===== src/Instance/Devices.antt =====
-- The devices that prepared.rs gives an instance: its mounts as disks, then those of the caller.
pub mod Added
use celily.Prelude.{
  ℕ, ◌+◌, ◌≡◌, refl, sym, ap, ◌∙◌, Bool, true, false, ◌&&◌, List, [], ◌∷◌, ◌++◌, append_assoc,
  append-nil, is_empty, eq_refl, Option, ◌==◌, if◌then◌else◌,
}
use celily.Prelude.Text.{Text, text_eq, codes}
use celily.Prelude.Text.Decimal.{to_string}
use celily.Prelude.Fallible.{Result, ok, err}
use celily.Effects.{History, Program, run, bind, join, or_drop, ◌>>=◌, ◌>>◌, lift}
use celily.Effects.Reaches.{
  Reaches, Then, Reaches->>=, Reaches-bind, Reaches-mono, Reaches-or_drop, Idle, Idle-or_drop,
  Idle-Reaches, Idle->>=, Reaches-join_right, run-Reaches,
}
use celily.Paths.{FilePath}
use celily.Backend.Mount.{Mount}
use celily.Lxd.Instance.{Device}
use celily.Network.Params.{to_create_bridge_params}
use celily.Instance.{
  Call, Answer, InstanceError, backend, bridge_failed, proxy_failed, LaunchConfig, Initialized,
  NetworkIsolation, Step, do_call, request, drop_instance, drop_isolation,
}
use celily.Instance.Init.{
  instance_config, guard_of, Isolated, drop_isolated, attach_call, is_vm, disk_of, add_mount,
  add_mounts, add_extra, describe, add_devices, joined, attach, setup_of, isolate, init,
}
use celily.Instance.Isolation.{setup, drop_created, start_isolation, launch_proxy, resolve_secrets}
use celily.Instance.Secrets.{resolve_secrets-Idle}
use celily.Instance.Held.{Reaches-do_call, do_call-Idle}

-- The disks of the mounts that are not skipped, under their indices.
unfoldable pub mount_disks :
    LaunchConfig → (FilePath → Bool) → ℕ → List Mount → List (Text × Device)
mount_disks config is_file i [] = []
mount_disks config is_file i (mount ∷ mounts) =
    let rest = mount_disks config is_file (i + 1) mounts in
    if is_vm config.kind && is_file mount.source
    then rest
    else (codes "mount" ++ to_string i, disk_of mount) ∷ rest

unfoldable pub extra_devices : ℕ → List Device → List (Text × Device)
extra_devices i [] = []
extra_devices i (device ∷ devices) =
    (codes "extra" ++ to_string i, device) ∷ extra_devices (i + 1) devices

-- The devices that were added with success, in order.
module _ {E : Type 0} (name : Text) where
  unfoldable pub device_step : Call → Answer E → List (Text × Device) → List (Text × Device)
  device_step (Call.add_device n key device) (ok _) s =
      if n == name then s ++ (key, device) ∷ [] else s
  device_step _ _ s = s

  unfoldable pub devices : History Call (Answer E) → List (Text × Device)
  devices [] = []
  devices ((c, r) ∷ h) = device_step c r (devices h)

module _ (E : Type 0) (config : LaunchConfig) where
  abbrev pub does : Call → Answer E → List (Text × Device) → List (Text × Device)
  does = device_step config.name

  -- On success the list has grown by the new devices.
  abbrev pub Grows :
      {A : Type 0}
      → List (Text × Device)
      → List (Text × Device)
      → Result (InstanceError E) A
      → List (Text × Device)
      → Type 0
  Grows old new (ok _) s = s ≡ old ++ new
  Grows old new (err _) s = Unit {0}

  grown :
      (old : List (Text × Device)) (first : Text × Device) (new : List (Text × Device))
      (m : Result (InstanceError E) (Unit {0})) (s : List (Text × Device))
      → Grows (old ++ first ∷ []) new m s
      → Grows old (first ∷ new) m s
  grown old first new (ok _) s h = h ∙ append_assoc old (first ∷ []) new
  grown old first new (err _) s h = tt

  add_extra-Grows :
      (i : ℕ) (more : List Device) (old : List (Text × Device))
      → Reaches does (Grows old (extra_devices i more)) (add_extra config i more) old
  unfolding add_extra extra_devices device_step
  add_extra-Grows i [] old = sym (append-nil old)
  add_extra-Grows i (device ∷ more) old =
      Reaches-do_call does (Grows old (extra_devices i (device ∷ more)))
        (codes "failed to add extra device")
        (Call.add_device config.name (codes "extra" ++ to_string i) device) _ old (λ _. tt)
        (λ _. rw (eq_refl config.name) (
          Reaches-mono does
            (Grows (old ++ (codes "extra" ++ to_string i, device) ∷ [])
              (extra_devices (i + 1) more))
            _ (grown old (codes "extra" ++ to_string i, device) (extra_devices (i + 1) more))
            (add_extra config (i + 1) more) _
            (add_extra-Grows (i + 1) more (old ++ (codes "extra" ++ to_string i, device) ∷ []))))

  add_one :
      (skipped : Bool) (i : ℕ) (mount : Mount) (rest : Step E (Unit {0}))
      (new old : List (Text × Device))
      → ((o : List (Text × Device)) → Reaches does (Grows o new) rest o)
      → Reaches does
          (Grows old (if skipped then new else (codes "mount" ++ to_string i, disk_of mount) ∷ new))
          (add_mount config skipped i mount >> rest)
          old
  unfolding bind device_step
  add_one true i mount rest new old h = h old
  add_one false i mount rest new old h =
      Reaches-do_call does (Grows old ((codes "mount" ++ to_string i, disk_of mount) ∷ new))
        (codes "failed to add disk device")
        (Call.add_device config.name (codes "mount" ++ to_string i) (disk_of mount)) _ old (λ _. tt)
        (λ _. rw (eq_refl config.name) (
          Reaches-mono does (Grows (old ++ (codes "mount" ++ to_string i, disk_of mount) ∷ []) new)
            _ (grown old (codes "mount" ++ to_string i, disk_of mount) new) rest
            (old ++ (codes "mount" ++ to_string i, disk_of mount) ∷ [])
            (h (old ++ (codes "mount" ++ to_string i, disk_of mount) ∷ []))))

  add_mounts-Grows :
      (is_file : FilePath → Bool) (i : ℕ) (mounts : List Mount) (old : List (Text × Device))
      → Reaches does
          (Grows old (mount_disks config is_file i mounts))
          (add_mounts config is_file i mounts)
          old
  unfolding add_mounts mount_disks
  add_mounts-Grows is_file i [] old = sym (append-nil old)
  add_mounts-Grows is_file i (mount ∷ mounts) old =
      add_one (is_vm config.kind && is_file mount.source) i mount
        (add_mounts config is_file (i + 1) mounts) (mount_disks config is_file (i + 1) mounts) old
        (add_mounts-Grows is_file (i + 1) mounts)

  describe-Idle : (empty : Bool) → Idle does (describe config empty)
  unfolding device_step bind
  describe-Idle true = tt
  describe-Idle false =
      do_call-Idle does (codes "failed to set description")
        (Call.set_description config.name config.description) (λ _ _. refl)

  pub add_devices-Grows :
      (is_file : FilePath → Bool) (old : List (Text × Device))
      → Reaches does
          (Grows old
            (mount_disks config is_file 0 config.mounts ++ extra_devices 0 config.extra_devices))
          (add_devices config is_file)
          old
  unfolding add_devices
  add_devices-Grows is_file old =
      Reaches->>= does Q (add_mounts config is_file 0 config.mounts) _ old (
        Reaches-mono does (Grows old mounted) _ after_mounts
          (add_mounts config is_file 0 config.mounts) old
          (add_mounts-Grows is_file 0 config.mounts old))
    where
      mounted : List (Text × Device)
      mounted = mount_disks config is_file 0 config.mounts

      extra : List (Text × Device)
      extra = extra_devices 0 config.extra_devices

      Q : Result (InstanceError E) (Unit {0}) → List (Text × Device) → Type 0
      Q = Grows old (mounted ++ extra)

      described :
          (m : Result (InstanceError E) (Unit {0})) (s : List (Text × Device))
          → s ≡ old ++ (mounted ++ extra)
          → Q m s
      described (ok _) s h = h
      described (err _) s h = tt

      after_extra :
          (m : Result (InstanceError E) (Unit {0})) (s : List (Text × Device))
          → Grows (old ++ mounted) extra m s
          → Then does Q (λ _. describe config (is_empty config.description)) m s
      after_extra (err _) s h = tt
      after_extra (ok _) s h =
          Idle-Reaches does Q (describe config (is_empty config.description)) s
            (describe-Idle (is_empty config.description))
            (λ m. described m s (h ∙ append_assoc old mounted extra))

      after_mounts :
          (m : Result (InstanceError E) (Unit {0})) (s : List (Text × Device))
          → Grows old mounted m s
          → Then does Q
              (λ _.
                add_extra config 0 config.extra_devices
                >> describe config (is_empty config.description))
              m
              s
      after_mounts (err _) s h = tt
      after_mounts (ok _) s h = rw h (
          Reaches->>= does Q (add_extra config 0 config.extra_devices) _ (old ++ mounted) (
            Reaches-mono does (Grows (old ++ mounted) extra) _ after_extra
              (add_extra config 0 config.extra_devices) (old ++ mounted)
              (add_extra-Grows 0 config.extra_devices (old ++ mounted))))
