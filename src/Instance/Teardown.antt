-- ===== src/Instance/Teardown.antt =====
-- What is left of an instance whose launch fails, or that is dropped when it is done.
use celily.Prelude.{
  ◌≡◌, refl, Bool, true, false, List, [], ◌∷◌, eq_refl, ℕ, ◌+◌, ◌&&◌, ◌++◌, is_empty,
}
use celily.Prelude.Text.{Text, text_eq, codes}
use celily.Prelude.Text.Decimal.{to_string}
use celily.Prelude.Fallible.{Result, ok, err}
use celily.Effects.{bind}
use celily.Effects.Reaches.{
  Reaches, Then, Reaches->>=, Dropped, Reaches-or_drop-Dropped, Idle, Idle-Reaches, Idle->>=,
}
use celily.Paths.{FilePath}
use celily.Backend.Mount.{Mount}
use celily.Backend.Subnet.{BridgeSubnet}
use celily.Network.Rule.{NetworkRule}
use celily.Network.Params.{CreateBridgeParams}
use celily.Lxd.Instance.{Device}
use celily.Instance.{Call, Answer, NetworkError, bridge_failed, proxy_failed, LaunchConfig, do_call}
use celily.Instance.Isolation.{launch_proxy, resolve_secrets, drop_created, start_isolation, setup}
use celily.Instance.Init.{
  is_vm, disk_of, add_mount, add_mounts, add_extra, describe, add_devices, Isolated,
}
use celily.Instance.Secrets.{resolve_secrets-Idle}
use celily.Instance.Held.{Held, held_step, Reaches-request, do_call-Idle}

abbrev pub instance_only : Held
instance_only = record {
  has_instance = true;
  is_attached = false;
  has_proxy = false;
  has_bridge = false;
  torn = false;
}

abbrev pub isolated_held : Held
isolated_held = record {
  has_instance = true;
  is_attached = false;
  has_proxy = true;
  has_bridge = true;
  torn = false;
}

module _ (E : Type 0) (name bridge_name : Text) where
  abbrev pub step : Call → Answer E → Held → Held
  step = held_step name bridge_name

  -- A setup that fails has taken down what it made; one that succeeds holds a proxy and a bridge.
  abbrev pub IsSetup : Isolated E → Held → Type 0
  IsSetup (err _) s = s ≡ instance_only
  IsSetup (ok (isolation, _)) s = (s ≡ isolated_held) × (isolation.bridge_guard ≡ bridge_name)

  abbrev torn_created : Held
  torn_created = record {
    has_instance = true;
    is_attached = false;
    has_proxy = false;
    has_bridge = true;
    torn = false;
  }

  drop_created-instance_only :
      (e : NetworkError E)
      → Reaches step (λ _. IsSetup (err e)) (drop_created bridge_name) torn_created
  unfolding held_step
  drop_created-instance_only e r = rw (eq_refl bridge_name) refl

  pub setup-IsSetup :
      (params : CreateBridgeParams) (allow : List NetworkRule) (provider : Bool)
      → Reaches step IsSetup (setup bridge_name params allow provider) instance_only
  unfolding setup held_step
  setup-IsSetup params allow provider =
      Reaches-request step IsSetup bridge_failed (Call.create_bridge bridge_name params) _
        instance_only (λ e. rw (eq_refl bridge_name) refl)
        (λ created. rw (eq_refl bridge_name) (
          Reaches-or_drop-Dropped step IsSetup
            (start_isolation bridge_name allow provider created.subnet) (drop_created bridge_name)
            torn_created
            (Reaches->>= step (Dropped step IsSetup (drop_created bridge_name))
              (resolve_secrets provider allow []) _ torn_created
              (Idle-Reaches step _ (resolve_secrets provider allow []) torn_created
                (resolve_secrets-Idle step (λ _ _ _. refl) provider allow [])
                (resolved created.subnet)))))
    where
      resolved :
          (subnet : BridgeSubnet) (m : Result (NetworkError E) (List (Text × Text)))
          → Then step
              (Dropped step IsSetup (drop_created bridge_name))
              (launch_proxy bridge_name allow subnet)
              m
              torn_created
      resolved subnet (err e) = drop_created-instance_only e
      resolved subnet (ok known) =
          Reaches-request step (Dropped step IsSetup (drop_created bridge_name)) proxy_failed
            (Call.start_proxy bridge_name subnet allow known) _ torn_created
            (λ e _. rw (eq_refl bridge_name) refl) (λ v. rw (eq_refl bridge_name) (refl, refl))

  module _ (config : LaunchConfig) where
    add_mount-Idle :
        (skipped : Bool) (i : ℕ) (mount : Mount) → Idle step (add_mount config skipped i mount)
    unfolding held_step bind
    add_mount-Idle true i mount = tt
    add_mount-Idle false i mount =
        do_call-Idle step (codes "failed to add disk device")
          (Call.add_device config.name (codes "mount" ++ to_string i) (disk_of mount)) (λ _ _. refl)

    add_mounts-Idle :
        (is_file : FilePath → Bool) (i : ℕ) (mounts : List Mount)
        → Idle step (add_mounts config is_file i mounts)
    unfolding add_mounts
    add_mounts-Idle is_file i [] = tt
    add_mounts-Idle is_file i (mount ∷ mounts) =
        Idle->>= step (add_mount config (is_vm config.kind && is_file mount.source) i mount) _
          (add_mount-Idle (is_vm config.kind && is_file mount.source) i mount)
          (λ _. add_mounts-Idle is_file (i + 1) mounts)

    add_extra-Idle : (i : ℕ) (devices : List Device) → Idle step (add_extra config i devices)
    unfolding add_extra held_step
    add_extra-Idle i [] = tt
    add_extra-Idle i (device ∷ devices) =
        Idle->>= step
          (do_call (codes "failed to add extra device")
            (Call.add_device config.name (codes "extra" ++ to_string i) device))
          _
          (do_call-Idle step (codes "failed to add extra device")
            (Call.add_device config.name (codes "extra" ++ to_string i) device) (λ _ _. refl))
          (λ _. add_extra-Idle (i + 1) devices)

    describe-Idle : (empty : Bool) → Idle step (describe config empty)
    unfolding held_step bind
    describe-Idle true = tt
    describe-Idle false =
        do_call-Idle step (codes "failed to set description")
          (Call.set_description config.name config.description) (λ _ _. refl)

    pub add_devices-Idle : (is_file : FilePath → Bool) → Idle step (add_devices config is_file)
    unfolding add_devices
    add_devices-Idle is_file =
        Idle->>= step (add_mounts config is_file 0 config.mounts) _
          (add_mounts-Idle is_file 0 config.mounts)
          (λ _.
            Idle->>= step (add_extra config 0 config.extra_devices) _
              (add_extra-Idle 0 config.extra_devices)
              (λ _. describe-Idle (is_empty config.description)))
