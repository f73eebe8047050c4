-- ===== src/Instance/Devices/Added.antt =====
-- The devices of an instance whose `init` has succeeded.
use celily.Prelude.{◌≡◌, refl, Bool, List, [], ◌++◌}
use celily.Prelude.Text.{Text, text_eq, codes}
use celily.Prelude.Fallible.{Result, ok, err}
use celily.Effects.{History, Program, run, bind, join, ◌>>=◌, lift}
use celily.Effects.Reaches.{
  Reaches, Then, Reaches->>=, Reaches-bind, Reaches-mono, Reaches-or_drop, Idle, Idle-or_drop,
  Idle->>=, Reaches-join_right, run-Reaches,
}
use celily.Paths.{FilePath}
use celily.Lxd.Instance.{Device}
use celily.Network.Params.{to_create_bridge_params}
use celily.Instance.{
  Call, Answer, InstanceError, bridge_failed, proxy_failed, LaunchConfig, Initialized,
  NetworkIsolation, Step, do_call, request, drop_instance, drop_isolation,
}
use celily.Instance.Init.{
  instance_config, guard_of, Isolated, drop_isolated, attach_call, add_devices, joined, attach,
  setup_of, isolate, init,
}
use celily.Instance.Isolation.{setup, drop_created, start_isolation, launch_proxy, resolve_secrets}
use celily.Instance.Secrets.{resolve_secrets-Idle}
use celily.Instance.Held.{Reaches-do_call}
use celily.Instance.Devices.{
  mount_disks, extra_devices, device_step, devices, does, Grows, add_devices-Grows,
}

module _ (E : Type 0) (config : LaunchConfig) where
  setup-Idle : (provider : Bool) → Idle (does E config) (setup_of config provider)
  unfolding setup device_step
  setup-Idle provider =
      Idle->>= (does E config)
        (request bridge_failed (
          Call.create_bridge config.bridge_name
            (to_create_bridge_params config.network config.keep)))
        _ (λ r. (λ s. refl, tt))
        (λ created.
          Idle-or_drop (does E config)
            (start_isolation config.bridge_name config.network provider created.subnet)
            (drop_created config.bridge_name)
            (Idle->>= (does E config) (resolve_secrets provider config.network [])
              (launch_proxy config.bridge_name config.network created.subnet)
              (resolve_secrets-Idle (does E config) (λ _ _ _. refl) provider config.network [])
              (λ known.
                Idle->>= (does E config)
                  (request proxy_failed
                    (Call.start_proxy config.bridge_name created.subnet config.network known))
                  _ (λ r. (λ s. refl, tt)) (λ _. tt)))
            (λ r. (λ s. refl, tt)))

  module _ (old new : List (Text × Device)) where
    attach-Grows :
        (isolation : NetworkIsolation) (ca_cert : Text) (s : List (Text × Device))
        → s ≡ old ++ new
        → Reaches (does E config) (Grows E config old new) (attach config (isolation, ca_cert)) s
    unfolding attach device_step
    attach-Grows isolation ca_cert s h =
        Reaches-or_drop (does E config) (Grows E config old new) (λ _ _. tt)
          (do_call (codes "failed to attach instance to bridge") (attach_call config) >>= λ _.
            lift
              (ok (record { guard = guard_of config; isolation = isolation; ca_cert = ca_cert })))
          (drop_isolation isolation) s
          (Reaches-do_call (does E config) (Grows E config old new)
            (codes "failed to attach instance to bridge") (attach_call config) _ s (λ _. tt)
            (λ _. h))

    joined-Grows :
        (both : Isolated E × Result (InstanceError E) (Unit {0})) (s : List (Text × Device))
        → Grows E config old new both.1 s
        → Reaches (does E config) (Grows E config old new) (joined config both >>= attach config) s
    unfolding joined bind drop_isolated drop_isolation
    joined-Grows (err e, err x) s h = tt
    joined-Grows (ok (isolation, ca_cert), err x) s h = λ _ _. tt
    joined-Grows (err e, ok _) s h = tt
    joined-Grows (ok (isolation, ca_cert), ok _) s h = attach-Grows isolation ca_cert s h

  init-Grows :
      (schedule : List Bool) (is_file : FilePath → Bool) (provider : Bool)
      (old : List (Text × Device))
      → Reaches
          (does E config)
          (Grows E config old
            (mount_disks config is_file 0 config.mounts ++ extra_devices 0 config.extra_devices))
          (init config schedule is_file provider)
          old
  unfolding init isolate device_step
  init-Grows schedule is_file provider old =
      Reaches-do_call (does E config) Q (codes "failed to create instance")
        (Call.create config.name (instance_config config)) _ old (λ _. tt)
        (λ _.
          Reaches-or_drop (does E config) Q (λ _ _. tt) (isolate config schedule is_file provider)
            (drop_instance (guard_of config)) old
            (Reaches->>= (does E config) Q (bind both (λ b. lift (ok b))) next old (
              Reaches-bind (does E config) (Then (does E config) Q next) both (λ b. lift (ok b)) old
                (Reaches-mono (does E config) (λ b. Grows E config old new b.1) _
                  (joined-Grows old new) both old
                  (Reaches-join_right (does E config) (Grows E config old new) schedule
                    (setup_of config provider) (add_devices config is_file) old
                    (add_devices-Grows E config is_file old) (setup-Idle provider))))))
    where
      new : List (Text × Device)
      new = mount_disks config is_file 0 config.mounts ++ extra_devices 0 config.extra_devices

      Q : Result (InstanceError E) Initialized → List (Text × Device) → Type 0
      Q = Grows E config old new

      both : Program Call (Answer E) (Isolated E × Result (InstanceError E) (Unit {0}))
      both = join schedule (setup_of config provider) (add_devices config is_file)

      next : Isolated E × Result (InstanceError E) (Unit {0}) → Step E Initialized
      next b = joined config b >>= attach config

-- If init succeeds, the devices that were added to the instance are the mounts as disks with their
-- source, target and access, under their indices and without those of single files on a VM, and
-- then the extra devices, in order, on any schedule.
pub devices-init :
    (E : Type 0) (config : LaunchConfig) (world : History Call (Answer E) → Call → Answer E)
    (schedule : List Bool) (is_file : FilePath → Bool) (provider : Bool)
    (h : History Call (Answer E)) (state : Initialized)
    → (run world (init config schedule is_file provider) h).0 ≡ ok state
    → devices config.name (run world (init config schedule is_file provider) h).1
      ≡ devices config.name h
        ++ (mount_disks config is_file 0 config.mounts ++ extra_devices 0 config.extra_devices)
unfolding devices
devices-init E config world schedule is_file provider h state e = rw e at (
    run-Reaches (does E config)
      (Grows E config (devices config.name h)
        (mount_disks config is_file 0 config.mounts ++ extra_devices 0 config.extra_devices))
      (devices config.name) (λ _ _ _. refl) world (init config schedule is_file provider) h
      (init-Grows E config schedule is_file provider (devices config.name h)))
