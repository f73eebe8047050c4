-- ===== src/Instance/Launched.antt =====
-- The first step of a launch: what is held when it succeeds, and that nothing is when it fails.
use celily.Prelude.{◌≡◌, refl, Bool, true, false, List, eq_refl}
use celily.Prelude.Text.{Text, text_eq, codes}
use celily.Prelude.Fallible.{Result, ok, err}
use celily.Effects.{Program, bind, join, ◌>>=◌, lift}
use celily.Effects.Reaches.{
  Reaches, Then, Reaches->>=, Reaches-bind, Reaches-mono, Dropped, Reaches-or_drop-Dropped,
  Reaches-join_left,
}
use celily.Paths.{FilePath}
use celily.Instance.{
  Call, Answer, InstanceError, LaunchConfig, NetworkIsolation, Initialized, Step, do_call,
  drop_instance, drop_isolation,
}
use celily.Instance.Init.{
  instance_config, add_devices, drop_isolated, joined, guard_of, Isolated, attach_call, attach,
  setup_of, isolate, init,
}
use celily.Instance.Held.{Held, nothing_held, held_step, Reaches-do_call}
use celily.Instance.Teardown.{
  instance_only, isolated_held, step, IsSetup, setup-IsSetup, add_devices-Idle,
}

abbrev pub attached_held : Held
attached_held = record {
  has_instance = true;
  is_attached = true;
  has_proxy = true;
  has_bridge = true;
  torn = false;
}

module _ (E : Type 0) (config : LaunchConfig) where
  abbrev does : Call → Answer E → Held → Held
  does = step E config.name config.bridge_name

  abbrev IsIsolated : Result (InstanceError E) Initialized → Held → Type 0
  IsIsolated (err _) s = s ≡ instance_only
  IsIsolated (ok state) s =
      (s ≡ attached_held)
      × (state.guard ≡ guard_of config)
      × (state.isolation.bridge_guard ≡ config.bridge_name)

  drop_isolation-instance_only :
      (isolation : NetworkIsolation)
      → isolation.bridge_guard ≡ config.bridge_name
      → Reaches does (λ _ s. s ≡ instance_only) (drop_isolation isolation) isolated_held
  unfolding drop_isolation held_step
  drop_isolation-instance_only isolation h r q = rw (h, eq_refl config.bridge_name) refl

  attach-IsIsolated :
      (isolation : NetworkIsolation) (ca_cert : Text)
      → isolation.bridge_guard ≡ config.bridge_name
      → Reaches does IsIsolated (attach config (isolation, ca_cert)) isolated_held
  unfolding attach held_step
  attach-IsIsolated isolation ca_cert h =
      Reaches-or_drop-Dropped does IsIsolated
        (do_call (codes "failed to attach instance to bridge") (attach_call config) >>= λ _.
          lift (ok (record { guard = guard_of config; isolation = isolation; ca_cert = ca_cert })))
        (drop_isolation isolation) isolated_held
        (Reaches-do_call does (Dropped does IsIsolated (drop_isolation isolation))
          (codes "failed to attach instance to bridge") (attach_call config) _ isolated_held
          (λ e.
            rw (eq_refl config.name, eq_refl config.bridge_name)
              (drop_isolation-instance_only isolation h))
          (λ v. rw (eq_refl config.name, eq_refl config.bridge_name) (refl, refl, h)))

  joined-IsIsolated :
      (both : Isolated E × Result (InstanceError E) (Unit {0})) (s : Held)
      → IsSetup E config.name config.bridge_name both.0 s
      → Reaches does IsIsolated (joined config both >>= attach config) s
  unfolding joined bind drop_isolated
  joined-IsIsolated (err e, err x) s h = h
  joined-IsIsolated (ok (isolation, ca_cert), err x) s h =
      rw (h.0) (drop_isolation-instance_only isolation h.1)
  joined-IsIsolated (err e, ok _) s h = h
  joined-IsIsolated (ok (isolation, ca_cert), ok _) s h =
      rw (h.0) (attach-IsIsolated isolation ca_cert h.1)

  isolate-IsIsolated :
      (schedule : List Bool) (is_file : FilePath → Bool) (provider : Bool)
      → Reaches does IsIsolated (isolate config schedule is_file provider) instance_only
  unfolding isolate
  isolate-IsIsolated schedule is_file provider =
      Reaches->>= does IsIsolated (bind both (λ b. lift (ok b))) next instance_only (
        Reaches-bind does (Then does IsIsolated next) both (λ b. lift (ok b)) instance_only
          (Reaches-mono does (λ b. IsSetup E config.name config.bridge_name b.0) _ joined-IsIsolated
            both instance_only
            (Reaches-join_left does (IsSetup E config.name config.bridge_name) schedule
              (setup_of config provider) (add_devices config is_file) instance_only
              (setup-IsSetup E config.name config.bridge_name _ config.network provider)
              (add_devices-Idle E config.name config.bridge_name config is_file))))
    where
      both : Program Call (Answer E) (Isolated E × Result (InstanceError E) (Unit {0}))
      both = join schedule (setup_of config provider) (add_devices config is_file)

      next : Isolated E × Result (InstanceError E) (Unit {0}) → Step E Initialized
      next b = joined config b >>= attach config

  abbrev pub IsInit : Result (InstanceError E) Initialized → Held → Type 0
  IsInit (err _) s = s ≡ nothing_held
  IsInit (ok state) s =
      (s ≡ attached_held)
      × (state.guard ≡ guard_of config)
      × (state.isolation.bridge_guard ≡ config.bridge_name)

  module _ (unkept : config.keep ≡ false) where
    dropped :
        (m : Result (InstanceError E) Initialized) (s : Held)
        → IsIsolated m s
        → Dropped does IsInit (drop_instance (guard_of config)) m s
    unfolding drop_instance held_step
    dropped (ok state) s h = h
    dropped (err e) s h = rw (h, unkept) (λ r. rw (eq_refl config.name) refl)

    pub init-IsInit :
        (schedule : List Bool) (is_file : FilePath → Bool) (provider : Bool)
        → Reaches does IsInit (init config schedule is_file provider) nothing_held
    unfolding init held_step
    init-IsInit schedule is_file provider =
        Reaches-do_call does IsInit (codes "failed to create instance")
          (Call.create config.name (instance_config config)) _ nothing_held
          (λ e. rw (eq_refl config.name) refl)
          (λ v. rw (eq_refl config.name) (
            Reaches-or_drop-Dropped does IsInit (isolate config schedule is_file provider)
              (drop_instance (guard_of config)) instance_only
              (Reaches-mono does IsIsolated _ dropped (isolate config schedule is_file provider)
                instance_only (isolate-IsIsolated schedule is_file provider))))
