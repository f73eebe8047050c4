-- ===== src/Instance/Started.antt =====
-- A whole launch: what is held when it succeeds, and that nothing is when it fails or is dropped.
use celily.Prelude.{◌≡◌, refl, Bool, true, false, List, [], ◌∷◌, eq_refl, ℕ, zero, suc}
use celily.Prelude.Text.{text_eq, codes}
use celily.Prelude.Fallible.{Result, ok, err}
use celily.Effects.{Program, done, bind, lift}
use celily.Effects.Reaches.{
  Reaches, Then, Reaches->>=, Reaches-bind, Reaches-mono, Dropped, Reaches-or_drop-Dropped, Idle,
  Idle-Reaches, Idle->>=,
}
use celily.Paths.{FilePath}
use celily.Instance.{
  Call, Answer, InstanceError, LaunchConfig, NetworkIsolation, InstanceGuard, Initialized, Running,
  do_call, drop_instance, drop_isolation, drop_initialized,
}
use celily.Instance.Init.{guard_of, init}
use celily.Instance.Held.{Held, nothing_held, held_step, Reaches-do_call, do_call-Idle}
use celily.Instance.Teardown.{step}
use celily.Instance.Launched.{attached_held, IsInit, init-IsInit}
use celily.Instance.Start.{
  says_running, chown_call, write_call, rebuild_call, running_of, attempts, wait_ready,
  mount_parents, chown, prepare_system, when_ready, boot, start, launch,
}

module _ (E : Type 0) (config : LaunchConfig) where
  abbrev pub does : Call → Answer E → Held → Held
  does = step E config.name config.bridge_name

  abbrev IsRunning : Result (InstanceError E) Running → Held → Type 0
  IsRunning (err _) s = s ≡ attached_held
  IsRunning (ok state) s =
      (s ≡ attached_held)
      × (state.guard ≡ guard_of config)
      × (state.isolation.bridge_guard ≡ config.bridge_name)

  polled-Idle :
      (rest : Program Call (Answer E) Bool) (running : Bool)
      → Idle does rest
      → Idle does (elim running [ true ↦ done true | false ↦ rest ])
  polled-Idle rest true i = tt
  polled-Idle rest false i = i

  wait_ready-Idle : (n : ℕ) → Idle does (wait_ready config.name n)
  unfolding wait_ready held_step
  wait_ready-Idle zero = tt
  wait_ready-Idle (suc n) =
      λ r. (λ s. refl, polled-Idle (wait_ready config.name n) (says_running r) (wait_ready-Idle n))

  chown-Idle : (paths : List FilePath) → Idle does (chown config paths)
  unfolding chown held_step
  chown-Idle [] = tt
  chown-Idle (path ∷ paths) =
      Idle->>= does (do_call (codes "failed to chown mount parent") (chown_call config path)) _
        (do_call-Idle does (codes "failed to chown mount parent") (chown_call config path)
          (λ _ _. refl))
        (λ _. chown-Idle paths)

  module _ (state : Initialized) (guarded : state.guard ≡ guard_of config)
      (bridged : state.isolation.bridge_guard ≡ config.bridge_name) where
    prepare_system-IsRunning : Reaches does IsRunning (prepare_system config state) attached_held
    unfolding prepare_system held_step
    prepare_system-IsRunning =
        Reaches-do_call does IsRunning (codes "failed to push CA cert")
          (write_call config state.ca_cert) _ attached_held (λ e. refl)
          (λ _.
            Reaches-do_call does IsRunning (codes "failed to rebuild trust store")
              (rebuild_call config) _ attached_held (λ e. refl)
              (λ _. Reaches->>= does IsRunning (chown config parents) _ attached_held (
                Idle-Reaches does _ (chown config parents) attached_held (chown-Idle parents)
                  chowned)))
      where
        parents : List FilePath
        parents = mount_parents config.container_home config.mounts config.mounts []

        chowned :
            (m : Result (InstanceError E) (Unit {0}))
            → Then does IsRunning (λ _. lift (ok (running_of state))) m attached_held
        chowned (ok _) = (refl, guarded, bridged)
        chowned (err _) = refl

    boot-IsRunning : Reaches does IsRunning (boot config state) attached_held
    unfolding boot held_step when_ready
    boot-IsRunning =
        Reaches-do_call does IsRunning (codes "failed to start instance") (Call.start config.name) _
          attached_held (λ e. refl)
          (λ _.
            Reaches->>= does IsRunning (bind (wait_ready config.name attempts) (λ b. lift (ok b)))
              (when_ready config state) attached_held
              (Reaches-bind does (Then does IsRunning (when_ready config state))
                (wait_ready config.name attempts) (λ b. lift (ok b)) attached_held
                (Idle-Reaches does _ (wait_ready config.name attempts) attached_held
                  (wait_ready-Idle attempts) readied)))
      where
        readied : (b : Bool) → Reaches does IsRunning (when_ready config state b) attached_held
        readied true = prepare_system-IsRunning
        readied false = refl

  abbrev pub IsLaunched : Result (InstanceError E) Running → Held → Type 0
  IsLaunched (err _) s = s ≡ nothing_held
  IsLaunched (ok state) s =
      (s ≡ attached_held)
      × (state.guard ≡ guard_of config)
      × (state.isolation.bridge_guard ≡ config.bridge_name)

  module _ (unkept : config.keep ≡ false) where
    -- Taking the instance down before its isolation leaves nothing.
    pub drop_state-nothing_held :
        (guard : InstanceGuard) (isolation : NetworkIsolation)
        → guard ≡ guard_of config
        → isolation.bridge_guard ≡ config.bridge_name
        → Reaches does
            (λ _ s. s ≡ nothing_held)
            (bind (drop_instance guard) (λ _. drop_isolation isolation))
            attached_held
    unfolding bind drop_instance drop_isolation held_step
    drop_state-nothing_held guard isolation guarded bridged =
        rw (guarded, unkept)
          (λ r q p. rw (bridged, eq_refl config.name, eq_refl config.bridge_name) refl)

    start-IsLaunched :
        (state : Initialized)
        → state.guard ≡ guard_of config
        → state.isolation.bridge_guard ≡ config.bridge_name
        → Reaches does IsLaunched (start config state) attached_held
    unfolding start drop_initialized
    start-IsLaunched state guarded bridged =
        Reaches-or_drop-Dropped does IsLaunched (boot config state) (drop_initialized state)
          attached_held
          (Reaches-mono does IsRunning _ dropped (boot config state) attached_held
            (boot-IsRunning state guarded bridged))
      where
        dropped :
            (m : Result (InstanceError E) Running) (s : Held)
            → IsRunning m s
            → Dropped does IsLaunched (drop_initialized state) m s
        dropped (ok running) s h = h
        dropped (err e) s h =
            rw h (drop_state-nothing_held state.guard state.isolation guarded bridged)

    pub launch-IsLaunched :
        (schedule : List Bool) (is_file : FilePath → Bool) (provider : Bool)
        → Reaches does IsLaunched (launch config schedule is_file provider) nothing_held
    unfolding launch
    launch-IsLaunched schedule is_file provider =
        Reaches->>= does IsLaunched (init config schedule is_file provider) (start config)
          nothing_held
          (Reaches-mono does (IsInit E config) _ started (init config schedule is_file provider)
            nothing_held (init-IsInit E config unkept schedule is_file provider))
      where
        started :
            (m : Result (InstanceError E) Initialized) (s : Held)
            → IsInit E config m s
            → Then does IsLaunched (start config) m s
        started (err e) s h = h
        started (ok state) s h = rw (h.0) (start-IsLaunched state h.1 h.2)
