-- ===== src/Instance/Lifetime.antt =====
-- The whole life of an instance that is not kept: launched, used and dropped, or failed on the way.
use celily.Prelude.{◌≡◌, refl, Bool, false, List}
use celily.Prelude.Text.{text_eq}
use celily.Prelude.Fallible.{Result, ok, err}
use celily.Effects.{History, done, run, bind}
use celily.Effects.Reaches.{Reaches, Reaches-bind, Reaches-mono, run-Reaches}
use celily.Paths.{FilePath}
use celily.Instance.{Call, Answer, InstanceError, LaunchConfig, Running, Drop, drop_running}
use celily.Instance.Init.{}
use celily.Instance.Held.{Held, nothing_held, held}
use celily.Instance.Start.{launch}
use celily.Instance.Started.{does, IsLaunched, launch-IsLaunched, drop_state-nothing_held}

-- A launch ends with the drop of what it gave.
abbrev pub close : {E : Type 0} → Result (InstanceError E) Running → Drop E
close (err _) = done tt
close (ok state) = drop_running state

module _ (E : Type 0) (config : LaunchConfig) (unkept : config.keep ≡ false)
    (world : History Call (Answer E) → Call → Answer E) (schedule : List Bool)
    (is_file : FilePath → Bool) (provider : Bool) (h : History Call (Answer E))
    (fresh : held config.name config.bridge_name h ≡ nothing_held) where
  -- If the instance is not to be kept and nothing of its name and its bridge is held before, then a
  -- launch that fails, at whatever call and on any schedule, leaves nothing: no instance, no proxy,
  -- no bridge, and no bridge was taken down while the instance was attached to it.
  pub launch_err :
      (e : InstanceError E)
      → (run world (launch config schedule is_file provider) h).0 ≡ err e
      → held config.name config.bridge_name
          (run world (launch config schedule is_file provider) h).1
        ≡ nothing_held
  unfolding held
  launch_err e failed = rw failed at (
      run-Reaches (does E config) (IsLaunched E config) (held config.name config.bridge_name)
        (λ _ _ _. refl) world (launch config schedule is_file provider) h
        (rw fresh (launch-IsLaunched E config unkept schedule is_file provider)))

  close-nothing_held :
      (m : Result (InstanceError E) Running) (s : Held)
      → IsLaunched E config m s
      → Reaches (does E config) (λ _ s. s ≡ nothing_held) (close m) s
  unfolding drop_running
  close-nothing_held (err e) s l = l
  close-nothing_held (ok state) s l =
      rw (l.0) (drop_state-nothing_held E config unkept state.guard state.isolation l.1 l.2)

  -- If the instance is not to be kept and nothing of its name and its bridge is held before, then
  -- after a launch and the drop of the running instance, if there is one, nothing is held, and no
  -- bridge was taken down while the instance was attached to it.
  pub launch-close :
      held config.name config.bridge_name
        (run world (bind (launch config schedule is_file provider) close) h).1
      ≡ nothing_held
  unfolding held
  launch-close =
      run-Reaches (does E config) (λ _ s. s ≡ nothing_held) (held config.name config.bridge_name)
        (λ _ _ _. refl) world (bind (launch config schedule is_file provider) close) h
        (rw fresh (
          Reaches-bind (does E config) (λ _ s. s ≡ nothing_held)
            (launch config schedule is_file provider) close nothing_held
            (Reaches-mono (does E config) (IsLaunched E config) _ close-nothing_held
              (launch config schedule is_file provider) nothing_held
              (launch-IsLaunched E config unkept schedule is_file provider))))
