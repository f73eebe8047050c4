-- ===== src/Instance/Trusted.antt =====
-- What `start` has done when it succeeds: the stages of initialized.rs, in their order.
use celily.Prelude.{
  ℕ, zero, suc, ◌≡◌, refl, sym, Bool, true, false, ◌&&◌, List, [], ◌∷◌, ◌==◌, nat_eq, eq_refl, sym,
  if◌then◌else◌,
}
use mathlib.Core.Path.{subst}
use celily.Prelude.Text.{Text, text_eq, text_beq, codes}
use celily.Prelude.Fallible.{Result, ok, err}
use celily.Effects.{History, Program, done, run, bind, ◌>>=◌, lift}
use celily.Effects.Reaches.{
  Reaches, Then, Reaches->>=, Reaches-bind, Reaches-mono, Reaches-or_drop, run-Reaches,
}
use celily.Paths.{FilePath}
use celily.Instance.{
  Call, Answer, InstanceError, LaunchConfig, Initialized, Reply, Running, Step, do_call,
  drop_initialized, rebuild_trust_store_command,
}
use celily.Instance.Held.{Reaches-do_call}
use celily.Instance.Start.{
  attempts, says_running, state_call, wait_ready, chown_call, write_call, rebuild_call, running_of,
  cert_path, mount_parents, chown, prepare_system, when_ready, boot, start,
}

pub data Stage : Type 0 where
  off booted ready certified trusted : Stage

texts_beq : List Text → List Text → Bool
texts_beq [] [] = true
texts_beq [] (_ ∷ _) = false
texts_beq (_ ∷ _) [] = false
texts_beq (s ∷ ss) (t ∷ ts) = s == t && texts_beq ss ts

module _ {E : Type 0} (config : LaunchConfig) (ca_cert : Text) where
  -- A booted system that says it runs is ready, and one that has the certificate comes to trust it.
  exec_stage : List Text → Answer E → Stage → Stage
  unfolding texts_beq
  exec_stage cmd r booted =
      if texts_beq cmd (codes "systemctl" ∷ codes "is-system-running" ∷ []) && says_running r
      then ready
      else booted
  exec_stage cmd (ok _) certified =
      if texts_beq cmd (rebuild_trust_store_command config.distro ∷ []) then trusted else certified
  exec_stage cmd _ s = s

  -- The certificate is a file of the root user that all can read.
  write_stage : Text → Text → Text → ℕ → ℕ → Answer E → Stage → Stage
  write_stage content path mode uid gid (ok _) ready =
      if content == ca_cert
        && path == cert_path config
        && mode == codes "0644"
        && uid == 0
        && gid == 0
      then certified
      else ready
  write_stage content path mode uid gid _ s = s

  unfoldable pub stage_step : Call → Answer E → Stage → Stage
  unfolding exec_stage write_stage
  stage_step (Call.start n) (ok _) s = if n == config.name then booted else s
  stage_step (Call.exec_stdout n cmd) r s = if n == config.name then exec_stage cmd r s else s
  stage_step (Call.write_file n content path mode uid gid) r s =
      if n == config.name then write_stage content path mode uid gid r s else s
  stage_step _ _ s = s

  unfoldable pub stage : History Call (Answer E) → Stage
  stage [] = off
  stage ((c, r) ∷ h) = stage_step c r (stage h)

module _ (E : Type 0) (config : LaunchConfig) (state : Initialized) where
  abbrev does : Call → Answer E → Stage → Stage
  does = stage_step config state.ca_cert

  abbrev IsTrusted : {A : Type 0} → Result (InstanceError E) A → Stage → Type 0
  IsTrusted (ok _) s = s ≡ trusted
  IsTrusted (err _) s = Unit {0}

  abbrev IsReady : Bool → Stage → Type 0
  IsReady true s = s ≡ ready
  IsReady false s = s ≡ booted

  polled :
      (r : Answer E) (rest : Program Call (Answer E) Bool)
      → Reaches does IsReady rest booted
      → (said : Bool) → says_running r ≡ said
      → Reaches does IsReady
          (elim said [ true ↦ done true | false ↦ rest ])
          (does (state_call config.name) r booted)
  unfolding stage_step exec_stage texts_beq text_beq
  polled r rest h true e = rw (eq_refl config.name, e) refl
  polled r rest h false e = rw (eq_refl config.name, e) h

  wait_ready-IsReady : (n : ℕ) → Reaches does IsReady (wait_ready config.name n) booted
  unfolding wait_ready
  wait_ready-IsReady zero = refl
  wait_ready-IsReady (suc n) =
      λ r. polled r (wait_ready config.name n) (wait_ready-IsReady n) (says_running r) refl

  chown-IsTrusted : (paths : List FilePath) → Reaches does IsTrusted (chown config paths) trusted
  unfolding chown stage_step exec_stage
  chown-IsTrusted [] = refl
  chown-IsTrusted (path ∷ paths) =
      Reaches-do_call does IsTrusted (codes "failed to chown mount parent") (chown_call config path)
        _ trusted (λ _. tt) (λ _. rw (eq_refl config.name) (chown-IsTrusted paths))

  written : (v : Reply) → does (write_call config state.ca_cert) (ok v) ready ≡ certified
  unfolding stage_step write_stage text_beq
  written v = rw (eq_refl config.name, eq_refl state.ca_cert, eq_refl (cert_path config)) refl

  rebuilt : (v : Reply) → does (rebuild_call config) (ok v) certified ≡ trusted
  unfolding stage_step exec_stage texts_beq
  rebuilt v = rw (eq_refl config.name, eq_refl (rebuild_trust_store_command config.distro)) refl

  abbrev chowned : Step E Running
  chowned =
      chown config (mount_parents config.container_home config.mounts config.mounts []) >>= λ _.
      lift (ok (running_of state))

  abbrev rebuilding : Step E Running
  rebuilding =
      do_call (codes "failed to rebuild trust store") (rebuild_call config) >>= λ _. chowned

  chowned-IsTrusted : Reaches does IsTrusted chowned trusted
  chowned-IsTrusted =
      Reaches->>= does IsTrusted (chown config parents) (λ _. lift (ok (running_of state))) trusted
        (Reaches-mono does IsTrusted _ ended (chown config parents) trusted
          (chown-IsTrusted parents))
    where
      parents : List FilePath
      parents = mount_parents config.container_home config.mounts config.mounts []

      ended :
          (m : Result (InstanceError E) (Unit {0})) (s : Stage)
          → IsTrusted m s
          → Then does IsTrusted (λ _. lift (ok (running_of state))) m s
      ended (ok _) s h = h
      ended (err _) s h = tt

  prepare_system-IsTrusted : Reaches does IsTrusted (prepare_system config state) ready
  unfolding prepare_system
  prepare_system-IsTrusted =
      Reaches-do_call does IsTrusted (codes "failed to push CA cert")
        (write_call config state.ca_cert) (λ _. rebuilding) ready (λ _. tt)
        (λ v. subst (Reaches does IsTrusted rebuilding) (sym (written v)) (
          Reaches-do_call does IsTrusted (codes "failed to rebuild trust store")
            (rebuild_call config) (λ _. chowned) certified (λ _. tt)
            (λ w. subst (Reaches does IsTrusted chowned) (sym (rebuilt w)) chowned-IsTrusted)))

  up : (s : Stage) (v : Reply) → does (Call.start config.name) (ok v) s ≡ booted
  unfolding stage_step
  up s v = rw (eq_refl config.name) refl

  start-IsTrusted : (s : Stage) → Reaches does IsTrusted (start config state) s
  unfolding start boot when_ready
  start-IsTrusted s =
      Reaches-or_drop does IsTrusted (λ _ _. tt) (boot config state) (drop_initialized state) s
        (Reaches-do_call does IsTrusted (codes "failed to start instance") (Call.start config.name)
          (λ _. waiting) s (λ _. tt)
          (λ v. subst (Reaches does IsTrusted waiting) (sym (up s v)) waiting-IsTrusted))
    where
      waiting : Step E Running
      waiting =
          bind (wait_ready config.name attempts) (λ b. lift (ok b)) >>= when_ready config state

      readied :
          (b : Bool) (s : Stage)
          → IsReady b s
          → Reaches does IsTrusted (when_ready config state b) s
      readied true s h = rw h prepare_system-IsTrusted
      readied false s h = tt

      waiting-IsTrusted : Reaches does IsTrusted waiting booted
      waiting-IsTrusted =
          Reaches->>= does IsTrusted (bind (wait_ready config.name attempts) (λ b. lift (ok b)))
            (when_ready config state) booted
            (Reaches-bind does (Then does IsTrusted (when_ready config state))
              (wait_ready config.name attempts) (λ b. lift (ok b)) booted
              (Reaches-mono does IsReady _ readied (wait_ready config.name attempts) booted
                (wait_ready-IsReady attempts)))

  -- If start succeeds, then the instance was started, then said that its system runs, then was
  -- given the certificate at its path as a file of root with mode 0644, and then rebuilt its trust
  -- store, each with success and in this order.
  pub start_trusts :
      (world : History Call (Answer E) → Call → Answer E) (h : History Call (Answer E))
      (running : Running)
      → (run world (start config state) h).0 ≡ ok running
      → stage config state.ca_cert (run world (start config state) h).1 ≡ trusted
  unfolding stage
  start_trusts world h running e = rw e at (
      run-Reaches does IsTrusted (stage config state.ca_cert) (λ _ _ _. refl) world
        (start config state) h (start-IsTrusted (stage config state.ca_cert h)))
