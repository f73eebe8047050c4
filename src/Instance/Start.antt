-- ===== src/Instance/Start.antt =====
-- celily-lib/src/instance/initialized.rs: `start`, and running.rs: `exec`.
use celily.Prelude.{
  ℕ, zero, suc, ℤ, Bool, true, false, not, ◌&&◌, ◌||◌, Option, none, some, List, [], ◌∷◌, ◌++◌,
  ◌==◌, ltb, nat_eq, if◌then◌else◌,
}
use celily.Prelude.Text.{Text, text_eq, codes}
use celily.Prelude.Text.Trim.{trim}
use celily.Prelude.Text.Decimal.{to_string}
use celily.Prelude.Fallible.{ok, err}
use celily.Effects.{Program, done, ask, bind, or_drop, ◌>>=◌, ◌>>◌, lift}
use celily.Paths.{FilePath, path_beq, strip_path}
use celily.Validate.Files.{ancestors}
use celily.Backend.Address.{show_ip}
use celily.Backend.Mount.{Mount}
use celily.Paths.Raw.{display}
use celily.Instance.{
  Call, Answer, timeout, ca_cert_anchors_dir, rebuild_trust_store_command, LaunchConfig,
  Initialized, Running, backend, Step, do_call, request, drop_initialized,
}
use celily.Instance.Init.{init}

abbrev pub attempts : ℕ
attempts = 60

abbrev pub state_call : Text → Call
state_call name = Call.exec_stdout name (codes "systemctl" ∷ codes "is-system-running" ∷ [])

-- The system says that it runs.
abbrev pub says_running : {E : Type 0} → Answer E → Bool
says_running (ok reply) = trim reply.output == codes "running"
says_running (err _) = false

module _ {E : Type 0} where
  -- Whether the system says so within the attempts that are left.
  unfoldable pub wait_ready : Text → ℕ → Program Call (Answer E) Bool
  wait_ready name zero = done false
  wait_ready name (suc n) =
      ask (state_call name)
        (λ answer. elim (says_running answer) [ true ↦ done true | false ↦ wait_ready name n ])

-- `Path::starts_with`
unfoldable pub path_starts_with : FilePath → FilePath → Bool
path_starts_with path base = elim (strip_path base path) [ none ↦ false | some _ ↦ true ]

-- The order of paths: by components, and these by their codes.
unfoldable pub text_less : Text → Text → Bool
text_less [] [] = false
text_less [] (_ ∷ _) = true
text_less (_ ∷ _) [] = false
text_less (c ∷ s) (d ∷ t) = ltb c d || c == d && text_less s t

unfoldable pub path_less : FilePath → FilePath → Bool
path_less [] [] = false
path_less [] (_ ∷ _) = true
path_less (_ ∷ _) [] = false
path_less (c ∷ s) (d ∷ t) = text_less c d || c == d && path_less s t

-- `BTreeSet::insert`, on a sorted list
unfoldable pub insert : FilePath → List FilePath → List FilePath
insert path [] = path ∷ []
insert path (p ∷ set) =
    let rest = insert path set in
    if path_beq path p then p ∷ set else if path_less path p then path ∷ p ∷ set else p ∷ rest

unfoldable pub is_target : List Mount → FilePath → Bool
is_target [] path = false
is_target (mount ∷ mounts) path = path_beq mount.target path || is_target mounts path

-- The walk from a target up to the home or to another target, on the ancestors that are left.
unfoldable pub walk : FilePath → List Mount → List FilePath → List FilePath → List FilePath
walk home mounts [] parents = parents
walk home mounts (ancestor ∷ rest) parents =
    let more = walk home mounts rest (insert ancestor parents) in
    if path_beq ancestor home || not (path_starts_with ancestor home) || is_target mounts ancestor
    then parents
    else more

abbrev pub tail : List FilePath → List FilePath
tail [] = []
tail (_ ∷ rest) = rest

unfoldable pub mount_parents : FilePath → List Mount → List Mount → List FilePath → List FilePath
unfolding walk
mount_parents home mounts [] parents = parents
mount_parents home mounts (mount ∷ rest) parents =
    mount_parents home mounts rest (walk home mounts (tail (ancestors mount.target)) parents)

abbrev pub cert_path : LaunchConfig → Text
cert_path config = ca_cert_anchors_dir config.distro ++ codes "/mitm-ca-cert.pem"

abbrev pub chown_call : LaunchConfig → FilePath → Call
chown_call config path = Call.exec_stdout config.name (
    codes "chown"
    ∷ (to_string config.container_uid ++ b':' ∷ to_string config.container_gid)
    ∷ display path
    ∷ [])

abbrev pub write_call : LaunchConfig → Text → Call
write_call config ca_cert =
    Call.write_file config.name ca_cert (cert_path config) (codes "0644") 0 0

abbrev pub rebuild_call : LaunchConfig → Call
rebuild_call config = Call.exec_stdout config.name (rebuild_trust_store_command config.distro ∷ [])

abbrev pub running_of : Initialized → Running
running_of state = record {
  guard = state.guard;
  isolation = state.isolation;
  proxy_gateway = show_ip state.isolation.gateway_ip;
  proxy_port = state.isolation.proxy_port;
}

module _ {E : Type 0} (config : LaunchConfig) where
  unfoldable pub chown : List FilePath → Step E (Unit {0})
  unfolding bind
  chown [] = lift (ok tt)
  chown (path ∷ paths) = do
    do_call (codes "failed to chown mount parent") (chown_call config path)
    chown paths

  -- Once the system runs: the certificate, the trust store and the owners.
  unfoldable pub prepare_system : Initialized → Step E Running
  unfolding bind chown mount_parents
  prepare_system state = do
    do_call (codes "failed to push CA cert") (write_call config state.ca_cert)
    do_call (codes "failed to rebuild trust store") (rebuild_call config)
    chown (mount_parents config.container_home config.mounts config.mounts [])
    lift (ok (running_of state))

  unfoldable pub when_ready : Initialized → Bool → Step E Running
  unfolding prepare_system
  when_ready state false = lift (err (timeout config.name))
  when_ready state true = prepare_system state

  unfoldable pub boot : Initialized → Step E Running
  unfolding bind wait_ready when_ready
  boot state = do
    do_call (codes "failed to start instance") (Call.start config.name)
    ready ← bind (wait_ready config.name attempts) (λ ready. lift (ok ready))
    when_ready state ready

  -- `start`, which consumes the initialized state: a failure drops it.
  unfoldable pub start : Initialized → Step E Running
  unfolding or_drop boot drop_initialized
  start state = or_drop (boot state) (drop_initialized state)

  -- `launch`
  unfoldable pub launch : List Bool → (FilePath → Bool) → Bool → Step E Running
  unfolding bind init start
  launch schedule is_file provider = init config schedule is_file provider >>= start

  -- `Running::exec`
  unfoldable pub exec : Running → List Text → List (Text × Text) → Option FilePath → Step E ℤ
  unfolding bind
  exec state command env cwd = do
    let proxy_url = codes "http://" ++ (state.proxy_gateway ++ b':' ∷ to_string state.proxy_port)
    reply ← request (backend (codes "failed to run lxc exec")) (
        Call.exec config.name command env
          (elim cwd [ none ↦ config.container_home | some path ↦ path ]) config.exec_uid
          config.exec_gid (some config.container_home) (some proxy_url))
    lift (ok reply.code)
