-- ===== src/Instance/Tests.antt =====
-- Runs of the life of an instance against backends that answer, and that fail.
use celily.Prelude.{ℕ, pos, ◌<◌, ◌≡◌, ◌↔◌, refl, Bool, true, false, none, some, List, [], ◌∷◌, ◌++◌}
use celily.Prelude.Text.{codes, text_beq}
use celily.Prelude.Text.Trim.{trim}
use celily.Prelude.Fallible.{ok, err}
use celily.Effects.{History, run, bind}
use celily.Paths.{FilePath, root, path_beq, strip_path}
use celily.Backend.Mount.{read_write}
use celily.Network.Rule.{NetworkRule, https, v4}
use celily.Network.Params.{proxy_port}
use celily.Validate.Files.{ancestors}
use celily.Instance.{
  Call, Answer, Reply, backend, container, arch, LaunchConfig, Initialized, Running,
}
use celily.Instance.Isolation.{resolve_secrets}
use celily.Instance.Init.{guard_of, init}
use celily.Instance.Start.{
  says_running, state_call, wait_ready, start, launch, mount_parents, path_starts_with, is_target,
  insert,
}
use celily.Backend.Address.{show_ip}
use celily.Backend.Subnet.{show_ipv4}
use celily.Instance.Trusted.{stage, trusted, start_trusts}
use celily.Instance.Held.{nothing_held, held}
use celily.Instance.Lifetime.{close, launch_err, launch-close}
use celily.Instance.Ready.{after, wait_ready_iff}
use celily.Instance.Secrets.{AreKnown, resolve_secrets-AreKnown}
use celily.Instance.Devices.{mount_disks, extra_devices, devices}
use celily.Instance.Devices.Added.{devices-init}

abbrev home : FilePath
home = root ∷ codes "home" ∷ codes "dev" ∷ []

abbrev work : FilePath
work = root ∷ codes "home" ∷ codes "dev" ∷ codes "src" ∷ codes "work" ∷ []

abbrev github : NetworkRule
github = NetworkRule.http (record {
  scheme = https;
  host = codes "api.github.com";
  ports = 443 ∷ [];
  path_prefixes = none;
  auth = some (record { secret = codes "token"; header = codes "authorization"; prefix = none });
  headers = [];
  methods = none;
  quota = none;
})

abbrev config : LaunchConfig
config = record {
  image = codes "images:archlinux";
  name = codes "inst";
  bridge_name = codes "br-1";
  kind = container;
  distro = arch;
  mounts = record { source = work; target = work; access = read_write } ∷ [];
  extra_devices = [];
  container_uid = 1000;
  container_gid = 1000;
  exec_uid = 1000;
  exec_gid = 1000;
  container_home = home;
  raw_idmap = none;
  security_nesting = false;
  secure_boot = true;
  ephemeral = false;
  keep = false;
  description = [];
  limits = record {
    cpu = 2;
    memory = codes "4GiB";
    disk = codes "4GiB";
    processes = pos 1024;
    disk_priority = none;
    memory_enforce = none;
    network_ingress = none;
    network_egress = none;
  };
  network = github ∷ [];
}

abbrev reply : Reply
reply = record {
  output = codes "running\n";
  code = pos 0;
  subnet = record { gateway = 167838209; prefix_len = 24 };
  ca_cert = codes "PEM";
}

-- Every call succeeds.
abbrev answers : History Call (Answer ℕ) → Call → Answer ℕ
answers _ _ = ok reply

-- The instance does not start.
abbrev stays_down : History Call (Answer ℕ) → Call → Answer ℕ
stays_down _ (Call.start _) = err 7
stays_down _ _ = ok reply

abbrev turns : List Bool
turns = true ∷ false ∷ true ∷ []

abbrev no_files : FilePath → Bool
no_files _ = false

fails :
    (run stays_down (launch config turns no_files true) []).0
    ≡ err (backend (codes "failed to start instance") 7)
unfolding run launch
fails = refl

launch_err_example :
    held (codes "inst") (codes "br-1") (run stays_down (launch config turns no_files true) []).1
    ≡ nothing_held
unfolding held
launch_err_example =
    launch_err ℕ config refl stays_down turns no_files true [] refl
      (backend (codes "failed to start instance") 7) fails

launch-close_example :
    held
      (codes "inst")
      (codes "br-1")
      (run answers (bind (launch config turns no_files true) close) []).1
    ≡ nothing_held
unfolding held
launch-close_example = launch-close ℕ config refl answers turns no_files true [] refl

wait_ready_iff_example : ((run answers (wait_ready (codes "inst") 60) []).0 ≡ true) ↔ (
    (k : ℕ) × (k < 60)
    × (says_running (answers (after answers (codes "inst") k []) (state_call (codes "inst")))
        ≡ true))
wait_ready_iff_example = wait_ready_iff answers (codes "inst") 60 []

parents :
    mount_parents home config.mounts config.mounts []
    ≡ (root ∷ codes "home" ∷ codes "dev" ∷ codes "src" ∷ []) ∷ []
unfolding mount_parents ancestors path_beq strip_path path_starts_with is_target text_beq insert
parents = refl

found :
    (run answers (resolve_secrets true (github ∷ []) []) []).0
    ≡ ok ((codes "token", codes "running\n") ∷ [])
unfolding run resolve_secrets
found = refl

resolve_secrets-AreKnown_example : AreKnown ((codes "token", codes "running\n") ∷ []) (github ∷ [])
resolve_secrets-AreKnown_example =
    resolve_secrets-AreKnown ℕ answers true (github ∷ []) ((codes "token", codes "running\n") ∷ [])
      [] found

abbrev made : Initialized
made = record {
  guard = guard_of config;
  isolation = record {
    proxy_port = proxy_port;
    gateway_ip = v4 167838209;
    bridge_guard = codes "br-1";
  };
  ca_cert = codes "PEM";
}

initialized : (run answers (init config turns no_files true) []).0 ≡ ok made
unfolding run init
initialized = refl

devices-init_example :
    devices (codes "inst") (run answers (init config turns no_files true) []).1
    ≡ devices {E = ℕ} (codes "inst") []
      ++ (mount_disks config no_files 0 config.mounts ++ extra_devices 0 [])
devices-init_example = devices-init ℕ config answers turns no_files true [] made initialized

abbrev up : Running
up = record {
  guard = guard_of config;
  isolation = made.isolation;
  proxy_gateway = codes "10.1.2.1";
  proxy_port = proxy_port;
}

started : (run answers (start {E = ℕ} config made) []).0 ≡ ok up
unfolding run start trim text_beq show_ip show_ipv4 ancestors path_beq path_starts_with strip_path
    is_target insert
started = refl

start_trusts_example :
    stage config (codes "PEM") (run answers (start {E = ℕ} config made) []).1 ≡ trusted
start_trusts_example = start_trusts ℕ config made answers [] up started
