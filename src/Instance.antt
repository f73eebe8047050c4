-- ===== src/Instance.antt =====
-- celily-lib/src/instance: an instance from its configuration to the command that runs in it. The
-- calls of the traits of celily-lib/src/backend/mod.rs and secrets/mod.rs, and of the proxy.
pub mod Isolation
pub mod Held
pub mod Secrets
pub mod Teardown
pub mod Launched
pub mod Started
pub mod Lifetime
pub mod Ready
pub mod Trusted
pub mod Parents
pub mod Devices
mod Tests
pub mod Init
pub mod Start
use celily.Prelude.{ℕ, ℤ, Bool, true, false, Option, none, some, List, if◌then◌else◌}
use celily.Prelude.Text.{Text, codes}
use celily.Prelude.Fallible.{Result, ok, err, map_err}
use celily.Paths.{FilePath}
use celily.Backend.Mount.{Mount}
use celily.Backend.Subnet.{BridgeSubnet}
use celily.Network.Rule.{NetworkRule, IpAddr}
use celily.Network.Params.{CreateBridgeParams}
use celily.Lxd.Instance.{Device, InstanceConfig}
use celily.Effects.{Program, done, ask, Action, bind, ◌>>=◌, lift}

pub data Call : Type 0 where
  create : Text → InstanceConfig → Call
  start delete : Text → Call
  add_device : Text → Text → Device → Call
  attach_to_bridge : Text → Text → Option Text → Option Text → Call
  set_description : Text → Text → Call
  exec_stdout : Text → List Text → Call
  exec :
      Text
      → List Text
      → List (Text × Text)
      → FilePath
      → ℕ
      → ℕ
      → Option FilePath
      → Option Text
      → Call
  write_file : Text → Text → Text → Text → ℕ → ℕ → Call
  create_bridge : Text → CreateBridgeParams → Call
  drop_bridge : Text → Call
  resolve : Text → Call
  start_proxy : Text → BridgeSubnet → List NetworkRule → List (Text × Text) → Call
  drop_proxy : Text → Call

-- What a call that succeeds gives back: each call has one of these, or nothing.
pub record Reply : Type 0 where
  pub output : Text
  pub code : ℤ
  pub subnet : BridgeSubnet
  pub ca_cert : Text

pub data NetworkError (E : Type 0) : Type 0 where
  bridge_failed : E → NetworkError E
  proxy_failed : E → NetworkError E
  secret_failed : E → NetworkError E
  no_provider : Text → NetworkError E

-- `InstanceError`
pub data InstanceError (E : Type 0) : Type 0 where
  backend : Text → E → InstanceError E
  network_failed : NetworkError E → InstanceError E
  timeout : Text → InstanceError E

pub data InstanceKind : Type 0 where
  container vm : InstanceKind

pub data DistroKind : Type 0 where
  arch : DistroKind

abbrev pub ca_cert_anchors_dir : DistroKind → Text
ca_cert_anchors_dir arch = codes "/etc/ca-certificates/trust-source/anchors"

abbrev pub rebuild_trust_store_command : DistroKind → Text
rebuild_trust_store_command arch = codes "update-ca-trust"

pub record Limits : Type 0 where
  pub cpu : ℕ
  pub memory : Text
  pub disk : Text
  pub processes : ℤ
  pub disk_priority : Option ℕ
  pub memory_enforce : Option Text
  pub network_ingress : Option Text
  pub network_egress : Option Text

pub record LaunchConfig : Type 0 where
  pub image : Text
  pub name : Text
  pub bridge_name : Text
  pub kind : InstanceKind
  pub distro : DistroKind
  pub mounts : List Mount
  pub extra_devices : List Device
  pub container_uid : ℕ
  pub container_gid : ℕ
  pub exec_uid : ℕ
  pub exec_gid : ℕ
  pub container_home : FilePath
  pub raw_idmap : Option Text
  pub security_nesting : Bool
  pub secure_boot : Bool
  pub ephemeral : Bool
  pub keep : Bool
  pub description : Text
  pub limits : Limits
  pub network : List NetworkRule

-- The guard of an instance, and the guards of its proxy and its bridge.
pub record InstanceGuard : Type 0 where
  pub name : Text
  pub keep : Bool

pub record NetworkIsolation : Type 0 where
  pub proxy_port : ℕ
  pub gateway_ip : IpAddr
  pub bridge_guard : Text

pub record Initialized : Type 0 where
  pub guard : InstanceGuard
  pub isolation : NetworkIsolation
  pub ca_cert : Text

pub record Running : Type 0 where
  pub guard : InstanceGuard
  pub isolation : NetworkIsolation
  pub proxy_gateway : Text
  pub proxy_port : ℕ

abbrev pub Answer : Type 0 → Type 0
Answer E = Result E Reply

abbrev pub Drop : Type 0 → Type 0
Drop E = Program Call (Answer E) (Unit {0})

abbrev pub Step : Type 0 → Type 0 → Type 0
Step E A = Action Call (Answer E) (InstanceError E) A

module _ {E : Type 0} where
  -- A call and the error that it is reported as.
  abbrev pub request : {F : Type 0} → (E → F) → Call → Action Call (Answer E) F Reply
  request report call = ask call (λ answer. done (map_err report answer))

  -- A call for its effect, under the context of its error.
  abbrev pub do_call : Text → Call → Step E (Unit {0})
  do_call context call = request (backend context) call >>= λ _. lift (ok tt)

  -- `InstanceGuard::drop`
  unfoldable pub drop_instance : InstanceGuard → Drop E
  drop_instance guard = if guard.keep then done tt else ask (Call.delete guard.name) (λ _. done tt)

  -- The proxy is dropped first, then the bridge.
  unfoldable pub drop_isolation : NetworkIsolation → Drop E
  drop_isolation isolation =
      ask (Call.drop_proxy isolation.bridge_guard)
        (λ _. ask (Call.drop_bridge isolation.bridge_guard) (λ _. done tt))

  -- The states of an instance drop the instance first, then its isolation.
  unfoldable pub drop_initialized : Initialized → Drop E
  unfolding bind drop_instance drop_isolation
  drop_initialized state = bind (drop_instance state.guard) (λ _. drop_isolation state.isolation)

  unfoldable pub drop_running : Running → Drop E
  unfolding bind drop_instance drop_isolation
  drop_running state = bind (drop_instance state.guard) (λ _. drop_isolation state.isolation)
