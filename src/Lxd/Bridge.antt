-- ===== src/Lxd/Bridge.antt =====
-- celily-lib/src/backend/lxd/network.rs and bridge.rs, and the guards of acl.rs: a bridge of one
-- instance with its ACL, made by commands that may fail.
pub mod Owed
pub mod Cleanup
pub mod Kept
pub mod State
pub mod Network
pub mod Rules
pub mod Isolated
mod Tests
use celily.Prelude.{ℕ, Bool, true, false, Option, none, some, List, [], ◌∷◌, ◌++◌, if◌then◌else◌}
use celily.Prelude.Text.{Text, codes}
use celily.Prelude.Text.Trim.{trim}
use celily.Prelude.Text.Decimal.{to_string}
use celily.Prelude.Fallible.{Result, ok, err}
use celily.Effects.{Program, done, ask, Action, bind, join, or_drop, exec, ◌>>=◌, ◌>>◌, lift}
use celily.Backend.Subnet.{BridgeSubnet, parse, show_ipv4}
use celily.Network.Params.{CreateBridgeParams}
use celily.Validate.ExtTransport.{CommandError, other}
use celily.Lxd.Acl.{NetworkAclRule, rule_to_cli_args, build_rules_from_params}
use celily.Lxd.Instance.{LxcBackend, flag}

-- What is asked of the daemon about networks and ACLs.
pub data Command : Type 0 where
  create_network delete_network get_ipv4_address egress_reject : Text → Command
  set_dnsmasq attach_acl : Text → Text → Command
  create_acl delete_acl : Text → Command
  add_acl_rule : Text → NetworkAclRule → Command

-- The arguments of each command.
unfoldable pub args : Command → List Text
args (create_network name) =
    codes "network" ∷ codes "create" ∷ name ∷ codes "--type" ∷ codes "bridge" ∷ []
args (delete_network name) = codes "network" ∷ codes "delete" ∷ name ∷ []
args (get_ipv4_address name) = codes "network" ∷ codes "get" ∷ name ∷ codes "ipv4.address" ∷ []
args (set_dnsmasq name dnsmasq) =
    codes "network" ∷ codes "set" ∷ name ∷ (codes "raw.dnsmasq=" ++ dnsmasq) ∷ []
args (attach_acl net acl) =
    codes "network" ∷ codes "set" ∷ net ∷ (codes "security.acls=" ++ acl) ∷ []
args (egress_reject name) =
    codes "network" ∷ codes "set" ∷ name ∷ codes "security.acls.default.egress.action=reject" ∷ []
args (create_acl name) = codes "network" ∷ codes "acl" ∷ codes "create" ∷ name ∷ []
args (delete_acl name) = codes "network" ∷ codes "acl" ∷ codes "delete" ∷ name ∷ []
args (add_acl_rule acl rule) =
    codes "network" ∷ codes "acl" ∷ codes "rule" ∷ codes "add" ∷ acl ∷ rule_to_cli_args rule

-- `lxc_command`: the program, then the remote.
unfoldable pub lxc_command : LxcBackend → List Text
lxc_command backend = backend.binary ∷ flag (codes "--remote") backend.remote

unfoldable pub command_line : LxcBackend → Command → List Text
unfolding lxc_command args
command_line backend command = lxc_command backend ++ args command

-- The daemon answers with the output, or the command fails.
abbrev pub Answer : Type 0
Answer = Result CommandError Text

abbrev pub Lxd : Type 0 → Type 0
Lxd A = Action Command Answer CommandError A

-- `get_network_ipv4`
unfoldable pub get_network_ipv4 : Text → Lxd BridgeSubnet
unfolding parse trim
get_network_ipv4 name = ask (get_ipv4_address name) (λ answer. done (elim answer [
  | err e ↦ err e
  | ok raw ↦ elim (parse (trim raw)) [ none ↦ err other | some subnet ↦ ok subnet ]
]))

-- `NetworkAcl::add_rules`, in order, up to the first that fails
unfoldable pub add_rules : Text → List NetworkAclRule → Lxd (Unit {0})
unfolding bind
add_rules acl [] = lift (ok tt)
add_rules acl (rule ∷ rules) = do exec (add_acl_rule acl rule); add_rules acl rules

-- The guards of a network and of an ACL.
pub record LxdBridge : Type 0 where
  pub name : Text
  pub keep : Bool

pub record NetworkAcl : Type 0 where
  pub name : Text
  pub keep : Bool

pub record LxdBridgeGuard : Type 0 where
  pub bridge : LxdBridge
  pub acl : NetworkAcl

abbrev pub Drop : Type 0
Drop = Program Command Answer (Unit {0})

-- A deletion that fails is only reported.
unfoldable pub drop_bridge : LxdBridge → Drop
drop_bridge bridge =
    if bridge.keep then done tt else ask (delete_network bridge.name) (λ _. done tt)

unfoldable pub drop_acl : NetworkAcl → Drop
drop_acl acl = if acl.keep then done tt else ask (delete_acl acl.name) (λ _. done tt)

-- The fields of the guard are dropped in the order of their declaration.
unfoldable pub drop_guard : LxdBridgeGuard → Drop
unfolding bind drop_bridge drop_acl
drop_guard guard = bind (drop_bridge guard.bridge) (λ _. drop_acl guard.acl)

-- No upstream resolver and no cache: every query goes to the DNS proxy on the gateway.
unfoldable pub build_dnsmasq_config : Text → ℕ → Text
build_dnsmasq_config gateway_ip dns_port =
    codes "no-resolv\nno-poll\ncache-size=0\nserver="
    ++ (gateway_ip ++ b'#' ∷ (to_string dns_port ++ codes "\n"))

-- What follows the rules and the DNS settings; the error of the rules comes first.
abbrev pub finish :
    Text → Result CommandError (Unit {0}) × Result CommandError (Unit {0}) → Lxd (Unit {0})
finish name (acl_result, dnsmasq_result) = do
  lift acl_result
  lift dnsmasq_result
  exec (egress_reject name)
  exec (attach_acl name name)

-- The rules and the DNS settings are set at once.
unfoldable pub configure : List Bool → Text → List NetworkAclRule → Text → Lxd (Unit {0})
unfolding bind join add_rules
configure schedule name rules dnsmasq = do
  both ←
      bind (join schedule (add_rules name rules) (exec (set_dnsmasq name dnsmasq)))
        (λ both. lift (ok both))
  finish name both

-- The second half of `create_bridge`: the ACL, under its guard.
unfoldable pub create_acl_guard :
    List Bool → Text → CreateBridgeParams → BridgeSubnet → Lxd (LxdBridgeGuard × BridgeSubnet)
unfolding bind or_drop drop_acl configure build_rules_from_params build_dnsmasq_config
create_acl_guard schedule name params subnet =
    let acl : NetworkAcl = record { name = name; keep = params.keep } in
    do
      exec (create_acl name)
      or_drop
          (do
            configure schedule name (build_rules_from_params params (show_ipv4 subnet.gateway))
                (build_dnsmasq_config (show_ipv4 subnet.gateway) params.dns_port)
            lift (
                ok (
                  record { bridge = record { name = name; keep = params.keep }; acl = acl },
                  subnet,
                )))
          (drop_acl acl)

-- `create_bridge`, on each schedule of its two concurrent parts.
unfoldable pub create_bridge :
    List Bool → Text → CreateBridgeParams → Lxd (LxdBridgeGuard × BridgeSubnet)
unfolding bind or_drop drop_bridge get_network_ipv4 create_acl_guard
create_bridge schedule name params = do
  exec (create_network name)
  or_drop (do subnet ← get_network_ipv4 name; create_acl_guard schedule name params subnet)
      (drop_bridge (record { name = name; keep = params.keep }))
