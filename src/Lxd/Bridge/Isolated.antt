-- ===== src/Lxd/Bridge/Isolated.antt =====
-- The bridge that `create_bridge` promises: a network that rejects what its ACL does not allow.
use celily.Prelude.{◌≡◌, refl, Bool, some, List}
use celily.Prelude.Text.{Text, text_eq}
use celily.Prelude.Fallible.{ok}
use celily.Effects.{run}
use celily.Effects.Reaches.{run-Reaches}
use celily.Backend.Subnet.{BridgeSubnet, show_ipv4}
use celily.Network.Params.{CreateBridgeParams}
use celily.Lxd.Acl.{build_rules_from_params}
use celily.Lxd.Bridge.{Command, Answer, LxdBridgeGuard, create_bridge}
use celily.Lxd.Bridge.Owed.{Log}
use celily.Lxd.Bridge.State.{network_step, acl_step, network_state, acl_state}
use celily.Lxd.Bridge.Network.{isolated, IsNetwork, create_bridge-IsNetwork}
use celily.Lxd.Bridge.Rules.{IsAcl, create_bridge-IsAcl}

-- Whatever the daemon answers, and however the two concurrent parts take turns, if create_bridge
-- succeeds then the commands that succeeded have left the network of that name with the egress
-- default reject, with its ACL attached and with the DNS settings of the gateway, and the ACL with
-- the rules of the parameters in their order, and no others.
pub create_bridge_isolates :
    (world : Log → Command → Answer) (schedule : List Bool) (name : Text)
    (params : CreateBridgeParams) (h : Log) (guard : LxdBridgeGuard) (subnet : BridgeSubnet)
    → (run world (create_bridge schedule name params) h).0 ≡ ok (guard, subnet)
    → let h' : Log = (run world (create_bridge schedule name params) h).1 in
      (network_state name h' ≡ some (isolated name params subnet))
      × (acl_state name h' ≡ some (build_rules_from_params params (show_ipv4 subnet.gateway)))
unfolding network_state acl_state
create_bridge_isolates world schedule name params h guard subnet e = (
  rw e at (
      run-Reaches (network_step name) (IsNetwork name params) (network_state name) (λ _ _ _. refl)
        world (create_bridge schedule name params) h
        (create_bridge-IsNetwork schedule name params (network_state name h))),
  rw e at (
      run-Reaches (acl_step name) (IsAcl name params) (acl_state name) (λ _ _ _. refl) world
        (create_bridge schedule name params) h
        (create_bridge-IsAcl schedule name params (acl_state name h))),
)
