-- ===== src/Lxd/Bridge/Cleanup.antt =====
-- The guards of network.rs: what a bridge that could not be made, or is dropped, leaves behind.
use celily.Prelude.{◌≡◌, refl, Bool, true, false, List, if◌then◌else◌, arith}
use celily.Prelude.Text.{Text}
use celily.Prelude.Fallible.{Result, ok, err}
use celily.Effects.{done, ask, run, bind, exec, lift, ◌>>=◌, ◌>>◌}
use celily.Effects.Runs.{
  run-bind, Every, Every->>=, Every-or_drop, Every-map, Ends, Ends->>=, Ends-or_drop, run-Ends,
  run_unchanged,
}
use celily.Backend.Subnet.{BridgeSubnet, show_ipv4}
use celily.Network.Params.{CreateBridgeParams}
use celily.Lxd.Acl.{build_rules_from_params}
use celily.Validate.ExtTransport.{CommandError}
use celily.Lxd.Bridge.{
  Command, create_network, Answer, Lxd, get_network_ipv4, LxdBridge, NetworkAcl, create_acl,
  delete_acl, delete_network, LxdBridgeGuard, Drop, drop_bridge, drop_acl, drop_guard, configure,
  build_dnsmasq_config, create_acl_guard, create_bridge,
}
use celily.Lxd.Bridge.Owed.{
  Log, network_owed, acl_owed, KeepsNetworks, KeepsAcls, Keeps, network_owed_kept, acl_owed_kept,
  configure-Every, Settled, guarded-Settled, >>=-Settled, or_drop-Settled, acl_owed_same,
  drop_bridge-owed, drop_acl-owed, drop_guard-owed,
}

abbrev pub bridge_of : Text → CreateBridgeParams → LxdBridge
bridge_of name params = record { name = name; keep = params.keep }

abbrev pub guard_of : Text → CreateBridgeParams → LxdBridgeGuard
guard_of name params = record {
  bridge = bridge_of name params;
  acl = record { name = name; keep = params.keep };
}

-- The guard of a bridge that was made.
abbrev pub IsGuard :
    Text → CreateBridgeParams → Result CommandError (LxdBridgeGuard × BridgeSubnet) → Type 0
IsGuard name params (err _) = Unit {0}
IsGuard name params (ok (guard, _)) = guard ≡ guard_of name params

-- The end of a bridge: the guard is dropped, if there is one.
abbrev pub close : Result CommandError (LxdBridgeGuard × BridgeSubnet) → Drop
close (err _) = done tt
close (ok (guard, _)) = drop_guard guard

abbrev pub set_up : List Bool → Text → CreateBridgeParams → BridgeSubnet → Lxd (Unit {0})
set_up schedule name params subnet =
    configure schedule name (build_rules_from_params params (show_ipv4 subnet.gateway))
      (build_dnsmasq_config (show_ipv4 subnet.gateway) params.dns_port)

abbrev pub made : Text → CreateBridgeParams → BridgeSubnet → Lxd (LxdBridgeGuard × BridgeSubnet)
made name params subnet = lift (ok (guard_of name params, subnet))

abbrev pub acl_body :
    List Bool → Text → CreateBridgeParams → BridgeSubnet → Lxd (LxdBridgeGuard × BridgeSubnet)
acl_body schedule name params subnet = do
  set_up schedule name params subnet
  made name params subnet

abbrev pub body : List Bool → Text → CreateBridgeParams → Lxd (LxdBridgeGuard × BridgeSubnet)
body schedule name params = do
  subnet ← get_network_ipv4 name
  create_acl_guard schedule name params subnet

pub create_bridge-IsGuard :
    (schedule : List Bool) (name : Text) (params : CreateBridgeParams)
    → Ends (IsGuard name params) (create_bridge schedule name params)
unfolding create_bridge create_acl_guard
create_bridge-IsGuard schedule name params =
    Ends->>= (IsGuard name params) (λ _. tt) (exec (create_network name)) _
      (λ _.
        Ends-or_drop (IsGuard name params) (λ _. tt) (body schedule name params) _
          (Ends->>= (IsGuard name params) (λ _. tt) (get_network_ipv4 name) _
            (λ subnet.
              Ends->>= (IsGuard name params) (λ _. tt) (exec (create_acl name)) _
                (λ _.
                  Ends-or_drop (IsGuard name params) (λ _. tt)
                    (acl_body schedule name params subnet) _
                    (Ends->>= (IsGuard name params) (λ _. tt) (set_up schedule name params subnet)
                      (λ _. made name params subnet) (λ _. refl {a = guard_of name params}))))))

pub acl_body-Every :
    (schedule : List Bool) (name : Text) (params : CreateBridgeParams) (subnet : BridgeSubnet)
    → Every Keeps (acl_body schedule name params subnet)
acl_body-Every schedule name params subnet =
    Every->>= Keeps (set_up schedule name params subnet) (λ _. made name params subnet)
      (configure-Every schedule name _ _) (λ _. tt)

drop_acl-Every : (acl : NetworkAcl) → Every KeepsNetworks (drop_acl acl)
unfolding drop_acl
drop_acl-Every acl =
    elim acl.keep
      as (λ k.
        Every KeepsNetworks (if k then done tt else ask (delete_acl acl.name) (λ _. done tt))) [
          | true ↦ tt
          | false ↦ (tt, λ _. tt)
        ]

drop_bridge-Every : (bridge : LxdBridge) → Every KeepsAcls (drop_bridge bridge)
unfolding drop_bridge
drop_bridge-Every bridge =
    elim bridge.keep
      as (λ k.
        Every KeepsAcls (if k then done tt else ask (delete_network bridge.name) (λ _. done tt))) [
          | true ↦ tt
          | false ↦ (tt, λ _. tt)
        ]

body-Every :
    (schedule : List Bool) (name : Text) (params : CreateBridgeParams)
    → Every KeepsNetworks (body schedule name params)
unfolding get_network_ipv4 create_acl_guard
body-Every schedule name params =
    Every->>= KeepsNetworks (get_network_ipv4 name) _ (tt, λ _. tt)
      (λ subnet.
        Every->>= KeepsNetworks (exec (create_acl name)) _ (tt, λ _. tt)
          (λ _.
            Every-or_drop KeepsNetworks (acl_body schedule name params subnet) (drop_acl _)
              (Every-map Keeps KeepsNetworks (λ _ h. h.0) _
                (acl_body-Every schedule name params subnet))
              (drop_acl-Every _)))

module _ (world : Log → Command → Answer) (schedule : List Bool) (name : Text)
    (params : CreateBridgeParams) (unkept : params.keep ≡ false) where
  network-Settled :
      (r : Text) (h : Log)
      → Settled
          (network_owed r)
          (create_network name)
          h
          (run world (create_bridge schedule name params) h)
  unfolding create_bridge network_owed
  network-Settled r =
      guarded-Settled world (network_owed r) (create_network name) (body schedule name params) _
        (λ x h. refl)
        (λ h.
          run_unchanged KeepsNetworks (network_owed r) (network_owed_kept r) world _ h
            (body-Every schedule name params))
        (rw unkept (drop_bridge-owed world name r))

  acl-Settled :
      (r : Text) (h : Log)
      → Settled (acl_owed r) (create_acl name) h (run world (create_bridge schedule name params) h)
  unfolding create_bridge create_acl_guard get_network_ipv4 acl_owed run
  acl-Settled r =
      >>=-Settled world (acl_owed r) (create_acl name) (acl_owed_same r name)
        (exec (create_network name)) _ (λ h. refl)
        (λ _.
          or_drop-Settled world (acl_owed r) (create_acl name) (acl_owed_same r name)
            (body schedule name params) _
            (λ h.
              run_unchanged KeepsAcls (acl_owed r) (acl_owed_kept r) world _ h
                (drop_bridge-Every (bridge_of name params)))
            (>>=-Settled world (acl_owed r) (create_acl name) (acl_owed_same r name)
              (get_network_ipv4 name) _ (λ h. refl)
              (λ subnet.
                guarded-Settled world (acl_owed r) (create_acl name)
                  (acl_body schedule name params subnet) _ (λ x h. refl)
                  (λ h. run_unchanged KeepsAcls (acl_owed r) (acl_owed_kept r) world _ h (
                    Every-map Keeps KeepsAcls (λ _ h. h.1) _
                      (acl_body-Every schedule name params subnet)))
                  (rw unkept (drop_acl-owed world name r)))))

  -- If nothing is to be kept and create_bridge fails, at whatever command, then a network or an ACL
  -- that a command has made and that no command has asked to delete since was there in the history
  -- before the call.
  pub create_bridge_err :
      (r : Text) (h : Log) (e : CommandError)
      → (run world (create_bridge schedule name params) h).0 ≡ err e
      → let h' : Log = (run world (create_bridge schedule name params) h).1 in
        (network_owed r h' ≡ true → network_owed r h ≡ true)
        × (acl_owed r h' ≡ true → acl_owed r h ≡ true)
  create_bridge_err r h e failed =
      let n : Settled (network_owed r) (create_network name) h
          (run world (create_bridge schedule name params) h) =
        network-Settled r h in
      let a : Settled (acl_owed r) (create_acl name) h
          (run world (create_bridge schedule name params) h) =
        acl-Settled r h in
      ground (arith, n, a)

  -- If nothing is to be kept, then once create_bridge has ended and its guard, if it gave one, is
  -- dropped, a network or an ACL that a command has made and that no command has asked to delete
  -- since was there in the history before the call.
  pub create_bridge-close :
      (r : Text) (h : Log)
      → let h' : Log = (run world (bind (create_bridge schedule name params) close) h).1 in
        (network_owed r h' ≡ true → network_owed r h ≡ true)
        × (acl_owed r h' ≡ true → acl_owed r h ≡ true)
  unfolding run
  create_bridge-close r h = rw (run-bind world (create_bridge schedule name params) close h) (
      closed (run world (create_bridge schedule name params) h) (network-Settled r h)
        (acl-Settled r h)
        (run-Ends (IsGuard name params) world (create_bridge schedule name params) h
          (create_bridge-IsGuard schedule name params)))
    where
      closed :
          (x : Result CommandError (LxdBridgeGuard × BridgeSubnet) × Log)
          → Settled (network_owed r) (create_network name) h x
          → Settled (acl_owed r) (create_acl name) h x
          → IsGuard name params x.0
          → let h' : Log = (run world (close x.0) x.1).1 in
            (network_owed r h' ≡ true → network_owed r h ≡ true)
            × (acl_owed r h' ≡ true → acl_owed r h ≡ true)
      closed (err e, l) n a g = (n, a)
      closed (ok (guard, subnet), l) n a g =
          rw (g, unkept) (drop_guard-owed world name r n.0 a.0 h l n.1 a.1)
