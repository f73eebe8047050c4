-- ===== src/Lxd/Bridge/Kept.antt =====
-- A bridge that is to be kept: no guard of network.rs deletes anything.
use celily.Prelude.{ℕ, suc, ◌≡◌, refl, ◌∙◌, Bool, true, List, [], ◌∷◌}
use celily.Prelude.Text.{Text}
use celily.Prelude.Fallible.{Result, ok, err}
use celily.Effects.{run, bind, exec}
use celily.Effects.Runs.{
  run-bind, Every, Every->>=, Every-or_drop, Every-map, run_unchanged, run-Ends,
}
use celily.Backend.Subnet.{BridgeSubnet}
use celily.Network.Params.{CreateBridgeParams}
use celily.Validate.ExtTransport.{CommandError}
use celily.Lxd.Bridge.{
  Command, create_network, delete_network, create_acl, delete_acl, Answer, get_network_ipv4,
  LxdBridgeGuard, drop_bridge, drop_acl, drop_guard, create_acl_guard, create_bridge,
}
use celily.Lxd.Bridge.Owed.{Log, Keeps}
use celily.Lxd.Bridge.Cleanup.{
  acl_body, body, acl_body-Every, close, create_bridge-IsGuard, IsGuard,
}

unfoldable pub deletions : Log → ℕ
deletions [] = 0
deletions ((delete_network _, _) ∷ h) = suc (deletions h)
deletions ((delete_acl _, _) ∷ h) = suc (deletions h)
deletions (_ ∷ h) = deletions h

abbrev DeletesNothing : Command → Type 0
DeletesNothing (delete_network _) = ⊥
DeletesNothing (delete_acl _) = ⊥
DeletesNothing _ = Unit {0}

deletions_kept :
    (c : Command) (r : Answer) (h : Log) → DeletesNothing c → deletions ((c, r) ∷ h) ≡ deletions h
unfolding deletions
deletions_kept (Command.create_network _) r h k = refl
deletions_kept (Command.delete_network _) r h k = elim k [ ]
deletions_kept (Command.get_ipv4_address _) r h k = refl
deletions_kept (Command.egress_reject _) r h k = refl
deletions_kept (Command.set_dnsmasq _ _) r h k = refl
deletions_kept (Command.attach_acl _ _) r h k = refl
deletions_kept (Command.create_acl _) r h k = refl
deletions_kept (Command.delete_acl _) r h k = elim k [ ]
deletions_kept (Command.add_acl_rule _ _) r h k = refl

Keeps-DeletesNothing : (c : Command) → Keeps c → DeletesNothing c
Keeps-DeletesNothing (Command.create_network _) k = tt
Keeps-DeletesNothing (Command.delete_network _) k = elim k.0 [ ]
Keeps-DeletesNothing (Command.get_ipv4_address _) k = tt
Keeps-DeletesNothing (Command.egress_reject _) k = tt
Keeps-DeletesNothing (Command.set_dnsmasq _ _) k = tt
Keeps-DeletesNothing (Command.attach_acl _ _) k = tt
Keeps-DeletesNothing (Command.create_acl _) k = tt
Keeps-DeletesNothing (Command.delete_acl _) k = elim k.1 [ ]
Keeps-DeletesNothing (Command.add_acl_rule _ _) k = tt

module _ (schedule : List Bool) (name : Text) (params : CreateBridgeParams)
    (kept : params.keep ≡ true) where
  create_bridge-Every : Every DeletesNothing (create_bridge schedule name params)
  unfolding create_bridge create_acl_guard get_network_ipv4 drop_acl drop_bridge
  create_bridge-Every =
      Every->>= DeletesNothing (exec (create_network name)) _ (tt, λ _. tt)
        (λ _.
          Every-or_drop DeletesNothing (body schedule name params) _
            (Every->>= DeletesNothing (get_network_ipv4 name) _ (tt, λ _. tt)
              (λ subnet.
                Every->>= DeletesNothing (exec (create_acl name)) _ (tt, λ _. tt)
                  (λ _.
                    Every-or_drop DeletesNothing (acl_body schedule name params subnet) _
                      (Every-map Keeps DeletesNothing Keeps-DeletesNothing _
                        (acl_body-Every schedule name params subnet))
                      (rw kept tt))))
            (rw kept tt))

  deletions-close :
      (world : Log → Command → Answer) (x : Result CommandError (LxdBridgeGuard × BridgeSubnet))
      (h : Log)
      → IsGuard name params x
      → deletions (run world (close x) h).1 ≡ deletions h
  unfolding run bind drop_guard drop_acl drop_bridge
  deletions-close world (err e) h g = refl
  deletions-close world (ok (guard, subnet)) h g = rw (g, kept) refl

  -- If the bridge is to be kept, no command of create_bridge, of its error paths or of the drop of
  -- its guard deletes a network or an ACL.
  pub create_bridge_kept :
      (world : Log → Command → Answer) (h : Log)
      → deletions (run world (bind (create_bridge schedule name params) close) h).1 ≡ deletions h
  create_bridge_kept world h = rw (run-bind world (create_bridge schedule name params) close h) (
      deletions-close world (run world (create_bridge schedule name params) h).0
        (run world (create_bridge schedule name params) h).1
        (run-Ends (IsGuard name params) world (create_bridge schedule name params) h
          (create_bridge-IsGuard schedule name params))
      ∙ run_unchanged DeletesNothing deletions deletions_kept world
          (create_bridge schedule name params) h create_bridge-Every)
