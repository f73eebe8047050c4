-- ===== src/Lxd/Bridge/State.antt =====
-- The settings that are left by the commands on networks and ACLs that succeeded, for one name: the
-- last value that was set for each, and the rules that were added, in order.
use celily.Prelude.{
  ◌≡◌, refl, Bool, true, false, Option, none, some, List, [], ◌∷◌, ◌++◌, ◌==◌, if◌then◌else◌,
}
use celily.Prelude.Text.{Text, text_eq}
use celily.Prelude.Fallible.{ok, err}
use celily.Lxd.Acl.{NetworkAclRule}
use celily.Lxd.Bridge.{
  Command, create_network, delete_network, egress_reject, set_dnsmasq, attach_acl, create_acl,
  delete_acl, add_acl_rule, Answer,
}
use celily.Lxd.Bridge.Owed.{Log}

pub record Network : Type 0 where
  pub raw_dnsmasq : Option Text
  pub rejects : Bool
  pub security_acls : Option Text

abbrev pub new_network : Network
new_network = record { raw_dnsmasq = none; rejects = false; security_acls = none }

abbrev set : (Network → Network) → Option Network → Option Network
set f none = none
set f (some network) = some (f network)

abbrev add : NetworkAclRule → Option (List NetworkAclRule) → Option (List NetworkAclRule)
add rule none = none
add rule (some rules) = some (rules ++ rule ∷ [])

unfoldable pub network_change : Text → Command → Option Network → Option Network
network_change name (create_network n) s = if n == name then some new_network else s
network_change name (delete_network n) s = if n == name then none else s
network_change name (egress_reject n) s =
    if n == name then set (λ x. record x { rejects = true }) s else s
network_change name (set_dnsmasq n dnsmasq) s =
    if n == name then set (λ x. record x { raw_dnsmasq = some dnsmasq }) s else s
network_change name (attach_acl n acl) s =
    if n == name then set (λ x. record x { security_acls = some acl }) s else s
network_change name _ s = s

unfoldable pub acl_change :
    Text → Command → Option (List NetworkAclRule) → Option (List NetworkAclRule)
acl_change name (create_acl n) s = if n == name then some [] else s
acl_change name (delete_acl n) s = if n == name then none else s
acl_change name (add_acl_rule n rule) s = if n == name then add rule s else s
acl_change name _ s = s

-- A command that fails changes nothing.
abbrev pub on_success : {S : Type 0} → (Command → S → S) → Command → Answer → S → S
on_success change c (ok _) s = change c s
on_success change c (err _) s = s

-- A command that changes nothing when it succeeds changes nothing.
pub on_success_idle :
    {S : Type 0} (change : Command → S → S) (c : Command)
    → ((s : S) → change c s ≡ s)
    → (r : Answer) (s : S) → on_success change c r s ≡ s
on_success_idle change c same (ok _) s = same s
on_success_idle change c same (err _) s = refl

abbrev pub network_step : Text → Command → Answer → Option Network → Option Network
network_step name = on_success (network_change name)

abbrev pub acl_step :
    Text → Command → Answer → Option (List NetworkAclRule) → Option (List NetworkAclRule)
acl_step name = on_success (acl_change name)

-- The state after a history.
unfoldable pub network_state : Text → Log → Option Network
network_state name [] = none
network_state name ((c, r) ∷ h) = network_step name c r (network_state name h)

unfoldable pub acl_state : Text → Log → Option (List NetworkAclRule)
acl_state name [] = none
acl_state name ((c, r) ∷ h) = acl_step name c r (acl_state name h)
