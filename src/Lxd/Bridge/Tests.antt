-- ===== src/Lxd/Bridge/Tests.antt =====
-- Runs of `create_bridge` against a daemon that answers, and one that fails.
use celily.Prelude.{◌≡◌, refl, Bool, true, false, some, List, [], ◌∷◌}
use celily.Prelude.Text.{Text, codes, text_beq}
use celily.Prelude.Fallible.{ok, err}
use celily.Prelude.Text.Trim.{trim}
use celily.Prelude.Text.Split.{split_once}
use celily.Prelude.Text.Decimal.{parse_uint, parse_digits}
use celily.Effects.{run, bind}
use celily.Backend.Subnet.{BridgeSubnet, parse_ipv4, show_ipv4}
use celily.Network.Rule.{NetworkRule, v4}
use celily.Network.Params.{CreateBridgeParams, to_create_bridge_params}
use celily.Validate.ExtTransport.{other}
use celily.Lxd.Acl.{build_rules_from_params}
use celily.Lxd.Bridge.{Command, attach_acl, get_ipv4_address, Answer, create_bridge}
use celily.Lxd.Bridge.Owed.{Log, network_owed, acl_owed}
use celily.Lxd.Bridge.State.{network_state, acl_state}
use celily.Lxd.Bridge.Network.{isolated}
use celily.Lxd.Bridge.Isolated.{create_bridge_isolates}
use celily.Lxd.Bridge.Cleanup.{guard_of, close, create_bridge_err, create_bridge-close}

abbrev mail : List NetworkRule
mail = NetworkRule.tcp (v4 16843009) (25 ∷ 587 ∷ []) ∷ []

abbrev params : CreateBridgeParams
params = to_create_bridge_params mail false

abbrev turns : List Bool
turns = true ∷ false ∷ []

-- Every command succeeds.
abbrev answers : Log → Command → Answer
answers _ (get_ipv4_address _) = ok (codes "10.1.2.1/24\n")
answers _ _ = ok []

-- The ACL cannot be attached.
abbrev refuses : Log → Command → Answer
refuses _ (get_ipv4_address _) = ok (codes "10.1.2.1/24\n")
refuses _ (attach_acl _ _) = err other
refuses _ _ = ok []

abbrev br : Text
br = codes "br-1"

abbrev subnet : BridgeSubnet
subnet = record { gateway = 167838209; prefix_len = 24 }

made : (run answers (create_bridge turns br params) []).0 ≡ ok (guard_of br params, subnet)
unfolding run create_bridge trim text_beq split_once parse_uint parse_ipv4 parse_digits show_ipv4
    to_create_bridge_params
made = refl

failed : (run refuses (create_bridge turns br params) []).0 ≡ err other
unfolding run create_bridge trim text_beq split_once parse_uint parse_ipv4 parse_digits show_ipv4
    to_create_bridge_params
failed = refl

create_bridge_isolates_example :
    let h : Log = (run answers (create_bridge turns br params) []).1 in
    (network_state br h ≡ some (isolated br params subnet))
    × (acl_state br h ≡ some (build_rules_from_params params (show_ipv4 subnet.gateway)))
create_bridge_isolates_example =
    create_bridge_isolates answers turns br params [] (guard_of br params) subnet made

create_bridge_err_example :
    let h : Log = (run refuses (create_bridge turns br params) []).1 in
    (network_owed br h ≡ true → network_owed br [] ≡ true)
    × (acl_owed br h ≡ true → acl_owed br [] ≡ true)
unfolding to_create_bridge_params
create_bridge_err_example = create_bridge_err refuses turns br params refl br [] other failed

create_bridge-close_example :
    let h : Log = (run answers (bind (create_bridge turns br params) close) []).1 in
    (network_owed br h ≡ true → network_owed br [] ≡ true)
    × (acl_owed br h ≡ true → acl_owed br [] ≡ true)
unfolding to_create_bridge_params
create_bridge-close_example = create_bridge-close answers turns br params refl br []
