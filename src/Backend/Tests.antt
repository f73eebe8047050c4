-- ===== src/Backend/Tests.antt =====
-- Runs of the subnet's tests, parser and printer.
use celily.Prelude.{◌+◌, ◌*◌, ◌^◌, ◌≡◌, ◌≢◌, ◌↔◌, refl, true, some, arith}
use celily.Prelude.Text.{codes}
use celily.Network.Rule.{v4}
use celily.Backend.Subnet.{BridgeSubnet, has_instance, parse_ipv4, show_ipv4}
use celily.Backend.Subnet.Members.{SameSubnet, IsSubnet, has_instance_iff}
use celily.Backend.Subnet.Parse.{parse_ipv4-show_ipv4}

abbrev home : BridgeSubnet
home = record { gateway = 10 * 2 ^ 24 + 1; prefix_len = 24 }

home-IsSubnet : IsSubnet home
home-IsSubnet = record { gateway_fits = omega arith; prefix_fits = omega arith }

has_instance_iff_example :
    (has_instance home (v4 (10 * 2 ^ 24 + 7)) ≡ true)
    ↔ ((10 * 2 ^ 24 + 7 ≢ 10 * 2 ^ 24 + 1) × SameSubnet home (10 * 2 ^ 24 + 7))
has_instance_iff_example = has_instance_iff home (10 * 2 ^ 24 + 7) home-IsSubnet (omega arith)

parse_ipv4-show_ipv4_example : parse_ipv4 (show_ipv4 (10 * 2 ^ 24 + 1)) ≡ some (10 * 2 ^ 24 + 1)
parse_ipv4-show_ipv4_example = parse_ipv4-show_ipv4 (10 * 2 ^ 24 + 1) (omega arith)

printed : show_ipv4 (10 * 2 ^ 24 + 1) ≡ codes "10.0.0.1"
unfolding show_ipv4
printed = refl
