-- ===== src/Lxd/Acl.antt =====
-- celily-lib/src/backend/lxd/acl.rs: the rules of the bridge's egress ACL and their arguments.
pub mod Egress
use celily.Prelude.{ℕ, ◌≡◌, Bool, true, false, Option, none, some, List, [], ◌∷◌, ◌++◌, map}
use celily.Prelude.Text.{Text, codes}
use celily.Prelude.Text.Split.{join}
use celily.Prelude.Text.Decimal.{to_string}
use celily.Backend.Address.{show_ip}
use celily.Network.Params.{TcpAllow, CreateBridgeParams}

pub data Direction : Type 0 where
  ingress egress : Direction

pub data Action : Type 0 where
  allow deny reject : Action

pub data Protocol : Type 0 where
  tcp udp icmp icmp6 : Protocol

-- An absent field matches anything.
pub record NetworkAclRule : Type 0 where
  pub direction : Direction
  pub action : Action
  pub protocol : Option Protocol
  pub source : Option Text
  pub destination : Option Text
  pub source_port : Option Text
  pub destination_port : Option Text

unfoldable pub show_direction : Direction → Text
show_direction Direction.ingress = codes "ingress"
show_direction Direction.egress = codes "egress"

unfoldable pub show_action : Action → Text
show_action Action.allow = codes "allow"
show_action Action.deny = codes "deny"
show_action Action.reject = codes "reject"

unfoldable pub show_protocol : Protocol → Text
show_protocol Protocol.tcp = codes "tcp"
show_protocol Protocol.udp = codes "udp"
show_protocol Protocol.icmp = codes "icmp"
show_protocol Protocol.icmp6 = codes "icmp6"

-- `key=value`, if there is a value
abbrev pub key_arg : Text → Option Text → List Text
key_arg key none = []
key_arg key (some value) = (key ++ (codes "=" ++ value)) ∷ []

abbrev pub protocol_text : Option Protocol → Option Text
protocol_text none = none
protocol_text (some p) = some (show_protocol p)

-- The arguments for `lxc network acl rule add`.
unfoldable pub rule_to_cli_args : NetworkAclRule → List Text
unfolding show_direction show_action show_protocol
rule_to_cli_args rule =
    show_direction rule.direction
    ∷ (codes "action=" ++ show_action rule.action)
    ∷ (key_arg (codes "protocol") (protocol_text rule.protocol)
        ++ (key_arg (codes "source") rule.source
            ++ (key_arg (codes "destination") rule.destination
                ++ (key_arg (codes "source_port") rule.source_port
                    ++ key_arg (codes "destination_port") rule.destination_port))))

abbrev pub allow_rule : Protocol → Text → Text → NetworkAclRule
allow_rule protocol destination port = record {
  direction = Direction.egress;
  action = Action.allow;
  protocol = some protocol;
  source = none;
  destination = some destination;
  source_port = none;
  destination_port = some port;
}

-- The ports of a TCP rule, joined with commas.
unfoldable pub port_list : List ℕ → Text
unfolding join
port_list ports = join (codes ",") (map to_string ports)

abbrev pub tcp_rule : TcpAllow → NetworkAclRule
tcp_rule t = allow_rule Protocol.tcp (show_ip t.host) (port_list t.ports)

-- The egress rules: the HTTP proxy, DNS over UDP and TCP, and one for each TCP destination.
unfoldable pub build_rules_from_params : CreateBridgeParams → Text → List NetworkAclRule
build_rules_from_params params gateway_ip =
    allow_rule Protocol.tcp gateway_ip (to_string params.proxy_port)
    ∷ allow_rule Protocol.udp gateway_ip (codes "53")
    ∷ allow_rule Protocol.tcp gateway_ip (codes "53")
    ∷ map tcp_rule params.allow_tcp
