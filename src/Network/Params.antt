-- ===== src/Network/Params.antt =====
-- celily-lib/src/network/params.rs, and the bridge parameters of celily-lib/src/backend/mod.rs.
use celily.Prelude.{ℕ, ◌+◌, Bool, List, [], ◌∷◌, is_empty, if◌then◌else◌}
use celily.Network.Rule.{IpAddr, NetworkRule}

-- The fixed port of the HTTP proxy.
abbrev pub proxy_port : ℕ
proxy_port = 34975

-- The fixed port of the DNS proxy.
abbrev pub dns_port : ℕ
dns_port = proxy_port + 1

pub record TcpAllow : Type 0 where
  pub host : IpAddr
  pub ports : List ℕ

pub record CreateBridgeParams : Type 0 where
  pub keep : Bool
  pub proxy_port : ℕ
  pub dns_port : ℕ
  pub allow_tcp : List TcpAllow

-- The TCP rules with a port.
unfoldable pub allow_tcp : List NetworkRule → List TcpAllow
allow_tcp [] = []
allow_tcp (NetworkRule.http _ ∷ rules) = allow_tcp rules
allow_tcp (NetworkRule.tcp host ports ∷ rules) =
    if is_empty ports
    then allow_tcp rules
    else record { host = host; ports = ports } ∷ allow_tcp rules

-- `NetworkParams::to_create_bridge_params`
unfoldable pub to_create_bridge_params : List NetworkRule → Bool → CreateBridgeParams
unfolding allow_tcp
to_create_bridge_params allow keep = record {
  keep = keep;
  proxy_port = proxy_port;
  dns_port = dns_port;
  allow_tcp = allow_tcp allow;
}
