-- ===== src/Lxd/Acl/Egress.antt =====
-- What the egress ACL of an instance lets out.
use mathlib.Core.List.Memᴰ
use celily.Prelude.{
  ℕ, ◌<◌, ◌^◌, ◌≡◌, refl, ap, ◌∙◌, Bool, false, Option, none, some, inl, inr, arith, List, [], ◌∷◌,
  map, Memᴰ, ◌==◌, nat_eq, All, is_empty, ◌↔◌, Bool-cases,
}
use celily.Prelude.Text.{Text, codes}
use celily.Prelude.Text.Split.{split, Free, split-join}
use celily.Prelude.Text.Decimal.{to_string, parse_uint, parse_uint-to_string, to_string-Free}
use celily.Network.Rule.{IpAddr, NetworkRule}
use celily.Network.Params.{proxy_port, allow_tcp, to_create_bridge_params}
use celily.Backend.Address.{show_ip}
use celily.Lxd.Acl.{
  Protocol, NetworkAclRule, allow_rule, tcp_rule, port_list, build_rules_from_params,
}

-- A port list read back: the numbers between the commas.
parse_all : List Text → Option (List ℕ)
parse_all [] = some []
parse_all (piece ∷ pieces) = elim (parse_uint 65535 piece) [
  | none ↦ none
  | some port ↦ elim (parse_all pieces) [ none ↦ none | some ports ↦ some (port ∷ ports) ]
]

pub parse_ports : Text → Option (List ℕ)
unfolding parse_all
parse_ports s = parse_all (split (λ c. c == b',') s)

abbrev pub IsPort : ℕ → Type 0
IsPort port = port < 2 ^ 16

parse_all-map : (ports : List ℕ) → All IsPort ports → parse_all (map to_string ports) ≡ some ports
unfolding parse_all
parse_all-map [] h = refl
parse_all-map (port ∷ ports) h =
    ground (arith, parse_uint-to_string 65535 port (omega arith), parse_all-map ports h.1)

ports-Free : (ports : List ℕ) → All (Free (λ c. c == b',')) (map to_string ports)
ports-Free [] = tt
ports-Free (port ∷ ports) = (to_string-Free b',' port refl, ports-Free ports)

-- A list of 16-bit ports that is not empty is read back from the port list of its ACL rule.
pub parse_ports-port_list :
    (ports : List ℕ)
    → is_empty ports ≡ false
    → All IsPort ports
    → parse_ports (port_list ports) ≡ some ports
unfolding parse_ports port_list
parse_ports-port_list [] full h = cc
parse_ports-port_list (port ∷ ports) full h =
    ap parse_all
      (split-join b',' (to_string port) (map to_string ports) (ports-Free (port ∷ ports)))
    ∙ parse_all-map (port ∷ ports) h

-- Where an instance may connect to: the proxies on the gateway, and the destinations of the
-- configured TCP rules with a port.
pub data IsOpen (allow : List NetworkRule) (gateway : Text) (r : NetworkAclRule) : Type 0 where
  proxy : r ≡ allow_rule Protocol.tcp gateway (to_string proxy_port) → IsOpen allow gateway r
  dns_udp : r ≡ allow_rule Protocol.udp gateway (codes "53") → IsOpen allow gateway r
  dns_tcp : r ≡ allow_rule Protocol.tcp gateway (codes "53") → IsOpen allow gateway r
  destination :
      (host : IpAddr) (ports : List ℕ)
      → Memᴰ (NetworkRule.tcp host ports) allow
      → is_empty ports ≡ false
      → r ≡ allow_rule Protocol.tcp (show_ip host) (port_list ports)
      → IsOpen allow gateway r

IsOpen-later :
    {rule : NetworkRule} {allow : List NetworkRule} {gateway : Text} {r : NetworkAclRule}
    → IsOpen allow gateway r
    → IsOpen (rule ∷ allow) gateway r
IsOpen-later (IsOpen.proxy e) = IsOpen.proxy e
IsOpen-later (IsOpen.dns_udp e) = IsOpen.dns_udp e
IsOpen-later (IsOpen.dns_tcp e) = IsOpen.dns_tcp e
IsOpen-later (IsOpen.destination host ports m full e) =
    IsOpen.destination host ports (Memᴰ.tail m) full e

destinations_sound :
    (allow : List NetworkRule) (gateway : Text) (r : NetworkAclRule)
    → Memᴰ r (map tcp_rule (allow_tcp allow))
    → IsOpen allow gateway r
unfolding allow_tcp
destinations_sound [] gateway r h = elim h [ ]
destinations_sound (NetworkRule.http rule ∷ allow) gateway r h =
    IsOpen-later (destinations_sound allow gateway r h)
destinations_sound (NetworkRule.tcp host ports ∷ allow) gateway r h =
    let ih = destinations_sound allow gateway r in
    elim (Bool-cases (is_empty ports)) [
      | inl none_left ↦ IsOpen-later (ih (rw (none_left, allow_tcp) at h))
      | inr full ↦ elim (Memᴰ.cases_cons (rw (full, allow_tcp) at h)) [
        | inl same ↦ IsOpen.destination host ports (Memᴰ.head refl) full same
        | inr later ↦ IsOpen-later (ih later)
      ]
    ]

destinations_complete :
    (host : IpAddr) (ports : List ℕ) {allow : List NetworkRule}
    → Memᴰ (NetworkRule.tcp host ports) allow
    → is_empty ports ≡ false
    → Memᴰ (tcp_rule (record { host = host; ports = ports })) (map tcp_rule (allow_tcp allow))
unfolding allow_tcp
destinations_complete host ports (Memᴰ.head same) full =
    rw (← same) (rw (full, allow_tcp) (Memᴰ.head refl))
destinations_complete host ports (Memᴰ.tail {x = NetworkRule.http rule} m) full =
    destinations_complete host ports m full
destinations_complete host ports (Memᴰ.tail {x = NetworkRule.tcp other others} m) full =
    let ih = destinations_complete host ports m full in
    elim (Bool-cases (is_empty others)) [
      | inl none_left ↦ rw (none_left, allow_tcp) ih
      | inr some_left ↦ rw (some_left, allow_tcp) (Memᴰ.tail ih)
    ]

-- The rules of a bridge's egress ACL are exactly the allow rules of the HTTP proxy and of DNS over
-- UDP and TCP on the gateway, and one for each configured TCP rule with a port.
pub build_rules_iff :
    (allow : List NetworkRule) (keep : Bool) (gateway : Text) (r : NetworkAclRule)
    → Memᴰ r (build_rules_from_params (to_create_bridge_params allow keep) gateway)
      ↔ IsOpen allow gateway r
unfolding build_rules_from_params to_create_bridge_params
build_rules_iff allow keep gateway r = (to, from)
  where
    to :
        Memᴰ r (build_rules_from_params (to_create_bridge_params allow keep) gateway)
        → IsOpen allow gateway r
    to h = elim (Memᴰ.cases_cons h) [
      | inl same ↦ IsOpen.proxy same
      | inr h ↦ elim (Memᴰ.cases_cons h) [
        | inl same ↦ IsOpen.dns_udp same
        | inr h ↦ elim (Memᴰ.cases_cons h) [
          | inl same ↦ IsOpen.dns_tcp same
          | inr h ↦ destinations_sound allow gateway r h
        ]
      ]
    ]

    from :
        IsOpen allow gateway r
        → Memᴰ r (build_rules_from_params (to_create_bridge_params allow keep) gateway)
    from (IsOpen.proxy e) = Memᴰ.head e
    from (IsOpen.dns_udp e) = Memᴰ.tail (Memᴰ.head e)
    from (IsOpen.dns_tcp e) = Memᴰ.tail (Memᴰ.tail (Memᴰ.head e))
    from (IsOpen.destination host ports m full e) =
        rw e (Memᴰ.tail (Memᴰ.tail (Memᴰ.tail (destinations_complete host ports m full))))
