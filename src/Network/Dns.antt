-- ===== src/Network/Dns.antt =====
-- celily-lib/src/network/dns_handler.rs: the allowlist handler of the DNS proxy.
pub mod Agreement
use celily.Prelude.{
  Bool, true, false, Option, none, some, List, [], ◌∷◌, PartialEq, ◌==◌, contains, if◌then◌else◌,
}
use celily.Prelude.Text.{Text}
use celily.Network.Rule.{NetworkRule}

-- The DNS names of `proxyapi`: their parser. Their equality is an instance.
pub record DnsNames : Type 1 where
  pub DnsName : Type 0
  pub parse : Text → Option DnsName

pub data DnsDecision : Type 0 where
  forward nx_domain : DnsDecision

module _ (d : DnsNames) where
  -- The name of an HTTP rule's host; a TCP rule has none.
  abbrev pub rule_name : NetworkRule → Option d.DnsName
  rule_name (NetworkRule.http rule) = d.parse rule.host
  rule_name (NetworkRule.tcp _ _) = none

  -- `CelilyDnsHandler::new`: a host that is no DNS name is left out.
  unfoldable pub new : List NetworkRule → List d.DnsName
  new [] = []
  new (rule ∷ rules) = elim (rule_name rule) [ none ↦ new rules | some name ↦ name ∷ new rules ]

  module _ ⦃e : PartialEq d.DnsName⦄ where
    unfoldable pub handle_query : List d.DnsName → d.DnsName → DnsDecision
    handle_query allowed name =
        if contains allowed name then DnsDecision.forward else DnsDecision.nx_domain
