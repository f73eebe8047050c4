-- ===== src/Network/Dns/Agreement.antt =====
-- The names that celily-lib/src/network/dns_handler.rs forwards, and the hosts of the HTTP handler.
use mathlib.Core.List.Memᴰ
use celily.Prelude.{
  ℕ, ◌≡◌, ◌↔◌, refl, sym, ◌∙◌, true, some, inl, inr, arith, List, [], ◌∷◌, Memᴰ, PartialEq,
  contains, contains_iff, Option-cases,
}
use celily.Prelude.Text.{Text, to_ascii_lowercase}
use celily.Network.Rule.{HttpScheme, HttpRule, NetworkRule}
use celily.Network.Handler.Matching.{rule_matches, rule_matches_iff}
use celily.Network.Dns.{DnsNames, DnsDecision, new, handle_query}

module _ (d : DnsNames) where
  -- The rule that a name comes from.
  pub record IsHostOf (rules : List NetworkRule) (name : d.DnsName) : Type 0 where
    pub rule : HttpRule
    pub listed : Memᴰ (NetworkRule.http rule) rules
    pub parsed : d.parse rule.host ≡ some name

  IsHostOf-later :
      {rule : NetworkRule} {rules : List NetworkRule} {name : d.DnsName}
      → IsHostOf rules name
      → IsHostOf (rule ∷ rules) name
  IsHostOf-later r = record { rule = r.rule; listed = Memᴰ.tail r.listed; parsed = r.parsed }

  new_sound :
      (rules : List NetworkRule) (name : d.DnsName) → Memᴰ name (new d rules) → IsHostOf rules name
  unfolding new
  new_sound [] name h = elim h [ ]
  new_sound (NetworkRule.tcp host ports ∷ rules) name h = IsHostOf-later (new_sound rules name h)
  new_sound (NetworkRule.http rule ∷ rules) name h =
      let ih = new_sound rules name in
      elim (Option-cases (d.parse rule.host)) [
        | inl missing ↦ IsHostOf-later (ih (rw (missing, new) at h))
        | inr (first, parsed) ↦ elim (Memᴰ.cases_cons (rw (parsed, new) at h)) [
          | inl same ↦ record { rule = rule; listed = Memᴰ.head refl; parsed = rw same parsed }
          | inr later ↦ IsHostOf-later (ih later)
        ]
      ]

  new_complete :
      (rule : HttpRule) (name : d.DnsName) {rules : List NetworkRule}
      → Memᴰ (NetworkRule.http rule) rules
      → d.parse rule.host ≡ some name
      → Memᴰ name (new d rules)
  unfolding new
  new_complete rule name (Memᴰ.head same) parsed = rw (← same) (rw (parsed, new) (Memᴰ.head refl))
  new_complete rule name (Memᴰ.tail {x = NetworkRule.tcp host ports} m) parsed =
      new_complete rule name m parsed
  new_complete rule name (Memᴰ.tail {x = NetworkRule.http other} m) parsed =
      let ih = new_complete rule name m parsed in
      elim (Option-cases (d.parse other.host)) [
        | inl missing ↦ rw (missing, new) ih
        | inr (first, e) ↦ rw (e, new) (Memᴰ.tail ih)
      ]

  module _ ⦃e : PartialEq d.DnsName⦄ where
    handle_query-contains :
        (allowed : List d.DnsName) (name : d.DnsName)
        → (handle_query d allowed name ≡ DnsDecision.forward) ↔ (contains allowed name ≡ true)
    unfolding handle_query
    handle_query-contains allowed name = ground arith

    -- The DNS handler forwards a query exactly when its name is the parsed host of an HTTP rule.
    pub handle_query_iff :
        (rules : List NetworkRule) (name : d.DnsName)
        → (handle_query d (new d rules) name ≡ DnsDecision.forward) ↔ IsHostOf rules name
    handle_query_iff rules name =
        let (to, from) = handle_query-contains (new d rules) name in
        let (sound, complete) = contains_iff (new d rules) name in
        (
          λ h. new_sound rules name (sound (to h)),
          λ r. from (complete (new_complete r.rule name r.listed r.parsed)),
        )

    -- Where the HTTP handler lets a request to a host match a rule, the DNS handler forwards the
    -- queries for the name of that host, if the parser of DNS names does not tell ASCII case.
    pub matching_resolves :
        (rules : List NetworkRule) (rule : HttpRule) (scheme : HttpScheme) (host : Text) (port : ℕ)
        (path method : Text) (name : d.DnsName)
        → ((a b : Text) → to_ascii_lowercase a ≡ to_ascii_lowercase b → d.parse a ≡ d.parse b)
        → Memᴰ (NetworkRule.http rule) rules
        → rule_matches (NetworkRule.http rule) scheme host port path method ≡ true
        → d.parse host ≡ some name
        → handle_query d (new d rules) name ≡ DnsDecision.forward
    matching_resolves rules rule scheme host port path method name caseless listed matched parsed =
        let allowed = (rule_matches_iff rule scheme host port path method).0 matched in
        (handle_query_iff rules name).1 (record {
          rule = rule;
          listed = listed;
          parsed = caseless rule.host host (sym allowed.host_same) ∙ parsed;
        })
