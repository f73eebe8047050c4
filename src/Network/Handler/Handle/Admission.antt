-- ===== src/Network/Handler/Handle/Admission.antt =====
-- Which requests `admit` lets through, and to which rule.
use celily.Prelude.{ℕ, ◌≡◌, true, false, some, inl, inr, arith, position_from, Option-cases}
use celily.Prelude.Text.{Text}
use celily.Prelude.Fallible.{ok}
use celily.Network.Rule.{IpAddr, HttpScheme, NetworkRule}
use celily.Backend.Subnet.{has_instance}
use celily.Network.Handler.Handle.{
  HeaderMap, Request, CelilyHandler, scheme_of, overrides_method, allows, admit,
}

-- A client of the bridge asks for a host over HTTP or HTTPS, with no method override header, and
-- the rule is the first that allows it.
pub record IsAdmitted (m : HeaderMap) (handler : CelilyHandler) (client : IpAddr)
    (request : Request m) (index : ℕ) (rule : NetworkRule) : Type 0 where
  pub host : Text
  pub scheme : HttpScheme
  pub served : has_instance handler.subnet client ≡ true
  pub has_host : request.host ≡ some host
  pub has_scheme : scheme_of request.scheme ≡ some scheme
  pub plain : overrides_method m request ≡ false
  pub first : position_from 0 (allows m request scheme host) handler.rules ≡ some (index, rule)

module _ (m : HeaderMap) (handler : CelilyHandler) (client : IpAddr) (request : Request m)
    (index : ℕ) (rule : NetworkRule) where
  pub admit_sound :
      admit m handler client request ≡ ok (index, rule)
      → IsAdmitted m handler client request index rule
  unfolding admit
  admit_sound h = elim (Option-cases request.host) [
    | inl missing ↦ absurd (ground arith)
    | inr (host, has_host) ↦ elim (Option-cases (scheme_of request.scheme)) [
      | inl missing ↦ absurd (ground arith)
      | inr (scheme, has_scheme) ↦
          elim (Option-cases (position_from 0 (allows m request scheme host) handler.rules)) [
            | inl missing ↦ absurd (ground arith)
            | inr (found, first) ↦ record {
              host = host;
              scheme = scheme;
              served = ground arith;
              has_host = has_host;
              has_scheme = has_scheme;
              plain = ground arith;
              first = ground arith;
            }
          ]
    ]
  ]

  pub admit_complete :
      IsAdmitted m handler client request index rule
      → admit m handler client request ≡ ok (index, rule)
  unfolding admit
  admit_complete a = ground (arith, a.served, a.has_host, a.has_scheme, a.plain, a.first)
