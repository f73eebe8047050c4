-- ===== src/Network/Handler/Handle/State.antt =====
-- What `handle_request` leaves of the handler's state: it never panics, and only the quota window
-- of the admitting rule moves.
use celily.Prelude.{
  ℕ, ◌<◌, ◌≡◌, ◌≢◌, refl, sym, ap, ◌∙◌, true, Option, none, some, inl, inr, arith,
  position_from-Found, List, ◌∷◌, ◌++◌, length, length-append, get_elem?, length-set,
  get_elem?-append, get_elem?-some,
}
use celily.Prelude.Fallible.{ok, err, Result-cases}
use celily.Network.Rule.{IpAddr, HttpRule, NetworkRule, QuotaConfig}
use celily.Network.Handler.Quota.{QuotaWindow, try_take}
use celily.Network.Handler.Matching.{rule_matches}
use celily.Network.Handler.Handle.{
  HeaderMap, Request, Response, Outcome, respond, panic, CelilyHandler, allows, admit, gate,
  take_quota, handle_request,
}
use celily.Network.Handler.Handle.Admission.{IsAdmitted, admit_sound}
use celily.Network.Handler.Handle.Outcomes.{IsHandler}

-- What no request changes.
pub record IsFrame (before after : CelilyHandler) : Type 0 where
  pub rules_same : after.rules ≡ before.rules
  pub secrets_same : after.auth_secrets ≡ before.auth_secrets
  pub subnet_same : after.subnet ≡ before.subnet
  pub length_same : length after.quotas ≡ length before.quotas

module _ (m : HeaderMap) where
  -- The rule stands at the index, and it is an HTTP rule.
  pub admitted_rule :
      {handler : CelilyHandler} {client : IpAddr} {request : Request m} {index : ℕ}
      {rule : NetworkRule}
      → IsAdmitted m handler client request index rule
      → (get_elem? handler.rules index ≡ some rule)
        × (index < length handler.rules)
        × ((r : HttpRule) × (rule ≡ NetworkRule.http r))
  unfolding rule_matches
  admitted_rule {handler} {client} {request} {index} {rule} a =
      let f =
        position_from-Found 0 (allows m request a.scheme a.host) handler.rules index rule a.first in
      let i : index ≡ length f.before = omega (arith, f.at) in
      (
        ap (λ (xs : List NetworkRule). get_elem? xs index) f.whole
            ∙ ap (get_elem? (f.before ++ rule ∷ f.after)) i
            ∙ get_elem?-append f.before rule f.after,
        rw f.whole (omega (arith, i, length-append f.before (rule ∷ f.after))),
        is_http rule f.passes,
      )
    where
      is_http :
          (rule : NetworkRule)
          → allows m request a.scheme a.host rule ≡ true
          → (r : HttpRule) × (rule ≡ NetworkRule.http r)
      is_http (NetworkRule.http r) h = (r, refl)
      is_http (NetworkRule.tcp host ports) h = cc

  -- The two ways of a request: it is refused before any rule is taken, or it comes to the gate of
  -- the first rule that allows it, with that rule's window.
  pub data Handled (handler : CelilyHandler) (client : IpAddr) (request : Request m) (now : ℕ)
      : Type 0 where
    refused :
        (response : Response)
        → admit m handler client request ≡ err response
        → handle_request m handler client request now ≡ (handler, respond response)
        → Handled handler client request now
    gated :
        (index : ℕ) (r : HttpRule) (window : QuotaWindow)
        → admit m handler client request ≡ ok (index, NetworkRule.http r)
        → get_elem? handler.rules index ≡ some (NetworkRule.http r)
        → get_elem? handler.quotas index ≡ some window
        → handle_request m handler client request now
          ≡ gate m handler index r request now r.quota (some window)
        → Handled handler client request now

  pub handled :
      (handler : CelilyHandler) (client : IpAddr) (request : Request m) (now : ℕ)
      → IsHandler handler
      → Handled handler client request now
  unfolding handle_request
  handled handler client request now valid = elim (Result-cases (admit m handler client request)) [
    | inr (response, e) ↦ Handled.refused response e (rw e)
    | inl ((index, rule), e) ↦
        let (listed, inside, (r, http)) =
          admitted_rule (admit_sound m handler client request index rule e) in
        let (window, w) = get_elem?-some handler.quotas index (omega (arith, valid.aligned)) in
        let e' = e ∙ ap (λ (x : NetworkRule). ok (index, x)) http in
        Handled.gated index r window e' (listed ∙ ap some http) w (rw (e', w))
  ]

  gate-ne-panic :
      (handler : CelilyHandler) (index : ℕ) (r : HttpRule) (request : Request m) (now : ℕ)
      (quota : Option QuotaConfig) (window : QuotaWindow)
      → (gate m handler index r request now quota (some window)).1 ≢ panic
  unfolding gate take_quota
  gate-ne-panic handler index r request now none window h = cc
  gate-ne-panic handler index r request now (some quota) window h = ground arith

  -- With one quota window for each rule, no request reaches the unreachable branch or an index out
  -- of range.
  pub handle_request-ne-panic :
      (handler : CelilyHandler) (client : IpAddr) (request : Request m) (now : ℕ)
      → IsHandler handler
      → (handle_request m handler client request now).1 ≢ panic
  handle_request-ne-panic handler client request now valid h =
      elim (handled handler client request now valid) [
        | Handled.refused response e same ↦ cc (ap (λ (x : CelilyHandler × Outcome m). x.1) same)
        | Handled.gated index r window e listed w same ↦
            gate-ne-panic handler index r request now r.quota window
              (sym (ap (λ (x : CelilyHandler × Outcome m). x.1) same) ∙ h)
      ]

  gate-IsFrame :
      (handler : CelilyHandler) (index : ℕ) (r : HttpRule) (request : Request m) (now : ℕ)
      (quota : Option QuotaConfig) (window : QuotaWindow)
      → IsFrame handler (gate m handler index r request now quota (some window)).0
  unfolding gate take_quota
  gate-IsFrame handler index r request now none window = ground arith
  gate-IsFrame handler index r request now (some quota) window =
      ground (arith, length-set handler.quotas index (try_take window quota now).0)

  -- With one quota window for each rule, a request leaves the rules, the secrets and the subnet of
  -- the handler, and the number of its windows.
  pub handle_request-IsFrame :
      (handler : CelilyHandler) (client : IpAddr) (request : Request m) (now : ℕ)
      → IsHandler handler
      → IsFrame handler (handle_request m handler client request now).0
  handle_request-IsFrame handler client request now valid =
      elim (handled handler client request now valid) [
        | Handled.refused response e same ↦ rw same (record {
          rules_same = refl;
          secrets_same = refl;
          subnet_same = refl;
          length_same = refl;
        })
        | Handled.gated index r window e listed w same ↦
            rw same (gate-IsFrame handler index r request now r.quota window)
      ]

  pub handle_request-IsHandler :
      (handler : CelilyHandler) (client : IpAddr) (request : Request m) (now : ℕ)
      → IsHandler handler
      → IsHandler (handle_request m handler client request now).0
  handle_request-IsHandler handler client request now valid =
      let f = handle_request-IsFrame handler client request now valid in
      record { aligned = f.length_same ∙ valid.aligned ∙ ap length (sym f.rules_same) }
