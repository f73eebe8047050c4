-- ===== src/Network/Handler/Handle/Outcomes.antt =====
-- What `handle_request` answers, and what it leaves of the handler's state.
use celily.Prelude.{
  ℕ, ◌≡◌, ◌↔◌, refl, sym, ap, true, Option, none, some, inl, inr, arith, Bool-cases, List, length,
  get_elem?, length-map,
}
use celily.Prelude.Text.{Text}
use celily.Prelude.Fallible.{Result-cases}
use celily.Network.Rule.{IpAddr, HttpRule, NetworkRule, QuotaConfig}
use celily.Backend.Subnet.{BridgeSubnet}
use celily.Network.Handler.Quota.{QuotaWindow, try_take}
use celily.Network.Handler.Handle.{
  HeaderMap, Request, forward, CelilyHandler, new, admit, forwarded, finish, gate, take_quota,
  handle_request,
}
use celily.Network.Handler.Handle.Admission.{IsAdmitted, admit_sound, admit_complete}

-- There is a quota window for each rule.
pub record IsHandler (handler : CelilyHandler) : Type 0 where
  pub aligned : length handler.quotas ≡ length handler.rules

pub new-IsHandler :
    (rules : List NetworkRule) (secrets : List (Text × Text)) (subnet : BridgeSubnet)
    → IsHandler (new rules secrets subnet)
unfolding new
new-IsHandler rules secrets subnet = record { aligned = length-map _ rules }

-- The quota of a rule, if it has one, has room in its window.
abbrev pub HasRoom : Option QuotaConfig → Option QuotaWindow → ℕ → Type 0
HasRoom none window now = Unit
HasRoom (some quota) none now = ⊥
HasRoom (some quota) (some window) now = (try_take window quota now).1 ≡ true

module _ (m : HeaderMap) where
  -- A request that is forwarded: the first rule that allows it is an HTTP rule with room for it.
  pub record IsForwarded (handler : CelilyHandler) (client : IpAddr) (request : Request m) (now : ℕ)
      : Type 0 where
    pub index : ℕ
    pub rule : HttpRule
    pub admitted : IsAdmitted m handler client request index (NetworkRule.http rule)
    pub room : HasRoom rule.quota (get_elem? handler.quotas index) now

  gate_forward :
      (handler : CelilyHandler) (index : ℕ) (r : HttpRule) (request sent : Request m) (now : ℕ)
      (quota : Option QuotaConfig) (window : Option QuotaWindow)
      → ((gate m handler index r request now quota window).1 ≡ forward sent)
        ↔ ((sent ≡ forwarded m handler r request) × HasRoom quota window now)
  unfolding gate take_quota
  gate_forward handler index r request sent now none window =
      (λ h. (ground arith, tt), λ h. ap forward (sym h.0))
  gate_forward handler index r request sent now (some quota) none =
      (λ h. absurd (ground arith), λ h. absurd h.1)
  gate_forward handler index r request sent now (some quota) (some window) =
      elim (Bool-cases (try_take window quota now).1) [
        | inl room ↦ rw (room) (λ h. (ground arith, refl), λ h. ap forward (sym h.0))
        | inr full ↦ rw (full) (λ h. absurd (ground arith), λ h. absurd (ground arith))
      ]

  -- A request is forwarded exactly when it is admitted (its client is on the bridge, it has a host
  -- and a scheme of HTTP or HTTPS, no method override header, and the rule is the first that
  -- matches it) to an HTTP rule whose quota, if any, has room; it then goes out with the headers of
  -- that rule.
  pub handle_request-forward_iff :
      (handler : CelilyHandler) (client : IpAddr) (request sent : Request m) (now : ℕ)
      → ((handle_request m handler client request now).1 ≡ forward sent) ↔ (
          (f : IsForwarded handler client request now) × (sent
            ≡ forwarded m handler f.rule request))
  unfolding handle_request
  handle_request-forward_iff handler client request sent now = (sound, complete)
    where
      sound :
          (handle_request m handler client request now).1 ≡ forward sent
          → (f : IsForwarded handler client request now) × (sent
              ≡ forwarded m handler f.rule request)
      sound h = elim (Result-cases (admit m handler client request)) [
        | inr (response, e) ↦ absurd (ground arith)
        | inl ((index, NetworkRule.tcp host ports), e) ↦ absurd (ground arith)
        | inl ((index, NetworkRule.http rule), e) ↦
            let (same, room) =
              (gate_forward handler index rule request sent now rule.quota
                  (get_elem? handler.quotas index)).0
                (rw (e, handle_request, finish) at h) in
            (
              record {
                index = index;
                rule = rule;
                admitted = admit_sound m handler client request index (NetworkRule.http rule) e;
                room = room;
              },
              same,
            )
      ]

      complete :
          (f : IsForwarded handler client request now) × (sent ≡ forwarded m handler f.rule request)
          → (handle_request m handler client request now).1 ≡ forward sent
      complete (f, same) =
          rw
            (
              admit_complete m handler client request f.index (NetworkRule.http f.rule) f.admitted,
              handle_request,
            )
            ((gate_forward handler f.index f.rule request sent now f.rule.quota
                (get_elem? handler.quotas f.index)).1
              (same, f.room))
