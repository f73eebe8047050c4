-- ===== src/Network/Handler/Handle/Quotas.antt =====
-- The quotas of a running handler of celily-lib/src/network/handler.rs, over a sequence of requests.
use celily.Prelude.{
  ℕ, ◌+◌, ◌≤◌, ◌≡◌, ◌≢◌, refl, ap, ◌∙◌, Bool, true, false, ◌&&◌, Option, none, some, inl, inr,
  arith, ◌==◌, nat_eq, Bool-cases, List, [], ◌∷◌, map, get_elem?, get_elem?-set_self,
  get_elem?-set_ne, get_elem?-map, if◌then◌else◌,
}
use celily.Prelude.Text.{Text}
use celily.Prelude.Fallible.{Result, ok, err}
use celily.Network.Rule.{IpAddr, HttpRule, NetworkRule, QuotaConfig}
use celily.Backend.Subnet.{BridgeSubnet}
use celily.Network.Handler.Quota.{QuotaWindow, fresh, window_at, try_take}
use celily.Network.Handler.Quota.Limit.{one_if, granted, granted-le, Ascending}
use celily.Network.Handler.Handle.{
  HeaderMap, Request, Response, Outcome, forward, CelilyHandler, new, admit, gate, take_quota,
  handle_request,
}
use celily.Network.Handler.Handle.Outcomes.{IsHandler, new-IsHandler}
use celily.Network.Handler.Handle.State.{
  Handled, handled, handle_request-IsFrame, handle_request-IsHandler,
}

-- The index of the rule that a request is admitted to is `i`.
abbrev is_index : ℕ → Result Response (ℕ × NetworkRule) → Bool
is_index i (err response) = false
is_index i (ok (j, rule)) = j == i

module _ (m : HeaderMap) where
  pub record Event : Type 0 where
    pub client : IpAddr
    pub request : Request m
    pub now : ℕ

  abbrev is_forward : Outcome m → Bool
  is_forward (forward request) = true
  is_forward _ = false

  abbrev pub step : CelilyHandler → Event → CelilyHandler × Outcome m
  step handler e = handle_request m handler e.client e.request e.now

  abbrev admitted_to : ℕ → CelilyHandler → Event → Bool
  admitted_to i handler e = is_index i (admit m handler e.client e.request)

  -- How many of the requests rule `i` forwards in window `k` of its quota.
  pub forwards : QuotaConfig → ℕ → ℕ → CelilyHandler → List Event → ℕ
  forwards quota i k handler [] = 0
  forwards quota i k handler (e ∷ events) =
      one_if
        (admitted_to i handler e && (is_forward (step handler e).1 && window_at quota e.now == k))
      + forwards quota i k (step handler e).0 events

  -- The times of the requests that are admitted to rule `i`.
  times : ℕ → CelilyHandler → List Event → List ℕ
  times i handler [] = []
  times i handler (e ∷ events) =
      let rest = times i (step handler e).0 events in
      if admitted_to i handler e then e.now ∷ rest else rest

  gate_same :
      (quota : QuotaConfig) (i : ℕ) (r : HttpRule) (handler : CelilyHandler) (e : Event)
      (w : QuotaWindow)
      → get_elem? handler.quotas i ≡ some w
      → (get_elem? (gate m handler i r e.request e.now (some quota) (some w)).0.quotas i
          ≡ some (try_take w quota e.now).0)
        × (is_forward (gate m handler i r e.request e.now (some quota) (some w)).1
            ≡ (try_take w quota e.now).1)
  unfolding gate take_quota
  gate_same quota i r handler e w held =
      ground (arith, get_elem?-set_self handler.quotas i (try_take w quota e.now).0 held)

  gate_other :
      (handler : CelilyHandler) (i j : ℕ) (r : HttpRule) (e : Event) (q : Option QuotaConfig)
      (w : QuotaWindow)
      → j ≢ i
      → get_elem? (gate m handler j r e.request e.now q (some w)).0.quotas i
        ≡ get_elem? handler.quotas i
  unfolding gate take_quota
  gate_other handler i j r e none w apart = refl
  gate_other handler i j r e (some q) w apart =
      ground (arith, get_elem?-set_ne handler.quotas j i (try_take w q e.now).0 apart)

  -- What one request does to rule `i` with window `w`: it is another rule's and leaves the window,
  -- or it is this rule's and is forwarded as the window says.
  data Effect (quota : QuotaConfig) (i : ℕ) (w : QuotaWindow) (handler : CelilyHandler) (e : Event)
      : Type 0 where
    elsewhere :
        admitted_to i handler e ≡ false
        → get_elem? (step handler e).0.quotas i ≡ some w
        → Effect quota i w handler e
    here :
        admitted_to i handler e ≡ true
        → get_elem? (step handler e).0.quotas i ≡ some (try_take w quota e.now).0
        → is_forward (step handler e).1 ≡ (try_take w quota e.now).1
        → Effect quota i w handler e

  effect :
      (quota : QuotaConfig) (i : ℕ) (r : HttpRule) (w : QuotaWindow) (handler : CelilyHandler)
      (e : Event)
      → IsHandler handler
      → r.quota ≡ some quota
      → get_elem? handler.rules i ≡ some (NetworkRule.http r)
      → get_elem? handler.quotas i ≡ some w
      → Effect quota i w handler e
  effect quota i r w handler e valid limited listed held =
      elim (handled m handler e.client e.request e.now valid) [
        | Handled.refused response adm same ↦
            Effect.elsewhere (ap (is_index i) adm)
              (ap (λ (x : CelilyHandler × Outcome m). get_elem? x.0.quotas i) same ∙ held)
        | Handled.gated j r' w' adm listed' held' same ↦ elim (Bool-cases (j == i)) [
          | inr apart ↦ Effect.elsewhere (ap (is_index i) adm ∙ apart) (
              ap (λ (x : CelilyHandler × Outcome m). get_elem? x.0.quotas i) same
              ∙ gate_other handler i j r' e r'.quota w' (ground arith)
              ∙ held)
          | inl together ↦
              let ji : j ≡ i = ground arith in
              let same_w : w' ≡ w = ground (arith, ap (get_elem? handler.quotas) ji) in
              let same_r : r' ≡ r = ground (arith, ap (get_elem? handler.rules) ji) in
              let q' : r'.quota ≡ some quota = ap (λ (x : HttpRule). x.quota) same_r ∙ limited in
              let to_gate : handle_request m handler e.client e.request e.now
                  ≡ gate m handler i r e.request e.now (some quota) (some w) =
                same ∙ cc (ji, same_r, q', ap (λ (x : QuotaWindow). some x) same_w) in
              let (window, sent) = gate_same quota i r handler e w held in
              Effect.here (ap (is_index i) adm ∙ together)
                (ap (λ (x : CelilyHandler × Outcome m). get_elem? x.0.quotas i) to_gate ∙ window)
                (ap (λ (x : CelilyHandler × Outcome m). is_forward x.1) to_gate ∙ sent)
        ]
      ]

  forwards-granted :
      (quota : QuotaConfig) (i k : ℕ) (r : HttpRule) (handler : CelilyHandler) (w : QuotaWindow)
      (events : List Event)
      → IsHandler handler
      → r.quota ≡ some quota
      → get_elem? handler.rules i ≡ some (NetworkRule.http r)
      → get_elem? handler.quotas i ≡ some w
      → forwards quota i k handler events ≡ granted quota k w (times i handler events)
  unfolding forwards times granted
  forwards-granted quota i k r handler w [] valid limited listed held = refl
  forwards-granted quota i k r handler w (e ∷ events) valid limited listed held =
      let valid' = handle_request-IsHandler m handler e.client e.request e.now valid in
      let frame = handle_request-IsFrame m handler e.client e.request e.now valid in
      let listed' : get_elem? (step handler e).0.rules i ≡ some (NetworkRule.http r) =
        ap (λ (rs : List NetworkRule). get_elem? rs i) frame.rules_same ∙ listed in
      elim (effect quota i r w handler e valid limited listed held) [
        | Effect.elsewhere other kept ↦ ground (
          arith,
          other,
          forwards-granted quota i k r (step handler e).0 w events valid' limited listed' kept,
        )
        | Effect.here this window sent ↦ ground (
          arith,
          this,
          sent,
          forwards-granted quota i k r (step handler e).0 (try_take w quota e.now).0 events valid'
              limited listed' window,
        )
      ]

  Ascending-lower :
      (quota : QuotaConfig) (low high : ℕ) (nows : List ℕ)
      → low ≤ high
      → Ascending quota high nows
      → Ascending quota low nows
  Ascending-lower quota low high [] h up = tt
  Ascending-lower quota low high (now ∷ nows) h up = (omega arith, up.1)

  abbrev pub nows : List Event → List ℕ
  nows events = map (λ e. e.now) events

  -- Some of the requests come at times that ascend, if all do.
  times-Ascending :
      (quota : QuotaConfig) (i low : ℕ) (handler : CelilyHandler) (events : List Event)
      → Ascending quota low (nows events)
      → Ascending quota low (times i handler events)
  unfolding times
  times-Ascending quota i low handler [] up = tt
  times-Ascending quota i low handler (e ∷ events) up =
      let rest = times-Ascending quota i (window_at quota e.now) (step handler e).0 events up.1 in
      elim (Bool-cases (admitted_to i handler e)) [
        | inl taken ↦ rw taken (up.0, rest)
        | inr other ↦ rw other (Ascending-lower quota low (window_at quota e.now) _ up.0 rest)
      ]

  -- From a new handler, over any sequence of requests from any clients, as long as the clock does
  -- not run backwards, a rule with a quota forwards at most its maximum in each window.
  pub forwards-le :
      (rules : List NetworkRule) (secrets : List (Text × Text)) (subnet : BridgeSubnet)
      (quota : QuotaConfig) (i k : ℕ) (r : HttpRule) (events : List Event)
      → get_elem? rules i ≡ some (NetworkRule.http r)
      → r.quota ≡ some quota
      → Ascending quota 0 (nows events)
      → forwards quota i k (new rules secrets subnet) events ≤ quota.max_requests
  unfolding new
  forwards-le rules secrets subnet quota i k r events listed limited up =
      let handler = new rules secrets subnet in
      let counted =
        forwards-granted quota i k r handler fresh events (new-IsHandler rules secrets subnet)
          limited listed (get_elem?-map (λ _. fresh) rules i listed) in
      let most =
        granted-le quota k (times i handler events) (times-Ascending quota i 0 handler events up) in
      omega (arith, counted, most)
