-- ===== src/Network/Handler/Handle.antt =====
-- `CelilyHandler` of celily-lib/src/network/handler.rs: its state and `handle_request`.
pub mod Admission
pub mod Outcomes
pub mod State
pub mod Quotas
pub mod Headers
use celily.Prelude.{
  ℕ, Bool, true, false, not, ◌&&◌, Option, none, some, List, [], ◌∷◌, ◌++◌, map, ◌==◌, any,
  get_elem?, set, position_from, if◌then◌else◌,
}
use celily.Prelude.Fallible.{Result, ok, err, ◌>>=◌, ◌>>◌, fail_if, ok_or}
use celily.Prelude.Text.{Text, text_eq, codes}
use celily.Network.Rule.{
  IpAddr, HttpScheme, HttpRule, NetworkRule, AuthConfig, QuotaConfig, default_port,
}
use celily.Backend.Subnet.{BridgeSubnet, has_instance}
use celily.Network.Handler.Quota.{QuotaWindow, fresh, try_take}
use celily.Network.Handler.Matching.{rule_matches}

-- The header map of `proxyapi`. `put` gives nothing where `set` is an error.
pub record HeaderMap : Type 1 where
  pub Headers : Type 0
  pub contains_key : Headers → Text → Bool
  pub get : Headers → Text → Option Text
  pub put : Headers → Text → Text → Option Headers

-- The head of a `ProxyRequest`: the parts of its URI, its method and its headers.
pub record Request (m : HeaderMap) : Type 0 where
  pub scheme : Option Text
  pub host : Option Text
  pub port : Option ℕ
  pub path : Text
  pub method : Text
  pub headers : m.Headers

-- A synthesized response: status and body.
pub record Response : Type 0 where
  pub status : ℕ
  pub body : Text

-- `panic` stands for `unreachable!` and for an index out of range.
pub data Outcome (m : HeaderMap) : Type 0 where
  respond : Response → Outcome m
  forward : Request m → Outcome m
  panic : Outcome m

-- Quotas have one entry for each rule, at the same index.
pub record CelilyHandler : Type 0 where
  pub rules : List NetworkRule
  pub auth_secrets : List (Text × Text)
  pub quotas : List QuotaWindow
  pub subnet : BridgeSubnet

-- `CelilyHandler::new`
unfoldable pub new : List NetworkRule → List (Text × Text) → BridgeSubnet → CelilyHandler
new rules auth_secrets subnet = record {
  rules = rules;
  auth_secrets = auth_secrets;
  quotas = map (λ _. fresh) rules;
  subnet = subnet;
}

abbrev pub method_override_headers : List Text
method_override_headers =
    codes "x-http-method-override" ∷ codes "x-http-method" ∷ codes "x-method-override" ∷ []

abbrev pub reject : ℕ → Text → Response
reject status body = record { status = status; body = body }

-- The scheme of `uri.scheme_str()`.
unfoldable pub scheme_of : Option Text → Option HttpScheme
scheme_of none = none
scheme_of (some s) =
    if s == codes "http"
    then some HttpScheme.http
    else if s == codes "https"
    then some HttpScheme.https
    else none

abbrev pub unwrap_or {ℓ} : {A : Type ℓ} → Option A → A → A
unwrap_or none d = d
unwrap_or (some a) d = a

-- A lookup in a map of texts.
unfoldable pub lookup {ℓ} : {V : Type ℓ} → Text → List (Text × V) → Option V
lookup k [] = none
lookup k ((j, v) ∷ rest) = if j == k then some v else lookup k rest

module _ (m : HeaderMap) where
  abbrev pub overrides_method : Request m → Bool
  overrides_method request = any (m.contains_key request.headers) method_override_headers

  abbrev pub allows : Request m → HttpScheme → Text → NetworkRule → Bool
  allows request scheme host rule =
      rule_matches rule scheme host (unwrap_or request.port (default_port scheme)) request.path
        request.method

  -- The checks up to the first matching rule, and its index.
  unfoldable pub admit : CelilyHandler → IpAddr → Request m → Result Response (ℕ × NetworkRule)
  admit handler client request = do
    fail_if (not (has_instance handler.subnet client))
        (reject 403 (codes "Not a client of this proxy\n"))
    host ← ok_or request.host (reject 400 (codes "request is missing a host\n"))
    scheme ← ok_or (scheme_of request.scheme) (reject 400 (codes "request is not http or https\n"))
    fail_if (overrides_method request)
        (reject 403 (codes "Method override headers are not allowed\n"))
    ok_or (position_from 0 (allows request scheme host) handler.rules)
        (reject 403 (codes "Blocked by network policy\n"))

  -- A header that cannot be set is left out.
  abbrev pub inject : Text → Text → m.Headers → m.Headers
  inject name value headers = unwrap_or (m.put headers name value) headers

  unfoldable pub inject_static : List (Text × Text) → m.Headers → m.Headers
  inject_static [] headers = headers
  inject_static ((name, value) ∷ rest) headers = inject_static rest (inject name value headers)

  unfoldable pub inject_auth : Option AuthConfig → List (Text × Text) → m.Headers → m.Headers
  unfolding lookup
  inject_auth none secrets headers = headers
  inject_auth (some auth) secrets headers = elim (lookup auth.secret secrets) [
    | none ↦ headers
    | some secret ↦ inject auth.header (unwrap_or auth.prefix [] ++ secret) headers
  ]

  -- Static headers first, then auth, so auth wins on a name clash.
  unfoldable pub forwarded : CelilyHandler → HttpRule → Request m → Request m
  unfolding inject_static inject_auth
  forwarded handler rule request = record request {
    headers =
        inject_auth rule.auth handler.auth_secrets (inject_static rule.headers request.headers);
  }

  take_quota : CelilyHandler → ℕ → QuotaConfig → QuotaWindow → ℕ → CelilyHandler × Bool
  take_quota handler index quota window now =
      let (window', allowed) = try_take window quota now in
      (record handler { quotas = set handler.quotas index window' }, allowed)

  -- The request counts against the quota of the rule, if it has one.
  pub gate :
      CelilyHandler
      → ℕ
      → HttpRule
      → Request m
      → ℕ
      → Option QuotaConfig
      → Option QuotaWindow
      → CelilyHandler × Outcome m
  gate handler index rule request now none window =
      (handler, forward (forwarded handler rule request))
  gate handler index rule request now (some quota) none = (handler, panic)
  gate handler index rule request now (some quota) (some window) =
      let (handler', allowed) = take_quota handler index quota window now in
      if allowed
      then (handler', forward (forwarded handler rule request))
      else (handler', respond (reject 429 (codes "Request quota exceeded\n")))

  serve : CelilyHandler → ℕ → NetworkRule → Request m → ℕ → CelilyHandler × Outcome m
  serve handler index (NetworkRule.tcp _ _) request now = (handler, panic)
  serve handler index (NetworkRule.http rule) request now =
      gate handler index rule request now rule.quota (get_elem? handler.quotas index)

  finish :
      CelilyHandler → Result Response (ℕ × NetworkRule) → Request m → ℕ → CelilyHandler × Outcome m
  finish handler (err response) request now = (handler, respond response)
  finish handler (ok (index, rule)) request now = serve handler index rule request now

  -- One request of a client at a time, in Unix seconds.
  unfoldable pub handle_request : CelilyHandler → IpAddr → Request m → ℕ → CelilyHandler × Outcome m
  unfolding finish serve gate take_quota
  handle_request handler client request now =
      finish handler (admit handler client request) request now
