-- ===== src/Config/Rules/Loaded.antt =====
-- The rules that celily/src/config/network.rs loads, and what they match.
use celily.Prelude.{
  ℕ, ◌≡◌, ◌≢◌, ◌↔◌, inl, inr, refl, sym, ap, true, false, Option, none, some, List, [], ◌∷◌, arith,
  Bool-cases, Memᴰ, ◌==◌, nat_eq,
}
use celily.Prelude.Fallible.{ok, Result-cases}
use celily.Prelude.Text.{Text, codes, to_ascii_lowercase}
use celily.Network.Rule.{QuotaConfig, HttpScheme, default_port, HttpRule, NetworkRule}
use celily.Network.Handler.Quota.{fresh, try_take}
use celily.Network.Handler.Matching.{methods_of, PathIsAllowed, rule_matches, rule_matches_iff}
use celily.Config.Rules.{
  ConfigQuotaConfig, ConfigHttpRule, is_empty_list, has_port, quota_into_library, convert_quota,
  ports_or_default, converted, http_into_library,
}

abbrev pub IsPositive : Option ConfigQuotaConfig → Type 0
IsPositive none = Unit
IsPositive (some quota) = quota.max_requests ≢ 0

-- The tests of the conversion.
pub record IsPassed (rule : ConfigHttpRule) : Type 0 where
  pub has_prefix : is_empty_list rule.path_prefixes ≡ false
  pub has_method : is_empty_list rule.methods ≡ false
  pub some_port : is_empty_list rule.ports ≡ false
  pub plain_host : has_port rule.host ≡ false
  pub positive : IsPositive rule.quota

abbrev pub quota_of : Option ConfigQuotaConfig → Option QuotaConfig
quota_of none = none
quota_of (some quota) = some (record { max_requests = quota.max_requests; window = quota.window })

convert_quota_iff :
    (quota : Option ConfigQuotaConfig) (loaded : Option QuotaConfig)
    → (convert_quota quota ≡ ok loaded) ↔ (IsPositive quota × (loaded ≡ quota_of quota))
unfolding convert_quota quota_into_library
convert_quota_iff none loaded = (λ h. (tt, ground arith), λ h. ground (arith, h.1))
convert_quota_iff (some quota) loaded = elim (Bool-cases (quota.max_requests == 0)) [
  | inl z ↦ (λ h. absurd (ground arith), λ h. absurd (h.0 (ground arith)))
  | inr pos ↦ (λ h. (λ z. absurd (ground arith), ground arith), λ h. ground (arith, h.1))
]

pub http_into_library-converted :
    (rule : ConfigHttpRule) (scheme : HttpScheme) (loaded : NetworkRule)
    → (http_into_library rule scheme ≡ ok loaded)
      ↔ (IsPassed rule × (loaded ≡ NetworkRule.http (converted rule scheme (quota_of rule.quota))))
unfolding http_into_library
http_into_library-converted rule scheme loaded = (sound, complete)
  where
    sound :
        http_into_library rule scheme ≡ ok loaded
        → IsPassed rule × (loaded ≡ NetworkRule.http (converted rule scheme (quota_of rule.quota)))
    sound h = elim (Result-cases (convert_quota rule.quota)) [
      | inr (error, e) ↦ absurd (ground arith)
      | inl (quota, e) ↦
          let (positive, same) = (convert_quota_iff rule.quota quota).0 e in
          (
            record {
              has_prefix = ground arith;
              has_method = ground arith;
              some_port = ground arith;
              plain_host = ground arith;
              positive = positive;
            },
            ground arith,
          )
    ]

    complete :
        IsPassed rule × (loaded ≡ NetworkRule.http (converted rule scheme (quota_of rule.quota)))
        → http_into_library rule scheme ≡ ok loaded
    complete (c, same) =
        let e = (convert_quota_iff rule.quota (quota_of rule.quota)).1 (c.positive, refl) in
        ground (arith, c.has_prefix, c.has_method, c.some_port, c.plain_host, e)

first_port :
    (ports : Option (List ℕ)) (scheme : HttpScheme)
    → is_empty_list ports ≡ false
    → (port : ℕ) × Memᴰ port (ports_or_default ports scheme)
first_port none scheme h = (default_port scheme, Memᴰ.head refl)
first_port (some []) scheme h = cc
first_port (some (port ∷ ports)) scheme h = (port, Memᴰ.head refl)

first_method :
    (methods : Option (List Text))
    → is_empty_list methods ≡ false
    → (method : Text) × Memᴰ method (methods_of methods)
first_method none h = (codes "GET", Memᴰ.head refl)
first_method (some []) h = cc
first_method (some (method ∷ methods)) h = (method, Memᴰ.head refl)

-- A rule that loads is never dead: on every path that its prefixes allow, it matches some request
-- to its host.
pub loaded_matches :
    (rule : ConfigHttpRule) (scheme : HttpScheme) (loaded : HttpRule) (path : Text)
    → http_into_library rule scheme ≡ ok (NetworkRule.http loaded)
    → PathIsAllowed loaded.path_prefixes path
    → (port : ℕ) × (method : Text) × (rule_matches
          (NetworkRule.http loaded)
          scheme
          rule.host
          port
          path
          method
        ≡ true)
loaded_matches rule scheme loaded path loads allowed =
    let (c, same) = (http_into_library-converted rule scheme (NetworkRule.http loaded)).0 loads in
    let e : loaded ≡ converted rule scheme (quota_of rule.quota) = ground arith in
    let (port, port_listed) = first_port rule.ports scheme c.some_port in
    let (method, method_listed) = first_method rule.methods c.has_method in
    (
      port,
      method,
      (rule_matches_iff loaded scheme rule.host port path method).1 (record {
        scheme_same = ap (λ (r : HttpRule). r.scheme) (sym e);
        host_same = ap (λ (r : HttpRule). to_ascii_lowercase r.host) (sym e);
        port_listed = rw e port_listed;
        path_below = allowed;
        allowed_method = method;
        method_listed = rw e method_listed;
        method_same = refl;
      }),
    )

-- The quota of a rule that loads grants the first request of a new handler, at any time.
pub loaded_grants :
    (rule : ConfigHttpRule) (scheme : HttpScheme) (loaded : HttpRule) (quota : QuotaConfig)
    (now : ℕ)
    → http_into_library rule scheme ≡ ok (NetworkRule.http loaded)
    → loaded.quota ≡ some quota
    → (try_take fresh quota now).1 ≡ true
unfolding try_take
loaded_grants rule scheme loaded quota now loads limited =
    let (c, same) = (http_into_library-converted rule scheme (NetworkRule.http loaded)).0 loads in
    let e : quota_of rule.quota ≡ some quota = ground arith in
    let positive = positive_of rule.quota c.positive e in ground arith
  where
    positive_of :
        (q : Option ConfigQuotaConfig)
        → IsPositive q
        → quota_of q ≡ some quota
        → quota.max_requests ≢ 0
    positive_of none p e = cc
    positive_of (some q) p e = λ z. p (ground arith)
