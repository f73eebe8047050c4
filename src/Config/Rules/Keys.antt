-- ===== src/Config/Rules/Keys.antt =====
-- Which configured rules celily/src/config/network.rs loads, and their keys.
use celily.Prelude.{
  ℕ, ◌≡◌, ◌≢◌, ◌↔◌, ◌⊎◌, inl, inr, refl, sym, ap, ◌∙◌, true, false, Option, none, some, List, [],
  ◌∷◌, ◌++◌, arith, Bool-cases, Memᴰ, ◌==◌, nat_eq, eq_refl, any, any_sound, any_complete,
}
use mathlib.Core.Path.{subst}
use celily.Prelude.Fallible.{ok}
use celily.Prelude.Text.{Text, codes, ends_with}
use celily.Network.Rule.{HttpScheme, HttpRule, NetworkRule}
use celily.Config.Rules.{
  ConfigHttpRule, is_empty_list, has_port, ports_or_default, converted, http_into_library,
}
use celily.Config.Rules.Loaded.{IsPositive, IsPassed, quota_of, http_into_library-converted}

-- An address in brackets may hold colons.
abbrev pub IsPlainHost : Text → Type 0
IsPlainHost host = (¬ Memᴰ b':' host) ⊎ ((address : Text) × (host ≡ address ++ codes "]"))

-- No list is given empty, the host has no port, and a quota allows a request.
pub record IsConfigured (rule : ConfigHttpRule) : Type 0 where
  pub some_prefix : rule.path_prefixes ≢ some []
  pub some_method : rule.methods ≢ some []
  pub some_port : rule.ports ≢ some []
  pub plain_host : IsPlainHost rule.host
  pub positive : IsPositive rule.quota

-- The listed ports, or that of the scheme.
abbrev pub HasPorts : HttpScheme → Option (List ℕ) → List ℕ → Type 0
HasPorts scheme (some listed) ports = ports ≡ listed
HasPorts HttpScheme.http none ports = ports ≡ 80 ∷ []
HasPorts HttpScheme.https none ports = ports ≡ 443 ∷ []

pub record IsHttpOf (rule : ConfigHttpRule) (scheme : HttpScheme) (loaded : HttpRule) : Type 0 where
  pub scheme_same : loaded.scheme ≡ scheme
  pub host_same : loaded.host ≡ rule.host
  pub has_ports : HasPorts scheme rule.ports loaded.ports
  pub prefixes_same : loaded.path_prefixes ≡ rule.path_prefixes
  pub auth_same : loaded.auth ≡ rule.auth
  pub headers_same : loaded.headers ≡ rule.headers
  pub methods_same : loaded.methods ≡ rule.methods
  pub quota_same : loaded.quota ≡ quota_of rule.quota

abbrev pub IsRuleOf : ConfigHttpRule → HttpScheme → NetworkRule → Type 0
IsRuleOf rule scheme (NetworkRule.http loaded) = IsHttpOf rule scheme loaded
IsRuleOf rule scheme (NetworkRule.tcp _ _) = ⊥

module _ {ℓ} {A : Type ℓ} where
  is_empty_list-false_iff : (o : Option (List A)) → (is_empty_list o ≡ false) ↔ (o ≢ some [])
  is_empty_list-false_iff none = (λ h e. cc, λ h. refl)
  is_empty_list-false_iff (some []) = (λ h. absurd (ground arith), λ h. absurd (h refl))
  is_empty_list-false_iff (some (x ∷ xs)) = (λ h e. cc, λ h. refl)

ends_with_sound : (c : ℕ) (s : Text) → ends_with c s ≡ true → (front : Text) × (s ≡ front ++ c ∷ [])
unfolding ends_with
ends_with_sound c [] h = absurd (ground arith)
ends_with_sound c (d ∷ []) h = ([], ap (λ e. e ∷ []) ((nat_eq.same_iff d c).0 h))
ends_with_sound c (d ∷ e ∷ s) h =
    let (front, same) = ends_with_sound c (e ∷ s) h in (d ∷ front, ap (λ t. d ∷ t) same)

ends_with_complete : (c : ℕ) (front : Text) → ends_with c (front ++ c ∷ []) ≡ true
unfolding ends_with
ends_with_complete c [] = eq_refl c
ends_with_complete c (d ∷ []) = eq_refl c
ends_with_complete c (d ∷ e ∷ front) = ends_with_complete c (e ∷ front)

has_port-false_iff : (host : Text) → (has_port host ≡ false) ↔ IsPlainHost host
has_port-false_iff host = (sound, complete)
  where
    sound : has_port host ≡ false → IsPlainHost host
    sound h = elim (Bool-cases (any (λ c. c == b':') host)) [
      | inr free ↦
          inl (λ m. absurd (ground (arith, any_complete (λ c. c == b':') m (eq_refl {A = ℕ} b':'))))
      | inl colon ↦ inr (ends_with_sound b']' host (ground arith))
    ]

    complete : IsPlainHost host → has_port host ≡ false
    complete (inl free) = elim (Bool-cases (any (λ c. c == b':') host)) [
      | inl colon ↦
          let (c, m, e) = any_sound (λ c. c == b':') host colon in
          let same : c ≡ b':' = (nat_eq.same_iff c b':').0 e in
          absurd (free (subst (λ d. Memᴰ d host) same m))
      | inr none_there ↦ rw none_there refl
    ]
    complete (inr (address, same)) =
        let closed : ends_with b']' host ≡ true =
          ap (ends_with b']') same ∙ ends_with_complete b']' address in
        ground (arith, closed)

HasPorts-ports_or_default :
    (scheme : HttpScheme) (listed : Option (List ℕ))
    → HasPorts scheme listed (ports_or_default listed scheme)
HasPorts-ports_or_default scheme (some ports) = refl
HasPorts-ports_or_default HttpScheme.http none = refl
HasPorts-ports_or_default HttpScheme.https none = refl

HasPorts-unique :
    (scheme : HttpScheme) (listed : Option (List ℕ)) (ports : List ℕ)
    → HasPorts scheme listed ports
    → ports ≡ ports_or_default listed scheme
HasPorts-unique scheme (some listed) ports h = h
HasPorts-unique HttpScheme.http none ports h = h
HasPorts-unique HttpScheme.https none ports h = h

converted-IsHttpOf :
    (rule : ConfigHttpRule) (scheme : HttpScheme)
    → IsHttpOf rule scheme (converted rule scheme (quota_of rule.quota))
converted-IsHttpOf rule scheme = record {
  scheme_same = refl;
  host_same = refl;
  has_ports = HasPorts-ports_or_default scheme rule.ports;
  prefixes_same = refl;
  auth_same = refl;
  headers_same = refl;
  methods_same = refl;
  quota_same = refl;
}

-- The keys of a rule determine it.
IsRuleOf-unique :
    (rule : ConfigHttpRule) (scheme : HttpScheme) (loaded : NetworkRule)
    → IsRuleOf rule scheme loaded
    → loaded ≡ NetworkRule.http (converted rule scheme (quota_of rule.quota))
IsRuleOf-unique rule scheme (NetworkRule.tcp _ _) h = elim h [ ]
IsRuleOf-unique rule scheme (NetworkRule.http loaded) h =
    let ports = HasPorts-unique scheme rule.ports loaded.ports h.has_ports in
    λ i. NetworkRule.http (record {
      scheme = h.scheme_same i;
      host = h.host_same i;
      ports = ports i;
      path_prefixes = h.prefixes_same i;
      auth = h.auth_same i;
      headers = h.headers_same i;
      methods = h.methods_same i;
      quota = h.quota_same i;
    })

IsPassed-IsConfigured : (rule : ConfigHttpRule) → IsPassed rule ↔ IsConfigured rule
IsPassed-IsConfigured rule =
    let (prefix_to, prefix_from) = is_empty_list-false_iff rule.path_prefixes in
    let (method_to, method_from) = is_empty_list-false_iff rule.methods in
    let (port_to, port_from) = is_empty_list-false_iff rule.ports in
    let (host_to, host_from) = has_port-false_iff rule.host in
    (
      λ p. record {
        some_prefix = prefix_to p.has_prefix;
        some_method = method_to p.has_method;
        some_port = port_to p.some_port;
        plain_host = host_to p.plain_host;
        positive = p.positive;
      },
      λ c. record {
        has_prefix = prefix_from c.some_prefix;
        has_method = method_from c.some_method;
        some_port = port_from c.some_port;
        plain_host = host_from c.plain_host;
        positive = c.positive;
      },
    )

-- A configured rule is loaded as a rule exactly when none of its lists is given empty, its host
-- holds no colon or ends with a bracket, its quota allows a request, and the loaded rule is an HTTP
-- rule of the scheme with its host, prefixes, auth, headers, methods and quota, and with the ports
-- that it lists, or else port 80 for http and 443 for https.
pub http_into_library_iff :
    (rule : ConfigHttpRule) (scheme : HttpScheme) (loaded : NetworkRule)
    → (http_into_library rule scheme ≡ ok loaded)
      ↔ (IsConfigured rule × IsRuleOf rule scheme loaded)
http_into_library_iff rule scheme loaded = (
  λ h.
      let (passed, same) = (http_into_library-converted rule scheme loaded).0 h in
      (
        (IsPassed-IsConfigured rule).0 passed,
        subst (IsRuleOf rule scheme) (sym same) (converted-IsHttpOf rule scheme),
      ),
  λ h.
      (http_into_library-converted rule scheme loaded).1
        ((IsPassed-IsConfigured rule).1 h.0, IsRuleOf-unique rule scheme loaded h.1),
)
