-- ===== src/Network/Handler/Matching.antt =====
-- `rule_matches` of celily-lib/src/network/handler.rs, and what a matching request has.
use celily.Prelude.{
  ℕ, suc, ◌≡◌, ◌↔◌, refl, Bool, true, false, not, ◌&&◌, Option, none, some, List, [], ◌∷◌, ◌++◌,
  Memᴰ, arith, ◌==◌, nat_eq, any, any_sound, any_complete, contains, contains_iff,
}
use celily.Prelude.Text.{
  Text, codes, to_ascii_lowercase, eq_ignore_ascii_case, eq_ignore_ascii_case_iff,
}
use celily.Network.Rule.{scheme_eq, HttpScheme, HttpRule, NetworkRule}
use celily.Network.Handler.Escape.{percent_decode, may_escape_prefix, path_has_prefix}
use celily.Network.Handler.Below.{segments, decode_times, resolve, trim_slash, allowed_stays_below}

abbrev pub default_methods : List Text
default_methods = codes "GET" ∷ codes "HEAD" ∷ []

unfoldable pub path_allowed : Option (List Text) → Text → Bool
path_allowed none path = true
path_allowed (some prefixes) path =
    not (may_escape_prefix path) && any (λ p. path_has_prefix path p) prefixes

-- The methods of a rule that lists none are the default ones.
abbrev pub methods_of : Option (List Text) → List Text
methods_of none = default_methods
methods_of (some methods) = methods

unfoldable pub method_allowed : Option (List Text) → Text → Bool
method_allowed methods method = any (λ m. eq_ignore_ascii_case m method) (methods_of methods)

-- Whether a rule is an HTTP rule that allows the request.
unfoldable pub rule_matches : NetworkRule → HttpScheme → Text → ℕ → Text → Text → Bool
rule_matches (NetworkRule.tcp _ _) scheme host port path method = false
rule_matches (NetworkRule.http rule) scheme host port path method =
    scheme == rule.scheme
    && eq_ignore_ascii_case host rule.host
    && contains rule.ports port
    && path_allowed rule.path_prefixes path
    && method_allowed rule.methods method

-- A path that may not escape and is below one of the prefixes.
pub record PathIsBelow (prefixes : List Text) (path : Text) : Type 0 where
  pub prefix : Text
  pub listed : Memᴰ prefix prefixes
  pub prefixed : path_has_prefix path prefix ≡ true
  pub safe : may_escape_prefix path ≡ false

abbrev pub PathIsAllowed : Option (List Text) → Text → Type 0
PathIsAllowed none path = Unit
PathIsAllowed (some prefixes) path = PathIsBelow prefixes path

-- The request is what the rule says, in every respect.
pub record Allows (rule : HttpRule) (scheme : HttpScheme) (host : Text) (port : ℕ)
    (path method : Text) : Type 0 where
  pub scheme_same : scheme ≡ rule.scheme
  pub host_same : to_ascii_lowercase host ≡ to_ascii_lowercase rule.host
  pub port_listed : Memᴰ port rule.ports
  pub path_below : PathIsAllowed rule.path_prefixes path
  pub allowed_method : Text
  pub method_listed : Memᴰ allowed_method (methods_of rule.methods)
  pub method_same : to_ascii_lowercase allowed_method ≡ to_ascii_lowercase method

path_allowed_iff :
    (prefixes : Option (List Text)) (path : Text)
    → (path_allowed prefixes path ≡ true) ↔ PathIsAllowed prefixes path
unfolding path_allowed
path_allowed_iff none path = (λ h. tt, λ h. refl)
path_allowed_iff (some prefixes) path = (sound, complete)
  where
    sound : path_allowed (some prefixes) path ≡ true → PathIsBelow prefixes path
    sound h =
        let (p, m, e) = any_sound (λ p. path_has_prefix path p) prefixes (ground arith) in
        record { prefix = p; listed = m; prefixed = e; safe = ground arith }

    complete : PathIsBelow prefixes path → path_allowed (some prefixes) path ≡ true
    complete b =
        ground (arith, b.safe, any_complete (λ p. path_has_prefix path p) b.listed b.prefixed)

and5 :
    (a b c d e : Bool)
    → ((a && b && c && d && e) ≡ true)
      ↔ ((a ≡ true) × (b ≡ true) × (c ≡ true) × (d ≡ true) × (e ≡ true))
and5 a b c d e = ground arith

-- An HTTP rule matches exactly the requests of its scheme, its host up to ASCII case, one of its
-- ports, one of its methods up to ASCII case (GET and HEAD if it lists none), and, if it has path
-- prefixes, a path that may not escape and has one of them.
pub rule_matches_iff :
    (rule : HttpRule) (scheme : HttpScheme) (host : Text) (port : ℕ) (path method : Text)
    → (rule_matches (NetworkRule.http rule) scheme host port path method ≡ true)
      ↔ Allows rule scheme host port path method
unfolding rule_matches method_allowed
rule_matches_iff rule scheme host port path method =
    let (apart, join) =
      and5 (scheme == rule.scheme) (eq_ignore_ascii_case host rule.host) (contains rule.ports port)
        (path_allowed rule.path_prefixes path) (method_allowed rule.methods method) in
    let same_host = eq_ignore_ascii_case_iff host rule.host in
    let listed = contains_iff rule.ports port in
    let below = path_allowed_iff rule.path_prefixes path in
    let same_scheme = scheme_eq.same_iff scheme rule.scheme in
    let is_method = λ (m : Text). eq_ignore_ascii_case m method in
    (
      λ h.
          let (s, t, u, v, w) = apart h in
          let (m, ml, me) = any_sound is_method (methods_of rule.methods) w in
          record {
            scheme_same = same_scheme.0 s;
            host_same = same_host.0 t;
            port_listed = listed.0 u;
            path_below = below.0 v;
            allowed_method = m;
            method_listed = ml;
            method_same = (eq_ignore_ascii_case_iff m method).0 me;
          },
      λ a. join (
        same_scheme.1 a.scheme_same,
        same_host.1 a.host_same,
        listed.1 a.port_listed,
        below.1 a.path_below,
        any_complete is_method a.method_listed
            ((eq_ignore_ascii_case_iff a.allowed_method method).1 a.method_same),
      ),
    )

-- A request that matches a rule with path prefixes stays below one of them: however often a server
-- decodes its path, at least once, and with its dot segments resolved, the segments of the path are
-- those of the prefix, and then others.
pub matching_stays_below :
    (rule : HttpRule) (prefixes : List Text) (scheme : HttpScheme) (host : Text) (port : ℕ)
    (path method : Text) (rounds : ℕ)
    → rule.path_prefixes ≡ some prefixes
    → rule_matches (NetworkRule.http rule) scheme host port path method ≡ true
    → (prefix : Text) × Memᴰ prefix prefixes
      × ((below : List Text) × (resolve (segments (decode_times (suc rounds) path))
            ≡ segments (percent_decode (trim_slash prefix)) ++ below))
matching_stays_below rule prefixes scheme host port path method rounds listed matched =
    let allowed = (rule_matches_iff rule scheme host port path method).0 matched in
    let b : PathIsBelow prefixes path = rw listed at allowed.path_below in
    (b.prefix, b.listed, allowed_stays_below path b.prefix rounds b.safe b.prefixed)
