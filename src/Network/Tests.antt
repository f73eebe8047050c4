-- ===== src/Network/Tests.antt =====
-- Runs of the network modules on concrete rules, requests and clocks.
use celily.Prelude.{
  ℕ, ◌+◌, ◌*◌, ◌^◌, ◌≤◌, ◌≡◌, ◌≢◌, ◌↔◌, refl, ap, Bool, true, false, Option, none, some, List, [],
  ◌∷◌, ◌++◌, arith, ◌==◌, any, if◌then◌else◌, eq_refl, Memᴰ,
}
use celily.Prelude.Text.{Text, text_eq, codes, text_beq, to_ascii_lowercase, eq_ignore_ascii_case}
use celily.Network.Rule.{
  QuotaConfig, AuthConfig, HttpScheme, scheme_beq, IpAddr, v4, HttpRule, NetworkRule,
}
use celily.Backend.Subnet.{BridgeSubnet}
use celily.Network.Handler.Escape.{percent_decode, may_escape_prefix, path_has_prefix}
use celily.Network.Handler.Below.{segments, decode_times, resolve, trim_slash}
use celily.Network.Handler.Quota.{fresh, try_take}
use celily.Network.Handler.Quota.Limit.{after, granted, Ascending, refused_iff_full}
use celily.Network.Handler.Matching.{
  path_allowed, method_allowed, rule_matches, Allows, rule_matches_iff, matching_stays_below,
}
use celily.Network.Handler.Handle.{
  HeaderMap, Request, forward, panic, CelilyHandler, new, lookup, forwarded, handle_request,
}
use celily.Network.Handler.Handle.Outcomes.{
  IsHandler, new-IsHandler, IsForwarded, handle_request-forward_iff,
}
use celily.Network.Handler.Handle.State.{handle_request-ne-panic}
use celily.Network.Handler.Handle.Quotas.{Event, forwards, forwards-le}
use celily.Network.Handler.Handle.Headers.{SameName, HeaderLaws, get-forwarded_auth}
use celily.Network.Dns.{DnsNames, DnsDecision, handle_query}
use celily.Network.Dns
use celily.Network.Dns.Agreement.{matching_resolves}

-- A header map that keeps its entries in a list, the last one put first.
abbrev find : List (Text × Text) → Text → Option Text
find [] name = none
find ((key, value) ∷ rest) name =
    if to_ascii_lowercase key == to_ascii_lowercase name then some value else find rest name

abbrev has : List (Text × Text) → Text → Bool
has headers name = any (λ entry. to_ascii_lowercase entry.0 == to_ascii_lowercase name) headers

abbrev entries : HeaderMap
entries = record {
  Headers = List (Text × Text);
  contains_key = has;
  get = find;
  put = λ headers name value. some ((name, value) ∷ headers);
}

entries-HeaderLaws : HeaderLaws entries
entries-HeaderLaws = record {
  get-put_self = λ h h' name value e. self h h' name value e;
  get-put_ne = λ h h' name other value e apart. other_name h h' name other value e apart;
}
  where
    self :
        (h h' : List (Text × Text)) (name value : Text)
        → some ((name, value) ∷ h) ≡ some h'
        → find h' name ≡ some value
    self h h' name value e = ground (arith, eq_refl (to_ascii_lowercase name))

    other_name :
        (h h' : List (Text × Text)) (name other value : Text)
        → some ((name, value) ∷ h) ≡ some h'
        → ¬ SameName other name
        → find h' other ≡ find h other
    other_name h h' name other value e apart =
        ground (arith, text_eq.same_iff (to_ascii_lowercase name) (to_ascii_lowercase other))

abbrev quota : QuotaConfig
quota = record { max_requests = 2; window = 60 }

abbrev auth : AuthConfig
auth = record {
  secret = codes "forge";
  header = codes "Authorization";
  prefix = some (codes "Bearer ");
}

abbrev rule : HttpRule
rule = record {
  scheme = HttpScheme.https;
  host = codes "api.example.org";
  ports = 443 ∷ [];
  path_prefixes = some (codes "/repos/" ∷ []);
  auth = some auth;
  headers = (codes "X-Trace", codes "1") ∷ [];
  methods = none;
  quota = some quota;
}

abbrev rules : List NetworkRule
rules = NetworkRule.http rule ∷ NetworkRule.tcp (v4 16843009) (22 ∷ []) ∷ []

abbrev secrets : List (Text × Text)
secrets = (codes "forge", codes "s3cret") ∷ []

abbrev subnet : BridgeSubnet
subnet = record { gateway = 10 * 2 ^ 24 + 1; prefix_len = 24 }

abbrev handler : CelilyHandler
handler = new rules secrets subnet

abbrev client : IpAddr
client = v4 (10 * 2 ^ 24 + 7)

abbrev path : Text
path = codes "/repos/celily%2dlib"

abbrev request : Request entries
request = record {
  scheme = some (codes "https");
  host = some (codes "API.example.org");
  port = none;
  path = path;
  method = codes "get";
  headers = (codes "accept", codes "*/*") ∷ (codes "authorization", codes "guest") ∷ [];
}

safe : may_escape_prefix path ≡ false
unfolding may_escape_prefix text_beq
safe = refl

prefixed : path_has_prefix path (codes "/repos/") ≡ true
unfolding path_has_prefix
prefixed = refl

matched :
    rule_matches
      (NetworkRule.http rule)
      HttpScheme.https
      (codes "API.example.org")
      443
      path
      (codes "get")
    ≡ true
unfolding rule_matches path_allowed method_allowed may_escape_prefix path_has_prefix
    eq_ignore_ascii_case scheme_beq text_beq
matched = refl

rule_matches_iff_example :
    (rule_matches
        (NetworkRule.http rule)
        HttpScheme.https
        (codes "API.example.org")
        443
        path
        (codes "get")
      ≡ true)
    ↔ Allows rule HttpScheme.https (codes "API.example.org") 443 path (codes "get")
rule_matches_iff_example =
    rule_matches_iff rule HttpScheme.https (codes "API.example.org") 443 path (codes "get")

matching_stays_below_example :
    (prefix : Text) × Memᴰ prefix (codes "/repos/" ∷ [])
    × ((below : List Text) × (resolve (segments (decode_times 2 path))
          ≡ segments (percent_decode (trim_slash prefix)) ++ below))
matching_stays_below_example =
    matching_stays_below rule (codes "/repos/" ∷ []) HttpScheme.https (codes "API.example.org") 443
      path (codes "get") 1 refl matched

-- The second request of the first minute is granted, and the third is not.
times-Ascending_test : Ascending quota 0 (0 ∷ 59 ∷ 60 ∷ [])
times-Ascending_test = (omega arith, (omega arith, (omega arith, tt)))

index_small : (after quota fresh (0 ∷ 59 ∷ [])).index ≤ 0
unfolding after try_take
index_small = omega arith

refused_iff_full_example :
    ((try_take (after quota fresh (0 ∷ 59 ∷ [])) quota 59).1 ≡ false)
    ↔ (granted quota 0 fresh (0 ∷ 59 ∷ []) ≡ 2)
refused_iff_full_example =
    refused_iff_full quota (0 ∷ 59 ∷ []) 59 (omega arith, (omega arith, tt)) index_small

handler-IsHandler : IsHandler handler
handler-IsHandler = new-IsHandler rules secrets subnet

sent : Request entries
sent = forwarded entries handler rule request

handle_request-forward_iff_example :
    ((handle_request entries handler client request 0).1 ≡ forward sent) ↔ (
      (f : IsForwarded entries handler client request 0) × (sent
        ≡ forwarded entries handler f.rule request))
handle_request-forward_iff_example =
    handle_request-forward_iff entries handler client request sent 0

handle_request-ne-panic_example : (handle_request entries handler client request 0).1 ≢ panic
handle_request-ne-panic_example =
    handle_request-ne-panic entries handler client request 0 handler-IsHandler

abbrev at : ℕ → Event entries
at now = record { client = client; request = request; now = now }

abbrev events : List (Event entries)
events = at 0 ∷ at 1 ∷ at 59 ∷ at 60 ∷ []

forwards-le_example : forwards entries quota 0 0 handler events ≤ 2
forwards-le_example =
    forwards-le entries rules secrets subnet quota 0 0 rule events refl refl
      (omega arith, (omega arith, (omega arith, (omega arith, tt))))

accept-apart :
    (name : Text)
    → (to_ascii_lowercase (codes "accept") == to_ascii_lowercase name) ≡ false
    → ¬ SameName (codes "accept") name
accept-apart name h same = ground (arith, (text_eq.same_iff _ _).1 same)

apart_trace : (to_ascii_lowercase (codes "accept") == to_ascii_lowercase (codes "X-Trace")) ≡ false
unfolding to_ascii_lowercase text_beq
apart_trace = refl

apart_auth :
    (to_ascii_lowercase (codes "accept") == to_ascii_lowercase (codes "Authorization")) ≡ false
unfolding to_ascii_lowercase text_beq
apart_auth = refl

known : lookup (codes "forge") secrets ≡ some (codes "s3cret")
unfolding lookup text_beq
known = refl

get-forwarded_auth_example :
    find (forwarded entries handler rule request).headers (codes "Authorization")
    ≡ some (codes "Bearer s3cret")
unfolding new
get-forwarded_auth_example =
    get-forwarded_auth entries entries-HeaderLaws handler rule request auth (codes "s3cret") refl
      known (λ h e. cc)

-- DNS names as texts in lower case.
abbrev lower_names : DnsNames
lower_names = record { DnsName = Text; parse = λ s. some (to_ascii_lowercase s) }

matching_resolves_example :
    handle_query lower_names
      (Dns.new lower_names rules)
      (to_ascii_lowercase (codes "API.example.org"))
    ≡ DnsDecision.forward
matching_resolves_example =
    matching_resolves lower_names rules rule HttpScheme.https (codes "API.example.org") 443 path
      (codes "get") (to_ascii_lowercase (codes "API.example.org")) (λ a b same. ap some same)
      (Memᴰ.head refl) matched refl
