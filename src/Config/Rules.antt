-- ===== src/Config/Rules.antt =====
-- celily/src/config/network.rs: the allow rules as they are configured, and their conversion.
pub mod Loaded
pub mod Keys
use celily.Prelude.{
  ℕ, Bool, true, false, not, ◌&&◌, ◌||◌, Option, none, some, List, [], ◌∷◌, ◌==◌, nat_eq, is_empty,
  any, if◌then◌else◌,
}
use celily.Prelude.Fallible.{Result, ok, err, ◌>>=◌, ◌>>◌, fail_if}
use celily.Prelude.Text.{Text, codes, ends_with}
use celily.Network.Rule.{
  QuotaConfig, AuthConfig, HttpScheme, default_port, IpAddr, HttpRule, NetworkRule,
}

-- `ConfigError::Validation`, by its message.
pub data ConfigError : Type 0 where
  empty_path_prefixes empty_methods empty_ports host_with_port zero_requests : ConfigError

-- The window is read by `humantime`, in whole seconds here.
pub record ConfigQuotaConfig : Type 0 where
  pub max_requests : ℕ
  pub window : ℕ

pub record ConfigHttpRule : Type 0 where
  pub host : Text
  pub ports : Option (List ℕ)
  pub path_prefixes : Option (List Text)
  pub auth : Option AuthConfig
  pub headers : List (Text × Text)
  pub methods : Option (List Text)
  pub quota : Option ConfigQuotaConfig

pub data ConfigNetworkRule : Type 0 where
  http https : ConfigHttpRule → ConfigNetworkRule
  tcp : IpAddr → List ℕ → ConfigNetworkRule

-- `is_some_and(Vec::is_empty)`
abbrev pub is_empty_list {ℓ} : {A : Type ℓ} → Option (List A) → Bool
is_empty_list none = false
is_empty_list (some xs) = is_empty xs

abbrev pub has_port : Text → Bool
has_port host = any (λ c. c == b':') host && not (ends_with b']' host)

-- `ConfigQuotaConfig::into_library`
unfoldable pub quota_into_library : ConfigQuotaConfig → Result ConfigError QuotaConfig
quota_into_library quota =
    if quota.max_requests == 0
    then err ConfigError.zero_requests
    else ok (record { max_requests = quota.max_requests; window = quota.window })

-- `quota.map(into_library).transpose()`
unfoldable pub convert_quota : Option ConfigQuotaConfig → Result ConfigError (Option QuotaConfig)
unfolding quota_into_library
convert_quota none = ok none
convert_quota (some quota) = elim (quota_into_library quota) [
  | ok converted ↦ ok (some converted)
  | err e ↦ err e
]

abbrev pub ports_or_default : Option (List ℕ) → HttpScheme → List ℕ
ports_or_default none scheme = default_port scheme ∷ []
ports_or_default (some ports) scheme = ports

abbrev pub converted : ConfigHttpRule → HttpScheme → Option QuotaConfig → HttpRule
converted rule scheme quota = record {
  scheme = scheme;
  host = rule.host;
  ports = ports_or_default rule.ports scheme;
  path_prefixes = rule.path_prefixes;
  auth = rule.auth;
  headers = rule.headers;
  methods = rule.methods;
  quota = quota;
}

-- `ConfigHttpRule::into_library`
unfoldable pub http_into_library : ConfigHttpRule → HttpScheme → Result ConfigError NetworkRule
unfolding ends_with
http_into_library rule scheme = do
  fail_if (is_empty_list rule.path_prefixes) ConfigError.empty_path_prefixes
  fail_if (is_empty_list rule.methods) ConfigError.empty_methods
  fail_if (is_empty_list rule.ports) ConfigError.empty_ports
  fail_if (has_port rule.host) ConfigError.host_with_port
  quota ← convert_quota rule.quota
  ok (NetworkRule.http (converted rule scheme quota))

-- `ConfigNetworkRule::into_library`
unfoldable pub into_library : ConfigNetworkRule → Result ConfigError NetworkRule
unfolding http_into_library
into_library (ConfigNetworkRule.http rule) = http_into_library rule HttpScheme.http
into_library (ConfigNetworkRule.https rule) = http_into_library rule HttpScheme.https
into_library (ConfigNetworkRule.tcp host ports) = ok (NetworkRule.tcp host ports)
