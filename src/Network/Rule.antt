-- ===== src/Network/Rule.antt =====
-- celily-lib/src/network/rule.rs: the allow rules.
use celily.Prelude.{ℕ, ◌≡◌, ◌↔◌, Bool, true, false, arith, List, Option, PartialEq}
use celily.Prelude.Text.{Text}

-- A quota of requests to a window of time.
pub record QuotaConfig : Type 0 where
  pub max_requests : ℕ
  -- whole seconds, `as_secs`
  pub window : ℕ

pub record AuthConfig : Type 0 where
  pub secret : Text
  pub header : Text
  pub prefix : Option Text

pub data HttpScheme : Type 0 where
  http https : HttpScheme

abbrev pub default_port : HttpScheme → ℕ
default_port HttpScheme.http = 80
default_port HttpScheme.https = 443

unfoldable pub scheme_beq : HttpScheme → HttpScheme → Bool
scheme_beq HttpScheme.http HttpScheme.http = true
scheme_beq HttpScheme.https HttpScheme.https = true
scheme_beq _ _ = false

pub scheme_beq_iff : (a b : HttpScheme) → (scheme_beq a b ≡ true) ↔ (a ≡ b)
unfolding scheme_beq
scheme_beq_iff HttpScheme.http HttpScheme.http = ground arith
scheme_beq_iff _ _ = ground arith

instance abbrev pub scheme_eq : PartialEq HttpScheme
scheme_eq = record { same = scheme_beq; same_iff = scheme_beq_iff }

-- An IPv4 address is its 32 bits, an IPv6 address its 128 bits.
pub data IpAddr : Type 0 where
  v4 v6 : ℕ → IpAddr

-- The fields of `NetworkRule::Http`. The header map is a list, in the order of its iteration.
pub record HttpRule : Type 0 where
  pub scheme : HttpScheme
  pub host : Text
  pub ports : List ℕ
  pub path_prefixes : Option (List Text)
  pub auth : Option AuthConfig
  pub headers : List (Text × Text)
  pub methods : Option (List Text)
  pub quota : Option QuotaConfig

pub data NetworkRule : Type 0 where
  http : HttpRule → NetworkRule
  tcp : IpAddr → List ℕ → NetworkRule
