-- ===== src/Instance/Isolation.antt =====
-- celily-lib/src/network/mod.rs: `NetworkIsolation::setup`.
use celily.Prelude.{Bool, true, false, Option, none, some, List, [], ◌∷◌, ◌==◌, ◌||◌}
use celily.Prelude.Text.{Text, text_eq}
use celily.Prelude.Fallible.{ok, err}
use celily.Effects.{Action, done, ask, bind, or_drop, ◌>>=◌, lift}
use celily.Backend.Subnet.{BridgeSubnet}
use celily.Network.Rule.{NetworkRule, v4}
use celily.Network.Params.{CreateBridgeParams, proxy_port}
use celily.Instance.{
  Call, Answer, NetworkError, bridge_failed, proxy_failed, secret_failed, no_provider,
  NetworkIsolation, Drop, request,
}

-- `contains_key`
unfoldable pub contains_key : Text → List (Text × Text) → Bool
contains_key key [] = false
contains_key key ((k, _) ∷ rest) = k == key || contains_key key rest

-- The secret that a rule needs.
unfoldable pub secret_of : NetworkRule → Option Text
secret_of (NetworkRule.tcp _ _) = none
secret_of (NetworkRule.http rule) = elim rule.auth [ none ↦ none | some auth ↦ some auth.secret ]

abbrev pub Secrets : Type 0 → Type 0
Secrets E = Action Call (Answer E) (NetworkError E) (List (Text × Text))

module _ {E : Type 0} where
  -- The body of the loop: a secret that is known is not resolved again.
  abbrev pub resolve_named : Bool → Text → List (Text × Text) → Bool → Secrets E
  resolve_named provider secret known true = lift (ok known)
  resolve_named false secret known false = lift (err (no_provider secret))
  resolve_named true secret known false = request secret_failed (Call.resolve secret) >>= λ value.
      lift (ok ((secret, value.output) ∷ known))

  abbrev pub resolve_one : Bool → List (Text × Text) → Option Text → Secrets E
  resolve_one provider known none = lift (ok known)
  resolve_one provider known (some secret) =
      resolve_named provider secret known (contains_key secret known)

  unfoldable pub resolve_secrets : Bool → List NetworkRule → List (Text × Text) → Secrets E
  unfolding bind contains_key secret_of
  resolve_secrets provider [] known = lift (ok known)
  resolve_secrets provider (rule ∷ rules) known = do
    known ← resolve_one provider known (secret_of rule)
    resolve_secrets provider rules known

  abbrev pub drop_created : Text → Drop E
  drop_created bridge_name = ask (Call.drop_bridge bridge_name) (λ _. done tt)

  abbrev pub launch_proxy :
      Text
      → List NetworkRule
      → BridgeSubnet
      → List (Text × Text)
      → Action Call (Answer E) (NetworkError E) (NetworkIsolation × Text)
  launch_proxy bridge_name allow subnet auth_secrets = do
    started ← request proxy_failed (Call.start_proxy bridge_name subnet allow auth_secrets)
    lift (
        ok (
          record {
            proxy_port = proxy_port;
            gateway_ip = v4 subnet.gateway;
            bridge_guard = bridge_name;
          },
          started.ca_cert,
        ))

  -- The secrets and the proxy, under the guard of the bridge.
  abbrev pub start_isolation :
      Text
      → List NetworkRule
      → Bool
      → BridgeSubnet
      → Action Call (Answer E) (NetworkError E) (NetworkIsolation × Text)
  start_isolation bridge_name allow provider subnet =
      resolve_secrets provider allow [] >>= launch_proxy bridge_name allow subnet

  unfoldable pub setup :
      Text
      → CreateBridgeParams
      → List NetworkRule
      → Bool
      → Action Call (Answer E) (NetworkError E) (NetworkIsolation × Text)
  unfolding bind or_drop resolve_secrets
  setup bridge_name params allow provider = do
    created ← request bridge_failed (Call.create_bridge bridge_name params)
    or_drop (start_isolation bridge_name allow provider created.subnet) (drop_created bridge_name)
