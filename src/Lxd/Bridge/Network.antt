-- ===== src/Lxd/Bridge/Network.antt =====
-- What `create_bridge` makes of the network, on every schedule of its concurrent parts.
use celily.Prelude.{◌≡◌, refl, Bool, true, false, Option, none, some, List, [], ◌∷◌, eq_refl}
use celily.Prelude.Text.{Text, text_eq}
use celily.Prelude.Fallible.{Result, ok, err}
use celily.Effects.{Program, bind, join, exec, lift}
use celily.Effects.Reaches.{
  Reaches, Then, Reaches-bind, Reaches-mono, Reaches->>=, Reaches-or_drop, Idle, Idle->>=,
  Reaches-join_right, Reaches-exec, Reaches-Idle,
}
use celily.Backend.Subnet.{BridgeSubnet, show_ipv4}
use celily.Network.Params.{CreateBridgeParams}
use celily.Validate.ExtTransport.{CommandError}
use celily.Lxd.Acl.{NetworkAclRule, build_rules_from_params}
use celily.Lxd.Bridge.{
  Command, create_network, get_ipv4_address, egress_reject, set_dnsmasq, attach_acl, create_acl,
  add_acl_rule, Answer, get_network_ipv4, add_rules, LxdBridgeGuard, configure, finish,
  build_dnsmasq_config, create_acl_guard, create_bridge,
}
use celily.Lxd.Bridge.State.{Network, new_network, network_change, on_success_idle, network_step}
use celily.Lxd.Bridge.Cleanup.{body, acl_body, set_up, made}

abbrev pub Made : Type 0
Made = Result CommandError (LxdBridgeGuard × BridgeSubnet)

module _ (name : Text) where
  network-Idle :
      (c : Command)
      → ((s : Option Network) → network_change name c s ≡ s)
      → Idle (network_step name) (exec c)
  network-Idle c same r = (on_success_idle (network_change name) c same r, tt)

  add_rules-Idle : (rules : List NetworkAclRule) → Idle (network_step name) (add_rules name rules)
  unfolding add_rules network_change
  add_rules-Idle [] = tt
  add_rules-Idle (rule ∷ rules) =
      Idle->>= (network_step name) (exec (add_acl_rule name rule)) _
        (network-Idle (add_acl_rule name rule) (λ _. refl)) (λ _. add_rules-Idle rules)

  -- The settings of a network whose bridge has been made.
  abbrev pub isolated : CreateBridgeParams → BridgeSubnet → Network
  isolated params subnet = record {
    raw_dnsmasq = some (build_dnsmasq_config (show_ipv4 subnet.gateway) params.dns_port);
    rejects = true;
    security_acls = some name;
  }

  abbrev pub IsNetwork : CreateBridgeParams → Made → Option Network → Type 0
  IsNetwork params (ok (_, subnet)) s = s ≡ some (isolated params subnet)
  IsNetwork params (err _) s = Unit {0}

  -- After the join, and at the end of `configure`.
  abbrev HasDns : Text → Result CommandError (Unit {0}) → Option Network → Type 0
  HasDns dnsmasq (ok _) s =
      s ≡ some (record { raw_dnsmasq = some dnsmasq; rejects = false; security_acls = none })
  HasDns dnsmasq (err _) s = Unit {0}

  abbrev IsClosed : Text → Result CommandError (Unit {0}) → Option Network → Type 0
  IsClosed dnsmasq (ok _) s =
      s ≡ some (record { raw_dnsmasq = some dnsmasq; rejects = true; security_acls = some name })
  IsClosed dnsmasq (err _) s = Unit {0}

  set_dnsmasq-HasDns :
      (dnsmasq : Text)
      → Reaches
          (network_step name)
          (HasDns dnsmasq)
          (exec (set_dnsmasq name dnsmasq))
          (some new_network)
  unfolding network_change
  set_dnsmasq-HasDns dnsmasq (ok t) = rw (eq_refl name) refl
  set_dnsmasq-HasDns dnsmasq (err e) = tt

  attached :
      (dnsmasq : Text)
      → Reaches
          (network_step name)
          (IsClosed dnsmasq)
          (exec (attach_acl name name))
          (some (record { raw_dnsmasq = some dnsmasq; rejects = true; security_acls = none }))
  unfolding network_change
  attached dnsmasq (ok t) = rw (eq_refl name) refl
  attached dnsmasq (err e) = tt

  finish-IsClosed :
      (dnsmasq : Text) (both : Result CommandError (Unit {0}) × Result CommandError (Unit {0}))
      (s : Option Network)
      → HasDns dnsmasq both.1 s
      → Reaches (network_step name) (IsClosed dnsmasq) (finish name both) s
  unfolding network_change bind
  finish-IsClosed dnsmasq (err e, _) s h = tt
  finish-IsClosed dnsmasq (ok _, err e) s h = tt
  finish-IsClosed dnsmasq (ok _, ok _) s h = rw h (
      Reaches-exec (network_step name) (IsClosed dnsmasq) (λ _ _. tt) (egress_reject name) _ _
        (λ t. rw (eq_refl name) (attached dnsmasq)))

  configure-IsClosed :
      (schedule : List Bool) (rules : List NetworkAclRule) (dnsmasq : Text)
      → Reaches
          (network_step name)
          (IsClosed dnsmasq)
          (configure schedule name rules dnsmasq)
          (some new_network)
  unfolding configure
  configure-IsClosed schedule rules dnsmasq =
      Reaches->>= (network_step name) (IsClosed dnsmasq) (bind both (λ b. lift (ok b)))
        (finish name) (some new_network)
        (Reaches-bind (network_step name)
          (Then (network_step name) (IsClosed dnsmasq) (finish name)) both (λ b. lift (ok b))
          (some new_network)
          (Reaches-mono (network_step name) (λ b. HasDns dnsmasq b.1) _ (finish-IsClosed dnsmasq)
            both (some new_network)
            (Reaches-join_right (network_step name) (HasDns dnsmasq) schedule (add_rules name rules)
              (exec (set_dnsmasq name dnsmasq)) (some new_network) (set_dnsmasq-HasDns dnsmasq)
              (add_rules-Idle rules))))
    where
      both :
          Program Command Answer (Result CommandError (Unit {0}) × Result CommandError (Unit {0}))
      both = join schedule (add_rules name rules) (exec (set_dnsmasq name dnsmasq))

module _ (schedule : List Bool) (name : Text) (params : CreateBridgeParams) where
  pub create_bridge-IsNetwork :
      (s : Option Network)
      → Reaches (network_step name) (IsNetwork name params) (create_bridge schedule name params) s
  unfolding create_bridge create_acl_guard network_change get_network_ipv4
  create_bridge-IsNetwork s =
      Reaches-exec step Q (λ _ _. tt) (create_network name) _ s
        (λ t. rw (eq_refl name) (
          Reaches-or_drop step Q (λ _ _. tt) (body schedule name params) _ (some new_network)
            (Reaches-Idle step Q (λ _ _. tt) (get_network_ipv4 name) _ (some new_network)
              (λ r.
                (on_success_idle (network_change name) (get_ipv4_address name) (λ _. refl) r, tt))
              (λ subnet.
                Reaches-Idle step Q (λ _ _. tt) (exec (create_acl name)) _ (some new_network)
                  (network-Idle name (create_acl name) (λ _. refl))
                  (λ _.
                    Reaches-or_drop step Q (λ _ _. tt) (acl_body schedule name params subnet) _
                      (some new_network)
                      (Reaches->>= step Q (set_up schedule name params subnet) _ (some new_network)
                        (Reaches-mono step (IsClosed name _) _ (ended subnet)
                          (set_up schedule name params subnet) (some new_network)
                          (configure-IsClosed name schedule
                            (build_rules_from_params params (show_ipv4 subnet.gateway))
                            (build_dnsmasq_config (show_ipv4 subnet.gateway)
                              params.dns_port)))))))))
    where
      step : Command → Answer → Option Network → Option Network
      step = network_step name

      Q : Made → Option Network → Type 0
      Q = IsNetwork name params

      ended :
          (subnet : BridgeSubnet) (m : Result CommandError (Unit {0})) (s : Option Network)
          → IsClosed name (build_dnsmasq_config (show_ipv4 subnet.gateway) params.dns_port) m s
          → Then step Q (λ _. made name params subnet) m s
      ended subnet (ok _) s h = h
      ended subnet (err _) s h = tt
