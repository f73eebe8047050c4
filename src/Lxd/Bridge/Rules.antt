-- ===== src/Lxd/Bridge/Rules.antt =====
-- What `create_bridge` makes of the ACL, on every schedule of its concurrent parts.
use celily.Prelude.{
  ◌≡◌, refl, sym, ap, ◌∙◌, Bool, Option, some, List, [], ◌∷◌, ◌++◌, append_assoc, append-nil,
  eq_refl,
}
use celily.Prelude.Text.{Text, text_eq}
use celily.Prelude.Fallible.{Result, ok, err}
use celily.Effects.{Program, bind, join, exec, lift}
use celily.Effects.Reaches.{
  Reaches, Then, Reaches-bind, Reaches-mono, Reaches->>=, Reaches-or_drop, Idle, Idle-Reaches,
  Reaches-join_left, Reaches-exec, Reaches-Idle,
}
use celily.Backend.Subnet.{BridgeSubnet, show_ipv4}
use celily.Network.Params.{CreateBridgeParams}
use celily.Validate.ExtTransport.{CommandError}
use celily.Lxd.Acl.{NetworkAclRule, build_rules_from_params}
use celily.Lxd.Bridge.{
  Command, create_network, get_ipv4_address, egress_reject, set_dnsmasq, attach_acl, create_acl,
  add_acl_rule, Answer, get_network_ipv4, add_rules, configure, finish, build_dnsmasq_config,
  create_acl_guard, create_bridge,
}
use celily.Lxd.Bridge.State.{acl_change, on_success_idle, acl_step}
use celily.Lxd.Bridge.Cleanup.{body, acl_body, set_up, made}
use celily.Lxd.Bridge.Network.{Made}

module _ (name : Text) where
  -- Rules that are added in order, all of them if no error comes back.
  abbrev HasRules :
      List NetworkAclRule
      → List NetworkAclRule
      → Result CommandError (Unit {0})
      → Option (List NetworkAclRule)
      → Type 0
  HasRules old rules (ok _) s = s ≡ some (old ++ rules)
  HasRules old rules (err _) s = Unit {0}

  more :
      (old : List NetworkAclRule) (rule : NetworkAclRule) (rules : List NetworkAclRule)
      (m : Result CommandError (Unit {0})) (s : Option (List NetworkAclRule))
      → HasRules (old ++ rule ∷ []) rules m s
      → HasRules old (rule ∷ rules) m s
  more old rule rules (ok _) s h = h ∙ ap some (append_assoc old (rule ∷ []) rules)
  more old rule rules (err _) s h = tt

  add_rules-HasRules :
      (rules old : List NetworkAclRule)
      → Reaches (acl_step name) (HasRules old rules) (add_rules name rules) (some old)
  unfolding add_rules acl_change
  add_rules-HasRules [] old = ap some (sym (append-nil old))
  add_rules-HasRules (rule ∷ rules) old =
      Reaches-exec (acl_step name) (HasRules old (rule ∷ rules)) (λ _ _. tt)
        (add_acl_rule name rule) _ (some old)
        (λ t. rw (eq_refl name) (
          Reaches-mono (acl_step name) (HasRules (old ++ rule ∷ []) rules)
            (HasRules old (rule ∷ rules)) (more old rule rules) (add_rules name rules)
            (some (old ++ rule ∷ [])) (add_rules-HasRules rules (old ++ rule ∷ []))))

  acl-Idle :
      (c : Command)
      → ((s : Option (List NetworkAclRule)) → acl_change name c s ≡ s)
      → Idle (acl_step name) (exec c)
  acl-Idle c same r = (on_success_idle (acl_change name) c same r, tt)

  abbrev pub IsAcl : CreateBridgeParams → Made → Option (List NetworkAclRule) → Type 0
  IsAcl params (ok (_, subnet)) s =
      s ≡ some (build_rules_from_params params (show_ipv4 subnet.gateway))
  IsAcl params (err _) s = Unit {0}

  -- Once the rules are in, the rest leaves them as they are.
  finish-HasRules :
      (rules : List NetworkAclRule)
      (both : Result CommandError (Unit {0}) × Result CommandError (Unit {0}))
      (s : Option (List NetworkAclRule))
      → HasRules [] rules both.0 s
      → Reaches (acl_step name) (HasRules [] rules) (finish name both) s
  unfolding acl_change bind
  finish-HasRules rules (err e, _) s h = tt
  finish-HasRules rules (ok _, err e) s h = tt
  finish-HasRules rules (ok _, ok _) s h =
      Reaches-Idle (acl_step name) (HasRules [] rules) (λ _ _. tt) (exec (egress_reject name)) _ s
        (acl-Idle (egress_reject name) (λ _. refl))
        (λ _.
          Idle-Reaches (acl_step name) (HasRules [] rules) (exec (attach_acl name name)) s
            (acl-Idle (attach_acl name name) (λ _. refl)) ended)
    where
      ended : (m : Result CommandError (Unit {0})) → HasRules [] rules m s
      ended (ok _) = h
      ended (err _) = tt

  configure-HasRules :
      (schedule : List Bool) (rules : List NetworkAclRule) (dnsmasq : Text)
      → Reaches
          (acl_step name)
          (HasRules [] rules)
          (configure schedule name rules dnsmasq)
          (some [])
  unfolding configure acl_change
  configure-HasRules schedule rules dnsmasq =
      Reaches->>= step Q (bind both (λ b. lift (ok b))) (finish name) (some []) (
        Reaches-bind step (Then step Q (finish name)) both (λ b. lift (ok b)) (some [])
          (Reaches-mono step (λ b. Q b.0) _ (finish-HasRules rules) both (some [])
            (Reaches-join_left step Q schedule (add_rules name rules)
              (exec (set_dnsmasq name dnsmasq)) (some []) (add_rules-HasRules rules [])
              (acl-Idle (set_dnsmasq name dnsmasq) (λ _. refl)))))
    where
      step : Command → Answer → Option (List NetworkAclRule) → Option (List NetworkAclRule)
      step = acl_step name

      Q : Result CommandError (Unit {0}) → Option (List NetworkAclRule) → Type 0
      Q = HasRules [] rules

      both :
          Program Command Answer (Result CommandError (Unit {0}) × Result CommandError (Unit {0}))
      both = join schedule (add_rules name rules) (exec (set_dnsmasq name dnsmasq))

module _ (schedule : List Bool) (name : Text) (params : CreateBridgeParams) where
  pub create_bridge-IsAcl :
      (s : Option (List NetworkAclRule))
      → Reaches (acl_step name) (IsAcl name params) (create_bridge schedule name params) s
  unfolding create_bridge create_acl_guard acl_change get_network_ipv4
  create_bridge-IsAcl s =
      Reaches-Idle step Q (λ _ _. tt) (exec (create_network name)) _ s
        (acl-Idle name (create_network name) (λ _. refl))
        (λ _.
          Reaches-or_drop step Q (λ _ _. tt) (body schedule name params) _ s
            (Reaches-Idle step Q (λ _ _. tt) (get_network_ipv4 name) _ s
              (λ r. (on_success_idle (acl_change name) (get_ipv4_address name) (λ _. refl) r, tt))
              (λ subnet.
                Reaches-exec step Q (λ _ _. tt) (create_acl name) _ s
                  (λ t. rw (eq_refl name) (
                    Reaches-or_drop step Q (λ _ _. tt) (acl_body schedule name params subnet) _
                      (some [])
                      (Reaches->>= step Q (set_up schedule name params subnet) _ (some []) (
                        Reaches-mono step
                          (HasRules name []
                            (build_rules_from_params params (show_ipv4 subnet.gateway)))
                          _ (ended subnet) (set_up schedule name params subnet) (some [])
                          (configure-HasRules name schedule
                            (build_rules_from_params params (show_ipv4 subnet.gateway))
                            (build_dnsmasq_config (show_ipv4 subnet.gateway)
                              params.dns_port)))))))))
    where
      step : Command → Answer → Option (List NetworkAclRule) → Option (List NetworkAclRule)
      step = acl_step name

      Q : Made → Option (List NetworkAclRule) → Type 0
      Q = IsAcl name params

      ended :
          (subnet : BridgeSubnet) (m : Result CommandError (Unit {0}))
          (s : Option (List NetworkAclRule))
          → HasRules name [] (build_rules_from_params params (show_ipv4 subnet.gateway)) m s
          → Then step Q (λ _. made name params subnet) m s
      ended subnet (ok _) s h = h
      ended subnet (err _) s h = tt
