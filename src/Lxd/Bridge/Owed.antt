-- ===== src/Lxd/Bridge/Owed.antt =====
-- What the commands of network.rs leave behind: networks and ACLs that were made, and that nothing
-- has asked to delete since.
use celily.Prelude.{
  ◌≡◌, refl, sym, ◌∙◌, inl, inr, Bool, true, false, not, ◌&&◌, ◌||◌, List, [], ◌∷◌, ◌==◌, arith,
}
use celily.Prelude.Text.{Text, text_eq}
use celily.Prelude.Fallible.{Result, ok, err, Result-cases}
use celily.Validate.ExtTransport.{CommandError}
use celily.Effects.{History, run, bind, join, or_drop, exec, lift, ◌>>=◌, ◌>>◌}
use celily.Effects.Runs.{run->>=, run-or_drop, Every, Every-bind, Every->>=, Every-join}
use celily.Lxd.Acl.{NetworkAclRule}
use celily.Lxd.Bridge.{
  Command, create_network, delete_network, get_ipv4_address, egress_reject, set_dnsmasq, attach_acl,
  create_acl, delete_acl, add_acl_rule, Answer, Lxd, add_rules, LxdBridgeGuard, Drop, drop_bridge,
  drop_acl, drop_guard, configure,
}

abbrev pub Log : Type 0
Log = History Command Answer

unfoldable pub network_owed : Text → Log → Bool
network_owed name [] = false
network_owed name ((create_network n, ok _) ∷ h) = n == name || network_owed name h
network_owed name ((delete_network n, _) ∷ h) = not (n == name) && network_owed name h
network_owed name (_ ∷ h) = network_owed name h

unfoldable pub acl_owed : Text → Log → Bool
acl_owed name [] = false
acl_owed name ((create_acl n, ok _) ∷ h) = n == name || acl_owed name h
acl_owed name ((delete_acl n, _) ∷ h) = not (n == name) && acl_owed name h
acl_owed name (_ ∷ h) = acl_owed name h

-- Commands that neither make nor delete a network, or an ACL.
abbrev pub KeepsNetworks : Command → Type 0
KeepsNetworks (create_network _) = ⊥
KeepsNetworks (delete_network _) = ⊥
KeepsNetworks _ = Unit {0}

abbrev pub KeepsAcls : Command → Type 0
KeepsAcls (create_acl _) = ⊥
KeepsAcls (delete_acl _) = ⊥
KeepsAcls _ = Unit {0}

abbrev pub Keeps : Command → Type 0
Keeps c = KeepsNetworks c × KeepsAcls c

pub network_owed_kept :
    (name : Text) (c : Command) (r : Answer) (h : Log)
    → KeepsNetworks c
    → network_owed name ((c, r) ∷ h) ≡ network_owed name h
unfolding network_owed
network_owed_kept name (create_network _) r h k = elim k [ ]
network_owed_kept name (delete_network _) r h k = elim k [ ]
network_owed_kept name (get_ipv4_address _) r h k = refl
network_owed_kept name (egress_reject _) r h k = refl
network_owed_kept name (set_dnsmasq _ _) r h k = refl
network_owed_kept name (attach_acl _ _) r h k = refl
network_owed_kept name (create_acl _) r h k = refl
network_owed_kept name (delete_acl _) r h k = refl
network_owed_kept name (add_acl_rule _ _) r h k = refl

pub acl_owed_kept :
    (name : Text) (c : Command) (r : Answer) (h : Log)
    → KeepsAcls c
    → acl_owed name ((c, r) ∷ h) ≡ acl_owed name h
unfolding acl_owed
acl_owed_kept name (create_acl _) r h k = elim k [ ]
acl_owed_kept name (delete_acl _) r h k = elim k [ ]
acl_owed_kept name (create_network _) r h k = refl
acl_owed_kept name (delete_network _) r h k = refl
acl_owed_kept name (get_ipv4_address _) r h k = refl
acl_owed_kept name (egress_reject _) r h k = refl
acl_owed_kept name (set_dnsmasq _ _) r h k = refl
acl_owed_kept name (attach_acl _ _) r h k = refl
acl_owed_kept name (add_acl_rule _ _) r h k = refl

add_rules-Every : (acl : Text) (rules : List NetworkAclRule) → Every Keeps (add_rules acl rules)
unfolding add_rules
add_rules-Every acl [] = tt
add_rules-Every acl (rule ∷ rules) =
    Every->>= Keeps (exec (add_acl_rule acl rule)) _ ((tt, tt), λ _. tt)
      (λ _. add_rules-Every acl rules)

pub configure-Every :
    (schedule : List Bool) (name : Text) (rules : List NetworkAclRule) (dnsmasq : Text)
    → Every Keeps (configure schedule name rules dnsmasq)
unfolding configure
configure-Every schedule name rules dnsmasq =
    Every->>= Keeps
      (bind (join schedule (add_rules name rules) (exec (set_dnsmasq name dnsmasq)))
        (λ p. lift (ok p)))
      _
      (Every-bind Keeps (join schedule (add_rules name rules) (exec (set_dnsmasq name dnsmasq))) _
        (Every-join Keeps schedule (add_rules name rules) (exec (set_dnsmasq name dnsmasq))
          (add_rules-Every name rules) ((tt, tt), λ answer. tt))
        (λ p. tt))
      (λ p. Every->>= Keeps (lift p.0) _ tt (λ _. Every->>= Keeps (lift p.1) _ tt (λ _.
        Every->>= Keeps (exec (egress_reject name)) _ ((tt, tt), λ _. tt)
          (λ _. ((tt, tt), λ _. tt)))))

-- How code that makes a resource by `c` ends: without it, or with it made.
abbrev pub Settled :
    {A : Type 0} → (Log → Bool) → Command → Log → Result CommandError A × Log → Type 0
Settled owed c h (err _, h') = owed h' ≡ true → owed h ≡ true
Settled owed c h (ok _, h') = (t : Text) × (owed h' ≡ owed ((c, ok t) ∷ h))

module _ (world : Log → Command → Answer) {A : Type 0} (owed : Log → Bool) (c : Command) where
  -- A guarded body that keeps to its own commands, after the command that made the resource.
  pub guarded-Settled :
      (body : Lxd A) (drop : Drop)
      → ((e : CommandError) (h : Log) → owed ((c, err e) ∷ h) ≡ owed h)
      → ((h : Log) → owed (run world body h).1 ≡ owed h)
      → ((t : Text) (h h' : Log)
          → owed h' ≡ owed ((c, ok t) ∷ h)
          → owed (run world drop h').1 ≡ true
          → owed h ≡ true)
      → (h : Log) → Settled owed c h (run world (exec c >> or_drop body drop) h)
  unfolding run bind
  guarded-Settled body drop failed same dropped h = elim (Result-cases (world h c)) [
    | inr (x, answer) ↦ rw answer (λ o. sym (failed x h) ∙ o)
    | inl (t, answer) ↦
        let h1 : Log = (c, ok t) ∷ h in
        rw (answer, run-or_drop world body drop h1)
          (elim (Result-cases (run world body h1).0) [
            | inl (a, ended) ↦ rw ended (t, same h1)
            | inr (y, ended) ↦ rw ended (dropped t h (run world body h1).1 (same h1))
          ])
  ]

  module _
      (forget : (r : Answer) (h h' : Log)
        → owed h ≡ owed h'
        → owed ((c, r) ∷ h) ≡ owed ((c, r) ∷ h')) where
    from_same :
        (h h' : Log) (x : Result CommandError A × Log)
        → owed h ≡ owed h'
        → Settled owed c h x
        → Settled owed c h' x
    from_same h h' (ok a, l) e (t, s) = (t, s ∙ forget (ok t) h h' e)
    from_same h h' (err x, l) e s = λ o. sym e ∙ s o

    pub >>=-Settled :
        {B : Type 0} (first : Lxd B) (next : B → Lxd A)
        → ((h : Log) → owed (run world first h).1 ≡ owed h)
        → ((b : B) (h : Log) → Settled owed c h (run world (next b) h))
        → (h : Log) → Settled owed c h (run world (first >>= next) h)
    >>=-Settled first next same settled h =
        rw (run->>= world first next h) (elim (Result-cases (run world first h).0) [
          | inr (x, ended) ↦ rw ended (λ o. sym (same h) ∙ o)
          | inl (b, ended) ↦ rw ended (
              from_same _ h (run world (next b) (run world first h).1) (same h)
                (settled b (run world first h).1))
        ])

    pub or_drop-Settled :
        (body : Lxd A) (drop : Drop)
        → ((h : Log) → owed (run world drop h).1 ≡ owed h)
        → ((h : Log) → Settled owed c h (run world body h))
        → (h : Log) → Settled owed c h (run world (or_drop body drop) h)
    or_drop-Settled body drop same settled h =
        rw (run-or_drop world body drop h) (after (run world body h) (settled h))
      where
        after :
            (x : Result CommandError A × Log)
            → Settled owed c h x
            → Settled {A = A} owed c h
                (elim x.0 [ ok a ↦ (ok a, x.1) | err e ↦ (err e, (run world drop x.1).1) ])
        after (ok a, l) s = s
        after (err e, l) s = λ o. s (sym (same l) ∙ o)

pub acl_owed_same :
    (r name : Text) (a : Answer) (h h' : Log)
    → acl_owed r h ≡ acl_owed r h'
    → acl_owed r ((create_acl name, a) ∷ h) ≡ acl_owed r ((create_acl name, a) ∷ h')
unfolding acl_owed
acl_owed_same r name (ok t) h h' e = rw e refl
acl_owed_same r name (err x) h h' e = e

module _ (world : Log → Command → Answer) where
  pub drop_bridge-owed :
      (name r : Text) (t : Text) (h h' : Log)
      → network_owed r h' ≡ network_owed r ((create_network name, ok t) ∷ h)
      → network_owed r (run world (drop_bridge (record { name = name; keep = false })) h').1 ≡ true
      → network_owed r h ≡ true
  unfolding run drop_bridge network_owed
  drop_bridge-owed name r t h h' e o = ground arith

  pub drop_acl-owed :
      (name r : Text) (t : Text) (h h' : Log)
      → acl_owed r h' ≡ acl_owed r ((create_acl name, ok t) ∷ h)
      → acl_owed r (run world (drop_acl (record { name = name; keep = false })) h').1 ≡ true
      → acl_owed r h ≡ true
  unfolding run drop_acl acl_owed
  drop_acl-owed name r t h h' e o = ground arith

  pub drop_guard-owed :
      (name r : Text) (t u : Text) (h h' : Log)
      → network_owed r h' ≡ network_owed r ((create_network name, ok t) ∷ h)
      → acl_owed r h' ≡ acl_owed r ((create_acl name, ok u) ∷ h)
      → let guard : LxdBridgeGuard = record {
        bridge = record { name = name; keep = false };
        acl = record { name = name; keep = false };
      } in
        let after : Log = (run world (drop_guard guard) h').1 in
        (network_owed r after ≡ true → network_owed r h ≡ true)
        × (acl_owed r after ≡ true → acl_owed r h ≡ true)
  unfolding run bind drop_guard drop_bridge drop_acl network_owed acl_owed
  drop_guard-owed name r t u h h' n a = (λ o. ground arith, λ o. ground arith)
