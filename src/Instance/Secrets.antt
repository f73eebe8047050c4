-- ===== src/Instance/Secrets.antt =====
-- The secrets of network/mod.rs: what resolving them leaves alone, and what it finds.
use celily.Prelude.{arith, ◌≡◌, refl, Bool, true, false, List, [], ◌∷◌, eq_refl, Option, none, some}
use celily.Prelude.Text.{Text, text_eq}
use celily.Prelude.Fallible.{Result, ok, err}
use celily.Effects.{History, run, bind}
use celily.Effects.Reaches.{Reaches, Then, Reaches->>=, Reaches-mono, Idle, Idle->>=, run-Reaches}
use celily.Network.Rule.{NetworkRule}
use celily.Instance.{Call, Answer, NetworkError, secret_failed, request}
use celily.Instance.Isolation.{contains_key, secret_of, resolve_named, resolve_one, resolve_secrets}
use celily.Instance.Init.{}
use celily.Instance.Held.{Reaches-request}

module _ {E S : Type 0} (step : Call → Answer E → S → S)
    (same : (secret : Text) (r : Answer E) (s : S) → step (Call.resolve secret) r s ≡ s) where
  resolve_named-Idle :
      (provider : Bool) (secret : Text) (known : List (Text × Text)) (there : Bool)
      → Idle step (resolve_named provider secret known there)
  unfolding bind
  resolve_named-Idle provider secret known true = tt
  resolve_named-Idle false secret known false = tt
  resolve_named-Idle true secret known false =
      Idle->>= step (request secret_failed (Call.resolve secret)) _ (λ r. (same secret r, tt))
        (λ _. tt)

  resolve_one-Idle :
      (provider : Bool) (known : List (Text × Text)) (secret : Option Text)
      → Idle step (resolve_one provider known secret)
  resolve_one-Idle provider known none = tt
  resolve_one-Idle provider known (some secret) =
      resolve_named-Idle provider secret known (contains_key secret known)

  pub resolve_secrets-Idle :
      (provider : Bool) (allow : List NetworkRule) (known : List (Text × Text))
      → Idle step (resolve_secrets provider allow known)
  unfolding resolve_secrets
  resolve_secrets-Idle provider [] known = tt
  resolve_secrets-Idle provider (rule ∷ rules) known =
      Idle->>= step (resolve_one provider known (secret_of rule)) (resolve_secrets provider rules)
        (resolve_one-Idle provider known (secret_of rule)) (resolve_secrets-Idle provider rules)

-- The secret of a rule, if it has one, is known.
abbrev pub IsKnown : List (Text × Text) → Option Text → Type 0
IsKnown known none = Unit {0}
IsKnown known (some secret) = contains_key secret known ≡ true

abbrev pub AreKnown : List (Text × Text) → List NetworkRule → Type 0
AreKnown known [] = Unit {0}
AreKnown known (rule ∷ rules) = IsKnown known (secret_of rule) × AreKnown known rules

module _ (E : Type 0) where
  abbrev Keeps : List (Text × Text) → List (Text × Text) → Type 0
  Keeps known more =
      (secret : Text) → contains_key secret known ≡ true → contains_key secret more ≡ true

  abbrev none_step : Call → Answer E → Unit {0} → Unit {0}
  none_step _ _ u = u

  abbrev Finds :
      List (Text × Text)
      → Option Text
      → Result (NetworkError E) (List (Text × Text))
      → Unit {0}
      → Type 0
  Finds known secret (ok more) _ = Keeps known more × IsKnown more secret
  Finds known secret (err _) _ = Unit {0}

  abbrev FindsAll :
      List (Text × Text)
      → List NetworkRule
      → Result (NetworkError E) (List (Text × Text))
      → Unit {0}
      → Type 0
  FindsAll known rules (ok more) _ = Keeps known more × AreKnown more rules
  FindsAll known rules (err _) _ = Unit {0}

  resolve_named-Finds :
      (provider : Bool) (secret : Text) (known : List (Text × Text)) (there : Bool)
      → contains_key secret known ≡ there
      → Reaches none_step (Finds known (some secret)) (resolve_named provider secret known there) tt
  unfolding bind contains_key
  resolve_named-Finds provider secret known true h = (λ _ k. k, h)
  resolve_named-Finds false secret known false h = tt
  resolve_named-Finds true secret known false h =
      Reaches-request none_step (Finds known (some secret)) secret_failed (Call.resolve secret) _ tt
        (λ _. tt) (λ v. (λ s k. ground (arith, k), ground (arith, eq_refl secret)))

  resolve_one-Finds :
      (provider : Bool) (known : List (Text × Text)) (secret : Option Text)
      → Reaches none_step (Finds known secret) (resolve_one provider known secret) tt
  resolve_one-Finds provider known none = (λ _ k. k, tt)
  resolve_one-Finds provider known (some secret) =
      resolve_named-Finds provider secret known (contains_key secret known) refl

  IsKnown-Keeps :
      (known more : List (Text × Text)) (secret : Option Text)
      → Keeps known more
      → IsKnown known secret
      → IsKnown more secret
  IsKnown-Keeps known more none keeps k = tt
  IsKnown-Keeps known more (some secret) keeps k = keeps secret k

  next :
      (provider : Bool) (rule : NetworkRule) (rules : List NetworkRule) (known : List (Text × Text))
      → ((k : List (Text × Text))
          → Reaches none_step (FindsAll k rules) (resolve_secrets provider rules k) tt)
      → (m : Result (NetworkError E) (List (Text × Text))) (u : Unit {0})
      → Finds known (secret_of rule) m u
      → Then none_step (FindsAll known (rule ∷ rules)) (resolve_secrets provider rules) m u
  next provider rule rules known later (err _) u f = tt
  next provider rule rules known later (ok more) u f =
      Reaches-mono none_step (FindsAll more rules) (FindsAll known (rule ∷ rules)) (ended more f)
        (resolve_secrets provider rules more) tt (later more)
    where
      ended :
          (more : List (Text × Text))
          → Keeps known more × IsKnown more (secret_of rule)
          → (m : Result (NetworkError E) (List (Text × Text))) (u : Unit {0})
          → FindsAll more rules m u
          → FindsAll known (rule ∷ rules) m u
      ended more f (err _) u k = tt
      ended more f (ok most) u k =
          (λ s there. k.0 s (f.0 s there), (IsKnown-Keeps more most (secret_of rule) k.0 f.1, k.1))

  resolve_secrets-FindsAll :
      (provider : Bool) (rules : List NetworkRule) (known : List (Text × Text))
      → Reaches none_step (FindsAll known rules) (resolve_secrets provider rules known) tt
  unfolding resolve_secrets
  resolve_secrets-FindsAll provider [] known = (λ _ k. k, tt)
  resolve_secrets-FindsAll provider (rule ∷ rules) known =
      Reaches->>= none_step (FindsAll known (rule ∷ rules))
        (resolve_one provider known (secret_of rule)) (resolve_secrets provider rules) tt
        (Reaches-mono none_step (Finds known (secret_of rule)) _
          (next provider rule rules known (resolve_secrets-FindsAll provider rules))
          (resolve_one provider known (secret_of rule)) tt
          (resolve_one-Finds provider known (secret_of rule)))

  -- If the secrets are resolved without an error, every rule that needs a secret finds it among
  -- them.
  pub resolve_secrets-AreKnown :
      (world : History Call (Answer E) → Call → Answer E) (provider : Bool)
      (rules : List NetworkRule) (known : List (Text × Text)) (h : History Call (Answer E))
      → (run world (resolve_secrets provider rules []) h).0 ≡ ok known
      → AreKnown known rules
  resolve_secrets-AreKnown world provider rules known h e =
      (rw e at (
        run-Reaches none_step (FindsAll [] rules) (λ _. tt) (λ _ _ _. refl) world
          (resolve_secrets provider rules []) h (resolve_secrets-FindsAll provider rules []))).1
