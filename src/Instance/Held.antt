-- ===== src/Instance/Held.antt =====
-- What an instance holds at each moment of its life: what the calls have made, and no call has been
-- asked to take down since.
use celily.Prelude.{◌≡◌, Bool, true, false, ◌&&◌, ◌||◌, [], ◌∷◌, ◌==◌, if◌then◌else◌}
use celily.Prelude.Text.{Text, text_eq}
use celily.Prelude.Fallible.{Result, ok, err, map_err}
use celily.Effects.{Action, History, ◌>>=◌}
use celily.Effects.Reaches.{Reaches, Then, Reaches->>=, Idle, Idle->>=}
use celily.Instance.{Call, Answer, Reply, InstanceError, backend, Step, request, do_call}

-- `torn` says that a bridge was taken down while the instance was attached to it.
pub record Held : Type 0 where
  pub has_instance : Bool
  pub is_attached : Bool
  pub has_proxy : Bool
  pub has_bridge : Bool
  pub torn : Bool

abbrev pub nothing_held : Held
nothing_held = record {
  has_instance = false;
  is_attached = false;
  has_proxy = false;
  has_bridge = false;
  torn = false;
}

-- What a call that made something has made.
abbrev pub when_ok : {E : Type 0} → Answer E → Held → Held → Held
when_ok (ok _) made held = made
when_ok (err _) made held = held

module _ {E : Type 0} (name bridge_name : Text) where
  unfoldable pub held_step : Call → Answer E → Held → Held
  held_step (Call.create n _) r s =
      if n == name then when_ok r (record s { has_instance = true }) s else s
  held_step (Call.delete n) r s =
      if n == name then record s { has_instance = false; is_attached = false } else s
  held_step (Call.attach_to_bridge n b _ _) r s =
      if n == name && b == bridge_name then when_ok r (record s { is_attached = true }) s else s
  held_step (Call.create_bridge b _) r s =
      if b == bridge_name then when_ok r (record s { has_bridge = true }) s else s
  held_step (Call.drop_bridge b) r s =
      if b == bridge_name
      then record s { has_bridge = false; torn = s.torn || s.is_attached }
      else s
  held_step (Call.start_proxy b _ _ _) r s =
      if b == bridge_name then when_ok r (record s { has_proxy = true }) s else s
  held_step (Call.drop_proxy b) r s = if b == bridge_name then record s { has_proxy = false } else s
  held_step _ r s = s

  unfoldable pub held : History Call (Answer E) → Held
  held [] = nothing_held
  held ((c, r) ∷ h) = held_step c r (held h)

-- The rules for one call, before what follows it.
module _ {E S : Type 0} (step : Call → Answer E → S → S) where
  pub Reaches-request :
      {F B : Type 0} (Q : Result F B → S → Type 0) (report : E → F) (c : Call)
      (next : Reply → Action Call (Answer E) F B) (s : S)
      → ((e : E) → Q (err (report e)) (step c (err e) s))
      → ((v : Reply) → Reaches step Q (next v) (step c (ok v) s))
      → Reaches step Q (request report c >>= next) s
  Reaches-request Q report c next s failed went =
      Reaches->>= step Q (request report c) next s answered
    where
      answered : (r : Answer E) → Then step Q next (map_err report r) (step c r s)
      answered (ok v) = went v
      answered (err e) = failed e

  pub Reaches-do_call :
      {B : Type 0} (Q : Result (InstanceError E) B → S → Type 0) (context : Text) (c : Call)
      (next : Unit {0} → Step E B) (s : S)
      → ((e : E) → Q (err (backend context e)) (step c (err e) s))
      → ((v : Reply) → Reaches step Q (next tt) (step c (ok v) s))
      → Reaches step Q (do_call context c >>= next) s
  Reaches-do_call Q context c next s failed went =
      Reaches->>= step Q (do_call context c) next s
        (Reaches-request (Then step Q next) (backend context) c _ s failed went)

  pub do_call-Idle :
      (context : Text) (c : Call)
      → ((r : Answer E) (s : S) → step c r s ≡ s)
      → Idle step (do_call context c)
  do_call-Idle context c same =
      Idle->>= step (request (backend context) c) _ (λ r. (same r, tt)) (λ _. tt)
