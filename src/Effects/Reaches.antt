-- ===== src/Effects/Reaches.antt =====
-- Programs against a state that each answered command changes.
use celily.Prelude.{◌≡◌, Bool, true, false, List, [], ◌∷◌}
use celily.Prelude.Fallible.{Result, ok, err}
use celily.Effects.{Program, done, ask, Action, History, run, bind, join, or_drop, exec, ◌>>=◌}

module _ {C R S : Type 0} (step : C → R → S → S) where
  -- However the commands are answered, the value and the state at the end are in the relation.
  abbrev pub Reaches : {A : Type 0} → (A → S → Type 0) → Program C R A → S → Type 0
  Reaches Q (done a) s = Q a s
  Reaches Q (ask c next) s = (r : R) → Reaches Q (next r) (step c r s)

  -- What a result leads to: an error ends the chain.
  abbrev pub Then :
      {E A B : Type 0} → (Result E B → S → Type 0) → (A → Action C R E B) → Result E A → S → Type 0
  Then Q next (ok a) s = Reaches Q (next a) s
  Then Q next (err e) s = Q (err e) s

  pub Reaches-bind :
      {A B : Type 0} (Q : B → S → Type 0) (p : Program C R A) (f : A → Program C R B) (s : S)
      → Reaches (λ a. Reaches Q (f a)) p s
      → Reaches Q (bind p f) s
  unfolding bind
  Reaches-bind Q (done a) f s h = h
  Reaches-bind Q (ask c next) f s h = λ r. Reaches-bind Q (next r) f (step c r s) (h r)

  pub Reaches-mono :
      {A : Type 0} (Q Q' : A → S → Type 0)
      → ((a : A) (s : S) → Q a s → Q' a s)
      → (p : Program C R A) (s : S) → Reaches Q p s
      → Reaches Q' p s
  Reaches-mono Q Q' f (done a) s h = f a s h
  Reaches-mono Q Q' f (ask c next) s h = λ r. Reaches-mono Q Q' f (next r) (step c r s) (h r)

  pub Reaches->>= :
      {E A B : Type 0} (Q : Result E B → S → Type 0) (p : Action C R E A)
      (next : A → Action C R E B) (s : S)
      → Reaches (Then Q next) p s
      → Reaches Q (p >>= next) s
  unfolding bind
  Reaches->>= Q (done (ok a)) next s h = h
  Reaches->>= Q (done (err e)) next s h = h
  Reaches->>= Q (ask c rest) next s h = λ r. Reaches->>= Q (rest r) next (step c r s) (h r)

  -- A relation that every error is in is kept by a guard.
  pub Reaches-or_drop :
      {E A : Type 0} (Q : Result E A → S → Type 0)
      → ((e : E) (s : S) → Q (err e) s)
      → (body : Action C R E A) (drop : Program C R (Unit {0})) (s : S) → Reaches Q body s
      → Reaches Q (or_drop body drop) s
  unfolding or_drop bind
  Reaches-or_drop Q failed (done (ok a)) drop s h = h
  Reaches-or_drop Q failed (done (err e)) drop s h = Reaches-bind Q drop _ s (Reaches-any drop s)
    where
      Reaches-any : (d : Program C R (Unit {0})) (s : S) → Reaches (λ _. Q (err e)) d s
      Reaches-any (done u) s = failed e s
      Reaches-any (ask c next) s = λ r. Reaches-any (next r) (step c r s)
  Reaches-or_drop Q failed (ask c next) drop s h =
      λ r. Reaches-or_drop Q failed (next r) drop (step c r s) (h r)

  -- A guard: an error is kept through its drop.
  abbrev pub Dropped :
      {E A : Type 0} → (Result E A → S → Type 0) → Program C R (Unit {0}) → Result E A → S → Type 0
  Dropped Q drop (ok a) s = Q (ok a) s
  Dropped Q drop (err e) s = Reaches (λ _. Q (err e)) drop s

  pub Reaches-or_drop-Dropped :
      {E A : Type 0} (Q : Result E A → S → Type 0) (body : Action C R E A)
      (drop : Program C R (Unit {0})) (s : S)
      → Reaches (Dropped Q drop) body s
      → Reaches Q (or_drop body drop) s
  unfolding or_drop bind
  Reaches-or_drop-Dropped Q (done (ok a)) drop s h = h
  Reaches-or_drop-Dropped Q (done (err e)) drop s h = Reaches-bind Q drop _ s h
  Reaches-or_drop-Dropped Q (ask c next) drop s h =
      λ r. Reaches-or_drop-Dropped Q (next r) drop (step c r s) (h r)

  -- No command of the program changes the state.
  abbrev pub Idle : {A : Type 0} → Program C R A → Type 0
  Idle (done a) = Unit {0}
  Idle (ask c next) = (r : R) → ((s : S) → step c r s ≡ s) × Idle (next r)

  pub Idle-Reaches :
      {B : Type 0} (Q : B → S → Type 0) (q : Program C R B) (s : S)
      → Idle q
      → ((b : B) → Q b s)
      → Reaches Q q s
  Idle-Reaches Q (done b) s i h = h b
  Idle-Reaches Q (ask c next) s i h = λ r. rw ((i r).0 s) (Idle-Reaches Q (next r) s (i r).1 h)

  pub Idle->>= :
      {E A B : Type 0} (p : Action C R E A) (next : A → Action C R E B)
      → Idle p
      → ((a : A) → Idle (next a))
      → Idle (p >>= next)
  unfolding bind
  Idle->>= (done (ok a)) next i h = h a
  Idle->>= (done (err e)) next i h = tt
  Idle->>= (ask c rest) next i h = λ r. ((i r).0, Idle->>= (rest r) next (i r).1 h)

  pub Idle-bind :
      {A B : Type 0} (p : Program C R A) (f : A → Program C R B)
      → Idle p
      → ((a : A) → Idle (f a))
      → Idle (bind p f)
  unfolding bind
  Idle-bind (done a) f i h = h a
  Idle-bind (ask c next) f i h = λ r. ((i r).0, Idle-bind (next r) f (i r).1 h)

  pub Idle-or_drop :
      {E A : Type 0} (body : Action C R E A) (drop : Program C R (Unit {0}))
      → Idle body
      → Idle drop
      → Idle (or_drop body drop)
  unfolding or_drop bind
  Idle-or_drop (done (ok a)) drop i h = tt
  Idle-or_drop (done (err e)) drop i h = Idle-bind drop _ h (λ _. tt)
  Idle-or_drop (ask c next) drop i h = λ r. ((i r).0, Idle-or_drop (next r) drop (i r).1 h)

  -- In a join, a part that changes nothing leaves the other part's end as it is.
  module _ {A B : Type 0} (Q : A → S → Type 0) where
    pub Reaches-join_left :
        (schedule : List Bool) (p : Program C R A) (q : Program C R B) (s : S)
        → Reaches Q p s
        → Idle q
        → Reaches (λ both. Q both.0) (join schedule p q) s
    unfolding join
    Reaches-join_left schedule (done a) q s h i =
        Reaches-bind (λ both. Q both.0) q _ s (Idle-Reaches (λ _. Q a) q s i (λ _. h))
    Reaches-join_left schedule (ask c next) (done b) s h i =
        Reaches-bind (λ both. Q both.0) (ask c next) _ s h
    Reaches-join_left [] (ask c next) (ask d rest) s h i =
        Reaches-bind (λ both. Q both.0) (ask c next) _ s
          (Reaches-mono Q _
            (λ a t k.
              Reaches-bind (λ both. Q both.0) (ask d rest) _ t
                (Idle-Reaches (λ _. Q a) (ask d rest) t i (λ _. k)))
            (ask c next) s h)
    Reaches-join_left (true ∷ schedule) (ask c next) (ask d rest) s h i =
        λ r. Reaches-join_left schedule (next r) (ask d rest) (step c r s) (h r) i
    Reaches-join_left (false ∷ schedule) (ask c next) (ask d rest) s h i =
        λ r. rw ((i r).0 s) (Reaches-join_left schedule (ask c next) (rest r) s h (i r).1)

    pub Reaches-join_right :
        (schedule : List Bool) (p : Program C R B) (q : Program C R A) (s : S)
        → Reaches Q q s
        → Idle p
        → Reaches (λ both. Q both.1) (join schedule p q) s
    unfolding join
    Reaches-join_right schedule (done b) q s h i = Reaches-bind (λ both. Q both.1) q _ s h
    Reaches-join_right schedule (ask c next) (done a) s h i =
        Reaches-bind (λ both. Q both.1) (ask c next) _ s
          (Idle-Reaches (λ _. Q a) (ask c next) s i (λ _. h))
    Reaches-join_right [] (ask c next) (ask d rest) s h i =
        Reaches-bind (λ both. Q both.1) (ask c next) _ s
          (Idle-Reaches _ (ask c next) s i
            (λ a. Reaches-bind (λ both. Q both.1) (ask d rest) _ s h))
    Reaches-join_right (true ∷ schedule) (ask c next) (ask d rest) s h i =
        λ r. rw ((i r).0 s) (Reaches-join_right schedule (next r) (ask d rest) s h (i r).1)
    Reaches-join_right (false ∷ schedule) (ask c next) (ask d rest) s h i =
        λ r. Reaches-join_right schedule (ask c next) (rest r) (step d r s) (h r) i

  pub run-Reaches :
      {A : Type 0} (Q : A → S → Type 0) (state : History C R → S)
      → ((c : C) (r : R) (h : History C R) → state ((c, r) ∷ h) ≡ step c r (state h))
      → (world : History C R → C → R) (p : Program C R A) (h : History C R) → Reaches Q p (state h)
      → Q (run world p h).0 (state (run world p h).1)
  unfolding run
  run-Reaches Q state stepped world (done a) h q = q
  run-Reaches Q state stepped world (ask c next) h q =
      run-Reaches Q state stepped world (next (world h c)) ((c, world h c) ∷ h)
        (rw (stepped c (world h c) h) (q (world h c)))

-- One command for its effect, before code that any error may end.
module _ {C E T S A : Type 0} (step : C → Result E T → S → S) (Q : Result E A → S → Type 0)
    (failed : (e : E) (s : S) → Q (err e) s) where
  pub Reaches-exec :
      (c : C) (next : Unit {0} → Action C (Result E T) E A) (s : S)
      → ((t : T) → Reaches step Q (next tt) (step c (ok t) s))
      → Reaches step Q (exec c >>= next) s
  Reaches-exec c next s h = Reaches->>= step Q (exec c) next s (λ r. answered r)
    where
      answered :
          (r : Result E T) → Then step Q next (elim r [ ok _ ↦ ok tt | err e ↦ err e ]) (step c r s)
      answered (ok t) = h t
      answered (err e) = failed e (step c (err e) s)

  -- Code that changes nothing, before code that any error may end.
  pub Reaches-Idle :
      {B : Type 0} (p : Action C (Result E T) E B) (next : B → Action C (Result E T) E A) (s : S)
      → Idle step p
      → ((b : B) → Reaches step Q (next b) s)
      → Reaches step Q (p >>= next) s
  Reaches-Idle {B} p next s i h =
      Reaches->>= step Q p next s (Idle-Reaches step (Then step Q next) p s i after)
    where
      after : (m : Result E B) → Then step Q next m s
      after (ok b) = h b
      after (err e) = failed e s
