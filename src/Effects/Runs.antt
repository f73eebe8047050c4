-- ===== src/Effects/Runs.antt =====
-- How the parts of a program's run fit together.
use celily.Prelude.{◌≡◌, refl, ◌∙◌, inl, inr, Bool, true, false, List, [], ◌∷◌}
use celily.Prelude.Fallible.{Result, ok, err, Result-cases}
use celily.Effects.{Program, done, ask, Action, History, run, bind, join, or_drop, ◌>>=◌}

module _ {C R : Type 0} (world : History C R → C → R) where
  pub run-bind :
      {A B : Type 0} (p : Program C R A) (f : A → Program C R B) (h : History C R)
      → run world (bind p f) h ≡ run world (f (run world p h).0) (run world p h).1
  unfolding run bind
  run-bind (done a) f h = refl
  run-bind (ask c next) f h = run-bind (next (world h c)) f ((c, world h c) ∷ h)

  pub run->>= :
      {E A B : Type 0} (p : Action C R E A) (next : A → Action C R E B) (h : History C R)
      → run world (p >>= next) h ≡ elim (run world p h).0 [
        | ok a ↦ run world (next a) (run world p h).1
        | err e ↦ (err e, (run world p h).1)
      ]
  unfolding run
  run->>= p next h =
      run-bind p _ h
      ∙ elim (Result-cases (run world p h).0) [ inl (a, e) ↦ rw e refl | inr (x, e) ↦ rw e refl ]

  -- A guarded body that fails drops its guard, and one that succeeds keeps it.
  pub run-or_drop :
      {E A : Type 0} (body : Action C R E A) (drop : Program C R (Unit {0})) (h : History C R)
      → run world (or_drop body drop) h ≡ elim (run world body h).0 [
        | ok a ↦ (ok a, (run world body h).1)
        | err e ↦ (err e, (run world drop (run world body h).1).1)
      ]
  unfolding run or_drop
  run-or_drop body drop h = run-bind body _ h ∙ elim (Result-cases (run world body h).0) [
    | inl (a, e) ↦ rw e refl
    | inr (x, e) ↦ rw (e, run-bind) refl
  ]

-- Every command that the program may give has the property.
abbrev pub Every : {C R A : Type 0} → (C → Type 0) → Program C R A → Type 0
Every P (done a) = Unit {0}
Every {R = R} P (ask c next) = P c × ((r : R) → Every P (next r))

module _ {C R : Type 0} (P : C → Type 0) where
  pub Every-bind :
      {A B : Type 0} (p : Program C R A) (f : A → Program C R B)
      → Every P p
      → ((a : A) → Every P (f a))
      → Every P (bind p f)
  unfolding bind
  Every-bind (done a) f hp hf = hf a
  Every-bind (ask c next) f hp hf = (hp.0, λ r. Every-bind (next r) f (hp.1 r) hf)

  pub Every->>= :
      {E A B : Type 0} (p : Action C R E A) (next : A → Action C R E B)
      → Every P p
      → ((a : A) → Every P (next a))
      → Every P (p >>= next)
  Every->>= p next hp hf = Every-bind p _ hp (λ m.
      elim m as (λ k. Every P (elim k [ ok a ↦ next a | err e ↦ done (err e) ])) [
        | ok a ↦ hf a
        | err _ ↦ tt
      ])

  pub Every-or_drop :
      {E A : Type 0} (body : Action C R E A) (drop : Program C R (Unit {0}))
      → Every P body
      → Every P drop
      → Every P (or_drop body drop)
  unfolding or_drop
  Every-or_drop body drop hb hd = Every-bind body _ hb (λ m.
      elim m
        as (λ k. Every P (elim k [ ok a ↦ done (ok a) | err e ↦ bind drop (λ _. done (err e)) ])) [
          | ok a ↦ tt
          | err _ ↦ Every-bind drop _ hd (λ _. tt)
        ])

  pub Every-join :
      {A B : Type 0} (schedule : List Bool) (p : Program C R A) (q : Program C R B)
      → Every P p
      → Every P q
      → Every P (join schedule p q)
  unfolding join
  Every-join schedule (done a) q hp hq = Every-bind q _ hq (λ _. tt)
  Every-join schedule (ask c next) (done b) hp hq = Every-bind (ask c next) _ hp (λ _. tt)
  Every-join [] (ask c next) (ask d rest) hp hq =
      Every-bind (ask c next) _ hp (λ _. Every-bind (ask d rest) _ hq (λ _. tt))
  Every-join (true ∷ schedule) (ask c next) (ask d rest) hp hq =
      (hp.0, λ r. Every-join schedule (next r) (ask d rest) (hp.1 r) hq)
  Every-join (false ∷ schedule) (ask c next) (ask d rest) hp hq =
      (hq.0, λ r. Every-join schedule (ask c next) (rest r) hp (hq.1 r))

  -- A measure of the history that no command of the program changes is unchanged by its run.
  pub run_unchanged :
      {A M : Type 0} (measure : History C R → M)
      → ((c : C) (r : R) (h : History C R) → P c → measure ((c, r) ∷ h) ≡ measure h)
      → (world : History C R → C → R) (p : Program C R A) (h : History C R) → Every P p
      → measure (run world p h).1 ≡ measure h
  unfolding run
  run_unchanged measure keep world (done a) h hp = refl
  run_unchanged measure keep world (ask c next) h hp =
      run_unchanged measure keep world (next (world h c)) ((c, world h c) ∷ h) (hp.1 (world h c))
      ∙ keep c (world h c) h hp.0

pub Every-map :
    {C R A : Type 0} (P Q : C → Type 0)
    → ((c : C) → P c → Q c)
    → (p : Program C R A) → Every P p
    → Every Q p
Every-map P Q f (done a) h = tt
Every-map P Q f (ask c next) h = (f c h.0, λ r. Every-map P Q f (next r) (h.1 r))

-- However the program ends, its value has the property.
abbrev pub Ends : {C R A : Type 0} → (A → Type 0) → Program C R A → Type 0
Ends Q (done a) = Q a
Ends {R = R} Q (ask c next) = (r : R) → Ends Q (next r)

module _ {C R : Type 0} where
  pub Ends-bind :
      {A B : Type 0} (Q : B → Type 0) (p : Program C R A) (f : A → Program C R B)
      → ((a : A) → Ends Q (f a))
      → Ends Q (bind p f)
  unfolding bind
  Ends-bind Q (done a) f h = h a
  Ends-bind Q (ask c next) f h = λ r. Ends-bind Q (next r) f h

  pub run-Ends :
      {A : Type 0} (Q : A → Type 0) (world : History C R → C → R) (p : Program C R A)
      (h : History C R)
      → Ends Q p
      → Q (run world p h).0
  unfolding run
  run-Ends Q world (done a) h e = e
  run-Ends Q world (ask c next) h e =
      run-Ends Q world (next (world h c)) ((c, world h c) ∷ h) (e (world h c))

  -- A property of results that every error has needs only the last part of a chain.
  module _ {E B : Type 0} (Q : Result E B → Type 0) (on_err : (e : E) → Q (err e)) where
    pub Ends->>= :
        {A : Type 0} (p : Action C R E A) (next : A → Action C R E B)
        → ((a : A) → Ends Q (next a))
        → Ends Q (p >>= next)
    Ends->>= p next h = Ends-bind Q p _ (λ m.
        elim m as (λ k. Ends Q (elim k [ ok a ↦ next a | err e ↦ done (err e) ])) [
          | ok a ↦ h a
          | err e ↦ on_err e
        ])

    pub Ends-or_drop :
        (body : Action C R E B) (drop : Program C R (Unit {0}))
        → Ends Q body
        → Ends Q (or_drop body drop)
    unfolding or_drop bind
    Ends-or_drop (done (ok a)) drop h = h
    Ends-or_drop (done (err e)) drop h = Ends-bind Q drop _ (λ _. on_err e)
    Ends-or_drop (ask c next) drop h = λ r. Ends-or_drop (next r) drop (h r)
