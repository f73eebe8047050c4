-- ===== src/Effects.antt =====
-- Code that talks to the world outside, command by command, as a tree of the answers it may get.
pub mod Runs
pub mod Reaches
use celily.Prelude.{Bool, true, false, List, [], ◌∷◌}
use celily.Prelude.Fallible.{Result, ok, err}

-- The code ends with a value, or gives a command and goes on with the answer.
pub data Program (C R A : Type 0) : Type 0 where
  done : A → Program C R A
  ask : C → (R → Program C R A) → Program C R A

-- Code that may fail.
abbrev pub Action : Type 0 → Type 0 → Type 0 → Type 0 → Type 0
Action C R E A = Program C R (Result E A)

-- The commands given and their answers, the latest first.
abbrev pub History : Type 0 → Type 0 → Type 0
History C R = List (C × R)

module _ {C R A : Type 0} where
  -- A run against a world whose answer depends on all that has happened.
  unfoldable pub run : (History C R → C → R) → Program C R A → History C R → A × History C R
  run world (done a) h = (a, h)
  run world (ask c next) h = run world (next (world h c)) ((c, world h c) ∷ h)

module _ {C R A B : Type 0} where
  unfoldable pub bind : Program C R A → (A → Program C R B) → Program C R B
  bind (done a) f = f a
  bind (ask c next) f = ask c (λ r. bind (next r) f)

module _ {C R A B : Type 0} where
  -- `tokio::join!`: the two go on in turns, as the schedule says, and both to their end.
  unfoldable pub join : List Bool → Program C R A → Program C R B → Program C R (A × B)
  unfolding bind
  join schedule (done a) right = bind right (λ b. done (a, b))
  join schedule (ask c next) (done b) = bind (ask c next) (λ a. done (a, b))
  join [] (ask c next) (ask d rest) = bind (ask c next) (λ a. bind (ask d rest) (λ b. done (a, b)))
  join (true ∷ schedule) (ask c next) (ask d rest) =
      ask c (λ r. join schedule (next r) (ask d rest))
  join (false ∷ schedule) (ask c next) (ask d rest) =
      ask d (λ r. join schedule (ask c next) (rest r))

infixl 5 ◌>>=◌ ◌>>◌
-- The `?` operator.
abbrev pub ◌>>=◌ : {C R E A B : Type 0} → Action C R E A → (A → Action C R E B) → Action C R E B
action >>= next = bind action (λ m. elim m [ ok a ↦ next a | err e ↦ done (err e) ])

abbrev pub ◌>>◌ : {C R E A : Type 0} → Action C R E (Unit {0}) → Action C R E A → Action C R E A
first >> second = first >>= λ _. second

-- The value of a call that has ended.
abbrev pub lift : {C R E A : Type 0} → Result E A → Action C R E A
lift m = done m

-- A guard in scope while the body runs: an early return drops it, else it moves to the result.
unfoldable pub or_drop :
    {C R E A : Type 0} → Action C R E A → Program C R (Unit {0}) → Action C R E A
unfolding bind
or_drop body drop =
    bind body (λ m. elim m [ ok a ↦ done (ok a) | err e ↦ bind drop (λ _. done (err e)) ])

-- A command run for its effect: its output is dropped.
abbrev pub exec : {C E T : Type 0} → C → Action C (Result E T) E (Unit {0})
exec command = ask command (λ answer. done (elim answer [ ok _ ↦ ok tt | err e ↦ err e ]))
