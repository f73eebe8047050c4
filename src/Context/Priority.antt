-- ===== src/Context/Priority.antt =====
-- Which value a variable of the environment has.
use celily.Prelude.{
  ◌≡◌, refl, ◌∙◌, Option, none, some, List, [], ◌∷◌, ◌++◌, inl, inr, arith, Bool-cases,
  Option-cases, ◌==◌, if◌then◌else◌,
}
use celily.Prelude.Text.{Text, text_eq}
use celily.Prelude.Text.Split.{split_once}
use celily.Prelude.Fallible.{ok}
use celily.Context.{or}
use celily.Context.Environment.{Env, pass_one, pass_all, add_cli, resolve_env}

-- The first entry for a name counts.
unfoldable pub lookup : Text → Env → Option Text
lookup key [] = none
lookup key ((k, v) ∷ env) = if k == key then some v else lookup key env

-- The host's value, if the name is passed on and set.
unfoldable pub passed : (Text → Option Text) → Text → List Text → Option Text
passed var key [] = none
passed var key (name ∷ names) = or (passed var key names) (if name == key then var name else none)

-- The value of an argument `KEY=VALUE`.
abbrev pub value_for : Text → Option (Text × Text) → Option Text
value_for key none = none
value_for key (some (k, v)) = if k == key then some v else none

-- The value of the last argument for the name.
unfoldable pub given : Text → List Text → Option Text
unfolding split_once
given key [] = none
given key (kv ∷ rest) = or (given key rest) (value_for key (split_once b'=' kv))

or_assoc : (a b c : Option Text) → or (or a b) c ≡ or a (or b c)
or_assoc none b c = refl
or_assoc (some a) b c = refl

lookup-pass_one :
    (key name : Text) (value : Option Text) (env : Env)
    → lookup key (pass_one name value env)
      ≡ or (if name == key then value else none) (lookup key env)
unfolding lookup
lookup-pass_one key name none env = elim (Bool-cases (name == key)) [
  | inl same ↦ rw same refl
  | inr other ↦ rw other refl
]
lookup-pass_one key name (some value) env = elim (Bool-cases (name == key)) [
  | inl same ↦ rw same refl
  | inr other ↦ rw other refl
]

lookup-pass_all :
    (var : Text → Option Text) (key : Text) (names : List Text) (env : Env)
    → lookup key (pass_all var names env) ≡ or (passed var key names) (lookup key env)
unfolding pass_all passed
lookup-pass_all var key [] env = refl
lookup-pass_all var key (name ∷ names) env =
    rw
      (
        lookup-pass_all var key names (pass_one name (var name) env),
        lookup-pass_one key name (var name) env,
        or_assoc,
      )
      refl

lookup-cons :
    (key : Text) (pair : Text × Text) (env : Env)
    → lookup key (pair ∷ env) ≡ or (value_for key (some pair)) (lookup key env)
unfolding lookup
lookup-cons key (k, v) env = elim (Bool-cases (k == key)) [
  | inl same ↦ rw same refl
  | inr other ↦ rw other refl
]

lookup-add_cli :
    (key : Text) (kvs : List Text) (env more : Env)
    → add_cli kvs env ≡ ok more
    → lookup key more ≡ or (given key kvs) (lookup key env)
unfolding add_cli given
lookup-add_cli key [] env more h = let same : env ≡ more = ground arith in rw same refl
lookup-add_cli key (kv ∷ kvs) env more h = elim (Option-cases (split_once b'=' kv)) [
  | inl missing ↦ absurd (ground arith)
  | inr (pair, e) ↦ rw e (
      lookup-add_cli key kvs (pair ∷ env) more (ground arith)
      ∙ rw (or_assoc, lookup-cons key pair env) refl)
]

-- If the environment is resolved, the value of a name is that of the last argument KEY=VALUE for
-- it, or else the value that the host has for it, if the name is passed on and set there, or else
-- that of the configuration.
pub lookup-resolve_env :
    (var : Text → Option Text) (env : Env) (pass_env cli_pass_env cli_env : List Text)
    (result : Env)
    → resolve_env var env pass_env cli_pass_env cli_env ≡ ok result
    → (key : Text)
    → lookup key result
      ≡ or (given key cli_env) (or (passed var key (pass_env ++ cli_pass_env)) (lookup key env))
unfolding resolve_env
lookup-resolve_env var env pass_env cli_pass_env cli_env result h key =
    lookup-add_cli key cli_env (pass_all var (pass_env ++ cli_pass_env) env) result h
    ∙ rw (lookup-pass_all var key (pass_env ++ cli_pass_env) env) refl
