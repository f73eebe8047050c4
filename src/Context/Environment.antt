-- ===== src/Context/Environment.antt =====
-- The environment of the commands of a context: the configuration, then what is passed on from the
-- host, then the command line, each over the one before.
use celily.Prelude.{Option, none, some, List, [], ◌∷◌, ◌++◌}
use celily.Prelude.Text.{Text}
use celily.Prelude.Text.Split.{split_once}
use celily.Prelude.Fallible.{Result, ok, err}
use celily.Context.{ContextError, invalid_env}

abbrev pub Env : Type 0
Env = List (Text × Text)

-- A variable that the host does not have is left as it is.
abbrev pub pass_one : Text → Option Text → Env → Env
pass_one name none env = env
pass_one name (some value) env = (name, value) ∷ env

unfoldable pub pass_all : (Text → Option Text) → List Text → Env → Env
pass_all var [] env = env
pass_all var (name ∷ names) env = pass_all var names (pass_one name (var name) env)

-- `KEY=VALUE` arguments.
unfoldable pub add_cli : List Text → Env → Result ContextError Env
unfolding split_once
add_cli [] env = ok env
add_cli (kv ∷ rest) env = elim (split_once b'=' kv) [
  | none ↦ err (invalid_env kv)
  | some (key, value) ↦ add_cli rest ((key, value) ∷ env)
]

unfoldable pub resolve_env :
    (Text → Option Text) → Env → List Text → List Text → List Text → Result ContextError Env
unfolding pass_all add_cli
resolve_env var env pass_env cli_pass_env cli_env =
    add_cli cli_env (pass_all var (pass_env ++ cli_pass_env) env)
