-- ===== src/Lxd/Instance/Exec.antt =====
-- The command of an instance, read back by the names of its options.
use celily.Prelude.{
  ℕ, ◌-◌, ◌<◌, ◌^◌, ◌≡◌, refl, Option, none, some, List, [], ◌∷◌, ◌++◌, ◌==◌, nat_eq, arith,
  if◌then◌else◌, All,
}
use celily.Prelude.Text.{Text, text_beq, text_eq, codes}
use celily.Prelude.Text.Split.{split_once, Free, split_once-append}
use celily.Prelude.Text.Decimal.{parse_uint, parse_uint-to_string}
use celily.Paths.{FilePath}
use celily.Paths.Raw.{display}
use celily.Lxd.Instance.{env_args, exec_args}

pub record Exec : Type 0 where
  pub uid : Option ℕ
  pub gid : Option ℕ
  pub cwd : Option Text
  pub env : List (Text × Text)
  pub cmd : List Text

-- A command without options.
abbrev bare : List Text → Exec
bare cmd = record { uid = none; gid = none; cwd = none; env = []; cmd = cmd }

-- An option by its name: an id of 32 bits, the directory, or an entry of the environment.
pub set_option : Text → Text → Exec → Option Exec
set_option option value e =
    if option == codes "--user"
    then elim (parse_uint (2 ^ 32 - 1) value) [
      | none ↦ none
      | some n ↦ some (record e { uid = some n })
    ]
    else if option == codes "--group"
    then elim (parse_uint (2 ^ 32 - 1) value) [
      | none ↦ none
      | some n ↦ some (record e { gid = some n })
    ]
    else if option == codes "--cwd"
    then some (record e { cwd = some value })
    else if option == codes "--env"
    then elim (split_once b'=' value) [
      | none ↦ none
      | some entry ↦ some (record e { env = entry ∷ e.env })
    ]
    else none

-- The options, in any order, then `--` and the command.
pub read_options : List Text → Option Exec
read_options [] = none
read_options (a ∷ []) = if a == codes "--" then some (bare []) else none
read_options (a ∷ b ∷ rest) =
    let later = read_options rest in
    if a == codes "--"
    then some (bare (b ∷ rest))
    else elim later [ none ↦ none | some e ↦ set_option a b e ]

-- The name of the instance, and its options and command.
pub read_exec : List Text → Option (Text × Exec)
read_exec (command ∷ name ∷ rest) =
    if command == codes "exec"
    then elim (read_options rest) [ none ↦ none | some e ↦ some (name, e) ]
    else none
read_exec _ = none

-- No key of the environment holds an equals sign.
abbrev pub HasKeys : List (Text × Text) → Type 0
HasKeys env = All (λ entry. Free (λ c. c == b'=') entry.0) env

read_options-command : (cmd : List Text) → read_options (codes "--" ∷ cmd) ≡ some (bare cmd)
unfolding read_options text_beq
read_options-command [] = refl
read_options-command (a ∷ cmd) = refl

read_options-env_args :
    (env : List (Text × Text)) (cmd : List Text)
    → HasKeys env
    → read_options (env_args env ++ codes "--" ∷ cmd) ≡ some (record (bare cmd) { env = env })
unfolding read_options env_args text_beq set_option
read_options-env_args [] cmd h = read_options-command cmd
read_options-env_args ((key, value) ∷ env) cmd h =
    rw (read_options-env_args env cmd h.1, split_once-append b'=' key value h.0) refl

-- The name, the user, the group, the directory, the environment and the command that an instance
-- runs are read back as they were, each option by its name, whatever the command is, if the ids
-- have 32 bits and no key of the environment holds an equals sign.
pub read_exec-exec_args :
    (name : Text) (cmd : List Text) (env : List (Text × Text)) (cwd : FilePath) (uid gid : ℕ)
    → uid < 2 ^ 32
    → gid < 2 ^ 32
    → HasKeys env
    → read_exec (exec_args name cmd env cwd uid gid)
      ≡ some (
        name,
        record { uid = some uid; gid = some gid; cwd = some (display cwd); env = env; cmd = cmd },
      )
unfolding read_exec exec_args read_options set_option text_beq
read_exec-exec_args name cmd env cwd uid gid small_uid small_gid keys = ground (
  arith,
  read_options-env_args env cmd keys,
  parse_uint-to_string (2 ^ 32 - 1) uid (omega arith),
  parse_uint-to_string (2 ^ 32 - 1) gid (omega arith),
)
