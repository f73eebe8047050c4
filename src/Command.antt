-- ===== src/Command.antt =====
-- celily-lib/src/command: the result of a process, from what it printed and how it ended.
mod Tests
use celily.Prelude.{
  ℕ, Bool, true, false, Option, none, some, List, [], ◌∷◌, ◌++◌, ◌==◌, nat_eq, is_empty,
  if◌then◌else◌,
}
use celily.Prelude.Fallible.{Result, ok, err, ◌>>=◌}
use celily.Prelude.Text.{Text, codes}
use celily.Prelude.Text.Split.{join}
use celily.Prelude.Text.Trim.{trim}

-- An exit code is the low byte of the status; a process that a signal ended has none.
pub record Output : Type 0 where
  pub code : Option ℕ
  pub stdout : List ℕ
  pub stderr : List ℕ

-- With the error of the spawn
pub data CommandError (E : Type 0) : Type 0 where
  io : E → CommandError E
  non_zero : Text → Option ℕ → Option Text → CommandError E

pub record Command : Type 0 where
  pub program : Text
  pub args : List Text

-- The program and its arguments between backquotes, with a space at the end.
unfoldable pub argv_string : Command → Text
unfolding join
argv_string command =
    if is_empty command.args
    then b'`' ∷ command.program ++ codes "` "
    else b'`' ∷ command.program ++ b' ' ∷ join (codes " ") command.args ++ codes "` "

abbrev pub success : Output → Bool
success output = elim output.code [ none ↦ false | some code ↦ code == 0 ]

-- `String::from_utf8_lossy` is given.
module _ (lossy : List ℕ → Text) where
  unfoldable pub extract_stderr : Output → Option Text
  unfolding trim
  extract_stderr output =
      let stderr = trim (lossy output.stderr) in if is_empty stderr then none else some stderr

  module _ {E : Type 0} (spawn : Command → Result E Output) where
    abbrev pub spawned : Command → Result (CommandError E) Output
    spawned command = elim (spawn command) [ ok output ↦ ok output | err e ↦ err (io e) ]

    abbrev pub checked : Command → Output → Result (CommandError E) Output
    checked command output =
        if success output
        then ok output
        else err (non_zero (argv_string command) output.code (extract_stderr output))

    unfoldable pub run_output : Command → Result (CommandError E) Output
    unfolding extract_stderr argv_string
    run_output command = do output ← spawned command; checked command output

    unfoldable pub run : Command → Result (CommandError E) (Unit {0})
    unfolding extract_stderr argv_string
    run command = do output ← spawned command; _ ← checked command output; ok tt

    unfoldable pub run_stdout : Command → Result (CommandError E) Text
    unfolding extract_stderr argv_string trim
    run_stdout command = do
      output ← spawned command
      output ← checked command output
      ok (trim (lossy output.stdout))
