-- ===== src/Command/Tests.antt =====
-- Processes that end well, and ones that do not.
use celily.Prelude.{ℕ, ◌≡◌, refl, some, [], ◌∷◌}
use celily.Prelude.Fallible.{Result, ok, err}
use celily.Prelude.Text.{codes}
use celily.Prelude.Text.Split.{join}
use celily.Prelude.Text.Trim.{trim, trim_start}
use celily.Command.{Output, io, non_zero, Command, argv_string, extract_stderr, run, run_stdout}

abbrev lxc_start : Command
lxc_start = record { program = codes "lxc"; args = codes "start" ∷ codes "dev" ∷ [] }

abbrev ended : ℕ → Command → Result ℕ Output
ended code command =
    ok (record { code = some code; stdout = codes " up\n"; stderr = codes "no image\n" })

lxc_start-argv_string : argv_string lxc_start ≡ codes "`lxc start dev` "
unfolding argv_string join
lxc_start-argv_string = refl

run_stdout-ended : run_stdout (λ s. s) (ended 0) lxc_start ≡ ok (codes "up")
unfolding run_stdout trim trim_start
run_stdout-ended = refl

run-ended :
    run (λ s. s) (ended 1) lxc_start
    ≡ err (non_zero (codes "`lxc start dev` ") (some 1) (some (codes "no image")))
unfolding run extract_stderr argv_string join trim trim_start
run-ended = refl

run-err : run (λ s. s) {E = ℕ} (λ command. err 2) lxc_start ≡ err (io 2)
unfolding run
run-err = refl
