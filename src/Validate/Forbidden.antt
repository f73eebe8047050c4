-- ===== src/Validate/Forbidden.antt =====
-- `Forbidden` of celily/src/validate.rs.
pub mod Apart
use celily.Prelude.{Bool, true, false, Option, none, some, List, [], ◌∷◌, if◌then◌else◌}
use celily.Prelude.Fallible.{Result, ok, err, ◌>>=◌, ◌>>◌}
use celily.Prelude.Text.{Text}
use celily.Paths.{FilePath, join, path_beq, is_under_or_eq}
use celily.Paths.Raw.{display}
use celily.Validate.Files.{FileSystem, Violation}

pub data Forbidden : Type 0 where
  exact subtree : FilePath → Text → Forbidden

-- `Forbidden::under`: nothing where the directory cannot be resolved.
unfoldable pub under : FileSystem → FilePath → Text → Text → Option Forbidden
unfolding join display
under fs base segment label = elim (fs.canonicalize (display (join base segment))) [
  | none ↦ none
  | some canonical ↦ some (Forbidden.subtree canonical label)
]

-- `Forbidden::check`
unfoldable pub check : Forbidden → FilePath → Result Violation (Unit {0})
check (Forbidden.exact blocked label) canonical =
    if path_beq canonical blocked then err (Violation.exact label) else ok tt
check (Forbidden.subtree blocked label) canonical =
    if is_under_or_eq canonical blocked
    then err (Violation.subtree label)
    else if is_under_or_eq blocked canonical
    then err (Violation.contains label)
    else ok tt

-- The first violation of a list of entries.
unfoldable pub check_all : List Forbidden → FilePath → Result Violation (Unit {0})
unfolding check
check_all [] canonical = ok tt
check_all (entry ∷ entries) canonical = do check entry canonical; check_all entries canonical
