-- ===== src/Validate/MountSource.antt =====
-- `validate_mount_source` of celily/src/validate.rs.
pub mod Mountable
use celily.Prelude.{
  Bool, true, false, not, ◌&&◌, Option, none, some, List, [], ◌∷◌, if◌then◌else◌, is_empty,
  contains,
}
use celily.Prelude.Text.{Text}
use celily.Prelude.Fallible.{Result, ok, err, ◌>>=◌, ◌>>◌, fail_if, map_err}
use celily.Paths.{FilePath, is_under_or_eq}
use celily.Paths.Under.{path_eq}
use celily.Paths.Raw.{display}
use celily.Validate.Files.{FileSystem, ValidateError, canonicalize_in_home}
use celily.Validate.Forbidden.{Forbidden, check_all}

-- A directory must be listed as one, a file as one, and nothing else is allowed.
abbrev pub check_listed :
    FileSystem → FilePath → List FilePath → List FilePath → Result ValidateError (Unit {0})
check_listed fs canonical allowed_dirs allowed_files =
    if fs.is_dir (display canonical)
    then fail_if (not (contains allowed_dirs canonical)) ValidateError.not_listed
    else if fs.is_file (display canonical)
    then fail_if (not (contains allowed_files canonical)) ValidateError.not_listed
    else err ValidateError.special_file

unfoldable pub validate_mount_source :
    FileSystem
    → Text
    → FilePath
    → List Forbidden
    → List FilePath
    → List FilePath
    → Result ValidateError FilePath
validate_mount_source fs path home forbidden allowed_dirs allowed_files = do
  fail_if (is_empty allowed_dirs && is_empty allowed_files) ValidateError.nothing_allowed
  canonical ← canonicalize_in_home fs path home
  map_err ValidateError.violates (check_all forbidden canonical)
  fail_if (not (is_under_or_eq canonical home)) ValidateError.not_under
  check_listed fs canonical allowed_dirs allowed_files
  ok canonical
