-- ===== src/Cli.antt =====
-- celily/src/cli_def.rs: the parsers of arguments, less those that clap has.
pub mod Mounts
pub mod Names
mod Tests
use celily.Prelude.{
  ℕ, Bool, true, false, not, ◌&&◌, ◌||◌, Option, none, some, List, [], ◌∷◌, all, ◌==◌, nat_eq,
  if◌then◌else◌,
}
use celily.Prelude.Fallible.{Result, ok, err}
use celily.Prelude.Text.{Text, text_eq, codes, is_alphanumeric}
use celily.Prelude.Text.Split.{splitn}
use celily.Backend.Mount.{AccessMode, read_only, read_write, WrittenMount}

abbrev pub valid_char : ℕ → Bool
valid_char c = is_alphanumeric c || (c == b'.' || c == b'_' || c == b'-')

-- The error is the name.
unfoldable pub parse_worktree_name : Text → Result Text Text
parse_worktree_name [] = err []
parse_worktree_name (first ∷ s) =
    if not (first == b'.') && not (first == b'-') && all valid_char (first ∷ s)
    then ok (first ∷ s)
    else err (first ∷ s)

pub data MountError : Type 0 where
  too_few : Text → MountError
  invalid_flag : Text → MountError

-- The derived `FromStr`, in lower case
unfoldable pub parse_access : Text → Result MountError AccessMode
parse_access flag =
    if flag == codes "readonly"
    then ok read_only
    else if flag == codes "readwrite"
    then ok read_write
    else err (invalid_flag flag)

abbrev pub mount_of : Text → Text → Result MountError AccessMode → Result MountError WrittenMount
mount_of source target (ok access) =
    ok (record { source = source; target = target; access = access })
mount_of source target (err e) = err e

abbrev pub mount_of_parts : Text → List Text → Result MountError WrittenMount
mount_of_parts s [] = err (too_few s)
mount_of_parts s (source ∷ []) = err (too_few s)
mount_of_parts s (source ∷ target ∷ []) = mount_of source target (ok read_only)
mount_of_parts s (source ∷ target ∷ flag ∷ _) = mount_of source target (parse_access flag)

-- `s.splitn(3, ':')` makes at most two cuts.
unfoldable pub parse_cli_mount : Text → Result MountError WrittenMount
unfolding splitn parse_access
parse_cli_mount s = mount_of_parts s (splitn 2 b':' s)
