-- ===== src/Paths/Raw.antt =====
-- Paths as they are written, whose repeated and last slashes the system calls see
-- (celily/src/util/path.rs and `std::path`).
use celily.Prelude.{◌||◌, Option, none, some, [], ◌∷◌, ◌++◌, ◌==◌, nat_eq, if◌then◌else◌, is_empty}
use celily.Prelude.Text.{Text, text_eq, codes, strip_prefix, starts_with, ends_with}
use celily.Prelude.Text.Split.{join}
use celily.Paths.{FilePath, root, pieces_of, normal_pieces}

-- `path.display()`, of a path without repeated slashes and with none at its end.
unfoldable pub display : FilePath → Text
unfolding join
display [] = []
display (c ∷ rest) =
    if c == root then root ++ join (codes "/") rest else join (codes "/") (c ∷ rest)

-- `base.join(s)`, and `push`: an absolute path replaces the base.
unfoldable pub join_text : Text → Text → Text
unfolding ends_with
join_text base s =
    if starts_with b'/' s
    then s
    else if is_empty base || ends_with b'/' base
    then base ++ s
    else base ++ b'/' ∷ s

abbrev expand : Text → Text → Option Text → Text
expand s home none = s
expand s home (some rest) = join_text home rest

unfoldable pub expand_host_tilde : Text → Text → Text
unfolding join_text strip_prefix
expand_host_tilde s home =
    if s == codes "~" then home else expand s home (strip_prefix (codes "~/") s)

-- A slash at the end is kept.
abbrev pub with_slash : Text → FilePath → Text
with_slash s path = if ends_with b'/' s then join_text (display path) [] else display path

-- `std::path::absolute`, against the current directory: empty pieces and `.` go, `..` stays.
unfoldable pub absolute : Option FilePath → Text → Option Text
unfolding display join_text normal_pieces ends_with
absolute current_dir [] = none
absolute current_dir (c ∷ s) =
    if c == b'/'
    then some (with_slash (c ∷ s) (root ∷ normal_pieces (pieces_of (c ∷ s))))
    else elim current_dir [
      | none ↦ none
      | some directory ↦ some (with_slash (c ∷ s) (directory ++ normal_pieces (pieces_of (c ∷ s))))
    ]
