-- ===== src/Paths.antt =====
-- celily/src/util/path.rs: paths as lists of components, and the expansion of `~` in a container's path.
pub mod Under
pub mod Raw
use celily.Prelude.{
  ℕ, Bool, true, false, not, ◌&&◌, ◌||◌, Option, none, some, List, [], ◌∷◌, ◌++◌, ◌==◌, nat_eq,
  PartialEq, if◌then◌else◌, is_empty,
}
use celily.Prelude.Text.{Text, text_eq, codes, strip_prefix, starts_with}
use celily.Prelude.Text.Split.{split}

-- The components of a path, as the standard library compares them. The root is the component `/`.
abbrev pub FilePath : Type 0
FilePath = List Text

abbrev pub root : Text
root = codes "/"

-- The pieces that are components: no empty piece, and no `.`.
unfoldable pub normal_pieces : List Text → FilePath
normal_pieces [] = []
normal_pieces (piece ∷ pieces) =
    let rest = normal_pieces pieces in
    if is_empty piece || piece == codes "." then rest else piece ∷ rest

-- A `.` at the start of a relative path is a component.
abbrev relative : List Text → FilePath
relative [] = []
relative (piece ∷ pieces) =
    if piece == codes "." then piece ∷ normal_pieces pieces else normal_pieces (piece ∷ pieces)

abbrev pub pieces_of : Text → List Text
pieces_of s = split (λ c. c == b'/') s

-- `Path::new(s)`
unfoldable pub components : Text → FilePath
unfolding split normal_pieces
components s =
    if starts_with b'/' s then root ∷ normal_pieces (pieces_of s) else relative (pieces_of s)

-- `base.join(s)`: an absolute path replaces the base.
unfoldable pub join : FilePath → Text → FilePath
unfolding components normal_pieces split
join [] s = components s
join (c ∷ base) s =
    if starts_with b'/' s then components s else (c ∷ base) ++ normal_pieces (pieces_of s)

-- `path.starts_with(parent)` and `path.strip_prefix(parent)`
unfoldable pub strip_path : FilePath → FilePath → Option FilePath
strip_path [] path = some path
strip_path (c ∷ parent) [] = none
strip_path (c ∷ parent) (d ∷ path) = if c == d then strip_path parent path else none

abbrev pub is_proper : Option FilePath → Bool
is_proper none = false
is_proper (some rest) = not (is_empty rest)

unfoldable pub path_beq : FilePath → FilePath → Bool
path_beq [] [] = true
path_beq [] (d ∷ q) = false
path_beq (c ∷ p) [] = false
path_beq (c ∷ p) (d ∷ q) = c == d && path_beq p q

abbrev is_some : Option FilePath → Bool
is_some none = false
is_some (some _) = true

-- Whether a path is the parent or below it.
unfoldable pub is_under_or_eq : FilePath → FilePath → Bool
unfolding path_beq strip_path
is_under_or_eq path parent =
    path_beq path parent || (is_some (strip_path parent path) && is_proper (strip_path parent path))

abbrev expand : Text → FilePath → Option Text → FilePath
expand s home none = components s
expand s home (some rest) = join home rest

-- `expand_container_tilde`, of a path given as its text
unfoldable pub expand_container_tilde : Text → FilePath → FilePath
unfolding components join strip_prefix
expand_container_tilde s container_home =
    if s == codes "~" then container_home else expand s container_home (strip_prefix (codes "~/") s)
