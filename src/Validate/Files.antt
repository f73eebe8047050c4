-- ===== src/Validate/Files.antt =====
-- `canonicalize_in_home` of celily/src/validate.rs, with the file system as a parameter.
pub mod Symlinks
use celily.Prelude.{
  ℕ, Bool, true, false, ◌&&◌, Option, none, some, List, [], ◌∷◌, ◌++◌, map, ◌==◌, if◌then◌else◌,
}
use celily.Prelude.Fallible.{Result, ok, err, ◌>>=◌, ◌>>◌, ok_or}
use celily.Prelude.Text.{Text, text_eq, codes}
use celily.Paths.{FilePath, root, components, is_under_or_eq}
use celily.Paths.Raw.{display, absolute}

-- The calls of `std::env` and `std::fs` at one moment, on paths as they are written: whether a path
-- is a symlink may depend on the slash at its end.
pub record FileSystem : Type 0 where
  pub current_dir : Option FilePath
  pub canonicalize : Text → Option FilePath
  pub is_symlink : Text → Bool
  pub is_dir : Text → Bool
  pub is_file : Text → Bool
  pub exists : Text → Bool

-- What a forbidden entry says of a path: `ForbiddenError`.
pub data Violation : Type 0 where
  exact subtree contains : Text → Violation

-- The errors of the validation, by their message.
pub data ValidateError : Type 0 where
  nothing_allowed cannot_resolve not_under not_listed special_file not_unix : ValidateError
  through_symlink : Text → ValidateError
  under_writable : FilePath → ValidateError
  violates : Violation → ValidateError

-- `path.parent()`
unfoldable pub parent : FilePath → Option FilePath
parent [] = none
parent (c ∷ []) = if c == root then none else some []
parent (c ∷ d ∷ rest) = elim (parent (d ∷ rest)) [ none ↦ some (c ∷ []) | some p ↦ some (c ∷ p) ]

-- The ancestors of a relative path: itself, its parent and so on, to the empty path.
unfoldable pub relative_ancestors : FilePath → List FilePath
relative_ancestors [] = [] ∷ []
relative_ancestors (c ∷ rest) = map (λ p. c ∷ p) (relative_ancestors rest) ++ [] ∷ []

-- `path.ancestors()`: those of an absolute path end at the root.
unfoldable pub ancestors : FilePath → List FilePath
unfolding relative_ancestors
ancestors [] = [] ∷ []
ancestors (c ∷ rest) =
    if c == root then map (λ p. c ∷ p) (relative_ancestors rest) else relative_ancestors (c ∷ rest)

abbrev parents : List FilePath → List Text
parents [] = []
parents (_ ∷ paths) = map display paths

-- `path.ancestors()` of an absolute path: the path as it is written, then its parents.
unfoldable pub written_ancestors : Text → List Text
unfolding ancestors components display
written_ancestors path = path ∷ parents (ancestors (components path))

module _ (fs : FileSystem) where
  abbrev resolves_under : FilePath → Option FilePath → Bool
  resolves_under home none = false
  resolves_under home (some directory) = elim (fs.canonicalize (display directory)) [
    | none ↦ false
    | some real ↦ is_under_or_eq real home
  ]

  -- An ancestor that is a symlink in a directory of the home.
  abbrev pub is_planted : FilePath → Text → Bool
  is_planted home ancestor =
      fs.is_symlink ancestor && resolves_under home (parent (components ancestor))

  unfoldable pub refuse_symlinks : FilePath → List Text → Result ValidateError (Unit {0})
  unfolding parent components display
  refuse_symlinks home [] = ok tt
  refuse_symlinks home (ancestor ∷ rest) =
      if is_planted home ancestor
      then err (ValidateError.through_symlink ancestor)
      else refuse_symlinks home rest

  unfoldable pub canonicalize_in_home : Text → FilePath → Result ValidateError FilePath
  unfolding absolute written_ancestors refuse_symlinks
  canonicalize_in_home path home = do
    absolute_path ← ok_or (absolute fs.current_dir path) ValidateError.cannot_resolve
    refuse_symlinks home (written_ancestors absolute_path)
    ok_or (fs.canonicalize absolute_path) ValidateError.cannot_resolve
