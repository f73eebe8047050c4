-- ===== src/Config/Directory.antt =====
-- `Config::load_for_dir` of celily/src/config/mod.rs: the profile of a directory.
pub mod Longest
use celily.Prelude.{
  ℕ, Bool, true, false, Option, none, some, List, [], ◌∷◌, ltb, length, if◌then◌else◌,
}
use celily.Prelude.Fallible.{Result, ok, err, ◌>>=◌, ok_or}
use celily.Prelude.Text.{Text}
use celily.Paths.{FilePath, is_under_or_eq}
use celily.Paths.Raw.{display, expand_host_tilde}
use celily.Validate.Files.{FileSystem}
use celily.Config.Profiles.{
  ProfileError, unresolved_directory, Inherit, is_valid_profile_name, merge_with_profile,
}

-- An entry of `[profiles]` that covers the directory.
pub record Match : Type 0 where
  pub path : FilePath
  pub profile : Text

module _ (fs : FileSystem) (home : Text) (cwd : FilePath) where
  abbrev covering : Text → Option FilePath → Option Match
  covering name none = none
  covering name (some canon) =
      if is_under_or_eq cwd canon then some (record { path = canon; profile = name }) else none

  -- An entry with an invalid name, or with a path that does not resolve, is skipped.
  unfoldable pub candidate : Text × Text → Option Match
  unfolding expand_host_tilde is_valid_profile_name
  candidate (raw_path, name) =
      if is_valid_profile_name name
      then covering name (fs.canonicalize (expand_host_tilde raw_path home))
      else none

  -- A later entry wins only if its path has more components.
  abbrev pub keep_longer : Option Match → Option Match → Option Match
  keep_longer best none = best
  keep_longer none (some m) = some m
  keep_longer (some best) (some m) =
      if ltb (length best.path) (length m.path) then some m else some best

  unfoldable pub best_match : Option Match → List (Text × Text) → Option Match
  unfolding candidate
  best_match best [] = best
  best_match best (entry ∷ entries) = best_match (keep_longer best (candidate entry)) entries

-- The default configuration, with the profile of the directory over it.
unfoldable pub load_for_dir :
    {C : Type 0}
    → (Text → Result ProfileError C)
    → (C → C → C)
    → FileSystem
    → C
    → Text
    → FilePath
    → List (Text × Text)
    → Inherit
    → Result ProfileError C
unfolding display best_match merge_with_profile
load_for_dir load merge fs default home cwd profiles inherit = do
  cwd_canon ← ok_or (fs.canonicalize (display cwd)) unresolved_directory
  elim (best_match fs home cwd_canon none profiles) [
    | none ↦ ok default
    | some m ↦ merge_with_profile load merge default m.profile inherit
  ]
