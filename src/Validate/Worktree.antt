-- ===== src/Validate/Worktree.antt =====
-- `validate_worktree_preconditions` of celily/src/validate.rs.
pub mod Ready
use celily.Prelude.{Bool, true, false, not, Option, none, some, List, [], ◌∷◌}
use celily.Prelude.Fallible.{Result, ok, err, ◌>>=◌, ◌>>◌, fail_if, map_err}
use celily.Prelude.Text.{Text, codes}
use celily.Paths.{FilePath, join}
use celily.Paths.Raw.{display}
use celily.Validate.Files.{FileSystem}
use celily.Validate.ExtTransport.{CommandError, ExtError, check_ext_transport_allowed}

pub data WorktreeError : Type 0 where
  no_repository symlinked not_directory has_submodules no_commit bad_branch : WorktreeError
  transport : ExtError → WorktreeError

-- git's answers for one project: whether `rev-parse HEAD` succeeds, whether
-- `check-ref-format --branch` does, and `config --get-all`.
pub record Git : Type 0 where
  pub has_commit : Bool
  pub is_branch : Text → Bool
  pub get_all : Text → Result CommandError Text

-- The warning about `fetch.fsckObjects` is left out.
unfoldable pub validate_worktree_preconditions :
    FileSystem → Git → Option Text → FilePath → Text → Result WorktreeError (Unit {0})
unfolding join display
validate_worktree_preconditions fs git allow_protocol project_dir branch = do
  fail_if (not (fs.exists (display (join project_dir (codes ".git"))))) WorktreeError.no_repository
  fail_if (fs.is_symlink (display (join project_dir (codes ".git")))) WorktreeError.symlinked
  fail_if (not (fs.is_dir (display (join project_dir (codes ".git"))))) WorktreeError.not_directory
  fail_if (fs.exists (display (join project_dir (codes ".gitmodules"))))
      WorktreeError.has_submodules
  fail_if (not git.has_commit) WorktreeError.no_commit
  fail_if (not (git.is_branch branch)) WorktreeError.bad_branch
  map_err WorktreeError.transport (check_ext_transport_allowed git.get_all allow_protocol)
