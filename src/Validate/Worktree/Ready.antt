-- ===== src/Validate/Worktree/Ready.antt =====
-- Which projects worktree mode accepts.
use celily.Prelude.{◌≡◌, ◌↔◌, true, false, Option, arith}
use celily.Prelude.Fallible.{ok}
use celily.Prelude.Text.{Text, codes}
use celily.Paths.{FilePath, join}
use celily.Paths.Raw.{display}
use celily.Validate.Files.{FileSystem}
use celily.Validate.ExtTransport.{check_ext_transport_allowed}
use celily.Validate.ExtTransport.Policy.{IsAccepted, check_ext_transport_allowed_iff}
use celily.Validate.Worktree.{Git, validate_worktree_preconditions}

-- A repository of its own, without submodules, with a commit and a valid branch name, whose `ext::`
-- transport git accepts.
pub record IsReady (fs : FileSystem) (git : Git) (allow_protocol : Option Text)
    (project_dir : FilePath) (branch : Text) : Type 0 where
  pub found : fs.exists (display (join project_dir (codes ".git"))) ≡ true
  pub unlinked : fs.is_symlink (display (join project_dir (codes ".git"))) ≡ false
  pub directory : fs.is_dir (display (join project_dir (codes ".git"))) ≡ true
  pub no_submodules : fs.exists (display (join project_dir (codes ".gitmodules"))) ≡ false
  pub has_commit : git.has_commit ≡ true
  pub is_branch : git.is_branch branch ≡ true
  pub accepted : IsAccepted git.get_all allow_protocol

-- Worktree mode is accepted exactly for a project whose .git is a directory and no symlink, without
-- submodules, with a commit and a valid branch name, whose ext:: transport is accepted.
pub validate_worktree_preconditions_iff :
    (fs : FileSystem) (git : Git) (allow_protocol : Option Text) (project_dir : FilePath)
    (branch : Text)
    → (validate_worktree_preconditions fs git allow_protocol project_dir branch ≡ ok tt)
      ↔ IsReady fs git allow_protocol project_dir branch
unfolding validate_worktree_preconditions
validate_worktree_preconditions_iff fs git allow_protocol project_dir branch =
    let (to, from) = check_ext_transport_allowed_iff git.get_all allow_protocol in
    (
      λ h.
          let checked : check_ext_transport_allowed git.get_all allow_protocol ≡ ok tt =
            ground arith in
          record {
            found = ground arith;
            unlinked = ground arith;
            directory = ground arith;
            no_submodules = ground arith;
            has_commit = ground arith;
            is_branch = ground arith;
            accepted = to checked;
          },
      λ r. ground (
        arith,
        r.found,
        r.unlinked,
        r.directory,
        r.no_submodules,
        r.has_commit,
        r.is_branch,
        from r.accepted,
      ),
    )
