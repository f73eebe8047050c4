-- ===== src/Context/Worktree.antt =====
-- The project of a context in worktree mode.
use celily.Prelude.{◌≡◌, refl, some, List, [], ◌∷◌, ◌++◌, map}
use celily.Prelude.Text.{Text}
use celily.Prelude.Fallible.{ok}
use celily.Backend.Mount.{read_only, Mount}
use celily.Paths.{FilePath}
use celily.Paths.Raw.{display}
use celily.Validate.Files.Symlinks.{IsResolved}
use celily.Validate.Forbidden.{Forbidden}
use celily.Validate.Files.{FileSystem}
use celily.Config.Merge.{Config}
use celily.Context.{AskedMount, Args, Host, Places, RunContext}
use celily.Context.Mounts.{
  mount_project, project_readwrite, requested_mounts, expanded, forbidden_list,
}
use celily.Context.Resolve.{container_home_of, project_target_of, resolve_context}
use celily.Context.Safe.{AreMounted, resolve_context-AreResolved}

-- The first mount is the project, read-only.
pub record IsReadOnlyProject (fs : FileSystem) (cwd home target : FilePath) (mounts : List Mount)
    : Type 0 where
  pub project : Mount
  pub others : List Mount
  pub first : mounts ≡ project ∷ others
  pub mounted_at : project.target ≡ target
  pub kept : project.access ≡ read_only
  pub resolved : IsResolved fs (display cwd) home project.source

module _ {D S : Type 0} (args : Args) (cfg : Config D S) where
  worktree_first :
      (name : Text) (cwd : FilePath) (home : Text) (container_home target : FilePath)
      → args.worktree ≡ some name
      → requested_mounts args cfg cwd home container_home target
        ≡ record { source = display cwd; target = target; access = read_only }
          ∷ (map (expanded args cfg home container_home) cfg.mounts
              ++ map (expanded args cfg home container_home) args.cli_mounts)
  unfolding requested_mounts mount_project project_readwrite
  worktree_first name cwd home container_home target w = rw w refl

  project_of :
      (fs : FileSystem) (home : FilePath) (forbidden : List Forbidden) (dirs files : List FilePath)
      (cwd target : FilePath) (more : List AskedMount) (mounts : List Mount)
      → AreMounted fs home forbidden dirs files
          (record { source = display cwd; target = target; access = read_only } ∷ more)
          mounts
      → IsReadOnlyProject fs cwd home target mounts
  project_of fs home forbidden dirs files cwd target more [] h = elim h [ ]
  project_of fs home forbidden dirs files cwd target more (m ∷ ms) h = record {
    project = m;
    others = ms;
    first = refl;
    mounted_at = h.1.0;
    kept = h.1.1;
    resolved = h.0.resolved;
  }

  -- If a context is resolved in worktree mode, then whatever the flags and the configuration say,
  -- its first mount is the project at its target, read-only, with the resolved path of the working
  -- directory as its source.
  pub worktree-IsReadOnlyProject :
      (host : Host) (places : Places) (ctx : RunContext) (name : Text)
      → args.worktree ≡ some name
      → resolve_context args cfg host places ≡ ok ctx
      → IsReadOnlyProject host.fs places.cwd places.home_canon
          (project_target_of args cfg)
          ctx.mounts
  worktree-IsReadOnlyProject host places ctx name w h =
      let resolved = resolve_context-AreResolved args cfg host places ctx h in
      project_of host.fs places.home_canon
        (forbidden_list host.fs places.home_canon resolved.config_canon) resolved.dirs
        resolved.files places.cwd (project_target_of args cfg)
        (map (expanded args cfg places.home (container_home_of args cfg)) cfg.mounts
          ++ map (expanded args cfg places.home (container_home_of args cfg)) args.cli_mounts)
        ctx.mounts
        (rw
          (worktree_first name places.cwd places.home (container_home_of args cfg)
            (project_target_of args cfg) w)
          at resolved.mounted)
