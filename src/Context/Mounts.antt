-- ===== src/Context/Mounts.antt =====
-- The mounts of a context, their allowlists and what is forbidden to them.
use celily.Prelude.{
  Bool, true, false, not, ◌&&◌, ◌||◌, Option, none, some, List, [], ◌∷◌, ◌++◌, map, if◌then◌else◌,
}
use celily.Prelude.Text.{Text, codes}
use celily.Prelude.Fallible.{Result, ok, err, ◌>>=◌, map_err}
use celily.Paths.{FilePath, join, expand_container_tilde}
use celily.Backend.Mount.{read_only, read_write, WrittenMount, Mount}
use celily.Paths.Raw.{display, expand_host_tilde}
use celily.Validate.Files.{FileSystem, canonicalize_in_home}
use celily.Validate.Forbidden.{Forbidden, under}
use celily.Validate.MountSource.{validate_mount_source}
use celily.Validate.ProxyConnect.{extend}
use celily.Config.Merge.{Config}
use celily.Context.{Args, Places, AskedMount, ContextError, invalid_path, no_config_dir, unwrap_or}

abbrev pub worktree_enabled : Args → Bool
worktree_enabled args = elim args.worktree [ none ↦ false | some _ ↦ true ]

module _ {D S : Type 0} (args : Args) (cfg : Config D S) where
  -- The project is mounted in worktree mode, by the flag, or by the configuration.
  unfoldable pub mount_project : Bool
  mount_project =
      worktree_enabled args
      || args.mount_project
      || not args.no_mount_project && unwrap_or cfg.mount_project false

  -- Worktree mode never mounts it read-write.
  unfoldable pub project_readwrite : Bool
  project_readwrite =
      not (worktree_enabled args)
      && (args.project_readwrite
          || not args.no_project_readwrite && unwrap_or cfg.project_readwrite false)

  abbrev pub project_mount : FilePath → FilePath → AskedMount
  project_mount cwd project_target = record {
    source = display cwd;
    target = project_target;
    access = if project_readwrite then read_write else read_only;
  }

  -- A configured mount, with both tildes expanded.
  abbrev pub expanded : Text → FilePath → WrittenMount → AskedMount
  expanded home container_home m = record {
    source = expand_host_tilde m.source home;
    target = expand_container_tilde m.target container_home;
    access = m.access;
  }

  unfoldable pub requested_mounts : FilePath → Text → FilePath → FilePath → List AskedMount
  unfolding mount_project project_readwrite display expand_host_tilde expand_container_tilde
  requested_mounts cwd home container_home project_target =
      (if mount_project then project_mount cwd project_target ∷ [] else [])
      ++ (map (expanded home container_home) cfg.mounts
          ++ map (expanded home container_home) args.cli_mounts)

module _ (fs : FileSystem) where
  -- A missing entry is skipped; a symlink on the way is an error.
  unfoldable pub canonicalize_allowlist :
      Text → FilePath → List Text → Result ContextError (List FilePath)
  unfolding expand_host_tilde
  canonicalize_allowlist home home_canon [] = ok []
  canonicalize_allowlist home home_canon (entry ∷ entries) =
      elim (fs.exists (expand_host_tilde entry home)) [
        | false ↦ canonicalize_allowlist home home_canon entries
        | true ↦ do
          canonical ←
              map_err invalid_path
                (canonicalize_in_home fs (expand_host_tilde entry home) home_canon)
          rest ← canonicalize_allowlist home home_canon entries
          ok (canonical ∷ rest)
      ]

  -- `~/.local/share` and `~/.local`, where they resolve.
  abbrev pub share_entry : FilePath → Option Forbidden
  share_entry local_canon = elim (fs.canonicalize (display (join local_canon (codes "share")))) [
    | none ↦ none
    | some share ↦ some (Forbidden.exact share (codes "~/.local/share"))
  ]

  abbrev pub local_entries : Option FilePath → List Forbidden
  local_entries none = []
  local_entries (some local_canon) =
      extend (share_entry local_canon) (Forbidden.exact local_canon (codes "~/.local") ∷ [])

  unfoldable pub forbidden_list : FilePath → FilePath → List Forbidden
  unfolding under join display
  forbidden_list home_canon config_canon =
      Forbidden.exact home_canon (codes "$HOME")
      ∷ Forbidden.exact config_canon (codes "~/.config")
      ∷ (local_entries (fs.canonicalize (display (join home_canon (codes ".local"))))
          ++ extend (under fs config_canon (codes "celily") (codes "~/.config/celily")) (
              extend (under fs home_canon (codes ".ssh") (codes "~/.ssh")) (
                extend (under fs home_canon (codes ".gnupg") (codes "~/.gnupg")) (
                  extend
                    (under fs home_canon (codes ".local/share/keyrings")
                      (codes "~/.local/share/keyrings"))
                    []))))

  -- Each source is validated, and replaced by its resolved path.
  unfoldable pub validate_mounts :
      FilePath
      → List Forbidden
      → List FilePath
      → List FilePath
      → List AskedMount
      → Result ContextError (List Mount)
  validate_mounts home_canon forbidden dirs files [] = ok []
  validate_mounts home_canon forbidden dirs files (m ∷ mounts) = do
    canonical ←
        map_err invalid_path (validate_mount_source fs m.source home_canon forbidden dirs files)
    rest ← validate_mounts home_canon forbidden dirs files mounts
    ok (record { source = canonical; target = m.target; access = m.access } ∷ rest)

  unfoldable pub resolve_mounts : Places → List AskedMount → Result ContextError (List Mount)
  unfolding canonicalize_allowlist forbidden_list validate_mounts
  resolve_mounts places requested = do
    dirs ← canonicalize_allowlist places.home places.home_canon places.allowed_dirs
    files ← canonicalize_allowlist places.home places.home_canon places.allowed_files
    config_canon ← elim (fs.canonicalize places.config_dir) [
      | none ↦ err no_config_dir
      | some canonical ↦ ok canonical
    ]
    validate_mounts places.home_canon (forbidden_list places.home_canon config_canon) dirs files
        requested
