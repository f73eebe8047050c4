-- ===== src/Context/Safe.antt =====
-- What a resolved context may mount.
use celily.Prelude.{◌≡◌, refl, some, List, [], ◌∷◌, inl, inr, arith, Option-cases}
use celily.Prelude.Fallible.{ok, Result-cases}
use celily.Paths.{FilePath}
use celily.Backend.Mount.{Mount}
use celily.Validate.Files.{FileSystem}
use celily.Validate.Forbidden.{Forbidden}
use celily.Validate.MountSource.{validate_mount_source}
use celily.Validate.MountSource.Mountable.{IsMountable, validate_mount_source_iff}
use celily.Config.Merge.{Config}
use celily.Context.{AskedMount, Args, Host, Places, RunContext}
use celily.Context.Mounts.{
  requested_mounts, canonicalize_allowlist, forbidden_list, validate_mounts, resolve_mounts,
}
use celily.Context.Resolve.{container_home_of, project_target_of, assemble, resolve_context}
use celily.Context.Parts.{resolve_context-IsResolvedFrom}

module _ (fs : FileSystem) where
  -- Each mount has the target and the access that were asked for, and a source that may be mounted.
  abbrev pub AreMounted :
      FilePath
      → List Forbidden
      → List FilePath
      → List FilePath
      → List AskedMount
      → List Mount
      → Type 0
  AreMounted home forbidden dirs files [] [] = Unit {0}
  AreMounted home forbidden dirs files [] (_ ∷ _) = ⊥
  AreMounted home forbidden dirs files (_ ∷ _) [] = ⊥
  AreMounted home forbidden dirs files (asked ∷ more) (m ∷ ms) =
      IsMountable fs asked.source home forbidden dirs files m.source
      × ((m.target ≡ asked.target) × (m.access ≡ asked.access))
      × AreMounted home forbidden dirs files more ms

  abbrev mounted_of : AskedMount → FilePath → Mount
  mounted_of asked canonical = record {
    source = canonical;
    target = asked.target;
    access = asked.access;
  }

  validate_mounts-AreMounted :
      (home : FilePath) (forbidden : List Forbidden) (dirs files : List FilePath)
      (asked : List AskedMount) (mounts : List Mount)
      → validate_mounts fs home forbidden dirs files asked ≡ ok mounts
      → AreMounted home forbidden dirs files asked mounts
  unfolding validate_mounts
  validate_mounts-AreMounted home forbidden dirs files [] [] h = tt
  validate_mounts-AreMounted home forbidden dirs files [] (m ∷ ms) h = absurd (ground arith)
  validate_mounts-AreMounted home forbidden dirs files (a ∷ more) mounts h =
      elim (Result-cases (validate_mount_source fs a.source home forbidden dirs files)) [
        | inr (x, e) ↦ absurd (ground arith)
        | inl (canonical, e) ↦
            elim (Result-cases (validate_mounts fs home forbidden dirs files more)) [
              | inr (x, f) ↦ absurd (ground arith)
              | inl (ms, f) ↦
                  let same : mounted_of a canonical ∷ ms ≡ mounts = ground arith in
                  rw (← same) (
                    (validate_mount_source_iff fs a.source home forbidden dirs files canonical).0 e,
                    (refl, refl),
                    validate_mounts-AreMounted home forbidden dirs files more ms f,
                  )
            ]
      ]

  -- The lists that the mounts were validated against.
  pub record AreResolved (places : Places) (asked : List AskedMount) (mounts : List Mount)
      : Type 0 where
    pub config_canon : FilePath
    pub dirs : List FilePath
    pub files : List FilePath
    pub config_resolved : fs.canonicalize places.config_dir ≡ some config_canon
    pub dirs_resolved :
        canonicalize_allowlist fs places.home places.home_canon places.allowed_dirs ≡ ok dirs
    pub files_resolved :
        canonicalize_allowlist fs places.home places.home_canon places.allowed_files ≡ ok files
    pub mounted :
        AreMounted places.home_canon
          (forbidden_list fs places.home_canon config_canon)
          dirs
          files
          asked
          mounts

  resolve_mounts-AreResolved :
      (places : Places) (asked : List AskedMount) (mounts : List Mount)
      → resolve_mounts fs places asked ≡ ok mounts
      → AreResolved places asked mounts
  unfolding resolve_mounts
  resolve_mounts-AreResolved places asked mounts h =
      elim (Result-cases
        (canonicalize_allowlist fs places.home places.home_canon places.allowed_dirs)) [
          | inr (x, e) ↦ absurd (ground arith)
          | inl (dirs, d) ↦
              elim (Result-cases
                (canonicalize_allowlist fs places.home places.home_canon places.allowed_files)) [
                  | inr (x, e) ↦ absurd (ground arith)
                  | inl (files, f) ↦ elim (Option-cases (fs.canonicalize places.config_dir)) [
                    | inl missing ↦ absurd (ground arith)
                    | inr (config_canon, c) ↦ record {
                      config_canon = config_canon;
                      dirs = dirs;
                      files = files;
                      config_resolved = c;
                      dirs_resolved = d;
                      files_resolved = f;
                      mounted =
                          validate_mounts-AreMounted places.home_canon
                            (forbidden_list fs places.home_canon config_canon) dirs files asked
                            mounts (ground arith);
                    }
                  ]
                ]
        ]

module _ {D S : Type 0} (args : Args) (cfg : Config D S) (host : Host) (places : Places)
    (ctx : RunContext) where
  abbrev pub asked : List AskedMount
  asked =
      requested_mounts args cfg places.cwd places.home (container_home_of args cfg)
        (project_target_of args cfg)

  -- If a context is resolved, the configuration directory resolves, the allowlists resolve to lists
  -- of paths, and the mounts of the context are those that were asked for, one for one, with their
  -- targets and accesses, each with a source that is the resolved path of the source asked for and
  -- may be mounted: under the home, in the allowlists, and apart from the home itself, the
  -- configuration and local directories, and the subtrees of celily, ssh, gnupg and the keyrings,
  -- where these exist.
  pub resolve_context-AreResolved :
      resolve_context args cfg host places ≡ ok ctx → AreResolved host.fs places asked ctx.mounts
  unfolding assemble
  resolve_context-AreResolved h =
      let parts = resolve_context-IsResolvedFrom args cfg host places ctx h in
      rw (parts.assembled)
        (resolve_mounts-AreResolved host.fs places asked parts.mounts parts.mounted)
