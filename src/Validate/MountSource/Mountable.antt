-- ===== src/Validate/MountSource/Mountable.antt =====
-- Which paths may be mounted.
use celily.Prelude.{
  ◌≡◌, ◌↔◌, inl, inr, refl, ap, ◌∙◌, true, false, ◌&&◌, List, [], ◌∷◌, arith, Bool-cases, All, Memᴰ,
  contains_iff, is_empty,
}
use celily.Prelude.Text.{Text}
use celily.Prelude.Fallible.{ok, Result-cases}
use celily.Paths.{FilePath, is_under_or_eq}
use celily.Paths.Under.{path_eq, IsUnder, is_under_or_eq_iff}
use celily.Paths.Raw.{display}
use celily.Validate.Files.{FileSystem, canonicalize_in_home}
use celily.Validate.Files.Symlinks.{IsResolved, canonicalize_in_home_iff}
use celily.Validate.Forbidden.{Forbidden, check_all}
use celily.Validate.Forbidden.Apart.{IsApart, check_all_iff}
use celily.Validate.MountSource.{check_listed, validate_mount_source}

module _ (fs : FileSystem) where
  -- A listed directory, or a listed file.
  pub data IsListed (dirs files : List FilePath) (p : FilePath) : Type 0 where
    directory : fs.is_dir (display p) ≡ true → Memᴰ p dirs → IsListed dirs files p
    file :
        fs.is_dir (display p) ≡ false
        → fs.is_file (display p) ≡ true
        → Memᴰ p files
        → IsListed dirs files p

  pub record IsMountable (path : Text) (home : FilePath) (forbidden : List Forbidden)
      (dirs files : List FilePath) (canonical : FilePath) : Type 0 where
    pub resolved : IsResolved fs path home canonical
    pub apart : All (IsApart canonical) forbidden
    pub in_home : IsUnder canonical home
    pub listed : IsListed dirs files canonical

  check_listed_iff :
      (p : FilePath) (dirs files : List FilePath)
      → (check_listed fs p dirs files ≡ ok tt) ↔ IsListed dirs files p
  check_listed_iff p dirs files = (sound, complete)
    where
      sound : check_listed fs p dirs files ≡ ok tt → IsListed dirs files p
      sound h = elim (Bool-cases (fs.is_dir (display p))) [
        | inl dir ↦ IsListed.directory dir ((contains_iff dirs p).0 (ground arith))
        | inr other ↦ IsListed.file other (ground arith) ((contains_iff files p).0 (ground arith))
      ]

      complete : IsListed dirs files p → check_listed fs p dirs files ≡ ok tt
      complete (IsListed.directory dir m) = ground (arith, dir, (contains_iff dirs p).1 m)
      complete (IsListed.file other reg m) = ground (arith, other, reg, (contains_iff files p).1 m)

  some_allowed :
      (dirs files : List FilePath) (p : FilePath)
      → IsListed dirs files p
      → (is_empty dirs && is_empty files) ≡ false
  some_allowed [] files p (IsListed.directory dir m) = elim m [ ]
  some_allowed (d ∷ dirs) files p listed = refl
  some_allowed [] [] p (IsListed.file other reg m) = elim m [ ]
  some_allowed [] (f ∷ files) p listed = refl

  -- A mount source is accepted, as its resolved path, exactly when it can be made absolute and
  -- resolves, neither the absolute path, with a slash at its end kept, nor a parent of it is a
  -- symlink that stands in the home, its resolved path shares no path with a forbidden subtree and
  -- is no forbidden path, is under the home, and is a listed directory or else a listed file.
  pub validate_mount_source_iff :
      (path : Text) (home : FilePath) (forbidden : List Forbidden) (dirs files : List FilePath)
      (canonical : FilePath)
      → (validate_mount_source fs path home forbidden dirs files ≡ ok canonical)
        ↔ IsMountable path home forbidden dirs files canonical
  unfolding validate_mount_source
  validate_mount_source_iff path home forbidden dirs files canonical = (sound, complete)
    where
      sound :
          validate_mount_source fs path home forbidden dirs files ≡ ok canonical
          → IsMountable path home forbidden dirs files canonical
      sound h = elim (Result-cases (canonicalize_in_home fs path home)) [
        | inr (error, e) ↦ absurd (ground arith)
        | inl (p, e) ↦
            let same : p ≡ canonical = ground arith in
            let e' = e ∙ ap (λ (x : FilePath). ok x) same in
            let clean : check_all forbidden canonical ≡ ok tt = ground arith in
            let under : is_under_or_eq canonical home ≡ true = ground arith in
            let listed : check_listed fs canonical dirs files ≡ ok tt = ground arith in
            record {
              resolved = (canonicalize_in_home_iff fs path home canonical).0 e';
              apart = (check_all_iff forbidden canonical).0 clean;
              in_home = (is_under_or_eq_iff canonical home).0 under;
              listed = (check_listed_iff canonical dirs files).0 listed;
            }
      ]

      complete :
          IsMountable path home forbidden dirs files canonical
          → validate_mount_source fs path home forbidden dirs files ≡ ok canonical
      complete m =
          let any_allowed = some_allowed dirs files canonical m.listed in
          let e = (canonicalize_in_home_iff fs path home canonical).1 m.resolved in
          let clean = (check_all_iff forbidden canonical).1 m.apart in
          let under = (is_under_or_eq_iff canonical home).1 m.in_home in
          let listed = (check_listed_iff canonical dirs files).1 m.listed in
          ground (arith, any_allowed, e, clean, under, listed)
