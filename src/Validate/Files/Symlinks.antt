-- ===== src/Validate/Files/Symlinks.antt =====
-- What `canonicalize_in_home` gives: a resolved path that goes through no symlink of the home.
use celily.Prelude.{
  ◌≡◌, ◌↔◌, inl, inr, refl, false, some, List, [], ◌∷◌, arith, Bool-cases, Option-cases, All,
}
use celily.Prelude.Fallible.{ok}
use celily.Prelude.Text.{Text}
use celily.Paths.{FilePath}
use celily.Paths.Raw.{absolute}
use celily.Validate.Files.{
  FileSystem, written_ancestors, is_planted, refuse_symlinks, canonicalize_in_home,
}

module _ (fs : FileSystem) where
  -- The absolute path goes through no symlink that stands in the home, and resolves.
  pub record IsResolved (path : Text) (home canonical : FilePath) : Type 0 where
    pub absolute_path : Text
    pub made_absolute : absolute fs.current_dir path ≡ some absolute_path
    pub unplanted : All (λ a. is_planted fs home a ≡ false) (written_ancestors absolute_path)
    pub resolved : fs.canonicalize absolute_path ≡ some canonical

  refuse_symlinks_iff :
      (home : FilePath) (paths : List Text)
      → (refuse_symlinks fs home paths ≡ ok tt) ↔ All (λ a. is_planted fs home a ≡ false) paths
  unfolding refuse_symlinks
  refuse_symlinks_iff home [] = (λ h. tt, λ h. refl)
  refuse_symlinks_iff home (a ∷ rest) =
      let (to, from) = refuse_symlinks_iff home rest in
      elim (Bool-cases (is_planted fs home a)) [
        | inl planted ↦ rw planted (λ h. absurd (ground arith), λ h. absurd (ground (arith, h.0)))
        | inr clean ↦ rw clean (λ h. (refl, to h), λ h. from h.1)
      ]

  -- A path resolves exactly when it can be made absolute, no symlink among its ancestors stands in
  -- the home, and the file system resolves it.
  pub canonicalize_in_home_iff :
      (path : Text) (home canonical : FilePath)
      → (canonicalize_in_home fs path home ≡ ok canonical) ↔ IsResolved path home canonical
  unfolding canonicalize_in_home
  canonicalize_in_home_iff path home canonical = (sound, complete)
    where
      sound : canonicalize_in_home fs path home ≡ ok canonical → IsResolved path home canonical
      sound h = elim (Option-cases (absolute fs.current_dir path)) [
        | inl missing ↦ absurd (ground arith)
        | inr (made_path, made) ↦
            let clean : refuse_symlinks fs home (written_ancestors made_path) ≡ ok tt =
              ground arith in
            record {
              absolute_path = made_path;
              made_absolute = made;
              unplanted = (refuse_symlinks_iff home (written_ancestors made_path)).0 clean;
              resolved = ground arith;
            }
      ]

      complete : IsResolved path home canonical → canonicalize_in_home fs path home ≡ ok canonical
      complete r =
          let clean =
            (refuse_symlinks_iff home (written_ancestors r.absolute_path)).1 r.unplanted in
          ground (arith, r.made_absolute, clean, r.resolved)
