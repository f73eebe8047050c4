-- ===== src/Validate/ProxyConnect/Proxyable.antt =====
-- Which sockets may be proxied to an instance.
use celily.Prelude.{
  ℕ, ◌≡◌, ◌↔◌, ◌⊎◌, inl, inr, refl, ap, ◌∙◌, false, not, ◌&&◌, Option, some, List, [], ◌∷◌, ◌++◌,
  arith, Bool-cases, Option-cases, All,
}
use celily.Prelude.Fallible.{ok, Result-cases}
use celily.Prelude.Text.{Text, codes, strip_prefix, strip_prefix_sound, strip_prefix_complete}
use celily.Paths.{FilePath, is_under_or_eq}
use celily.Paths.Under.{IsUnder, is_under_or_eq_iff}
use celily.Backend.Mount.{AccessMode, Mount}
use celily.Validate.Files.{FileSystem, canonicalize_in_home}
use celily.Validate.Files.Symlinks.{IsResolved, canonicalize_in_home_iff}
use celily.Validate.Forbidden.{under, check_all}
use celily.Validate.Forbidden.Apart.{IsApart, check_all_iff}
use celily.Validate.ProxyConnect.{
  build_proxy_forbidden_list, runtime_dir_of, exposes, refuse_writable, validate_proxy_connect,
}

-- The sandbox cannot replace the path through the mount.
abbrev pub IsKept : FilePath → Mount → Type 0
IsKept path m = m.access ≡ AccessMode.read_write → ¬ IsUnder path m.source

module _ (fs : FileSystem) where
  pub record IsProxyable (connect : Text) (home runtime_dir : FilePath) (mounts : List Mount)
      (canonical : FilePath) : Type 0 where
    pub path : Text
    pub is_unix : connect ≡ codes "unix:" ++ path
    pub resolved : IsResolved fs path home canonical
    pub apart : All (IsApart canonical) (build_proxy_forbidden_list fs home runtime_dir)
    pub owned : IsUnder canonical home ⊎ IsUnder canonical runtime_dir
    pub kept : All (IsKept canonical) mounts

  exposes-false_iff : (path : FilePath) (m : Mount) → (exposes fs path m ≡ false) ↔ IsKept path m
  exposes-false_iff path m =
      let (to, from) = is_under_or_eq_iff path m.source in
      (λ h e u. absurd (ground (arith, from u)), λ kept. by_access m.access refl kept)
    where
      by_access : (a : AccessMode) → m.access ≡ a → IsKept path m → exposes fs path m ≡ false
      by_access AccessMode.read_only e kept = ground (arith, e)
      by_access AccessMode.read_write e kept = elim (Bool-cases (is_under_or_eq path m.source)) [
        | inl under ↦ absurd (kept e ((is_under_or_eq_iff path m.source).0 under))
        | inr outside ↦ ground (arith, e, outside)
      ]

  refuse_writable_iff :
      (path : FilePath) (mounts : List Mount)
      → (refuse_writable fs path mounts ≡ ok tt) ↔ All (IsKept path) mounts
  unfolding refuse_writable
  refuse_writable_iff path [] = (λ h. tt, λ h. refl)
  refuse_writable_iff path (m ∷ mounts) =
      let (to, from) = refuse_writable_iff path mounts in
      let (keeps, exposed) = exposes-false_iff path m in
      elim (Bool-cases (exposes fs path m)) [
        | inl e ↦
            rw (e, refuse_writable)
              (λ h. absurd (ground arith), λ h. absurd (ground (arith, exposed h.0)))
        | inr e ↦ rw (e, refuse_writable) (λ h. (keeps e, to h), λ h. from h.1)
      ]

  owned_iff :
      (path home runtime_dir : FilePath)
      → ((not (is_under_or_eq path home) && not (is_under_or_eq path runtime_dir)) ≡ false)
        ↔ (IsUnder path home ⊎ IsUnder path runtime_dir)
  owned_iff path home runtime_dir = (sound, complete)
    where
      sound :
          (not (is_under_or_eq path home) && not (is_under_or_eq path runtime_dir)) ≡ false
          → IsUnder path home ⊎ IsUnder path runtime_dir
      sound h = elim (Bool-cases (is_under_or_eq path home)) [
        | inl e ↦ inl ((is_under_or_eq_iff path home).0 e)
        | inr e ↦ inr ((is_under_or_eq_iff path runtime_dir).0 (ground arith))
      ]

      complete :
          IsUnder path home ⊎ IsUnder path runtime_dir
          → (not (is_under_or_eq path home) && not (is_under_or_eq path runtime_dir)) ≡ false
      complete (inl u) = ground (arith, (is_under_or_eq_iff path home).1 u)
      complete (inr u) = ground (arith, (is_under_or_eq_iff path runtime_dir).1 u)

  -- A socket is accepted, as its resolved path, exactly when it is given as a unix socket, its path
  -- resolves and is, with a slash at its end kept, no symlink that stands in the home, and nor is a
  -- parent of it, is apart from every forbidden entry of the home and the runtime directory, is
  -- under the home or the runtime directory, and is under no read-write mount.
  pub validate_proxy_connect_iff :
      (connect : Text) (home : FilePath) (xdg : Option Text) (uid : ℕ) (mounts : List Mount)
      (canonical : FilePath)
      → (validate_proxy_connect fs connect home xdg uid mounts ≡ ok canonical)
        ↔ IsProxyable connect home (runtime_dir_of fs xdg uid) mounts canonical
  unfolding validate_proxy_connect
  validate_proxy_connect_iff connect home xdg uid mounts canonical = (sound, complete)
    where
      sound :
          validate_proxy_connect fs connect home xdg uid mounts ≡ ok canonical
          → IsProxyable connect home (runtime_dir_of fs xdg uid) mounts canonical
      sound h = elim (Option-cases (strip_prefix (codes "unix:") connect)) [
        | inl missing ↦ absurd (ground arith)
        | inr (path, found) ↦ elim (Result-cases (canonicalize_in_home fs path home)) [
          | inr (error, e) ↦ absurd (ground arith)
          | inl (p, e) ↦
              let runtime_dir = runtime_dir_of fs xdg uid in
              let same : p ≡ canonical = ground arith in
              let e' = e ∙ ap (λ (x : FilePath). ok x) same in
              let clean : check_all (build_proxy_forbidden_list fs home runtime_dir) canonical
                  ≡ ok tt =
                ground arith in
              let kept : refuse_writable fs canonical mounts ≡ ok tt = ground arith in
              record {
                path = path;
                is_unix = strip_prefix_sound (codes "unix:") connect path found;
                resolved = (canonicalize_in_home_iff fs path home canonical).0 e';
                apart =
                    (check_all_iff (build_proxy_forbidden_list fs home runtime_dir) canonical).0
                      clean;
                owned = (owned_iff canonical home runtime_dir).0 (ground arith);
                kept = (refuse_writable_iff canonical mounts).0 kept;
              }
        ]
      ]

      complete :
          IsProxyable connect home (runtime_dir_of fs xdg uid) mounts canonical
          → validate_proxy_connect fs connect home xdg uid mounts ≡ ok canonical
      complete p =
          let runtime_dir = runtime_dir_of fs xdg uid in
          let found : strip_prefix (codes "unix:") connect ≡ some p.path =
            ap (strip_prefix (codes "unix:")) p.is_unix
            ∙ strip_prefix_complete (codes "unix:") p.path in
          let e = (canonicalize_in_home_iff fs p.path home canonical).1 p.resolved in
          let clean =
            (check_all_iff (build_proxy_forbidden_list fs home runtime_dir) canonical).1 p.apart in
          let owned = (owned_iff canonical home runtime_dir).1 p.owned in
          let kept = (refuse_writable_iff canonical mounts).1 p.kept in
          ground (arith, found, e, clean, owned, kept)
