-- ===== src/Validate/ProxyConnect/Credentials.antt =====
-- The credential and control directories of the runtime directory (celily/src/validate.rs).
use celily.Prelude.{ℕ, ◌≡◌, refl, Option, none, some, List, [], Memᴰ, All-mem}
use celily.Prelude.Fallible.{ok}
use celily.Prelude.Text.{Text, codes}
use celily.Paths.{FilePath, join}
use celily.Paths.Raw.{display}
use celily.Backend.Mount.{Mount}
use celily.Validate.Files.{FileSystem}
use celily.Validate.Forbidden.{Forbidden, under}
use celily.Validate.Forbidden.Apart.{IsApart, Disjoint}
use celily.Validate.ProxyConnect.{
  runtime_segments, extend, extend_all, bus_entry, build_proxy_forbidden_list, runtime_dir_of,
  validate_proxy_connect,
}
use celily.Validate.ProxyConnect.Proxyable.{validate_proxy_connect_iff}

extend-mem :
    (o : Option Forbidden) {f : Forbidden} {rest : List Forbidden}
    → Memᴰ f rest
    → Memᴰ f (extend o rest)
extend-mem none m = m
extend-mem (some entry) m = Memᴰ.tail m

module _ (fs : FileSystem) where
  extend_all-mem :
      (base : FilePath) (segment label : Text) (f : Forbidden) (rest : List Forbidden)
      {entries : List (Text × Text)}
      → Memᴰ (segment, label) entries
      → under fs base segment label ≡ some f
      → Memᴰ f (extend_all fs base entries rest)
  unfolding extend_all
  extend_all-mem base segment label f rest (Memᴰ.head {x = (s, l)} {xs} same) found =
      let e : under fs base s l ≡ some f = cc in rw e (Memᴰ.head refl)
  extend_all-mem base segment label f rest (Memᴰ.tail {x = (s, l)} m) found =
      extend-mem (under fs base s l) (extend_all-mem base segment label f rest m found)

  -- An accepted socket shares no path with a listed credential or control directory of the runtime
  -- directory, where that directory resolves.
  pub accepted-Disjoint :
      (connect : Text) (home : FilePath) (xdg : Option Text) (uid : ℕ) (mounts : List Mount)
      (canonical : FilePath) (segment label : Text) (directory : FilePath)
      → Memᴰ (segment, label) runtime_segments
      → fs.canonicalize (display (join (runtime_dir_of fs xdg uid) segment)) ≡ some directory
      → validate_proxy_connect fs connect home xdg uid mounts ≡ ok canonical
      → Disjoint canonical directory
  unfolding build_proxy_forbidden_list under
  accepted-Disjoint connect home xdg uid mounts canonical segment label directory listed resolves
        accepted =
      let runtime_dir = runtime_dir_of fs xdg uid in
      let p = (validate_proxy_connect_iff fs connect home xdg uid mounts canonical).0 accepted in
      let found : under fs runtime_dir segment label ≡ some (Forbidden.subtree directory label) =
        rw (resolves, under) refl in
      All-mem (IsApart canonical)
        (extend-mem (under fs home (codes ".ssh/agent") (codes "~/.ssh/agent")) (
          extend_all-mem runtime_dir segment label (Forbidden.subtree directory label)
            (extend (bus_entry fs runtime_dir) []) listed found))
        p.apart
