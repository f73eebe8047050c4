-- ===== src/Validate/ProxyConnect.antt =====
-- `validate_proxy_connect` of celily/src/validate.rs, and its forbidden list.
pub mod Proxyable
pub mod Credentials
use celily.Prelude.{
  ℕ, Bool, true, false, not, ◌&&◌, ◌||◌, Option, none, some, List, [], ◌∷◌, ◌++◌, if◌then◌else◌,
  any,
}
use celily.Prelude.Fallible.{Result, ok, err, ◌>>=◌, ◌>>◌, fail_if, map_err, ok_or}
use celily.Prelude.Text.{Text, codes, strip_prefix}
use celily.Prelude.Text.Decimal.{to_string}
use celily.Paths.{FilePath, components, join, is_under_or_eq}
use celily.Paths.Raw.{display}
use celily.Backend.Mount.{AccessMode, Mount}
use celily.Validate.Files.{FileSystem, ValidateError, canonicalize_in_home}
use celily.Validate.Forbidden.{Forbidden, under, check_all}

-- The directories under the runtime directory that are never exposed, with their labels.
abbrev pub runtime_segments : List (Text × Text)
runtime_segments =
    (codes "gnupg", codes "$XDG_RUNTIME_DIR/gnupg")
    ∷ (codes "keyring", codes "$XDG_RUNTIME_DIR/keyring")
    ∷ (codes "rbw", codes "$XDG_RUNTIME_DIR/rbw")
    ∷ (codes "gcr", codes "$XDG_RUNTIME_DIR/gcr")
    ∷ (codes "p11-kit", codes "$XDG_RUNTIME_DIR/p11-kit")
    ∷ (codes "systemd", codes "$XDG_RUNTIME_DIR/systemd")
    ∷ (codes "podman", codes "$XDG_RUNTIME_DIR/podman")
    ∷ []

-- `list.extend(entry)`, for an optional entry.
abbrev pub extend : Option Forbidden → List Forbidden → List Forbidden
extend none rest = rest
extend (some entry) rest = entry ∷ rest

abbrev unwrap_or_else : Option FilePath → FilePath → FilePath
unwrap_or_else none default = default
unwrap_or_else (some path) default = path

abbrev text_or : Option Text → Text → Text
text_or none default = default
text_or (some value) default = value

module _ (fs : FileSystem) where
  pub extend_all : FilePath → List (Text × Text) → List Forbidden → List Forbidden
  extend_all base [] rest = rest
  extend_all base ((segment, label) ∷ entries) rest =
      extend (under fs base segment label) (extend_all base entries rest)

  -- The session bus itself, not what is under it.
  abbrev pub bus_entry : FilePath → Option Forbidden
  bus_entry runtime_dir = elim (fs.canonicalize (display (join runtime_dir (codes "bus")))) [
    | none ↦ none
    | some canonical ↦ some (Forbidden.exact canonical (codes "$XDG_RUNTIME_DIR/bus"))
  ]

  unfoldable pub build_proxy_forbidden_list : FilePath → FilePath → List Forbidden
  unfolding extend_all under join display
  build_proxy_forbidden_list home runtime_dir =
      extend (under fs home (codes ".ssh/agent") (codes "~/.ssh/agent"))
        (extend_all runtime_dir runtime_segments (extend (bus_entry runtime_dir) []))

  -- The runtime directory: `$XDG_RUNTIME_DIR` or `/run/user/<uid>`, resolved if it can be.
  unfoldable pub runtime_dir_of : Option Text → ℕ → FilePath
  unfolding components to_string
  runtime_dir_of xdg_runtime_dir uid =
      let raw = text_or xdg_runtime_dir (codes "/run/user/" ++ to_string uid) in
      unwrap_or_else (fs.canonicalize raw) (components raw)

  abbrev pub is_writable : AccessMode → Bool
  is_writable AccessMode.read_only = false
  is_writable AccessMode.read_write = true

  abbrev pub exposes : FilePath → Mount → Bool
  exposes canonical m = is_writable m.access && is_under_or_eq canonical m.source

  -- The first mount that passes the test.
  unfoldable pub refuse_writable : FilePath → List Mount → Result ValidateError (Unit {0})
  refuse_writable canonical [] = ok tt
  refuse_writable canonical (m ∷ mounts) =
      if exposes canonical m
      then err (ValidateError.under_writable m.source)
      else refuse_writable canonical mounts

  unfoldable pub validate_proxy_connect :
      Text → FilePath → Option Text → ℕ → List Mount → Result ValidateError FilePath
  unfolding strip_prefix refuse_writable
  validate_proxy_connect connect home xdg_runtime_dir uid mounts = do
    path ← ok_or (strip_prefix (codes "unix:") connect) ValidateError.not_unix
    canonical ← canonicalize_in_home fs path home
    map_err ValidateError.violates
        (check_all (build_proxy_forbidden_list home (runtime_dir_of xdg_runtime_dir uid)) canonical)
    fail_if
        (not (is_under_or_eq canonical home)
          && not (is_under_or_eq canonical (runtime_dir_of xdg_runtime_dir uid)))
        ValidateError.not_under
    refuse_writable canonical mounts
    ok canonical
