-- ===== src/Context/Devices.antt =====
-- The devices that a context gives besides its mounts: the sockets and the volumes.
use celily.Prelude.{ℕ, List, [], ◌∷◌, ◌++◌}
use celily.Prelude.Text.{codes}
use celily.Prelude.Fallible.{Result, ok, ◌>>=◌, map_err}
use celily.Paths.{FilePath, expand_container_tilde}
use celily.Backend.Mount.{Mount}
use celily.Paths.Raw.{display}
use celily.Lxd.Instance.{Device}
use celily.Validate.ProxyConnect.{validate_proxy_connect}
use celily.Config.Merge.{ProxyDevice, Volume}
use celily.Context.{Host, ContextError, invalid_path}

module _ (host : Host) (home_canon : FilePath) (mounts : List Mount) (uid gid : ℕ) where
  abbrev pub proxy_device : ProxyDevice → FilePath → Device
  proxy_device p socket =
      Device.proxy (codes "unix:" ++ display socket) p.listen uid gid host.uid host.gid p.mode

  -- A socket is validated against the mounts as they are in the end.
  unfoldable pub proxy_devices : List ProxyDevice → Result ContextError (List Device)
  unfolding display
  proxy_devices [] = ok []
  proxy_devices (p ∷ proxies) = do
    socket ← map_err invalid_path (
        validate_proxy_connect host.fs p.connect home_canon (host.var (codes "XDG_RUNTIME_DIR"))
          host.uid mounts)
    rest ← proxy_devices proxies
    ok (proxy_device p socket ∷ rest)

abbrev pub volume_device : FilePath → Volume → Device
volume_device container_home v =
    Device.volume v.name (expand_container_tilde v.target container_home) v.access
