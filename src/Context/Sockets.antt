-- ===== src/Context/Sockets.antt =====
-- The sockets of the host that a context hands to its instance.
use celily.Prelude.{ℕ, ◌≡◌, refl, List, [], ◌∷◌, ◌++◌, map, inl, inr, arith, All, All-append}
use celily.Prelude.Text.{Text, codes}
use celily.Prelude.Fallible.{ok, Result-cases}
use celily.Paths.{FilePath}
use celily.Backend.Mount.{Mount}
use celily.Paths.Raw.{display}
use celily.Lxd.Instance.{Device}
use celily.Validate.ProxyConnect.{runtime_dir_of, validate_proxy_connect}
use celily.Validate.ProxyConnect.Proxyable.{IsProxyable, validate_proxy_connect_iff}
use celily.Config.Merge.{Config, ProxyDevice, Volume}
use celily.Context.{Args, Host, Places, RunContext}
use celily.Context.Devices.{proxy_device, proxy_devices, volume_device}
use celily.Context.Resolve.{container_home_of, uid_of, gid_of, assemble, resolve_context}
use celily.Context.Parts.{resolve_context-IsResolvedFrom}

-- A device of the host's that is no disk, and whose socket may be handed out beside these mounts.
abbrev pub IsHandedOut : Host → FilePath → List Mount → Device → Type 0
IsHandedOut host home mounts (Device.disk _ _ _) = ⊥
IsHandedOut host home mounts (Device.volume _ _ _) = Unit {0}
IsHandedOut host home mounts (Device.proxy connect _ _ _ _ _ _) =
    (asked : Text) × (socket : FilePath) × (connect ≡ codes "unix:" ++ display socket)
    × IsProxyable host.fs asked home
        (runtime_dir_of host.fs (host.var (codes "XDG_RUNTIME_DIR")) host.uid) mounts socket

module _ (host : Host) (home : FilePath) (mounts : List Mount) (uid gid : ℕ) where
  proxy_devices-All :
      (proxies : List ProxyDevice) (devices : List Device)
      → proxy_devices host home mounts uid gid proxies ≡ ok devices
      → All (IsHandedOut host home mounts) devices
  unfolding proxy_devices
  proxy_devices-All [] [] h = tt
  proxy_devices-All [] (d ∷ ds) h = absurd (ground arith)
  proxy_devices-All (p ∷ proxies) devices h =
      elim (Result-cases (
        validate_proxy_connect host.fs p.connect home (host.var (codes "XDG_RUNTIME_DIR")) host.uid
          mounts)) [
            | inr (x, e) ↦ absurd (ground arith)
            | inl (socket, e) ↦
                elim (Result-cases (proxy_devices host home mounts uid gid proxies)) [
                  | inr (x, f) ↦ absurd (ground arith)
                  | inl (ds, f) ↦
                      let same : proxy_device host home mounts uid gid p socket ∷ ds ≡ devices =
                        ground arith in
                      rw (← same) (
                        (
                          p.connect,
                          socket,
                          refl,
                          (validate_proxy_connect_iff host.fs p.connect home
                                (host.var (codes "XDG_RUNTIME_DIR")) host.uid mounts socket).0
                              e,
                        ),
                        proxy_devices-All proxies ds f,
                      )
                ]
          ]

  volumes-All :
      (container_home : FilePath) (volumes : List Volume)
      → All (IsHandedOut host home mounts) (map (volume_device container_home) volumes)
  volumes-All container_home [] = tt
  volumes-All container_home (v ∷ volumes) = (tt, volumes-All container_home volumes)

-- If a context is resolved, each of its extra devices is a volume, or a proxy to the unix socket of
-- a resolved path that may be handed out beside the mounts of the context, so is apart from the
-- sockets of keyrings and agents and under no mount that is read-write.
pub extra_devices-All :
    {D S : Type 0} (args : Args) (cfg : Config D S) (host : Host) (places : Places)
    (ctx : RunContext)
    → resolve_context args cfg host places ≡ ok ctx
    → All (IsHandedOut host places.home_canon ctx.mounts) ctx.extra_devices
unfolding assemble
extra_devices-All args cfg host places ctx h =
    let parts = resolve_context-IsResolvedFrom args cfg host places ctx h in
    rw (parts.assembled) (
      All-append (IsHandedOut host places.home_canon parts.mounts) parts.proxies
        (map (volume_device (container_home_of args cfg)) cfg.volumes)
        (proxy_devices-All host places.home_canon parts.mounts (uid_of args cfg) (gid_of args cfg)
          cfg.proxy parts.proxies parts.proxied)
        (volumes-All host places.home_canon parts.mounts (uid_of args cfg) (gid_of args cfg)
          (container_home_of args cfg) cfg.volumes))
