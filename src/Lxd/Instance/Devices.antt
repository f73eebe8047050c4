-- ===== src/Lxd/Instance/Devices.antt =====
-- The access of the devices of celily-lib/src/backend/lxd/instance.rs.
use mathlib.Core.List.Memᴰ
use celily.Prelude.{ℕ, ap, ◌≡◌, ◌↔◌, refl, inl, inr, [], ◌∷◌, Memᴰ, arith}
use celily.Prelude.Text.{Text, codes}
use celily.Paths.{FilePath}
use celily.Backend.Mount.{AccessMode, read_only, read_write}
use celily.Lxd.Instance.{LxcBackend, Device, device_args}

abbrev first : Text → ℕ
first [] = 0
first (c ∷ s) = c

-- A disk of a host path is given readonly=true exactly when its access is read-only.
pub disk-readonly_iff :
    (backend : LxcBackend) (source target : FilePath) (access : AccessMode)
    → Memᴰ (codes "readonly=true") (device_args backend (Device.disk source target access))
      ↔ (access ≡ read_only)
unfolding device_args
disk-readonly_iff backend source target read_only =
    (λ m. refl, λ e. Memᴰ.tail (Memᴰ.tail (Memᴰ.tail (Memᴰ.head refl))))
disk-readonly_iff backend source target read_write = (
  λ m. elim (Memᴰ.cases_cons m) [
    | inl same ↦ absurd (omega (arith, ap first same))
    | inr m ↦ elim (Memᴰ.cases_cons m) [
      | inl same ↦ absurd (omega (arith, ap first same))
      | inr m ↦ elim (Memᴰ.cases_cons m) [
        | inl same ↦ absurd (omega (arith, ap first same))
        | inr m ↦ elim m [ ]
      ]
    ]
  ],
  λ e. cc,
)
