-- ===== src/Config/Permissions.antt =====
-- celily/src/config/validation.rs: who may own and read the configuration.
use Prim.Native.Nat.{bit_and}
use celily.Prelude.{
  ℕ, zero, suc, ◌≤◌, ◌/◌, ◌%◌, ◌≡◌, ◌↔◌, refl, Bool, true, false, not, Option, some, inl, inr, ◌==◌,
  nat_eq, arith, Option-cases,
}
use celily.Prelude.Bits.{bit_and_step}
use celily.Prelude.Fallible.{Result, ok, ◌>>=◌, ◌>>◌, fail_if, ok_or}

-- The owner and the mode of a file.
pub record Metadata : Type 0 where
  pub uid : ℕ
  pub mode : ℕ

pub data PermissionError : Type 0 where
  unreadable other_owner open_mode : PermissionError

-- The bits `0o0077` of group and others.
abbrev pub open_bits : ℕ
open_bits = 63

unfoldable pub validate_node_permissions : Option Metadata → ℕ → Result PermissionError (Unit {0})
validate_node_permissions metadata euid = do
  meta ← ok_or metadata PermissionError.unreadable
  fail_if (not (meta.uid == euid)) PermissionError.other_owner
  fail_if (not (bit_and meta.mode open_bits == 0)) PermissionError.open_mode

abbrev check_if : Bool → Option Metadata → ℕ → Result PermissionError (Unit {0})
check_if true metadata euid = validate_node_permissions metadata euid
check_if false metadata euid = ok tt

-- A directory that exists must be private: the one of celily, then that of its profiles. A pair
-- holds whether the directory exists, and its metadata.
unfoldable pub validate_config_dirs :
    Bool × Option Metadata → Bool × Option Metadata → ℕ → Result PermissionError (Unit {0})
unfolding validate_node_permissions
validate_config_dirs dir profiles euid = do
  check_if dir.0 dir.1 euid
  check_if profiles.0 profiles.1 euid

-- The file is the user's own, and its last six mode bits are clear.
pub record IsPrivate (metadata : Option Metadata) (euid : ℕ) : Type 0 where
  pub meta : Metadata
  pub readable : metadata ≡ some meta
  pub owned : meta.uid ≡ euid
  pub closed : meta.mode % 64 ≡ 0

-- An empty mask keeps no bit; `bound` is fuel.
masked_out : (bound x : ℕ) → x ≤ bound → bit_and x 0 ≡ 0
masked_out zero x small = let none_left : x ≡ 0 = omega arith in rw none_left
masked_out (suc bound) zero small = refl
masked_out (suc bound) (suc x) small =
    let half = masked_out bound (suc x / 2) (omega arith) in
    omega (arith, half, bit_and_step (suc x) 0)

bit_and-open_bits : (mode : ℕ) → bit_and mode 63 ≡ mode % 64
bit_and-open_bits mode = omega (
  arith,
  bit_and_step mode 63,
  bit_and_step (mode / 2) 31,
  bit_and_step (mode / 2 / 2) 15,
  bit_and_step (mode / 2 / 2 / 2) 7,
  bit_and_step (mode / 2 / 2 / 2 / 2) 3,
  bit_and_step (mode / 2 / 2 / 2 / 2 / 2) 1,
  masked_out mode (mode / 2 / 2 / 2 / 2 / 2 / 2) (omega arith),
)

-- A configuration file or directory is accepted exactly when its metadata can be read, the user
-- owns it, and the last six bits of its mode, those of group and others, are clear.
pub validate_node_permissions_iff :
    (metadata : Option Metadata) (euid : ℕ)
    → (validate_node_permissions metadata euid ≡ ok tt) ↔ IsPrivate metadata euid
unfolding validate_node_permissions
validate_node_permissions_iff metadata euid = (sound, complete)
  where
    sound : validate_node_permissions metadata euid ≡ ok tt → IsPrivate metadata euid
    sound h = elim (Option-cases metadata) [
      | inl missing ↦ absurd (ground arith)
      | inr (meta, found) ↦
          let clear : bit_and meta.mode 63 ≡ 0 = ground arith in
          record {
            meta = meta;
            readable = found;
            owned = ground arith;
            closed = omega (arith, bit_and-open_bits meta.mode, clear);
          }
    ]

    complete : IsPrivate metadata euid → validate_node_permissions metadata euid ≡ ok tt
    complete p =
        let clear : bit_and p.meta.mode 63 ≡ 0 =
          omega (arith, bit_and-open_bits p.meta.mode, p.closed) in
        ground (arith, p.readable, p.owned, clear)
