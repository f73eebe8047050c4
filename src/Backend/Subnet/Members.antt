-- ===== src/Backend/Subnet/Members.antt =====
-- Which clients a proxy serves: the addresses of the bridge's subnet, without the gateway.
use Prim.Native.Nat.{bit_and, bit_xor}
use native.Mathlib.Nat.{div-lt_iff_lt-mul}
use celily.Prelude.{
  ℕ, ◌-◌, ◌*◌, ◌/◌, ◌^◌, ◌≤◌, ◌<◌, ◌≡◌, ◌≢◌, ◌↔◌, refl, ap, ◌∙◌, true, not, ◌&&◌, arith, ◌==◌,
  nat_eq, nat_beq_iff,
}
use celily.Prelude.Bits.{
  bit_xor-eq-zero_iff, bit_xor-div-pow, bit_xor-lt, bit_and-ones, bit_and-shifted, two_pow_pos,
  below_all, below_all_sound,
}
use celily.Network.Rule.{v4}
use celily.Backend.Subnet.{BridgeSubnet, mask, has_instance}

-- The address range of the subnet, as a quotient by the size of its host part.
abbrev pub SameSubnet : BridgeSubnet → ℕ → Type 0
SameSubnet subnet ip =
    ip / 2 ^ (32 - subnet.prefix_len) ≡ subnet.gateway / 2 ^ (32 - subnet.prefix_len)

pub record IsSubnet (subnet : BridgeSubnet) : Type 0 where
  pub gateway_fits : subnet.gateway < 2 ^ 32
  pub prefix_fits : subnet.prefix_len ≤ 32

masks : below_all (λ len. mask len == 2 ^ (32 - len) * (2 ^ len - 1)) 33 ≡ true
unfolding below_all mask
masks = refl

powers : below_all (λ len. 2 ^ len * 2 ^ (32 - len) == 2 ^ 32) 33 ≡ true
unfolding below_all
powers = refl

mask_lem : (len : ℕ) → len ≤ 32 → mask len ≡ 2 ^ (32 - len) * (2 ^ len - 1)
mask_lem len h = (nat_beq_iff _ _).0 (below_all_sound _ 33 masks len (omega arith))

power_lem : (len : ℕ) → len ≤ 32 → 2 ^ len * 2 ^ (32 - len) ≡ 2 ^ 32
power_lem len h = (nat_beq_iff _ _).0 (below_all_sound _ 33 powers len (omega arith))

high_part-lt : (len ip : ℕ) → len ≤ 32 → ip < 2 ^ 32 → ip / 2 ^ (32 - len) < 2 ^ len
high_part-lt len ip h k = (div-lt_iff_lt-mul (two_pow_pos (32 - len))).1 (rw (power_lem len h) k)

-- The masked difference of two addresses is 0 exactly when their high parts agree.
masked_lem :
    (len a b : ℕ)
    → len ≤ 32
    → a < 2 ^ 32
    → b < 2 ^ 32
    → (bit_and (bit_xor a b) (mask len) ≡ 0) ↔ (a / 2 ^ (32 - len) ≡ b / 2 ^ (32 - len))
masked_lem len a b h ha hb =
    let s = 32 - len in
    let x = bit_xor (a / 2 ^ s) (b / 2 ^ s) in
    let masked : bit_and (bit_xor a b) (mask len) ≡ 2 ^ s * x =
      ap (bit_and (bit_xor a b)) (mask_lem len h)
      ∙ bit_and-shifted s (bit_xor a b) (2 ^ len - 1)
      ∙ ap (λ (t : ℕ). 2 ^ s * bit_and t (2 ^ len - 1)) (bit_xor-div-pow s a b)
      ∙ ap (λ (t : ℕ). 2 ^ s * t)
          (bit_and-ones len x (
            bit_xor-lt len (a / 2 ^ s) (b / 2 ^ s) (high_part-lt len a h ha)
              (high_part-lt len b h hb))) in
    let pos = two_pow_pos s in
    (
      λ e. (bit_xor-eq-zero_iff _ _).0 (grind arith),
      λ e.
          let zero_x : x ≡ 0 = (bit_xor-eq-zero_iff _ _).1 e in
          masked ∙ ap (λ (t : ℕ). 2 ^ s * t) zero_x ∙ omega arith,
    )

tests_iff : (a b x : ℕ) → ((not (a == b) && x == 0) ≡ true) ↔ ((a ≢ b) × (x ≡ 0))
tests_iff a b x = ground arith

has_instance_lem :
    (subnet : BridgeSubnet) (ip : ℕ)
    → has_instance subnet (v4 ip) ≡ (
        not (ip == subnet.gateway)
        && bit_and (bit_xor ip subnet.gateway) (mask subnet.prefix_len) == 0)
unfolding has_instance
has_instance_lem subnet ip = refl

-- For a gateway of 32 bits and a prefix length of at most 32, a client with an IPv4 address of 32
-- bits is served exactly when its address is not the gateway and has the quotient of the gateway by
-- the size of the host part, so lies in the subnet.
pub has_instance_iff :
    (subnet : BridgeSubnet) (ip : ℕ)
    → IsSubnet subnet
    → ip < 2 ^ 32
    → (has_instance subnet (v4 ip) ≡ true) ↔ ((ip ≢ subnet.gateway) × SameSubnet subnet ip)
has_instance_iff subnet ip valid fits =
    let (to, from) =
      masked_lem subnet.prefix_len ip subnet.gateway valid.prefix_fits fits valid.gateway_fits in
    let (apart, join) = tests_iff ip subnet.gateway _ in
    rw has_instance_lem
      (λ h. let (other, zero_bits) = apart h in (other, to zero_bits), λ h. join (h.0, from h.1))
