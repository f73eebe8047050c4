-- ===== src/Prelude/Bits.antt =====
-- Laws of the bit operations at variables: the lowest digit, shifts and masks.
use Prim.Native.Nat.{min, bit_and, bit_xor, digits, differ, bit_and-bitwise, bit_xor-bitwise}
use native.Mathlib.Nat.{pow-succ', div-div-eq-div-mul, div-one}
use celily.Prelude.{
  ℕ, zero, suc, ◌+◌, ◌-◌, ◌*◌, ◌/◌, ◌%◌, ◌^◌, ◌≤◌, ◌<◌, ◌≡◌, ◌↔◌, refl, sym, ap, ◌∙◌, arith, Bool,
  true, ◌&&◌, Bool-cases, nat_beq, inl, inr,
}

-- An operation on digits whose result, once the first number has run out, is `z b`.
module _ (z : ℕ → ℕ) (f : ℕ → ℕ → ℕ) (ends : (b : ℕ) → z b ≡ z (b / 2) * 2 + f 0 (b % 2)) where
  -- Fuel above the first number is not used.
  spare_fuel :
      (big fuel : ℕ) → fuel ≤ big → (a b : ℕ) → a ≤ fuel → digits z f big a b ≡ digits z f fuel a b
  spare_fuel zero zero less zero b enough = refl
  spare_fuel (suc big) zero less zero b enough = refl
  spare_fuel big zero less (suc a) b enough = absurd (omega arith)
  spare_fuel zero (suc fuel) less a b enough = absurd (omega arith)
  spare_fuel (suc big) (suc fuel) less zero b enough = refl
  spare_fuel (suc big) (suc fuel) less (suc a) b enough =
      omega (arith, spare_fuel big fuel (omega arith) (suc a / 2) (b / 2) (omega arith))

  digits_step :
      (a b : ℕ) → digits z f a a b ≡ digits z f (a / 2) (a / 2) (b / 2) * 2 + f (a % 2) (b % 2)
  digits_step zero b = ends b
  digits_step (suc a) b =
      let half = suc a / 2 in
      omega (arith, spare_fuel a half (omega arith) half (b / 2) (omega arith))

pub bit_and_step : (a b : ℕ) → bit_and a b ≡ bit_and (a / 2) (b / 2) * 2 + min (a % 2) (b % 2)
bit_and_step a b =
    bit_and-bitwise a b
    ∙ digits_step (λ b. 0) min (λ b. omega arith) a b
    ∙ ap (λ (t : ℕ). t * 2 + min (a % 2) (b % 2)) (sym (bit_and-bitwise (a / 2) (b / 2)))

pub bit_xor_step : (a b : ℕ) → bit_xor a b ≡ bit_xor (a / 2) (b / 2) * 2 + differ (a % 2) (b % 2)
bit_xor_step a b =
    bit_xor-bitwise a b
    ∙ digits_step (λ b. b) differ (λ b. omega arith) a b
    ∙ ap (λ (t : ℕ). t * 2 + differ (a % 2) (b % 2)) (sym (bit_xor-bitwise (a / 2) (b / 2)))

differ-zero : (x y : ℕ) → differ x y ≡ 0 → x ≡ y
differ-zero zero y h = sym h
differ-zero (suc x) zero h = h
differ-zero (suc x) (suc y) h = ap suc (differ-zero x y h)

differ_self : (x : ℕ) → differ x x ≡ 0
differ_self zero = refl
differ_self (suc x) = differ_self x

bit_xor-zero_fuel : (n a b : ℕ) → a + b ≤ n → bit_xor a b ≡ 0 → a ≡ b
bit_xor-zero_fuel zero a b h e = omega arith
bit_xor-zero_fuel (suc n) zero b h e = omega (arith, bit_xor-bitwise 0 b)
bit_xor-zero_fuel (suc n) (suc a) b h e =
    let step = bit_xor_step (suc a) b in
    omega (
      arith,
      differ-zero (suc a % 2) (b % 2) (omega arith),
      bit_xor-zero_fuel n (suc a / 2) (b / 2) (omega arith) (omega arith),
    )

differ-le : (n x y : ℕ) → x ≤ n → y ≤ n → differ x y ≤ n
differ-le n zero y h k = k
differ-le n (suc x) zero h k = h
differ-le (suc n) (suc x) (suc y) h k = omega (arith, differ-le n x y (omega arith) (omega arith))
differ-le zero (suc x) (suc y) h k = elim h [ ]

pub two_pow_pos : (k : ℕ) → 0 < 2 ^ k
two_pow_pos zero = omega arith
two_pow_pos (suc k) = omega (arith, pow-succ' 2 k, two_pow_pos k)

bit_xor_self_fuel : (n a : ℕ) → a ≤ n → bit_xor a a ≡ 0
bit_xor_self_fuel zero a h = let e : a ≡ 0 = omega arith in rw e
bit_xor_self_fuel (suc n) a h =
    omega (arith, bit_xor_step a a, differ_self (a % 2), bit_xor_self_fuel n (a / 2))

-- Numbers are equal exactly when no digit differs.
pub bit_xor-eq-zero_iff : (a b : ℕ) → (bit_xor a b ≡ 0) ↔ (a ≡ b)
bit_xor-eq-zero_iff a b =
    (bit_xor-zero_fuel (a + b) a b (omega arith), λ e. rw e (bit_xor_self_fuel b b (omega arith)))

div-pow-suc : (a s : ℕ) → a / 2 ^ suc s ≡ a / 2 / 2 ^ s
div-pow-suc a s = ap (λ (t : ℕ). a / t) (pow-succ' 2 s) ∙ sym (div-div-eq-div-mul a 2 (2 ^ s))

-- Shifting both sides.
pub bit_xor-div-pow : (s a b : ℕ) → bit_xor a b / 2 ^ s ≡ bit_xor (a / 2 ^ s) (b / 2 ^ s)
bit_xor-div-pow zero a b = rw (div-one (bit_xor a b), div-one a, div-one b)
bit_xor-div-pow (suc s) a b =
    let half : bit_xor a b / 2 ≡ bit_xor (a / 2) (b / 2) =
      omega (arith, bit_xor_step a b, differ-le 1 (a % 2) (b % 2) (omega arith) (omega arith)) in
    div-pow-suc (bit_xor a b) s
    ∙ ap (λ (t : ℕ). t / 2 ^ s) half
    ∙ bit_xor-div-pow s (a / 2) (b / 2)
    ∙ rw (div-pow-suc a s, div-pow-suc b s)

pub bit_xor-lt : (k a b : ℕ) → a < 2 ^ k → b < 2 ^ k → bit_xor a b < 2 ^ k
bit_xor-lt zero a b h k =
    let e : a ≡ 0 = omega arith in let f : b ≡ 0 = omega arith in rw (e, f) (omega arith)
bit_xor-lt (suc k) a b h l =
    let p = pow-succ' 2 k in
    omega (
      arith,
      bit_xor_step a b,
      differ-le 1 (a % 2) (b % 2) (omega arith) (omega arith),
      bit_xor-lt k (a / 2) (b / 2) (omega arith) (omega arith),
    )

-- A mask of k ones keeps a number of k digits.
pub bit_and-ones : (k x : ℕ) → x < 2 ^ k → bit_and x (2 ^ k - 1) ≡ x
bit_and-ones zero x h = let e : x ≡ 0 = omega arith in rw e
bit_and-ones (suc k) x h =
    let p = pow-succ' 2 k in
    let pos = two_pow_pos k in
    let low : (2 ^ suc k - 1) / 2 ≡ 2 ^ k - 1 = omega arith in
    omega (
      arith,
      bit_and_step x (2 ^ suc k - 1),
      bit_and-ones k (x / 2) (omega arith),
      ap (bit_and (x / 2)) low,
    )

-- A mask whose s lowest digits are 0 sees what the shift leaves.
pub bit_and-shifted : (s x m : ℕ) → bit_and x (2 ^ s * m) ≡ 2 ^ s * bit_and (x / 2 ^ s) m
bit_and-shifted zero x m =
    let e : 2 ^ 0 * m ≡ m = omega arith in
    omega (arith, ap (bit_and x) e, ap (λ (t : ℕ). bit_and t m) (div-one x))
bit_and-shifted (suc s) x m =
    let rest = bit_and (x / 2 / 2 ^ s) m in
    let double : 2 ^ suc s * m ≡ 2 * (2 ^ s * m) =
      omega (arith, ap (λ (t : ℕ). t * m) (pow-succ' 2 s)) in
    let back : 2 * (2 ^ s * m) / 2 ≡ 2 ^ s * m = omega arith in
    omega (
      arith,
      ap (bit_and x) double,
      bit_and_step x (2 * (2 ^ s * m)),
      ap (bit_and (x / 2)) back,
      bit_and-shifted s (x / 2) m,
      ap (λ (t : ℕ). 2 ^ suc s * bit_and t m) (div-pow-suc x s),
      ap (λ (t : ℕ). t * rest) (pow-succ' 2 s),
    )

-- A test of all numbers below a bound, from the highest.
unfoldable pub below_all : (ℕ → Bool) → ℕ → Bool
below_all test zero = true
below_all test (suc top) = below_all test top && test top

pub below_all_sound :
    (test : ℕ → Bool) (bound : ℕ)
    → below_all test bound ≡ true
    → (k : ℕ) → k < bound
    → test k ≡ true
unfolding below_all
below_all_sound test zero passed k inside = absurd (omega arith)
below_all_sound test (suc top) passed k inside = elim (Bool-cases (nat_beq k top)) [
  | inl last ↦ let e : k ≡ top = ground arith in rw e (ground arith)
  | inr lower ↦ below_all_sound test top (ground arith) k (ground arith)
]
