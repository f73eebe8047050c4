-- ===== src/Prelude/Text/Decimal.antt =====
-- `to_string` and `parse` of the unsigned machine integers.
use Prim.Native.Nat.{ℕ, zero, suc, ◌+◌, ◌-◌, ◌*◌, ◌/◌, ◌%◌, ◌≤◌, ◌<◌}
use mathlib.Core.Path.{◌≡◌, sym, ap, ◌∙◌}
use mathlib.Core.Logic.{inl, inr}
use mathlib.Core.Bool.{true, false}
use mathlib.Core.Option.{Option, none, some}
use mathlib.Core.List.{[], ◌∷◌}
use native.Mathlib.Omega.{arith}
use celily.Prelude.Tests.{◌==◌, nat_eq, ltb, leb, Bool-cases, if◌then◌else◌}
use celily.Prelude.Lists.{All}
use celily.Prelude.Text.{Text, is_digit}

-- The digits of n, before `acc`; the fuel is one more than n.
decimal_from : ℕ → ℕ → Text → Text
decimal_from zero n acc = acc
decimal_from (suc fuel) n acc =
    let more = decimal_from fuel (n / 10) ((b'0' + n % 10) ∷ acc) in
    if ltb n 10 then (b'0' + n % 10) ∷ acc else more

unfoldable pub to_string : ℕ → Text
unfolding decimal_from
to_string n = decimal_from (suc n) n []

-- The value of the digits after `acc`, up to `limit`, the largest value of the type.
digits_from : ℕ → ℕ → Text → Option ℕ
digits_from limit acc [] = some acc
digits_from limit acc (c ∷ s) =
    let next = digits_from limit (acc * 10 + (c - b'0')) s in
    if is_digit c then (if leb (acc * 10 + (c - b'0')) limit then next else none) else none

-- An empty text, and a sign alone, are errors.
unfoldable pub parse_digits : ℕ → Text → Option ℕ
unfolding digits_from
parse_digits limit [] = none
parse_digits limit (c ∷ s) = digits_from limit 0 (c ∷ s)

-- `u8::from_str` at limit 255 and so on: one `+` may stand first.
unfoldable pub parse_uint : ℕ → Text → Option ℕ
unfolding parse_digits
parse_uint limit [] = none
parse_uint limit (c ∷ s) = if c == b'+' then parse_digits limit s else parse_digits limit (c ∷ s)

digits_from_step :
    (limit acc d : ℕ) (s : Text)
    → d < 10
    → acc * 10 + d ≤ limit
    → digits_from limit acc ((b'0' + d) ∷ s) ≡ digits_from limit (acc * 10 + d) s
unfolding digits_from
digits_from_step limit acc d s h k =
    let same : acc * 10 + (b'0' + d - b'0') ≡ acc * 10 + d = omega arith in rw same (ground arith)

digits_from-decimal_from :
    (limit fuel n : ℕ) (acc : Text)
    → n < fuel
    → n ≤ limit
    → digits_from limit 0 (decimal_from fuel n acc) ≡ digits_from limit n acc
unfolding decimal_from
digits_from-decimal_from limit zero n acc h k = absurd (omega arith)
digits_from-decimal_from limit (suc fuel) n acc h k =
    let whole : n / 10 * 10 + n % 10 ≡ n = omega arith in
    elim (Bool-cases (ltb n 10)) [
      | inl small ↦
          let same : 0 * 10 + n % 10 ≡ n = ground arith in
          rw small (digits_from_step limit 0 (n % 10) acc (omega arith) (omega arith) ∙ rw same)
      | inr large ↦ rw large (
          digits_from-decimal_from limit fuel (n / 10) ((b'0' + n % 10) ∷ acc) (ground arith)
            (ground arith)
          ∙ digits_from_step limit (n / 10) (n % 10) acc (omega arith) (omega arith)
          ∙ rw whole)
    ]

decimal_from-digit :
    (fuel n : ℕ) (acc : Text)
    → (c : ℕ) × (s : Text) × (is_digit c ≡ true) × (decimal_from (suc fuel) n acc ≡ c ∷ s)
unfolding decimal_from
decimal_from-digit zero n acc = (b'0' + n % 10, acc, ground arith, ground arith)
decimal_from-digit (suc fuel) n acc = elim (Bool-cases (ltb n 10)) [
  | inl small ↦ (b'0' + n % 10, acc, ground arith, rw small)
  | inr large ↦ rw large (decimal_from-digit fuel (n / 10) ((b'0' + n % 10) ∷ acc))
]

parse_uint-digits_from :
    (limit c : ℕ) (s : Text)
    → is_digit c ≡ true
    → parse_uint limit (c ∷ s) ≡ digits_from limit 0 (c ∷ s)
unfolding parse_uint
parse_uint-digits_from limit c s h = ground arith

-- Parsing undoes printing, for every number that the type holds.
pub parse_uint-to_string : (limit n : ℕ) → n ≤ limit → parse_uint limit (to_string n) ≡ some n
unfolding to_string digits_from
parse_uint-to_string limit n h =
    let (c, s, digit, e) = decimal_from-digit n n [] in
    ap (parse_uint limit) e
    ∙ parse_uint-digits_from limit c s digit
    ∙ ap (digits_from limit 0) (sym e)
    ∙ digits_from-decimal_from limit (suc n) n [] (omega arith) h

-- A printed number is made of digits.
decimal_from-All :
    (fuel n : ℕ) (acc : Text)
    → All (λ c. is_digit c ≡ true) acc
    → All (λ c. is_digit c ≡ true) (decimal_from fuel n acc)
unfolding decimal_from
decimal_from-All zero n acc h = h
decimal_from-All (suc fuel) n acc h =
    let digit : is_digit (b'0' + n % 10) ≡ true = ground arith in
    elim (Bool-cases (ltb n 10)) [
      | inl small ↦ rw small (digit, h)
      | inr large ↦ rw large (decimal_from-All fuel (n / 10) ((b'0' + n % 10) ∷ acc) (digit, h))
    ]

pub to_string-All : (n : ℕ) → All (λ c. is_digit c ≡ true) (to_string n)
unfolding to_string
to_string-All n = decimal_from-All (suc n) n [] tt

-- A number holds no separator that is not a digit.
pub to_string-Free : (c n : ℕ) → is_digit c ≡ false → All (λ d. (d == c) ≡ false) (to_string n)
to_string-Free c n h = go (to_string n) (to_string-All n)
  where
    go : (s : Text) → All (λ d. is_digit d ≡ true) s → All (λ d. (d == c) ≡ false) s
    go [] k = tt
    go (d ∷ s) k = (ground arith, go s k.1)
