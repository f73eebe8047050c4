-- ===== src/Network/Handler/Escape.antt =====
-- The path tests of celily-lib/src/network/handler.rs: percent-decoding, dot segments and prefixes.
use Prim.Native.Nat.{bit_or}
use celily.Prelude.{
  ℕ, ◌+◌, ◌-◌, ◌*◌, ◌%◌, Bool, false, ◌&&◌, ◌||◌, Option, none, some, List, [], ◌∷◌, map, leb, ◌==◌,
  nat_eq, if◌then◌else◌, any, contains, is_empty,
}
use celily.Prelude.Text.{Text, text_eq, codes, is_digit, strip_prefix, starts_with, ends_with}
use celily.Prelude.Text.Split.{split}

-- `char::to_digit(16)`
unfoldable pub hex_digit : ℕ → Option ℕ
hex_digit c =
    if is_digit c
    then some (c - b'0')
    else if leb b'a' c && leb c b'f'
    then some (c - b'a' + 10)
    else if leb b'A' c && leb c b'F'
    then some (c - b'A' + 10)
    else none

-- The byte of two hexadecimal digits: `(hi << 4) | lo` in 8 bits.
unfoldable pub hex_byte : ℕ → ℕ → Option ℕ
unfolding hex_digit
hex_byte hi lo = elim (hex_digit hi) [
  | none ↦ none
  | some h ↦ elim (hex_digit lo) [ none ↦ none | some l ↦ some (bit_or (h * 16 % 256) l) ]
]

-- The byte of an escape at `a b c`, if there is one.
unfoldable pub escape : ℕ → ℕ → ℕ → Option ℕ
unfolding hex_byte
escape a b c = if a == b'%' then hex_byte b c else none

-- Every valid `%XX` decoded, once. Invalid escapes are kept as they are.
unfoldable pub percent_decode : Text → Text
unfolding escape
percent_decode [] = []
percent_decode (a ∷ []) = a ∷ []
percent_decode (a ∷ b ∷ []) = a ∷ b ∷ []
percent_decode (a ∷ b ∷ c ∷ rest) = elim (escape a b c) [
  | some byte ↦ byte ∷ percent_decode rest
  | none ↦ a ∷ percent_decode (b ∷ c ∷ rest)
]

abbrev pub is_separator : ℕ → Bool
is_separator b = b == b'/' || b == 0x5c

-- `split(';').next().unwrap_or_default()`
abbrev pub first_piece : List Text → Text
first_piece [] = []
first_piece (piece ∷ _) = piece

-- A segment without its path parameters.
unfoldable pub cut_params : Text → Text
unfolding split
cut_params segment = first_piece (split (λ b. b == b';') segment)

abbrev pub is_dots : Text → Bool
is_dots segment = segment == codes "." || segment == codes ".."

-- Whether a server could resolve the path outside a prefix that it starts with.
unfoldable pub may_escape_prefix : Text → Bool
unfolding percent_decode split cut_params
may_escape_prefix path =
    let decoded = percent_decode path in
    contains decoded b'%' || any is_dots (map cut_params (split is_separator decoded))

-- Whether `path` is `prefix` or below it.
unfoldable pub path_has_prefix : Text → Text → Bool
unfolding strip_prefix ends_with
path_has_prefix path prefix = elim (strip_prefix prefix path) [
  | none ↦ false
  | some rest ↦ is_empty rest || starts_with b'/' rest || ends_with b'/' prefix
]
