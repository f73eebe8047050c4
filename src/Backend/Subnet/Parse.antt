-- ===== src/Backend/Subnet/Parse.antt =====
-- Addresses and subnets of celily-lib/src/backend/mod.rs, printed and parsed.
use celily.Prelude.{
  ℕ, ◌/◌, ◌%◌, ◌^◌, ◌≤◌, ◌<◌, ◌≡◌, refl, ap, ◌∙◌, Bool, true, false, Option, none, some, List, [],
  ◌∷◌, ◌++◌, arith, ◌==◌, nat_eq, All,
}
use celily.Prelude.Bits.{below_all, below_all_sound}
use celily.Prelude.Text.{Text, codes, is_digit}
use celily.Prelude.Text.Split.{split, split_once, Free, split-join, split_once-append, join-Free}
use celily.Prelude.Text.Decimal.{to_string, parse_uint, parse_uint-to_string, to_string-Free}
use celily.Backend.Subnet.{
  BridgeSubnet, octets, parse_octet, four_octets, parse_ipv4, show_ipv4, parse,
}
use celily.Backend.Subnet.Members.{IsSubnet}

abbrev octet_is : Option ℕ → ℕ → Bool
octet_is none n = false
octet_is (some m) n = m == n

octet_table : below_all (λ n. octet_is (parse_octet (to_string n)) n) 256 ≡ true
unfolding below_all parse_octet to_string
octet_table = refl

octet_is_sound : (o : Option ℕ) (n : ℕ) → octet_is o n ≡ true → o ≡ some n
octet_is_sound none n h = cc
octet_is_sound (some m) n h = ground arith

parse_octet-to_string : (n : ℕ) → n < 256 → parse_octet (to_string n) ≡ some n
parse_octet-to_string n h =
    octet_is_sound _ n
      (below_all_sound (λ n. octet_is (parse_octet (to_string n)) n) 256 octet_table n h)

octets_lem : (ip : ℕ) → octets (ip / 2 ^ 24) (ip / 2 ^ 16 % 256) (ip / 2 ^ 8 % 256) (ip % 256) ≡ ip
octets_lem ip = omega arith

abbrev pieces : ℕ → List Text
pieces ip =
    to_string (ip / 2 ^ 24)
    ∷ to_string (ip / 2 ^ 16 % 256)
    ∷ to_string (ip / 2 ^ 8 % 256)
    ∷ to_string (ip % 256)
    ∷ []

pieces-Free : (c ip : ℕ) → is_digit c ≡ false → All (Free (λ d. d == c)) (pieces ip)
pieces-Free c ip h =
    let free = λ (n : ℕ). to_string-Free c n h in
    (
      free (ip / 2 ^ 24),
      (free (ip / 2 ^ 16 % 256), (free (ip / 2 ^ 8 % 256), (free (ip % 256), tt))),
    )

four_octets_lem :
    (s t u v : Text) (a b c d : ℕ)
    → parse_octet s ≡ some a
    → parse_octet t ≡ some b
    → parse_octet u ≡ some c
    → parse_octet v ≡ some d
    → four_octets (s ∷ t ∷ u ∷ v ∷ []) ≡ some (octets a b c d)
unfolding four_octets
four_octets_lem s t u v a b c d e f g h = ground arith

four_octets-pieces : (ip : ℕ) → ip < 2 ^ 32 → four_octets (pieces ip) ≡ some ip
four_octets-pieces ip h =
    four_octets_lem _ _ _ _ (ip / 2 ^ 24) (ip / 2 ^ 16 % 256) (ip / 2 ^ 8 % 256) (ip % 256)
      (parse_octet-to_string _ (omega arith)) (parse_octet-to_string _ (omega arith))
      (parse_octet-to_string _ (omega arith)) (parse_octet-to_string _ (omega arith))
    ∙ ap some (octets_lem ip)

split-show_ipv4 : (ip : ℕ) → split (λ d. d == b'.') (show_ipv4 ip) ≡ pieces ip
unfolding show_ipv4
split-show_ipv4 ip = split-join b'.' _ _ (pieces-Free b'.' ip refl)

parse_ipv4_lem : (s : Text) → parse_ipv4 s ≡ four_octets (split (λ c. c == b'.') s)
unfolding parse_ipv4
parse_ipv4_lem s = refl

-- Parsing undoes printing, for every IPv4 address.
pub parse_ipv4-show_ipv4 : (ip : ℕ) → ip < 2 ^ 32 → parse_ipv4 (show_ipv4 ip) ≡ some ip
parse_ipv4-show_ipv4 ip h =
    parse_ipv4_lem (show_ipv4 ip) ∙ ap four_octets (split-show_ipv4 ip) ∙ four_octets-pieces ip h

show_ipv4-Free : (ip : ℕ) → Free (λ d. d == b'/') (show_ipv4 ip)
unfolding show_ipv4
show_ipv4-Free ip = join-Free _ (codes ".") (pieces ip) (refl, tt) (pieces-Free b'/' ip refl)

parse_lem :
    (s gateway len_text : Text) (ip len : ℕ)
    → split_once b'/' s ≡ some (gateway, len_text)
    → parse_uint 255 len_text ≡ some len
    → len ≤ 32
    → parse_ipv4 gateway ≡ some ip
    → parse s ≡ some (record { gateway = ip; prefix_len = len })
unfolding parse
parse_lem s gateway len_text ip len e f h g = ground arith

-- A subnet with a gateway of 32 bits and a prefix length of at most 32, printed as its gateway, a
-- slash and its prefix length, is parsed back as it was.
pub parse-show :
    (subnet : BridgeSubnet)
    → IsSubnet subnet
    → parse (show_ipv4 subnet.gateway ++ b'/' ∷ to_string subnet.prefix_len) ≡ some subnet
parse-show subnet valid =
    parse_lem _ (show_ipv4 subnet.gateway) (to_string subnet.prefix_len) subnet.gateway
      subnet.prefix_len (split_once-append b'/' _ _ (show_ipv4-Free subnet.gateway))
      (parse_uint-to_string 255 subnet.prefix_len (omega arith)) valid.prefix_fits
      (parse_ipv4-show_ipv4 subnet.gateway valid.gateway_fits)
