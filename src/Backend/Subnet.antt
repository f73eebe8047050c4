-- ===== src/Backend/Subnet.antt =====
-- celily-lib/src/backend/mod.rs: `BridgeSubnet`, with the IPv4 addresses of the standard library.
pub mod Members
pub mod Parse
use Prim.Native.Nat.{bit_and, bit_xor}
use celily.Prelude.{
  ℕ, ◌+◌, ◌-◌, ◌*◌, ◌/◌, ◌%◌, ◌^◌, Bool, true, false, not, ◌&&◌, Option, none, some, List, [], ◌∷◌,
  ◌++◌, ltb, leb, ◌==◌, nat_eq, if◌then◌else◌, length,
}
use celily.Prelude.Text.{Text, codes, starts_with}
use celily.Prelude.Text.Split.{split, split_once, join}
use celily.Prelude.Text.Decimal.{to_string, parse_digits, parse_uint}
use celily.Network.Rule.{IpAddr, v4, v6}

-- A bridge's IPv4 gateway and the length of its subnet's prefix, as in `10.0.0.1/24`.
pub record BridgeSubnet : Type 0 where
  pub gateway : ℕ
  pub prefix_len : ℕ

-- `IpAddr::to_canonical`: an IPv4-mapped IPv6 address is its IPv4 address.
unfoldable pub to_canonical : IpAddr → IpAddr
to_canonical (v4 ip) = v4 ip
to_canonical (v6 ip) = if ip / 2 ^ 32 == 0xffff then v4 (ip % 2 ^ 32) else v6 ip

-- `u32::MAX.checked_shl(32 - prefix_len).unwrap_or(0)`
unfoldable pub mask : ℕ → ℕ
mask prefix_len =
    let shift = 32 - prefix_len in if ltb shift 32 then (2 ^ 32 - 1) * 2 ^ shift % 2 ^ 32 else 0

has_v4 : BridgeSubnet → IpAddr → Bool
has_v4 subnet (v6 _) = false
has_v4 subnet (v4 ip) =
    not (ip == subnet.gateway) && bit_and (bit_xor ip subnet.gateway) (mask subnet.prefix_len) == 0

-- Whether an address can be an instance on this bridge.
unfoldable pub has_instance : BridgeSubnet → IpAddr → Bool
unfolding to_canonical mask has_v4
has_instance subnet ip = has_v4 subnet (to_canonical ip)

-- An octet of `Ipv4Addr::from_str`: at most three digits, and no leading zero.
unfoldable pub parse_octet : Text → Option ℕ
unfolding parse_digits
parse_octet piece =
    if leb (length piece) 3 && not (starts_with b'0' piece && ltb 1 (length piece))
    then parse_digits 255 piece
    else none

abbrev pub octets : ℕ → ℕ → ℕ → ℕ → ℕ
octets a b c d = a * 2 ^ 24 + b * 2 ^ 16 + c * 2 ^ 8 + d

four_octets : List Text → Option ℕ
four_octets (a ∷ b ∷ c ∷ d ∷ []) = elim (parse_octet a) [
  | none ↦ none
  | some a ↦ elim (parse_octet b) [
    | none ↦ none
    | some b ↦ elim (parse_octet c) [
      | none ↦ none
      | some c ↦ elim (parse_octet d) [ none ↦ none | some d ↦ some (octets a b c d) ]
    ]
  ]
]
four_octets _ = none

-- `Ipv4Addr::from_str`
unfoldable pub parse_ipv4 : Text → Option ℕ
unfolding four_octets parse_octet split
parse_ipv4 s = four_octets (split (λ c. c == b'.') s)

-- `Ipv4Addr::to_string`
unfoldable pub show_ipv4 : ℕ → Text
unfolding join to_string
show_ipv4 ip = join (codes ".") (
    to_string (ip / 2 ^ 24)
    ∷ to_string (ip / 2 ^ 16 % 256)
    ∷ to_string (ip / 2 ^ 8 % 256)
    ∷ to_string (ip % 256)
    ∷ [])

-- `BridgeSubnet::parse`: `<gateway>/<prefix length>`, LXD's `ipv4.address` format.
unfoldable pub parse : Text → Option BridgeSubnet
parse cidr = elim (split_once b'/' cidr) [
  | none ↦ none
  | some (gateway, prefix_len) ↦ elim (parse_uint 255 prefix_len) [
    | none ↦ none
    | some len ↦
        if leb len 32
        then elim (parse_ipv4 gateway) [
          | none ↦ none
          | some ip ↦ some (record { gateway = ip; prefix_len = len })
        ]
        else none
  ]
]
