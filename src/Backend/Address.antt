-- ===== src/Backend/Address.antt =====
-- `IpAddr::to_string` of the standard library, which celily-lib/src/backend/lxd calls.
use celily.Prelude.{
  ℕ, zero, suc, ◌+◌, ◌-◌, ◌*◌, ◌/◌, ◌%◌, ◌^◌, ◌≡◌, refl, List, [], ◌∷◌, ◌++◌, map, ltb, ◌==◌,
  nat_eq, if◌then◌else◌, take, drop,
}
use celily.Prelude.Text.{Text, codes}
use celily.Prelude.Text.Split.{join}
use celily.Network.Rule.{IpAddr, v4, v6}
use celily.Backend.Subnet.{show_ipv4}

abbrev hex_char : ℕ → ℕ
hex_char d = if ltb d 10 then b'0' + d else b'a' + (d - 10)

-- The hexadecimal digits of a 16-bit number, without leading zeros.
hex_from : ℕ → ℕ → Text → Text
hex_from zero n acc = acc
hex_from (suc fuel) n acc =
    let more = hex_from fuel (n / 16) (hex_char (n % 16) ∷ acc) in
    if ltb n 16 then hex_char (n % 16) ∷ acc else more

hex_text : ℕ → Text
unfolding hex_from
hex_text n = hex_from 4 n []

-- The 16-bit segments of an IPv6 address, the highest first.
segments_from : ℕ → ℕ → List ℕ → List ℕ
segments_from zero ip acc = acc
segments_from (suc k) ip acc = segments_from k (ip / 2 ^ 16) (ip % 2 ^ 16 ∷ acc)

record Span : Type 0 where
  start : ℕ
  size : ℕ

abbrev no_span : Span
no_span = record { start = 0; size = 0 }

abbrev extend : ℕ → Span → Span
extend i current =
    if current.size == 0
    then record { start = i; size = 1 }
    else record { start = current.start; size = current.size + 1 }

abbrev longer : Span → Span → Span
longer current longest = if ltb longest.size current.size then current else longest

-- The first longest run of zero segments.
longest_run : ℕ → Span → Span → List ℕ → Span
longest_run i current longest [] = longest
longest_run i current longest (segment ∷ rest) =
    let current' = if segment == 0 then extend i current else no_span in
    longest_run (i + 1) current' (longer current' longest) rest

abbrev colons : List ℕ → Text
colons segments = join (codes ":") (map hex_text segments)

show_segments : List ℕ → Text
unfolding longest_run hex_text join
show_segments segments =
    let run = longest_run 0 no_span no_span segments in
    if ltb 1 run.size
    then colons (take run.start segments)
      ++ (codes "::" ++ colons (drop (run.start + run.size) segments))
    else colons segments

unfoldable pub show_ip : IpAddr → Text
unfolding show_ipv4 show_segments segments_from
show_ip (v4 ip) = show_ipv4 ip
show_ip (v6 ip) =
    if ip / 2 ^ 32 == 0xffff
    then codes "::ffff:" ++ show_ipv4 (ip % 2 ^ 32)
    else show_segments (segments_from 8 ip [])

loopback : show_ip (v6 1) ≡ codes "::1"
unfolding show_ip
loopback = refl

inner_run : show_ip (v6 (0xfd42 * 2 ^ 112 + 2)) ≡ codes "fd42::2"
unfolding show_ip
inner_run = refl

mapped : show_ip (v6 (0xffff * 2 ^ 32 + 0x0a000001)) ≡ codes "::ffff:10.0.0.1"
unfolding show_ip
mapped = refl
