-- ===== src/Network/Handler/Below.antt =====
-- A server's view of a path, which the path tests of celily-lib/src/network/handler.rs guard against:
-- it may decode the path again, split it on other separators and resolve its dot segments.
use mathlib.Core.List.{map-append}
use celily.Prelude.{
  ℕ, zero, suc, ◌≡◌, ◌⊎◌, ◌||◌, refl, sym, ap, ◌∙◌, Bool, true, false, List, [], ◌∷◌, ◌++◌, map,
  arith, ◌==◌, nat_eq, if◌then◌else◌, inl, inr, Bool-cases, Option-cases, any, All, All-of_mem,
  any-false, append_assoc, append-nil, is_empty,
}
use celily.Prelude.Text.{
  Text, text_eq, codes, strip_prefix, strip_prefix_sound, ends_with, starts_with,
}
use celily.Prelude.Text.Split.{split, split-append, Free}
use celily.Network.Handler.Escape.{
  escape, percent_decode, is_separator, cut_params, is_dots, may_escape_prefix, path_has_prefix,
}

-- A server's view of a path: its segments, after some more rounds of decoding.
abbrev pub segments : Text → List Text
segments path = map cut_params (split is_separator path)

pub decode_times : ℕ → Text → Text
decode_times zero path = path
decode_times (suc n) path = decode_times n (percent_decode path)

abbrev drop_last : List Text → List Text
drop_last [] = []
drop_last (a ∷ []) = []
drop_last (a ∷ b ∷ rest) = a ∷ drop_last (b ∷ rest)

-- Resolution of dot segments: `.` is dropped, `..` drops the segment before it.
resolve_from : List Text → List Text → List Text
resolve_from kept [] = kept
resolve_from kept (segment ∷ rest) =
    let stay = resolve_from kept rest in
    let up = resolve_from (drop_last kept) rest in
    let down = resolve_from (kept ++ segment ∷ []) rest in
    if segment == codes "." then stay else if segment == codes ".." then up else down

pub resolve : List Text → List Text
unfolding resolve_from
resolve path = resolve_from [] path

-- The prefix without its last slash.
pub trim_slash : Text → Text
trim_slash [] = []
trim_slash (c ∷ []) = if c == b'/' then [] else c ∷ []
trim_slash (c ∷ d ∷ rest) = c ∷ trim_slash (d ∷ rest)

percent_decode_of_Free : (s : Text) → Free (λ b. b == b'%') s → percent_decode s ≡ s
unfolding percent_decode
percent_decode_of_Free [] h = refl
percent_decode_of_Free (a ∷ []) h = refl
percent_decode_of_Free (a ∷ b ∷ []) h = refl
percent_decode_of_Free (a ∷ b ∷ c ∷ rest) h =
    ground (arith, percent_decode_of_Free (b ∷ c ∷ rest) h.1)

-- Once a path holds no `%`, further rounds change nothing.
decode_times_of_Free : (n : ℕ) (s : Text) → Free (λ b. b == b'%') s → decode_times n s ≡ s
unfolding decode_times
decode_times_of_Free zero s h = refl
decode_times_of_Free (suc n) s h = rw (percent_decode_of_Free s h) (decode_times_of_Free n s h)

resolve_from_of_All :
    (kept path : List Text)
    → All (λ s. is_dots s ≡ false) path
    → resolve_from kept path ≡ kept ++ path
unfolding resolve_from
resolve_from_of_All kept [] h = sym (append-nil _)
resolve_from_of_All kept (s ∷ rest) h =
    let ih = resolve_from_of_All (kept ++ s ∷ []) rest h.1 in
    ground (arith, ih, append_assoc kept (s ∷ []) rest)

decode-slash : (r : Text) → percent_decode (b'/' ∷ r) ≡ b'/' ∷ percent_decode r
unfolding percent_decode
decode-slash [] = refl
decode-slash (x ∷ []) = refl
decode-slash (x ∷ y ∷ r) = refl

-- No escape runs across a slash.
decode-append :
    (p r : Text) → percent_decode (p ++ b'/' ∷ r) ≡ percent_decode p ++ b'/' ∷ percent_decode r
unfolding percent_decode
decode-append [] r = decode-slash r
decode-append (a ∷ []) [] = refl
decode-append (a ∷ []) (x ∷ r) = ground (arith, decode-slash (x ∷ r))
decode-append (a ∷ b ∷ []) r = ground (arith, decode-append (b ∷ []) r)
decode-append (a ∷ b ∷ c ∷ rest) r = elim (Option-cases (escape a b c)) [
  | inl plain ↦
      rw (plain, percent_decode) (ap (λ (t : Text). a ∷ t) (decode-append (b ∷ c ∷ rest) r))
  | inr (byte, valid) ↦
      rw (valid, percent_decode) (ap (λ (t : Text). byte ∷ t) (decode-append rest r))
]

segments-append : (s t : Text) → segments (s ++ b'/' ∷ t) ≡ segments s ++ segments t
segments-append s t =
    ap (map cut_params) (split-append is_separator s b'/' t refl) ∙ map-append _ _ _

trim_slash-append : (p : Text) → ends_with b'/' p ≡ true → p ≡ trim_slash p ++ b'/' ∷ []
unfolding ends_with trim_slash
trim_slash-append [] h = cc
trim_slash-append (c ∷ []) h = ground arith
trim_slash-append (c ∷ d ∷ rest) h = ap (λ (t : Text). c ∷ t) (trim_slash-append (d ∷ rest) h)

trim_slash-eq_self : (p : Text) → ends_with b'/' p ≡ false → trim_slash p ≡ p
unfolding ends_with trim_slash
trim_slash-eq_self [] h = refl
trim_slash-eq_self (c ∷ []) h = ground arith
trim_slash-eq_self (c ∷ d ∷ rest) h = ap (λ (t : Text). c ∷ t) (trim_slash-eq_self (d ∷ rest) h)

-- What follows the prefix starts at a segment boundary.
rest_of_prefix :
    (p rest : Text)
    → (is_empty rest || starts_with b'/' rest || ends_with b'/' p) ≡ true
    → (p ++ rest ≡ trim_slash p) ⊎ ((r : Text) × (p ++ rest ≡ trim_slash p ++ b'/' ∷ r))
rest_of_prefix p rest h = elim (Bool-cases (ends_with b'/' p)) [
  | inl slash ↦ inr (
    rest,
    ap (λ (t : Text). t ++ rest) (trim_slash-append p slash)
        ∙ append_assoc (trim_slash p) (b'/' ∷ []) rest,
  )
  | inr plain ↦ rw (trim_slash-eq_self p plain) (at_boundary rest (rw plain at h))
]
  where
    at_boundary :
        (rest : Text)
        → (is_empty rest || starts_with b'/' rest || false) ≡ true
        → (p ++ rest ≡ p) ⊎ ((r : Text) × (p ++ rest ≡ p ++ b'/' ∷ r))
    at_boundary [] h = inl (append-nil p)
    at_boundary (c ∷ r) h =
        let slash : c ≡ b'/' = ground arith in inr (r, ap (λ (d : ℕ). p ++ d ∷ r) slash)

path_has_prefix-cut :
    (path p : Text)
    → path_has_prefix path p ≡ true
    → (path ≡ trim_slash p) ⊎ ((r : Text) × (path ≡ trim_slash p ++ b'/' ∷ r))
unfolding path_has_prefix
path_has_prefix-cut path p h = elim (Option-cases (strip_prefix p path)) [
  | inl missing ↦ absurd (ground arith)
  | inr (rest, found) ↦
      rw (strip_prefix_sound p path rest found)
        (rest_of_prefix p rest (rw (found, path_has_prefix) at h))
]

decoded_below :
    (path p : Text)
    → path_has_prefix path p ≡ true
    → (below : List Text) × (segments (percent_decode path)
        ≡ segments (percent_decode (trim_slash p)) ++ below)
decoded_below path p h = elim (path_has_prefix-cut path p h) [
  | inl whole ↦ ([], ap (λ (t : Text). segments (percent_decode t)) whole ∙ sym (append-nil _))
  | inr (r, cut) ↦ (
    segments (percent_decode r),
    ap (λ (t : Text). segments (percent_decode t)) cut
        ∙ ap segments (decode-append (trim_slash p) r)
        ∙ segments-append (percent_decode (trim_slash p)) (percent_decode r),
  )
]

or-false : (a b : Bool) → (a || b) ≡ false → (a ≡ false) × (b ≡ false)
or-false a b h = ground arith

tests_fail :
    (path : Text)
    → may_escape_prefix path ≡ false
    → (any (λ b. b == b'%') (percent_decode path) ≡ false)
      × (any is_dots (segments (percent_decode path)) ≡ false)
unfolding may_escape_prefix
tests_fail path h = or-false _ _ h

may_escape_prefix-Free :
    (path : Text) → may_escape_prefix path ≡ false → Free (λ b. b == b'%') (percent_decode path)
may_escape_prefix-Free path h =
    All-of_mem (λ b. (b == b'%') ≡ false) (percent_decode path)
      (any-false (λ b. b == b'%') (percent_decode path) (tests_fail path h).0)

may_escape_prefix-All :
    (path : Text)
    → may_escape_prefix path ≡ false
    → All (λ s. is_dots s ≡ false) (segments (percent_decode path))
may_escape_prefix-All path h =
    All-of_mem (λ s. is_dots s ≡ false) (segments (percent_decode path))
      (any-false is_dots (segments (percent_decode path)) (tests_fail path h).1)

-- A path that has a prefix and may not escape it, decoded at least once, with its dot segments
-- resolved, has the segments of the decoded prefix and then others.
pub allowed_stays_below :
    (path p : Text) (rounds : ℕ)
    → may_escape_prefix path ≡ false
    → path_has_prefix path p ≡ true
    → (below : List Text) × (resolve (segments (decode_times (suc rounds) path))
        ≡ segments (percent_decode (trim_slash p)) ++ below)
unfolding resolve decode_times
allowed_stays_below path p rounds safe prefixed =
    let (below, e) = decoded_below path p prefixed in
    (
      below,
      ap (λ (t : Text). resolve_from [] (segments t))
            (decode_times_of_Free rounds (percent_decode path) (may_escape_prefix-Free path safe))
          ∙ resolve_from_of_All [] (segments (percent_decode path))
              (may_escape_prefix-All path safe)
          ∙ e,
    )
