-- ===== src/Naming.antt =====
-- celily/src/util/naming.rs and celily/src/util/username.rs: the names given to the backend.
pub mod Bounds
pub mod Characters
mod Tests
use celily.Prelude.{
  ℕ, zero, suc, ◌+◌, ◌-◌, Bool, true, false, not, ◌&&◌, ◌||◌, Option, none, some, List, [], ◌∷◌,
  ◌++◌, map, reverse, ◌==◌, nat_eq, ltb, leb, length, take, drop, all, is_empty, if◌then◌else◌,
}
use celily.Prelude.Text.{Text, codes, is_lower, is_alphanumeric}
use celily.Prelude.Text.Split.{split}
use celily.Paths.{FilePath, strip_path}

-- `chars().filter(p)`
unfoldable pub filter : (ℕ → Bool) → Text → Text
filter p [] = []
filter p (c ∷ s) = let rest = filter p s in if p c then c ∷ rest else rest

abbrev pub last_piece : List Text → Text
last_piece [] = []
last_piece (piece ∷ []) = piece
last_piece (a ∷ b ∷ rest) = last_piece (b ∷ rest)

-- `rsplit(&['/', ':']).next()`
abbrev pub last_component : Text → Text
last_component image = last_piece (split (λ c. c == b'/' || c == b':') image)

abbrev pub shorten : Text → Text
shorten prefix =
    if is_empty prefix
    then codes "inst"
    else if ltb 20 (length prefix)
    then take 20 prefix
    else prefix

unfoldable pub sanitized_image_prefix : Text → Text
unfolding filter split
sanitized_image_prefix image = shorten (filter is_alphanumeric (last_component image))

-- The first eight digits of a UUID, as it is printed.
abbrev pub uuid8 : Text → Text
uuid8 uuid = take 8 uuid

unfoldable pub bridge_name : Text → Text → Text
bridge_name image uuid = take 6 (sanitized_image_prefix image) ++ b'-' ∷ uuid8 uuid

-- `trim_start_matches(c)`
unfoldable pub trim_start : ℕ → Text → Text
trim_start c [] = []
trim_start c (d ∷ s) = let rest = trim_start c s in if d == c then rest else d ∷ s

-- `trim_matches(c)`
unfoldable pub trim_matches : ℕ → Text → Text
unfolding trim_start
trim_matches c s = reverse (trim_start c (reverse (trim_start c s)))

-- Every other character becomes a hyphen, hyphens that repeat are one, and none comes first.
-- `kept` says that there is a character before, `prev_hyphen` that the last one was a hyphen.
unfoldable pub squeeze : Bool → Bool → Text → Text
squeeze kept prev_hyphen [] = []
squeeze kept prev_hyphen (c ∷ s) =
    let dropped = squeeze kept true s in
    let hyphen = squeeze true true s in
    let plain = squeeze true false s in
    if is_alphanumeric c
    then c ∷ plain
    else if not prev_hyphen && kept
    then b'-' ∷ hyphen
    else dropped

abbrev pub relative_part : Text → Option Text → Text
relative_part shown none = trim_start b'/' shown
relative_part shown (some rel) = codes "home-" ++ rel

-- The path part, at most `path_max` long: its end, without a hyphen first.
abbrev pub fit : ℕ → Text → Text
fit path_max path_part =
    if ltb path_max (length path_part)
    then trim_start b'-' (drop (length path_part - path_max) path_part)
    else path_part

-- `shown` is the directory as text, and `relative` its text relative to the home, if it is under it.
unfoldable pub instance_name : Text → Option Text → Text → Text → Text
unfolding trim_start squeeze trim_matches
instance_name shown relative image uuid =
    let image_prefix = sanitized_image_prefix image in
    let path_max = 63 - (length image_prefix + 2 + 9) in
    let path_part = trim_matches b'-' (squeeze false false (relative_part shown relative)) in
    image_prefix ++ b'-' ∷ (fit path_max path_part ++ b'-' ∷ uuid8 uuid)

-- celily/src/util/username.rs
unfoldable pub is_valid_username : Text → Bool
is_valid_username [] = false
is_valid_username (first ∷ rest) =
    not (ltb 32 (length (first ∷ rest)))
    && (is_lower first || first == b'_')
    && all (λ c. is_alphanumeric c || c == b'_' || c == b'-') rest
