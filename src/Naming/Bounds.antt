-- ===== src/Naming/Bounds.antt =====
-- The lengths and the characters of the names.
use celily.Prelude.{
  ℕ, ◌+◌, ◌-◌, ◌≤◌, ◌≡◌, refl, true, ◌||◌, Option, [], ◌∷◌, ◌++◌, ◌==◌, nat_eq, arith, length, take,
  drop, length-append, length-take-le, length-drop,
}
use celily.Prelude.Text.{Text, is_alphanumeric}
use celily.Naming.{
  last_component, filter, shorten, sanitized_image_prefix, uuid8, bridge_name, trim_start, fit,
  instance_name,
}

-- A character that the backend allows in a name.
abbrev pub IsNameChar : ℕ → Type 0
IsNameChar c = (is_alphanumeric c || c == b'-') ≡ true

length-shorten-le : (prefix : Text) → length (shorten prefix) ≤ 20
length-shorten-le prefix = ground (arith, length-take-le 20 prefix)

length-sanitized-le : (image : Text) → length (sanitized_image_prefix image) ≤ 20
unfolding sanitized_image_prefix
length-sanitized-le image = length-shorten-le (filter is_alphanumeric (last_component image))

length-trim_start-le : (c : ℕ) (s : Text) → length (trim_start c s) ≤ length s
unfolding trim_start
length-trim_start-le c [] = omega arith
length-trim_start-le c (d ∷ s) = ground (arith, length-trim_start-le c s)

length-fit-le : (path_max : ℕ) (s : Text) → length (fit path_max s) ≤ path_max
length-fit-le path_max s =
    let tail = drop (length s - path_max) s in
    ground (arith, length-drop (length s - path_max) s, length-trim_start-le b'-' tail)

-- A bridge name has at most 15 characters.
pub length-bridge_name-le : (image uuid : Text) → length (bridge_name image uuid) ≤ 15
unfolding bridge_name
length-bridge_name-le image uuid =
    let prefix = take 6 (sanitized_image_prefix image) in
    omega (
      arith,
      length-append prefix (b'-' ∷ uuid8 uuid),
      length-take-le 6 (sanitized_image_prefix image),
      length-take-le 8 uuid,
    )

-- An instance name has at most 63 characters.
pub length-instance_name-le :
    (shown : Text) (relative : Option Text) (image uuid : Text)
    → length (instance_name shown relative image uuid) ≤ 63
unfolding instance_name
length-instance_name-le shown relative image uuid =
    let prefix = sanitized_image_prefix image in
    let path_max = 63 - (length prefix + 2 + 9) in
    bound prefix path_max _ (length-sanitized-le image) refl
  where
    bound :
        (prefix : Text) (path_max : ℕ) (s : Text)
        → length prefix ≤ 20
        → path_max ≡ 63 - (length prefix + 2 + 9)
        → length (prefix ++ b'-' ∷ (fit path_max s ++ b'-' ∷ uuid8 uuid)) ≤ 63
    bound prefix path_max s short max = omega (
      arith,
      length-append prefix (b'-' ∷ (fit path_max s ++ b'-' ∷ uuid8 uuid)),
      length-append (fit path_max s) (b'-' ∷ uuid8 uuid),
      length-fit-le path_max s,
      length-take-le 8 uuid,
    )
