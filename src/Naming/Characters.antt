-- ===== src/Naming/Characters.antt =====
-- The characters of the names of celily/src/util/naming.rs.
use mathlib.Core.List.{reverse-cons}
use celily.Prelude.{
  ℕ, zero, suc, ◌+◌, ◌-◌, refl, Bool, true, false, not, ◌&&◌, Option, inl, inr, [], ◌∷◌, ◌++◌,
  reverse, ◌==◌, nat_eq, ltb, arith, length, take, drop, All, All-append, Bool-cases,
}
use celily.Prelude.Text.{Text, is_alphanumeric}
use celily.Naming.{
  relative_part, last_component, filter, shorten, sanitized_image_prefix, uuid8, bridge_name,
  trim_start, trim_matches, squeeze, fit, instance_name,
}
use celily.Naming.Bounds.{IsNameChar}

module _ (P : ℕ → Type 0) where
  All-take : (n : ℕ) (s : Text) → All P s → All P (take n s)
  All-take zero s h = tt
  All-take (suc n) [] h = tt
  All-take (suc n) (c ∷ s) h = (h.0, All-take n s h.1)

  All-drop : (n : ℕ) (s : Text) → All P s → All P (drop n s)
  All-drop zero s h = h
  All-drop (suc n) [] h = tt
  All-drop (suc n) (c ∷ s) h = All-drop n s h.1

  All-trim_start : (c : ℕ) (s : Text) → All P s → All P (trim_start c s)
  unfolding trim_start
  All-trim_start c [] h = tt
  All-trim_start c (d ∷ s) h = elim (Bool-cases (d == c)) [
    | inl same ↦ rw (same) (All-trim_start c s h.1)
    | inr other ↦ rw (other) h
  ]

  All-reverse : (s : Text) → All P s → All P (reverse s)
  All-reverse [] h = tt
  All-reverse (c ∷ s) h =
      rw (reverse-cons c s) (All-append P (reverse s) (c ∷ []) (All-reverse s h.1) (h.0, tt))

filter-All : (s : Text) → All IsNameChar (filter is_alphanumeric s)
unfolding filter
filter-All [] = tt
filter-All (c ∷ s) = elim (Bool-cases (is_alphanumeric c)) [
  | inl kept ↦ rw (kept, filter) (ground (arith, kept), filter-All s)
  | inr dropped ↦ rw (dropped, filter) (filter-All s)
]

shorten-All : (s : Text) → All IsNameChar s → All IsNameChar (shorten s)
shorten-All [] h = (refl, (refl, (refl, (refl, tt))))
shorten-All (c ∷ s) h = elim (Bool-cases (ltb 20 (length (c ∷ s)))) [
  | inl long ↦ rw long (All-take IsNameChar 20 (c ∷ s) h)
  | inr short ↦ rw short h
]

sanitized-All : (image : Text) → All IsNameChar (sanitized_image_prefix image)
unfolding sanitized_image_prefix
sanitized-All image =
    shorten-All (filter is_alphanumeric (last_component image)) (filter-All (last_component image))

squeeze-All : (kept prev_hyphen : Bool) (s : Text) → All IsNameChar (squeeze kept prev_hyphen s)
unfolding squeeze
squeeze-All kept prev_hyphen [] = tt
squeeze-All kept prev_hyphen (c ∷ s) = elim (Bool-cases (is_alphanumeric c)) [
  | inl plain ↦ rw (plain, squeeze) (ground (arith, plain), squeeze-All true false s)
  | inr other ↦ elim (Bool-cases (not prev_hyphen && kept)) [
    | inl first ↦ rw (other, squeeze) (rw (first, squeeze) (refl, squeeze-All true true s))
    | inr again ↦ rw (other, squeeze) (rw (again, squeeze) (squeeze-All kept true s))
  ]
]

trim_matches-All : (c : ℕ) (s : Text) → All IsNameChar s → All IsNameChar (trim_matches c s)
unfolding trim_matches
trim_matches-All c s h = All-reverse IsNameChar (trim_start c (reverse (trim_start c s))) (
    All-trim_start IsNameChar c (reverse (trim_start c s))
      (All-reverse IsNameChar (trim_start c s) (All-trim_start IsNameChar c s h)))

fit-All : (path_max : ℕ) (s : Text) → All IsNameChar s → All IsNameChar (fit path_max s)
fit-All path_max s h = elim (Bool-cases (ltb path_max (length s))) [
  | inl long ↦ rw long (
      All-trim_start IsNameChar b'-' (drop (length s - path_max) s)
        (All-drop IsNameChar (length s - path_max) s h))
  | inr short ↦ rw short h
]

uuid8-All : (uuid : Text) → All IsNameChar uuid → All IsNameChar (b'-' ∷ uuid8 uuid)
uuid8-All uuid h = (refl, All-take IsNameChar 8 uuid h)

-- If the UUID is printed in letters, digits and hyphens, so is a bridge name.
pub bridge_name-All :
    (image uuid : Text) → All IsNameChar uuid → All IsNameChar (bridge_name image uuid)
unfolding bridge_name
bridge_name-All image uuid h =
    All-append IsNameChar (take 6 (sanitized_image_prefix image)) (b'-' ∷ uuid8 uuid)
      (All-take IsNameChar 6 (sanitized_image_prefix image) (sanitized-All image))
      (uuid8-All uuid h)

-- If the UUID is printed in letters, digits and hyphens, so is an instance name, whatever the
-- directory and the image.
pub instance_name-All :
    (shown : Text) (relative : Option Text) (image uuid : Text)
    → All IsNameChar uuid
    → All IsNameChar (instance_name shown relative image uuid)
unfolding instance_name
instance_name-All shown relative image uuid h =
    let prefix = sanitized_image_prefix image in
    let path_max = 63 - (length prefix + 2 + 9) in
    let raw = squeeze false false (relative_part shown relative) in
    All-append IsNameChar prefix
      (b'-' ∷ (fit path_max (trim_matches b'-' raw) ++ b'-' ∷ uuid8 uuid)) (sanitized-All image)
      (
        refl,
        All-append IsNameChar (fit path_max (trim_matches b'-' raw)) (b'-' ∷ uuid8 uuid)
            (fit-All path_max (trim_matches b'-' raw)
              (trim_matches-All b'-' raw (squeeze-All false false (relative_part shown relative))))
            (uuid8-All uuid h),
      )
