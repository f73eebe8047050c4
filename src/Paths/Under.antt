-- ===== src/Paths/Under.antt =====
-- What it is to be under a path.
use celily.Prelude.{
  ◌≡◌, ◌↔◌, ◌⊎◌, inl, inr, refl, sym, ap, ◌∙◌, true, some, [], ◌∷◌, ◌++◌, arith, nat_eq, PartialEq,
  eq_refl, Option-cases, Bool-cases, append-nil, append_assoc,
}
use celily.Prelude.Text.{text_eq}
use celily.Paths.{FilePath, strip_path, path_beq, is_under_or_eq}

-- The path is the parent and then more components, or none.
abbrev pub IsUnder : FilePath → FilePath → Type 0
IsUnder path parent = (rest : FilePath) × (path ≡ parent ++ rest)

pub path_beq_iff : (p q : FilePath) → (path_beq p q ≡ true) ↔ (p ≡ q)
unfolding path_beq
path_beq_iff [] [] = ground arith
path_beq_iff [] (d ∷ q) = ground arith
path_beq_iff (c ∷ p) [] = ground arith
path_beq_iff (c ∷ p) (d ∷ q) = ground (arith, path_beq_iff p q, text_eq.same_iff c d)

instance abbrev pub path_eq : PartialEq FilePath
path_eq = record { same = path_beq; same_iff = path_beq_iff }

strip_path_sound :
    (parent path rest : FilePath) → strip_path parent path ≡ some rest → path ≡ parent ++ rest
unfolding strip_path
strip_path_sound [] path rest h = ground arith
strip_path_sound (c ∷ parent) [] rest h = cc
strip_path_sound (c ∷ parent) (d ∷ path) rest h =
    ground (arith, strip_path_sound parent path rest, text_eq.same_iff c d)

strip_path_complete : (parent rest : FilePath) → strip_path parent (parent ++ rest) ≡ some rest
unfolding strip_path
strip_path_complete [] rest = refl
strip_path_complete (c ∷ parent) rest = rw (eq_refl c) (strip_path_complete parent rest)

-- is_under_or_eq tells exactly whether the path is the parent and then more components, or none.
pub is_under_or_eq_iff :
    (path parent : FilePath) → (is_under_or_eq path parent ≡ true) ↔ IsUnder path parent
unfolding is_under_or_eq
is_under_or_eq_iff path parent = (sound, complete)
  where
    sound : is_under_or_eq path parent ≡ true → IsUnder path parent
    sound h = elim (Bool-cases (path_beq path parent)) [
      | inl same ↦ ([], (path_beq_iff path parent).0 same ∙ sym (append-nil parent))
      | inr other ↦ elim (Option-cases (strip_path parent path)) [
        | inl missing ↦ absurd (ground arith)
        | inr (rest, found) ↦ (rest, strip_path_sound parent path rest found)
      ]
    ]

    complete : IsUnder path parent → is_under_or_eq path parent ≡ true
    complete ([], e) =
        let same = (path_beq_iff path parent).1 (e ∙ append-nil parent) in ground arith
    complete (c ∷ rest, e) =
        let found : strip_path parent path ≡ some (c ∷ rest) =
          ap (strip_path parent) e ∙ strip_path_complete parent (c ∷ rest) in
        ground (arith, found)

pub IsUnder-refl : (p : FilePath) → IsUnder p p
IsUnder-refl p = ([], sym (append-nil p))

pub IsUnder-trans : (p q r : FilePath) → IsUnder p q → IsUnder q r → IsUnder p r
IsUnder-trans p q r (x, e) (y, f) =
    (y ++ x, e ∙ ap (λ (t : FilePath). t ++ x) f ∙ append_assoc r y x)

-- Of two paths that a third is under, one is under the other.
pub comparable : (a b x y : FilePath) → a ++ x ≡ b ++ y → IsUnder a b ⊎ IsUnder b a
comparable [] b x y e = inr (b, refl)
comparable (c ∷ a) [] x y e = inl (c ∷ a, refl)
comparable (c ∷ a) (d ∷ b) x y e =
    let head : c ≡ d = ground arith in
    elim (comparable a b x y (ground arith)) [
      | inl (rest, below) ↦ inl (rest, cc)
      | inr (rest, below) ↦ inr (rest, cc)
    ]
