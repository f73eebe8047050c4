-- ===== src/Config/Profiles/Lineage/Chain.antt =====
-- Which chain the walk builds.
use celily.Prelude.{
  ℕ, zero, suc, ◌<◌, ◌≡◌, ◌↔◌, ◌⊎◌, refl, sym, ap, ◌∙◌, true, false, none, inl, inr, List, [], ◌∷◌,
  ◌++◌, arith, ◌==◌, append_assoc, contains, contains_iff, length, Bool-cases, Option-cases, Memᴰ,
  All, All-append,
}
use celily.Prelude.Fallible.{ok}
use celily.Prelude.Text.{Text, text_eq}
use celily.Config.Profiles.{Inherit, is_valid_profile_name, parent_of, walk, chain_of}
use celily.Config.Profiles.Lineage.{
  Linked, Distinct, Rooted, IsLineage, unvisited, unvisited-le, unvisited-lt,
}

abbrev IsValid : Text → Type 0
IsValid name = is_valid_profile_name name ≡ true

shift :
    (older rest : List Text) (parent : Text) (names : List Text)
    → names ≡ older ++ parent ∷ rest
    → names ≡ (older ++ parent ∷ []) ++ rest
shift older rest parent names e = e ∙ sym (append_assoc older (parent ∷ []) rest)

Distinct-append : (xs ys : List Text) → Distinct (xs ++ ys) → Distinct ys
Distinct-append [] ys h = h
Distinct-append (x ∷ xs) ys h = Distinct-append xs ys h.1

Linked-cons :
    (inherit : Inherit) (x : Text) (xs : List Text) → Linked inherit (x ∷ xs) → Linked inherit xs
Linked-cons inherit x [] h = tt
Linked-cons inherit x (y ∷ ys) h = h.1

Linked-append :
    (inherit : Inherit) (xs ys : List Text) → Linked inherit (xs ++ ys) → Linked inherit ys
Linked-append inherit [] ys h = h
Linked-append inherit (x ∷ xs) ys h =
    Linked-append inherit xs ys (Linked-cons inherit x (xs ++ ys) h)

last-cases : (xs : List Text) → (xs ≡ []) ⊎ ((ys : List Text) × (y : Text) × (xs ≡ ys ++ y ∷ []))
last-cases [] = inl refl
last-cases (x ∷ xs) = elim (last-cases xs) [
  | inl empty ↦ inr ([], x, ap (λ (t : List Text). x ∷ t) empty)
  | inr (ys, y, e) ↦ inr (x ∷ ys, y, ap (λ (t : List Text). x ∷ t) e)
]

All-last : (xs : List Text) (y : Text) → All IsValid (xs ++ y ∷ []) → All IsValid xs × IsValid y
All-last [] y h = (tt, h.0)
All-last (x ∷ xs) y h = let (rest, last) = All-last xs y h.1 in ((h.0, rest), last)

module _ (inherit : Inherit) where
  walk_sound :
      (fuel : ℕ) (chain : List Text) (current : Text) (names : List Text)
      → Linked inherit (current ∷ chain)
      → Distinct chain
      → walk inherit fuel chain current ≡ ok names
      → Rooted inherit names
        × Linked inherit names
        × Distinct names
        × ((older : List Text) × (names ≡ older ++ current ∷ chain) × All IsValid older)
  unfolding walk
  walk_sound zero chain current names linked distinct h = absurd (ground arith)
  walk_sound (suc fuel) chain current names linked distinct h =
      elim (Bool-cases (contains chain current)) [
        | inl seen ↦ absurd (ground arith)
        | inr new ↦
            let fresh : ¬ Memᴰ current chain =
              λ m. absurd (ground (arith, (contains_iff chain current).1 m)) in
            elim (Option-cases (parent_of current inherit)) [
              | inl top ↦
                  let e : names ≡ current ∷ chain = ground arith in
                  rw e (top, linked, (fresh, distinct), ([], refl, tt))
              | inr (parent, found) ↦
                  let next : walk inherit fuel (current ∷ chain) parent ≡ ok names = ground arith in
                  let (rooted, links, apart, (older, e, valid)) =
                    walk_sound fuel (current ∷ chain) parent names (found, linked) (fresh, distinct)
                      next in
                  let checked : is_valid_profile_name parent ≡ true = ground arith in
                  (
                    rooted,
                    links,
                    apart,
                    (
                      older ++ parent ∷ [],
                      shift older (current ∷ chain) parent names e,
                      All-append IsValid older (parent ∷ []) valid (checked, tt),
                    ),
                  )
            ]
      ]

  walk_complete :
      (fuel : ℕ) (chain : List Text) (current : Text) (older names : List Text)
      → unvisited chain inherit < fuel
      → names ≡ older ++ current ∷ chain
      → Rooted inherit names
      → Linked inherit names
      → Distinct names
      → All IsValid older
      → walk inherit fuel chain current ≡ ok names
  unfolding walk
  walk_complete zero chain current older names enough e rooted linked distinct valid =
      absurd (omega arith)
  walk_complete (suc fuel) chain current older names enough e rooted linked distinct valid =
      let links : Linked inherit (current ∷ chain) =
        Linked-append inherit older (current ∷ chain) (rw e at linked) in
      let apart : Distinct (current ∷ chain) =
        Distinct-append older (current ∷ chain) (rw e at distinct) in
      let new : contains chain current ≡ false = unseen chain current apart.0 in
      elim (last-cases older) [
        | inl empty ↦
            let whole : names ≡ current ∷ chain =
              e ∙ ap (λ (t : List Text). t ++ current ∷ chain) empty in
            let top : parent_of current inherit ≡ none = rw whole at rooted in
            ground (arith, new, top, whole)
        | inr (rest, parent, split) ↦
            let f : names ≡ rest ++ parent ∷ current ∷ chain =
              e
              ∙ ap (λ (t : List Text). t ++ current ∷ chain) split
              ∙ append_assoc rest (parent ∷ []) (current ∷ chain) in
            let two : Linked inherit (parent ∷ current ∷ chain) =
              Linked-append inherit rest (parent ∷ current ∷ chain) (rw f at linked) in
            let differ : Distinct (parent ∷ current ∷ chain) =
              Distinct-append rest (parent ∷ current ∷ chain) (rw f at distinct) in
            let (rest_valid, parent_valid) = All-last rest parent (rw split at valid) in
            let less = unvisited-lt current parent chain inherit two.0 new in
            let other : (parent == current) ≡ false = unequal parent current chain differ.0 in
            let next =
              walk_complete fuel (current ∷ chain) parent rest names (omega arith) f rooted linked
                distinct rest_valid in
            ground (arith, new, two.0, other, parent_valid, next)
      ]
    where
      unseen : (chain : List Text) (name : Text) → ¬ Memᴰ name chain → contains chain name ≡ false
      unseen chain name apart = elim (Bool-cases (contains chain name)) [
        | inl seen ↦ absurd (apart ((contains_iff chain name).0 seen))
        | inr new ↦ new
      ]

      unequal :
          (parent current : Text) (chain : List Text)
          → ¬ Memᴰ parent (current ∷ chain)
          → (parent == current) ≡ false
      unequal parent current chain apart = elim (Bool-cases (parent == current)) [
        | inl same ↦ absurd (apart (Memᴰ.head ((text_eq.same_iff parent current).0 same)))
        | inr other ↦ other
      ]

  -- The inheritance chain of a profile is built, as a list of names, exactly when the list is the
  -- line of ancestors of the profile: it starts at a name without a parent, each name is the parent
  -- of the next one, it ends with the profile, no name stands in it twice, and every name but the
  -- profile is a valid one.
  pub chain_of_iff :
      (profile : Text) (names : List Text)
      → (chain_of inherit profile ≡ ok names) ↔ IsLineage inherit profile names
  unfolding chain_of
  chain_of_iff profile names = (sound, complete)
    where
      sound : chain_of inherit profile ≡ ok names → IsLineage inherit profile names
      sound h =
          let (rooted, linked, distinct, (older, e, valid)) =
            walk_sound (suc (length inherit)) [] profile names tt tt h in
          record {
            rooted = rooted;
            linked = linked;
            distinct = distinct;
            older = older;
            last = e;
            valid = valid;
          }

      complete : IsLineage inherit profile names → chain_of inherit profile ≡ ok names
      complete l =
          walk_complete (suc (length inherit)) [] profile l.older names
            (omega (arith, unvisited-le [] inherit)) l.last l.rooted l.linked l.distinct l.valid
