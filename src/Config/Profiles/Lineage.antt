-- ===== src/Config/Profiles/Lineage.antt =====
-- The lines of ancestors of a profile, and the fuel of the walk along them.
pub mod Chain
use celily.Prelude.{
  true, All, ℕ, zero, suc, ◌≤◌, ◌<◌, ◌≡◌, ◌≢◌, refl, sym, ◌∙◌, false, none, some, inl, inr, List,
  [], ◌∷◌, ◌++◌, arith, ◌==◌, append_assoc, contains, contains_iff, length, Bool-cases,
  Option-cases, if◌then◌else◌, Memᴰ,
}
use celily.Prelude.Fallible.{ok, err}
use celily.Prelude.Text.{Text, text_eq}
use celily.Config.Profiles.{is_valid_profile_name, out_of_fuel, Inherit, parent_of, walk, chain_of}

-- Each name is the parent of the next one.
abbrev pub Linked : Inherit → List Text → Type 0
Linked inherit [] = Unit
Linked inherit (a ∷ []) = Unit
Linked inherit (a ∷ b ∷ rest) = (parent_of b inherit ≡ some a) × Linked inherit (b ∷ rest)

abbrev pub Distinct : List Text → Type 0
Distinct [] = Unit
Distinct (a ∷ rest) = (¬ Memᴰ a rest) × Distinct rest

-- The list starts at a name without a parent.
abbrev pub Rooted : Inherit → List Text → Type 0
Rooted inherit [] = ⊥
Rooted inherit (a ∷ rest) = parent_of a inherit ≡ none

-- The profile's line of ancestors, its root first.
pub record IsLineage (inherit : Inherit) (profile : Text) (names : List Text) : Type 0 where
  pub rooted : Rooted inherit names
  pub linked : Linked inherit names
  pub distinct : Distinct names
  pub older : List Text
  pub last : names ≡ older ++ profile ∷ []
  pub valid : All (λ name. is_valid_profile_name name ≡ true) older

-- The entries whose child has not been visited.
pub unvisited : List Text → Inherit → ℕ
unvisited visited [] = 0
unvisited visited ((child, parent) ∷ rest) =
    if contains visited child then unvisited visited rest else suc (unvisited visited rest)

pub unvisited-le :
    (visited : List Text) (inherit : Inherit) → unvisited visited inherit ≤ length inherit
unfolding unvisited
unvisited-le visited [] = omega arith
unvisited-le visited ((child, parent) ∷ rest) = ground (arith, unvisited-le visited rest)

unvisited_mono :
    (name : Text) (visited : List Text) (inherit : Inherit)
    → unvisited (name ∷ visited) inherit ≤ unvisited visited inherit
unfolding unvisited
unvisited_mono name visited [] = omega arith
unvisited_mono name visited ((child, parent) ∷ rest) =
    ground (arith, unvisited_mono name visited rest)

pub unvisited-lt :
    (name parent : Text) (visited : List Text) (inherit : Inherit)
    → parent_of name inherit ≡ some parent
    → contains visited name ≡ false
    → unvisited (name ∷ visited) inherit < unvisited visited inherit
unfolding unvisited parent_of
unvisited-lt name parent visited [] found new = cc
unvisited-lt name parent visited ((child, other) ∷ rest) found new =
    elim (Bool-cases (child == name)) [
      | inl same ↦
          let e : child ≡ name = (text_eq.same_iff child name).0 same in
          ground (arith, unvisited_mono name visited rest, e, text_eq.same_iff name child)
      | inr apart ↦
          let later = unvisited-lt name parent visited rest (rw (apart, parent_of) at found) new in
          ground (arith, later, apart, text_eq.same_iff child name, text_eq.same_iff name child)
    ]

module _ (inherit : Inherit) where
  -- Enough fuel is given.
  walk-ne-out_of_fuel :
      (fuel : ℕ) (chain : List Text) (current : Text)
      → unvisited chain inherit < fuel
      → walk inherit fuel chain current ≢ err out_of_fuel
  unfolding walk
  walk-ne-out_of_fuel zero chain current enough h = omega arith
  walk-ne-out_of_fuel (suc fuel) chain current enough h =
      elim (Bool-cases (contains chain current)) [
        | inl seen ↦ absurd (ground arith)
        | inr new ↦ elim (Option-cases (parent_of current inherit)) [
          | inl top ↦ absurd (ground arith)
          | inr (parent, found) ↦
              let less = unvisited-lt current parent chain inherit found new in
              let next = walk-ne-out_of_fuel fuel (current ∷ chain) parent (omega arith) in
              absurd (ground (arith, next))
        ]
      ]

  -- The walk along the inheritance chain always ends, at a root or with an error of the source,
  -- within one step more than there are entries.
  pub chain_of-ne-out_of_fuel : (profile : Text) → chain_of inherit profile ≢ err out_of_fuel
  unfolding chain_of
  chain_of-ne-out_of_fuel profile =
      walk-ne-out_of_fuel (suc (length inherit)) [] profile (omega (arith, unvisited-le [] inherit))
