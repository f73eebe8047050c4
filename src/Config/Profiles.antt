-- ===== src/Config/Profiles.antt =====
-- The profiles of celily/src/config/mod.rs: names, the inheritance chain and the merge along it.
pub mod Lineage
use celily.Prelude.{
  ℕ, zero, suc, Bool, true, false, not, ◌&&◌, ◌||◌, Option, none, some, List, [], ◌∷◌, ◌==◌, nat_eq,
  contains, length, is_empty, if◌then◌else◌,
}
use celily.Prelude.Fallible.{Result, ok, err, ◌>>=◌, ◌>>◌, fail_if}
use celily.Prelude.Text.{Text, text_eq, codes}

-- The errors of loading a profile. `out_of_fuel` is the model's own.
pub data ProfileError : Type 0 where
  invalid_name invalid_parent circular inherits_itself not_found not_loaded : Text → ProfileError
  unresolved_directory out_of_fuel : ProfileError

unfoldable pub is_valid_profile_name : Text → Bool
is_valid_profile_name name =
    not (is_empty name)
    && not (contains name b'/')
    && not (contains name 0x5c)
    && not (name == codes ".")
    && not (name == codes "..")

-- `[inherit]` of profiles.toml, a map from a profile to its parent.
abbrev pub Inherit : Type 0
Inherit = List (Text × Text)

unfoldable pub parent_of : Text → Inherit → Option Text
parent_of name [] = none
parent_of name ((child, parent) ∷ rest) = if child == name then some parent else parent_of name rest

-- The loop from a profile to its root. `chain` holds the names visited, the last one first.
unfoldable pub walk : Inherit → ℕ → List Text → Text → Result ProfileError (List Text)
unfolding is_valid_profile_name parent_of
walk inherit zero chain current = err out_of_fuel
walk inherit (suc fuel) chain current =
    let next = λ (parent : Text). walk inherit fuel (current ∷ chain) parent in
    if contains chain current then err (circular current) else elim (parent_of current inherit) [
      | none ↦ ok (current ∷ chain)
      | some parent ↦
          if parent == current
          then err (inherits_itself current)
          else if is_valid_profile_name parent
          then next parent
          else err (invalid_parent parent)
    ]

-- The chain of a profile, from its root.
unfoldable pub chain_of : Inherit → Text → Result ProfileError (List Text)
unfolding walk
chain_of inherit profile = walk inherit (suc (length inherit)) [] profile

module _ {C : Type 0} where
  -- Each profile over the ones before it.
  unfoldable pub merge_all :
      (Text → Result ProfileError C) → (C → C → C) → C → List Text → Result ProfileError C
  merge_all load merge merged [] = ok merged
  merge_all load merge merged (name ∷ names) = do
    config ← load name
    merge_all load merge (merge merged config) names

  -- `load` finds, checks, reads and parses the file of a profile.
  unfoldable pub merge_with_profile :
      (Text → Result ProfileError C) → (C → C → C) → C → Text → Inherit → Result ProfileError C
  unfolding merge_all is_valid_profile_name
  merge_with_profile load merge default profile inherit = do
    fail_if (not (is_valid_profile_name profile)) (invalid_name profile)
    names ← chain_of inherit profile
    merge_all load merge default names
