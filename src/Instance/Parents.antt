-- ===== src/Instance/Parents.antt =====
-- The directories of initialized.rs whose owner is changed: those between the home and a mount.
use celily.Prelude.{◌≡◌, true, false, List, [], ◌∷◌, Bool-cases, inl, inr}
use celily.Paths.{FilePath, path_beq}
use celily.Validate.Files.{ancestors}
use celily.Backend.Mount.{Mount}
use celily.Instance.Start.{
  path_starts_with, path_less, insert, is_target, walk, mount_parents, tail,
}

-- Strictly below the home, and no mount's target.
pub record IsBetween (home : FilePath) (mounts : List Mount) (path : FilePath) : Type 0 where
  pub not_home : path_beq path home ≡ false
  pub below_home : path_starts_with path home ≡ true
  pub not_target : is_target mounts path ≡ false

abbrev pub All : (FilePath → Type 0) → List FilePath → Type 0
All P [] = Unit {0}
All P (x ∷ xs) = P x × All P xs

insert-All :
    (P : FilePath → Type 0) (path : FilePath) (set : List FilePath)
    → P path
    → All P set
    → All P (insert path set)
unfolding insert
insert-All P path [] p h = (p, tt)
insert-All P path (x ∷ set) p h = elim (Bool-cases (path_beq path x)) [
  | inl same ↦ rw same h
  | inr other ↦ rw other (elim (Bool-cases (path_less path x)) [
    | inl less ↦ rw less (p, h)
    | inr more ↦ rw more (h.0, insert-All P path set p h.1)
  ])
]

walk-All :
    (home : FilePath) (mounts : List Mount) (up : List FilePath) (parents : List FilePath)
    → All (IsBetween home mounts) parents
    → All (IsBetween home mounts) (walk home mounts up parents)
unfolding walk
walk-All home mounts [] parents h = h
walk-All home mounts (ancestor ∷ rest) parents h = elim (Bool-cases (path_beq ancestor home)) [
  | inl at_home ↦ rw at_home h
  | inr below ↦ rw below (elim (Bool-cases (path_starts_with ancestor home)) [
    | inr outside ↦ rw outside h
    | inl inside ↦ rw inside (elim (Bool-cases (is_target mounts ancestor)) [
      | inl target ↦ rw target h
      | inr free ↦ rw free (
          walk-All home mounts rest (insert ancestor parents) (
            insert-All (IsBetween home mounts) ancestor parents
              (record { not_home = below; below_home = inside; not_target = free }) h))
    ])
  ])
]

-- If every path collected before is strictly below the home and no mount has it as its target, then
-- so is every path after the walks from the targets of further mounts.
pub mount_parents-All :
    (home : FilePath) (mounts more : List Mount) (parents : List FilePath)
    → All (IsBetween home mounts) parents
    → All (IsBetween home mounts) (mount_parents home mounts more parents)
unfolding mount_parents
mount_parents-All home mounts [] parents h = h
mount_parents-All home mounts (mount ∷ more) parents h =
    mount_parents-All home mounts more (walk home mounts (tail (ancestors mount.target)) parents)
      (walk-All home mounts (tail (ancestors mount.target)) parents h)
