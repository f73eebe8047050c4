-- ===== src/Validate/Forbidden/Apart.antt =====
-- What a path that passes a forbidden list is: away from every entry.
use celily.Prelude.{
  ◌≡◌, ◌≢◌, ◌↔◌, inl, inr, refl, sym, ◌∙◌, false, List, [], ◌∷◌, arith, Bool-cases, All,
}
use celily.Prelude.Fallible.{ok, Result-cases}
use celily.Paths.{FilePath, path_beq, is_under_or_eq}
use celily.Paths.Under.{IsUnder, path_beq_iff, is_under_or_eq_iff, comparable, IsUnder-refl}
use celily.Validate.Forbidden.{Forbidden, check, check_all}

-- No path is under both.
abbrev pub Disjoint : FilePath → FilePath → Type 0
Disjoint p q = (x : FilePath) → IsUnder x p → IsUnder x q → ⊥

-- The path is not the blocked one, or shares no path with the blocked subtree.
abbrev pub IsApart : FilePath → Forbidden → Type 0
IsApart path (Forbidden.exact blocked label) = path ≢ blocked
IsApart path (Forbidden.subtree blocked label) = Disjoint path blocked

Disjoint-of_tests :
    (p q : FilePath) → is_under_or_eq p q ≡ false → is_under_or_eq q p ≡ false → Disjoint p q
Disjoint-of_tests p q below above x (r, e) (s, f) = elim (comparable p q r s (sym e ∙ f)) [
  | inl down ↦ let t = (is_under_or_eq_iff p q).1 down in cc
  | inr up ↦ let t = (is_under_or_eq_iff q p).1 up in cc
]

Disjoint-tests :
    (p q : FilePath) → Disjoint p q → (is_under_or_eq p q ≡ false) × (is_under_or_eq q p ≡ false)
Disjoint-tests p q apart = (
  elim (Bool-cases (is_under_or_eq p q)) [
    | inl h ↦ absurd (apart p (IsUnder-refl p) ((is_under_or_eq_iff p q).0 h))
    | inr h ↦ h
  ],
  elim (Bool-cases (is_under_or_eq q p)) [
    | inl h ↦ absurd (apart q ((is_under_or_eq_iff q p).0 h) (IsUnder-refl q))
    | inr h ↦ h
  ],
)

check_iff : (f : Forbidden) (path : FilePath) → (check f path ≡ ok tt) ↔ IsApart path f
unfolding check
check_iff (Forbidden.exact blocked label) path =
    let (to, from) = path_beq_iff path blocked in
    elim (Bool-cases (path_beq path blocked)) [
      | inl same ↦ rw same (λ h. absurd (ground arith), λ apart. absurd (apart (to same)))
      | inr other ↦ rw other (λ h e. absurd (ground (arith, from e)), λ apart. refl)
    ]
check_iff (Forbidden.subtree blocked label) path = (sound, complete)
  where
    sound : check (Forbidden.subtree blocked label) path ≡ ok tt → Disjoint path blocked
    sound h = Disjoint-of_tests path blocked (ground arith) (ground arith)

    complete : Disjoint path blocked → check (Forbidden.subtree blocked label) path ≡ ok tt
    complete apart = let (a, b) = Disjoint-tests path blocked apart in ground arith

-- A path passes a forbidden list exactly when it is none of the exact entries and shares no path
-- with any of the subtrees.
pub check_all_iff :
    (entries : List Forbidden) (path : FilePath)
    → (check_all entries path ≡ ok tt) ↔ All (IsApart path) entries
unfolding check_all
check_all_iff [] path = (λ h. tt, λ h. refl)
check_all_iff (entry ∷ entries) path =
    let (to, from) = check_iff entry path in
    let (to_rest, from_rest) = check_all_iff entries path in
    elim (Result-cases (check entry path)) [
      | inl (done, e) ↦ rw e (λ h. (to e, to_rest h), λ h. from_rest h.1)
      | inr (violation, e) ↦
          rw e (λ h. absurd (ground arith), λ h. absurd (ground (arith, from h.0)))
    ]
