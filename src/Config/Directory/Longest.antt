-- ===== src/Config/Directory/Longest.antt =====
-- Which entry of `[profiles]` the loop of celily/src/config/mod.rs chooses.
use celily.Prelude.{
  ℕ, ◌≤◌, ◌≡◌, ◌⊎◌, refl, sym, ap, ◌∙◌, Option, none, some, inl, inr, List, [], ◌∷◌, ◌++◌, arith,
  length, length-append, Bool-cases, Option-cases, Memᴰ, ltb, append-nil,
}
use celily.Prelude.Text.{Text}
use celily.Paths.{FilePath, is_under_or_eq}
use celily.Paths.Raw.{expand_host_tilde}
use celily.Prelude.Text.{Text}
use celily.Paths.Under.{IsUnder, is_under_or_eq_iff, comparable}
use celily.Validate.Files.{FileSystem}
use celily.Config.Directory.{Match, candidate, keep_longer, best_match}

length-zero : (xs : FilePath) → length xs ≤ 0 → xs ≡ []
length-zero [] h = refl
length-zero (x ∷ xs) h = absurd (omega arith)

-- Of two paths that a third is under, the longer one is under the other.
longer-IsUnder : (x a b : FilePath) → IsUnder x a → IsUnder x b → length b ≤ length a → IsUnder a b
longer-IsUnder x a b (r, e) (s, f) longer = elim (comparable a b r s (sym e ∙ f)) [
  | inl under ↦ under
  | inr (t, g) ↦
      let short : length t ≤ 0 = omega (arith, ap length g, length-append a t) in
      let same : b ≡ a = g ∙ ap (λ (u : FilePath). a ++ u) (length-zero t short) ∙ append-nil a in
      ([], sym same ∙ sym (append-nil b))
]

module _ (fs : FileSystem) (home : Text) (cwd : FilePath) where
  candidate-IsUnder :
      (entry : Text × Text) (m : Match) → candidate fs home cwd entry ≡ some m → IsUnder cwd m.path
  unfolding candidate
  candidate-IsUnder (raw_path, name) m h =
      elim (Option-cases (fs.canonicalize (expand_host_tilde raw_path home))) [
        | inl missing ↦ absurd (ground arith)
        | inr (canon, found) ↦ elim (Bool-cases (is_under_or_eq cwd canon)) [
          | inr outside ↦ absurd (ground arith)
          | inl inside ↦
              let e : m.path ≡ canon = ground arith in
              rw e ((is_under_or_eq_iff cwd canon).0 inside)
        ]
      ]

  -- How long the best match is that has been found.
  abbrev size : Option Match → ℕ
  size none = 0
  size (some m) = length m.path

  keep_longer-le :
      (best other : Option Match) → size best ≤ size (keep_longer fs home cwd best other)
  keep_longer-le best none = omega arith
  keep_longer-le none (some m) = omega arith
  keep_longer-le (some b) (some m) = ground arith

  keep_longer-le_other :
      (best other : Option Match) → size other ≤ size (keep_longer fs home cwd best other)
  keep_longer-le_other best none = omega arith
  keep_longer-le_other none (some m) = omega arith
  keep_longer-le_other (some b) (some m) = ground arith

  best_match-le :
      (best : Option Match) (entries : List (Text × Text))
      → size best ≤ size (best_match fs home cwd best entries)
  unfolding best_match
  best_match-le best [] = omega arith
  best_match-le best (entry ∷ entries) =
      let next = keep_longer fs home cwd best (candidate fs home cwd entry) in
      omega (arith, keep_longer-le best (candidate fs home cwd entry), best_match-le next entries)

  best_match-le_mem :
      (entry : Text × Text) (best : Option Match) {entries : List (Text × Text)}
      → Memᴰ entry entries
      → size (candidate fs home cwd entry) ≤ size (best_match fs home cwd best entries)
  unfolding best_match
  best_match-le_mem entry best (Memᴰ.head {x = first} {xs = entries} same) =
      let next = keep_longer fs home cwd best (candidate fs home cwd first) in
      let e = ap (λ (t : Text × Text). size (candidate fs home cwd t)) same in
      omega (
        arith,
        e,
        keep_longer-le_other best (candidate fs home cwd first),
        best_match-le next entries,
      )
  best_match-le_mem entry best (Memᴰ.tail {x = first} m) =
      best_match-le_mem entry (keep_longer fs home cwd best (candidate fs home cwd first)) m

  abbrev pub IsFrom : List (Text × Text) → Match → Type 0
  IsFrom entries m =
      (entry : Text × Text) × Memᴰ entry entries × (candidate fs home cwd entry ≡ some m)

  keep_longer_from :
      (best other : Option Match) (m : Match)
      → keep_longer fs home cwd best other ≡ some m
      → (best ≡ some m) ⊎ (other ≡ some m)
  keep_longer_from best none m h = inl h
  keep_longer_from none (some o) m h = inr h
  keep_longer_from (some b) (some o) m h = elim (Bool-cases (ltb (length b.path) (length o.path))) [
    | inl less ↦ inr (rw less at h)
    | inr more ↦ inl (rw more at h)
  ]

  best_match-IsFrom :
      (best : Option Match) (entries : List (Text × Text)) (m : Match)
      → best_match fs home cwd best entries ≡ some m
      → (best ≡ some m) ⊎ IsFrom entries m
  unfolding best_match
  best_match-IsFrom best [] m h = inl h
  best_match-IsFrom best (entry ∷ entries) m h =
      elim (best_match-IsFrom (keep_longer fs home cwd best (candidate fs home cwd entry)) entries m
        h) [
          | inr (other, listed, e) ↦ inr (other, Memᴰ.tail listed, e)
          | inl kept ↦ elim (keep_longer_from best (candidate fs home cwd entry) m kept) [
            | inl old ↦ inl old
            | inr new ↦ inr (entry, Memᴰ.head refl, new)
          ]
        ]

  -- Where an entry of the profiles covers a directory, the match that is chosen is of a listed
  -- entry, covers the directory, and is under the match of that entry, whatever the order of the
  -- entries.
  pub best_match-IsUnder :
      (entries : List (Text × Text)) (m other : Match) (entry : Text × Text)
      → best_match fs home cwd none entries ≡ some m
      → Memᴰ entry entries
      → candidate fs home cwd entry ≡ some other
      → IsFrom entries m × IsUnder cwd m.path × IsUnder m.path other.path
  best_match-IsUnder entries m other entry chosen listed matches =
      elim (best_match-IsFrom none entries m chosen) [
        | inl absent ↦ absurd (ground arith)
        | inr (own, own_listed, e) ↦
            let inside = candidate-IsUnder own m e in
            let longest : length other.path ≤ length m.path =
              omega (arith, best_match-le_mem entry none listed, ap size chosen, ap size matches) in
            (
              (own, own_listed, e),
              inside,
              longer-IsUnder cwd m.path other.path inside (candidate-IsUnder entry other matches)
                  longest,
            )
      ]
