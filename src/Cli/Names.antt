-- ===== src/Cli/Names.antt =====
-- What a worktree's name is safe for: a path in the instance, and an ext:: URL.
use celily.Prelude.{
  ℕ, ◌≡◌, refl, sym, ap, ◌∙◌, inl, inr, Bool, true, false, not, ◌&&◌, ◌||◌, Option, none, some,
  List, [], ◌∷◌, ◌++◌, all, is_empty, arith, Bool-cases, ◌==◌, nat_eq, if◌then◌else◌,
}
use celily.Prelude.Fallible.{ok}
use celily.Prelude.Text.{Text, codes, text_eq}
use celily.Prelude.Text.Split.{Free, split-eq-self_of_Free}
use celily.Paths.{FilePath, join, normal_pieces}
use celily.GitRemote.{replace, escape}
use celily.Cli.{valid_char, parse_worktree_name}

-- A text whose characters all pass does not hold one that does not.
all-Free : (p : ℕ → Bool) (k : ℕ) → p k ≡ false → (s : Text) → all p s ≡ true → Free (λ c. c == k) s
all-Free p k fails [] h = tt
all-Free p k fails (c ∷ s) h = elim (Bool-cases (p c)) [
  | inl passes ↦ (
    elim (Bool-cases (c == k)) [
      | inl e ↦ let same : c ≡ k = (nat_eq.same_iff c k).0 e in cc
      | inr e ↦ e
    ],
    all-Free p k fails s (rw passes at h),
  )
  | inr fails ↦ ground arith
]

replace-eq-self_of_Free : (k : ℕ) (by s : Text) → Free (λ c. c == k) s → replace k by s ≡ s
unfolding replace
replace-eq-self_of_Free k by [] h = refl
replace-eq-self_of_Free k by (c ∷ s) h =
    rw h.0 (ap (λ rest. c ∷ rest) (replace-eq-self_of_Free k by s h.1))

normal_pieces-name :
    (first : ℕ) (s : Text)
    → (first == b'.') ≡ false
    → normal_pieces ((first ∷ s) ∷ []) ≡ (first ∷ s) ∷ []
unfolding normal_pieces celily.Prelude.Text.text_beq
normal_pieces-name first s h = rw h refl

join-name :
    (base : FilePath) (c : Text) (first : ℕ) (s : Text)
    → (first == b'.') ≡ false
    → Free (λ d. d == b'/') (first ∷ s)
    → join (c ∷ base) (first ∷ s) ≡ (c ∷ base) ++ (first ∷ s) ∷ []
unfolding join
join-name base c first s dot slash =
    rw (slash.0, split-eq-self_of_Free (λ d. d == b'/') s slash.1, normal_pieces-name first s dot)
      refl

escape-name : (s : Text) → all valid_char s ≡ true → escape s ≡ s
escape-name s valid =
    ap (replace b' ' (codes "% "))
      (replace-eq-self_of_Free b'%' (codes "%%") s (all-Free valid_char b'%' refl s valid))
    ∙ replace-eq-self_of_Free b' ' (codes "% ") s (all-Free valid_char b' ' refl s valid)

-- If a worktree name is accepted, it is the text as given, it is one component more when it is
-- joined to a path of at least one component, so never leads above that path or away from it, and
-- it needs no escape in an ext:: URL.
pub join-parse_worktree_name :
    (s name c : Text) (base : FilePath)
    → parse_worktree_name s ≡ ok name
    → (name ≡ s) × (join (c ∷ base) name ≡ (c ∷ base) ++ name ∷ []) × (escape name ≡ name)
unfolding parse_worktree_name
join-parse_worktree_name [] name c base h = ground arith
join-parse_worktree_name (first ∷ s) name c base h = elim (Bool-cases (first == b'.')) [
  | inl e ↦ ground arith
  | inr dot ↦ elim (Bool-cases (all valid_char (first ∷ s))) [
    | inl valid ↦
        let e : name ≡ first ∷ s = ground arith in
        rw e (
          refl,
          join-name base c first s dot (all-Free valid_char b'/' refl (first ∷ s) valid),
          escape-name (first ∷ s) valid,
        )
    | inr e ↦ ground arith
  ]
]
