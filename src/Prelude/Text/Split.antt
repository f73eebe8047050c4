-- ===== src/Prelude/Text/Split.antt =====
-- `str::split`, `split_once`, `splitn` and `join`, with the laws that relate them.
use Prim.Native.Nat.{ℕ, zero, suc}
use mathlib.Core.Path.{◌≡◌, refl}
use mathlib.Core.Logic.{inl, inr}
use mathlib.Core.Bool.{Bool, true, false}
use mathlib.Core.Option.{Option, none, some}
use mathlib.Core.List.{List, [], ◌∷◌, ◌++◌}
use native.Mathlib.Omega.{arith}
use celily.Prelude.Tests.{◌==◌, nat_eq, eq_refl, Bool-cases, if◌then◌else◌}
use celily.Prelude.Lists.{All, All-append}
use celily.Prelude.Text.{Text}

-- A piece begins with `c`.
abbrev pub push_head : ℕ → List Text → List Text
push_head c [] = (c ∷ []) ∷ []
push_head c (piece ∷ pieces) = (c ∷ piece) ∷ pieces

-- `s.split(p)`: at least one piece
unfoldable pub split : (ℕ → Bool) → Text → List Text
split p [] = [] ∷ []
split p (c ∷ s) = let rest = split p s in if p c then [] ∷ rest else push_head c rest

-- `s.split_once(c)`
unfoldable pub split_once : ℕ → Text → Option (Text × Text)
split_once c [] = none
split_once c (d ∷ s) =
    if d == c
    then some ([], s)
    else elim (split_once c s) [ none ↦ none | some (a, b) ↦ some (d ∷ a, b) ]

-- `s.splitn(n + 1, c)`: at most n cuts
unfoldable pub splitn : ℕ → ℕ → Text → List Text
splitn zero c s = s ∷ []
splitn (suc n) c s = elim (split_once c s) [ none ↦ s ∷ [] | some (a, b) ↦ a ∷ splitn n c b ]

-- `pieces.join(sep)`
unfoldable pub join : Text → List Text → Text
join sep [] = []
join sep (a ∷ []) = a
join sep (a ∷ b ∷ rest) = a ++ (sep ++ join sep (b ∷ rest))

-- No character of the text passes `p`.
abbrev pub Free : (ℕ → Bool) → Text → Type 0
Free p s = All (λ c. p c ≡ false) s

pub split-cons :
    (p : ℕ → Bool) (s : Text) → (a : Text) × (rest : List Text) × (split p s ≡ a ∷ rest)
unfolding split
split-cons p [] = ([], [], refl)
split-cons p (c ∷ s) = elim (Bool-cases (p c)) [
  | inl e ↦ ([], split p s, rw e)
  | inr e ↦ let (a, rest, h) = split-cons p s in (c ∷ a, rest, rw (e, h))
]

-- A separator cuts a text in two.
pub split-append :
    (p : ℕ → Bool) (s : Text) (c : ℕ) (t : Text)
    → p c ≡ true
    → split p (s ++ c ∷ t) ≡ split p s ++ split p t
unfolding split
split-append p [] c t h = rw h
split-append p (d ∷ s) c t h =
    let (a, rest, e) = split-cons p s in rw (split-append p s c t h, e) (ground arith)

-- The pieces hold no separator.
pub split-Free : (p : ℕ → Bool) (s : Text) → All (Free p) (split p s)
unfolding split
split-Free p [] = (tt, tt)
split-Free p (c ∷ s) = elim (Bool-cases (p c)) [
  | inl e ↦ rw e (tt, split-Free p s)
  | inr e ↦
      let (a, rest, h) = split-cons p s in
      let free : All (Free p) (a ∷ rest) = rw h at (split-Free p s) in
      rw (e, h) ((e, free.0), free.1)
]

pub split-eq-self_of_Free : (p : ℕ → Bool) (s : Text) → Free p s → split p s ≡ s ∷ []
unfolding split
split-eq-self_of_Free p [] h = refl
split-eq-self_of_Free p (c ∷ s) h = rw (h.0, split-eq-self_of_Free p s h.1)

-- Splitting undoes joining, if no piece holds the separator.
pub split-join :
    (c : ℕ) (a : Text) (rest : List Text)
    → All (Free (λ d. d == c)) (a ∷ rest)
    → split (λ d. d == c) (join (c ∷ []) (a ∷ rest)) ≡ a ∷ rest
unfolding join
split-join c a [] h = split-eq-self_of_Free (λ d. d == c) a h.0
split-join c a (b ∷ rest) h = rw (
  split-append (λ d. d == c) a c (join (c ∷ []) (b ∷ rest)) (eq_refl c),
  split-eq-self_of_Free (λ d. d == c) a h.0,
  split-join c b rest h.1,
)

-- A text is cut at the first separator.
pub split_once-append :
    (c : ℕ) (s t : Text) → Free (λ d. d == c) s → split_once c (s ++ c ∷ t) ≡ some (s, t)
unfolding split_once
split_once-append c [] t h = rw (eq_refl c)
split_once-append c (d ∷ s) t h = rw (h.0, split_once-append c s t h.1)

pub join-Free :
    (p : ℕ → Bool) (sep : Text) (pieces : List Text)
    → Free p sep
    → All (Free p) pieces
    → Free p (join sep pieces)
unfolding join
join-Free p sep [] h k = tt
join-Free p sep (a ∷ []) h k = k.0
join-Free p sep (a ∷ b ∷ rest) h k =
    All-append _ a _ k.0 (All-append _ sep _ h (join-Free p sep (b ∷ rest) h k.1))
