-- ===== src/Prelude/Lists.antt =====
-- Lists measured and indexed by native numbers, and the searches of Rust's iterators.
use Prim.Native.Nat.{ℕ, zero, suc, ◌+◌, ◌-◌, ◌≤◌, ◌<◌}
use mathlib.Core.Path.{◌≡◌, refl, ap, sym}
use mathlib.Core.Logic.{◌≢◌, ◌↔◌, inl, inr}
use mathlib.Core.Bool.{Bool, true, false, ◌&&◌, ◌||◌}
use mathlib.Core.Option.{Option, none, some}
use mathlib.Core.List.{List, [], ◌∷◌, ◌++◌, Memᴰ, map}
use mathlib.Core.List.Memᴰ
use native.Mathlib.Omega.{arith}
use celily.Prelude.Tests.{PartialEq, ◌==◌, Bool-cases, if◌then◌else◌}

module _ {ℓ} {A : Type ℓ} where
  abbrev pub length : List A → ℕ
  length [] = 0
  length (x ∷ xs) = suc (length xs)

  abbrev pub get_elem? : List A → ℕ → Option A
  get_elem? [] i = none
  get_elem? (x ∷ xs) zero = some x
  get_elem? (x ∷ xs) (suc i) = get_elem? xs i

  -- A write out of bounds changes nothing.
  abbrev pub set : List A → ℕ → A → List A
  set [] i v = []
  set (x ∷ xs) zero v = v ∷ xs
  set (x ∷ xs) (suc i) v = x ∷ set xs i v

  abbrev pub take : ℕ → List A → List A
  take zero xs = []
  take (suc n) [] = []
  take (suc n) (x ∷ xs) = x ∷ take n xs

  abbrev pub drop : ℕ → List A → List A
  drop zero xs = xs
  drop (suc n) [] = []
  drop (suc n) (x ∷ xs) = drop n xs

  abbrev pub is_empty : List A → Bool
  is_empty [] = true
  is_empty (x ∷ xs) = false

  -- `iter().any(p)`
  abbrev pub any : (A → Bool) → List A → Bool
  any p [] = false
  any p (x ∷ xs) = p x || any p xs

  -- `iter().all(p)`
  abbrev pub all : (A → Bool) → List A → Bool
  all p [] = true
  all p (x ∷ xs) = p x && all p xs

  -- `iter().position(p)`, with the element found
  abbrev pub position_from : ℕ → (A → Bool) → List A → Option (ℕ × A)
  position_from i p [] = none
  position_from i p (x ∷ xs) = if p x then some (i, x) else position_from (i + 1) p xs

  pub length-append : (xs ys : List A) → length (xs ++ ys) ≡ length xs + length ys
  length-append [] ys = omega arith
  length-append (x ∷ xs) ys = omega (arith, length-append xs ys)

module _ {ℓ} {A : Type ℓ} where
  pub length-take-le : (n : ℕ) (xs : List A) → length (take n xs) ≤ n
  length-take-le zero xs = omega arith
  length-take-le (suc n) [] = omega arith
  length-take-le (suc n) (x ∷ xs) = omega (arith, length-take-le n xs)

  pub length-drop : (n : ℕ) (xs : List A) → length (drop n xs) ≡ length xs - n
  length-drop zero xs = omega arith
  length-drop (suc n) [] = omega arith
  length-drop (suc n) (x ∷ xs) = omega (arith, length-drop n xs)

  pub any_sound :
      (p : A → Bool) (xs : List A) → any p xs ≡ true → (x : A) × Memᴰ x xs × (p x ≡ true)
  any_sound p [] h = cc
  any_sound p (x ∷ xs) h = elim (Bool-cases (p x)) [
    | inl here ↦ (x, Memᴰ.head refl, here)
    | inr e ↦ let (y, m, q) = any_sound p xs (ground arith) in (y, Memᴰ.tail m, q)
  ]

  pub any_complete : (p : A → Bool) {x : A} {xs : List A} → Memᴰ x xs → p x ≡ true → any p xs ≡ true
  any_complete p (Memᴰ.head e) h = ground (arith, ap p e)
  any_complete p (Memᴰ.tail m) h = ground (arith, any_complete p m h)

  pub any-false :
      (p : A → Bool) (xs : List A) → any p xs ≡ false → (x : A) → Memᴰ x xs → p x ≡ false
  any-false p [] h y m = elim m [ ]
  any-false p (x ∷ xs) h y (Memᴰ.head e) = ground (arith, ap p e)
  any-false p (x ∷ xs) h y (Memᴰ.tail m) = any-false p xs (ground arith) y m

  pub all_sound : (p : A → Bool) {x : A} {xs : List A} → all p xs ≡ true → Memᴰ x xs → p x ≡ true
  all_sound p h (Memᴰ.head e) = ground (arith, ap p e)
  all_sound p h (Memᴰ.tail m) = all_sound p (ground arith) m

module _ {ℓ κ} {A : Type ℓ} (P : A → Type κ) where
  abbrev pub All : List A → Type κ
  All [] = Unit
  All (x ∷ xs) = P x × All xs

  pub All-append : (xs ys : List A) → All xs → All ys → All (xs ++ ys)
  All-append [] ys hx hy = hy
  All-append (x ∷ xs) ys (p, hx) hy = (p, All-append xs ys hx hy)

  pub All-mem : {x : A} {xs : List A} → Memᴰ x xs → All xs → P x
  All-mem (Memᴰ.head e) h = rw e h.0
  All-mem (Memᴰ.tail m) h = All-mem m h.1

  pub All-of_mem : (xs : List A) → ((x : A) → Memᴰ x xs → P x) → All xs
  All-of_mem [] h = tt
  All-of_mem (x ∷ xs) h = (h x (Memᴰ.head refl), All-of_mem xs (λ y m. h y (Memᴰ.tail m)))

module _ {ℓ} {A : Type ℓ} ⦃e : PartialEq A⦄ where
  -- `Vec::contains`
  abbrev pub contains : List A → A → Bool
  contains xs a = any (λ x. x == a) xs

  pub contains_iff : (xs : List A) (a : A) → (contains xs a ≡ true) ↔ Memᴰ a xs
  contains_iff xs a = (sound, λ m. any_complete (λ x. x == a) m ((e.same_iff a a).1 refl))
    where
      sound : contains xs a ≡ true → Memᴰ a xs
      sound h =
          let (x, m, same) = any_sound (λ x. x == a) xs h in
          Memᴰ.cast (sym ((e.same_iff x a).0 same)) m

-- Where a search finds its element: none of those before it passes.
pub record Found {ℓ} {A : Type ℓ} (start : ℕ) (p : A → Bool) (xs : List A) (i : ℕ) (x : A)
    : Type ℓ where
  pub before : List A
  pub after : List A
  pub whole : xs ≡ before ++ x ∷ after
  pub at : i ≡ start + length before
  pub passes : p x ≡ true
  pub none_before : All (λ y. p y ≡ false) before

module _ {ℓ} {A : Type ℓ} where
  pub position_from-Found :
      (start : ℕ) (p : A → Bool) (xs : List A) (i : ℕ) (x : A)
      → position_from start p xs ≡ some (i, x)
      → Found start p xs i x
  position_from-Found start p [] i x h = absurd (ground arith)
  position_from-Found start p (y ∷ ys) i x h = elim (Bool-cases (p y)) [
    | inl here ↦
        let same : y ≡ x = ground arith in
        record {
          before = [];
          after = ys;
          whole = ap (λ (z : A). z ∷ ys) same;
          at = ground arith;
          passes = rw (← same) here;
          none_before = tt;
        }
    | inr later ↦
        let f = position_from-Found (start + 1) p ys i x (ground arith) in
        record {
          before = y ∷ f.before;
          after = f.after;
          whole = ap (λ (zs : List A). y ∷ zs) f.whole;
          at = omega (arith, f.at);
          passes = f.passes;
          none_before = (later, f.none_before);
        }
  ]

  pub get_elem?-append :
      (before : List A) (x : A) (after : List A)
      → get_elem? (before ++ x ∷ after) (length before) ≡ some x
  get_elem?-append [] x after = refl
  get_elem?-append (y ∷ before) x after = get_elem?-append before x after

  pub length-set : (xs : List A) (i : ℕ) (v : A) → length (set xs i v) ≡ length xs
  length-set [] i v = refl
  length-set (x ∷ xs) zero v = refl
  length-set (x ∷ xs) (suc i) v = ap suc (length-set xs i v)

  pub get_elem?-set_self :
      (xs : List A) (i : ℕ) (v : A) {w : A}
      → get_elem? xs i ≡ some w
      → get_elem? (set xs i v) i ≡ some v
  get_elem?-set_self [] i v h = absurd (ground arith)
  get_elem?-set_self (x ∷ xs) zero v h = refl
  get_elem?-set_self (x ∷ xs) (suc i) v h = get_elem?-set_self xs i v h

  pub get_elem?-set_ne :
      (xs : List A) (i j : ℕ) (v : A) → i ≢ j → get_elem? (set xs i v) j ≡ get_elem? xs j
  get_elem?-set_ne [] i j v h = refl
  get_elem?-set_ne (x ∷ xs) zero zero v h = absurd (h refl)
  get_elem?-set_ne (x ∷ xs) zero (suc j) v h = refl
  get_elem?-set_ne (x ∷ xs) (suc i) zero v h = refl
  get_elem?-set_ne (x ∷ xs) (suc i) (suc j) v h = get_elem?-set_ne xs i j v (λ e. h (ap suc e))

  -- An index within the list has an element.
  pub get_elem?-some : (xs : List A) (i : ℕ) → i < length xs → (x : A) × (get_elem? xs i ≡ some x)
  get_elem?-some [] i h = elim h [ ]
  get_elem?-some (x ∷ xs) zero h = (x, refl)
  get_elem?-some (x ∷ xs) (suc i) h = get_elem?-some xs i (omega arith)

module _ {ℓ κ} {A : Type ℓ} {B : Type κ} where
  pub length-map : (f : A → B) (xs : List A) → length (map f xs) ≡ length xs
  length-map f [] = refl
  length-map f (x ∷ xs) = ap suc (length-map f xs)

  pub get_elem?-map :
      (f : A → B) (xs : List A) (i : ℕ) {x : A}
      → get_elem? xs i ≡ some x
      → get_elem? (map f xs) i ≡ some (f x)
  get_elem?-map f [] i h = absurd (ground arith)
  get_elem?-map f (x ∷ xs) zero h = ground arith
  get_elem?-map f (x ∷ xs) (suc i) h = get_elem?-map f xs i h
