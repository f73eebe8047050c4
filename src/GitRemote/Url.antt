-- ===== src/GitRemote/Url.antt =====
-- What git reads back from an ext:: URL.
use celily.Prelude.{
  ℕ, ◌≡◌, refl, sym, ap, ◌∙◌, false, some, List, [], ◌∷◌, ◌++◌, map, inl, inr, Bool-cases,
  append-nil, is_empty, ◌==◌, nat_eq,
}
use celily.Prelude.Text.{Text, codes, strip_prefix}
use celily.Prelude.Text.Split.{join, push_head}
use celily.GitRemote.{replace, escape, ext_url}

-- git's reading of what follows `ext::`: a space ends an argument, `%` takes the space or the `%`
-- after it as it is, and nothing after the last space is no argument.
pub record IsReader (read : Text → List Text) : Type 0 where
  pub at_end : read [] ≡ []
  pub at_percent : (s : Text) → read (b'%' ∷ b'%' ∷ s) ≡ push_head b'%' (read s)
  pub at_escape : (s : Text) → read (b'%' ∷ b' ' ∷ s) ≡ push_head b' ' (read s)
  pub at_space : (s : Text) → read (b' ' ∷ s) ≡ [] ∷ read s
  pub at_other :
      (c : ℕ) (s : Text)
      → (c == b'%') ≡ false
      → (c == b' ') ≡ false
      → read (c ∷ s) ≡ push_head c (read s)

-- The text goes before the first argument.
abbrev push_text : Text → List Text → List Text
push_text [] args = args
push_text (c ∷ s) args = push_head c (push_text s args)

push_text-cons :
    (s first : Text) (args : List Text) → push_text s (first ∷ args) ≡ (s ++ first) ∷ args
push_text-cons [] first args = refl
push_text-cons (c ∷ s) first args = ap (push_head c) (push_text-cons s first args)

push_text-nil : (s : Text) → is_empty s ≡ false → push_text s [] ≡ s ∷ []
push_text-nil [] h = cc
push_text-nil (c ∷ []) h = refl
push_text-nil (c ∷ d ∷ s) h = ap (push_head c) (push_text-nil (d ∷ s) refl)

abbrev pub last : Text → List Text → Text
last arg [] = arg
last arg (next ∷ args) = last next args

module _ (read : Text → List Text) (reader : IsReader read) where
  -- An escaped text goes before the first argument of the rest.
  read-escape : (s rest : Text) → read (escape s ++ rest) ≡ push_text s (read rest)
  unfolding replace
  read-escape [] rest = refl
  read-escape (c ∷ s) rest = elim (Bool-cases (c == b'%')) [
    | inl percent ↦
        let e : c ≡ b'%' = (nat_eq.same_iff c b'%').0 percent in
        rw e (reader.at_percent (escape s ++ rest) ∙ ap (push_head b'%') (read-escape s rest))
    | inr other ↦ elim (Bool-cases (c == b' ')) [
      | inl space ↦
          let e : c ≡ b' ' = (nat_eq.same_iff c b' ').0 space in
          rw e (reader.at_escape (escape s ++ rest) ∙ ap (push_head b' ') (read-escape s rest))
      | inr plain ↦
          rw (other, plain)
            (reader.at_other c (escape s ++ rest) other plain
              ∙ ap (push_head c) (read-escape s rest))
    ]
  ]

  read-join :
      (arg : Text) (args : List Text)
      → is_empty (last arg args) ≡ false
      → read (join (codes " ") (map escape (arg ∷ args))) ≡ arg ∷ args
  unfolding join
  read-join arg [] h =
      ap read (sym (append-nil (escape arg)))
      ∙ read-escape arg []
      ∙ ap (push_text arg) reader.at_end
      ∙ push_text-nil arg h
  read-join arg (next ∷ args) h =
      let others = join (codes " ") (map escape (next ∷ args)) in
      read-escape arg (b' ' ∷ others)
      ∙ ap (push_text arg) (reader.at_space others ∙ ap (λ rest. [] ∷ rest) (read-join next args h))
      ∙ push_text-cons arg [] (next ∷ args)
      ∙ ap (λ first. first ∷ next ∷ args) (append-nil arg)

  -- If a reader of ext:: arguments ends an argument at a space, takes a space or a percent sign
  -- after a percent sign as it is, and reads no argument from nothing, the URL of a list of
  -- arguments whose last one is not empty begins with ext::, and the reader gets exactly these
  -- arguments from what follows.
  pub read-ext_url :
      (arg : Text) (args : List Text)
      → is_empty (last arg args) ≡ false
      → (s : Text) × (strip_prefix (codes "ext::") (ext_url (arg ∷ args)) ≡ some s)
        × (read s ≡ arg ∷ args)
  unfolding ext_url strip_prefix
  read-ext_url arg args h = (join (codes " ") (map escape (arg ∷ args)), refl, read-join arg args h)
