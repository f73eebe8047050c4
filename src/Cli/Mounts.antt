-- ===== src/Cli/Mounts.antt =====
-- The mounts that an argument can ask for.
use celily.Prelude.{
  ℕ, zero, suc, ◌≡◌, refl, sym, ap, ◌∙◌, ◌↔◌, ◌⊎◌, inl, inr, Bool, true, false, Option, none, some,
  List, [], ◌∷◌, ◌++◌, arith, Bool-cases, Option-cases, ◌==◌, nat_eq, if◌then◌else◌,
}
use celily.Prelude.Fallible.{ok, Result-cases}
use celily.Prelude.Text.{Text, codes, text_eq}
use celily.Prelude.Text.Split.{split_once, splitn, Free, split_once-append}
use celily.Backend.Mount.{AccessMode, read_only, read_write, WrittenMount}
use celily.Cli.{parse_access, mount_of, mount_of_parts, parse_cli_mount}

abbrev pub access_name : AccessMode → Text
access_name read_only = codes "readonly"
access_name read_write = codes "readwrite"

-- The ways to write an argument: with an access, or for a read-only mount without one.
pub data IsWritten (source target : Text) : AccessMode → Text → Type 0 where
  short : IsWritten source target read_only (source ++ b':' ∷ target)
  long :
      (access : AccessMode)
      → IsWritten source target access (source ++ b':' ∷ (target ++ b':' ∷ access_name access))

split_once-none : (c : ℕ) (s : Text) → Free (λ d. d == c) s → split_once c s ≡ none
unfolding split_once
split_once-none c [] h = refl
split_once-none c (d ∷ s) h = rw (h.0, split_once-none c s h.1) refl

parse_access-access_name : (access : AccessMode) → parse_access (access_name access) ≡ ok access
unfolding parse_access celily.Prelude.Text.text_beq
parse_access-access_name read_only = refl
parse_access-access_name read_write = refl

Free-of_none : (c : ℕ) (s : Text) → split_once c s ≡ none → Free (λ d. d == c) s
unfolding split_once
Free-of_none c [] h = tt
Free-of_none c (d ∷ s) h = elim (Bool-cases (d == c)) [
  | inl e ↦ ground arith
  | inr e ↦ elim (Option-cases (split_once c s)) [
    | inl n ↦ (e, Free-of_none c s n)
    | inr (p, q) ↦ ground arith
  ]
]

split_once_sound :
    (c : ℕ) (s a b : Text) → split_once c s ≡ some (a, b) → (s ≡ a ++ c ∷ b) × Free (λ d. d == c) a
unfolding split_once
split_once_sound c [] a b h = ground arith
split_once_sound c (d ∷ s) a b h = elim (Bool-cases (d == c)) [
  | inl e ↦ ground (arith, (nat_eq.same_iff d c).0 e)
  | inr e ↦ elim (Option-cases (split_once c s)) [
    | inl n ↦ ground arith
    | inr ((x, y), q) ↦ ground (arith, split_once_sound c s x y q)
  ]
]

parse_access_sound :
    (flag : Text) (access : AccessMode) → parse_access flag ≡ ok access → flag ≡ access_name access
unfolding parse_access
parse_access_sound flag access h = elim (Bool-cases (flag == codes "readonly")) [
  | inl e ↦ ground (arith, (text_eq.same_iff flag (codes "readonly")).0 e)
  | inr e ↦ elim (Bool-cases (flag == codes "readwrite")) [
    | inl f ↦ ground (arith, (text_eq.same_iff flag (codes "readwrite")).0 f)
    | inr f ↦ ground arith
  ]
]

-- The argument asks for the mount: the source and the target hold no colon.
pub record Asks (s : Text) (m : WrittenMount) : Type 0 where
  pub source_free : Free (λ c. c == b':') m.source
  pub target_free : Free (λ c. c == b':') m.target
  pub written : IsWritten m.source m.target m.access s

splitn-whole : (n : ℕ) (s : Text) → split_once b':' s ≡ none → splitn (suc n) b':' s ≡ s ∷ []
unfolding splitn
splitn-whole n s h = rw (splitn, h) refl

splitn-cut :
    (n : ℕ) (s a b : Text)
    → split_once b':' s ≡ some (a, b)
    → splitn (suc n) b':' s ≡ a ∷ splitn n b':' b
unfolding splitn
splitn-cut n s a b h = rw (splitn, h) refl

-- The last part is not cut further.
splitn-cuts :
    (s a rest b t : Text)
    → split_once b':' s ≡ some (a, rest)
    → split_once b':' rest ≡ some (b, t)
    → splitn 2 b':' s ≡ a ∷ b ∷ t ∷ []
unfolding splitn
splitn-cuts s a rest b t h k =
    splitn-cut 1 s a rest h ∙ ap (λ parts. a ∷ parts) (splitn-cut 0 rest b t k)

splitn-one :
    (s a b : Text)
    → split_once b':' s ≡ some (a, b)
    → split_once b':' b ≡ none
    → splitn 2 b':' s ≡ a ∷ b ∷ []
splitn-one s a b h k = splitn-cut 1 s a b h ∙ ap (λ parts. a ∷ parts) (splitn-whole 0 b k)

parse_cli_mount-IsWritten :
    (source target : Text) (access : AccessMode) (s : Text)
    → Free (λ c. c == b':') source
    → Free (λ c. c == b':') target
    → IsWritten source target access s
    → parse_cli_mount s ≡ mount_of source target (ok access)
unfolding parse_cli_mount
parse_cli_mount-IsWritten source target _ s hs ht short = ap (mount_of_parts s) (
    splitn-one s source target (split_once-append b':' source target hs)
      (split_once-none b':' target ht))
parse_cli_mount-IsWritten source target _ s hs ht (long access) =
    ap (mount_of_parts s) (
      splitn-cuts s source (target ++ b':' ∷ access_name access) target (access_name access)
        (split_once-append b':' source (target ++ b':' ∷ access_name access) hs)
        (split_once-append b':' target (access_name access) ht))
    ∙ ap (mount_of source target) (parse_access-access_name access)

one-Asks : (s : Text) (m : WrittenMount) → mount_of_parts s (s ∷ []) ≡ ok m → Asks s m
one-Asks s m h = ground arith

mount_of-Asks :
    (s source target : Text) (access : AccessMode) (m : WrittenMount)
    → Free (λ c. c == b':') source
    → Free (λ c. c == b':') target
    → mount_of source target (ok access) ≡ ok m
    → IsWritten source target access s
    → Asks s m
mount_of-Asks s source target access m source_free target_free h written =
    let e : m ≡ record { source = source; target = target; access = access } = cc in
    rw e (record { source_free = source_free; target_free = target_free; written = written })

short-Asks :
    (s source target : Text) (m : WrittenMount)
    → (s ≡ source ++ b':' ∷ target) × Free (λ c. c == b':') source
    → Free (λ c. c == b':') target
    → mount_of source target (ok read_only) ≡ ok m
    → Asks s m
short-Asks s source target m whole free h =
    mount_of-Asks s source target read_only m whole.1 free h (rw whole.0 short)

long-Asks :
    (s source rest target flag : Text) (m : WrittenMount)
    → (s ≡ source ++ b':' ∷ rest) × Free (λ c. c == b':') source
    → (rest ≡ target ++ b':' ∷ flag) × Free (λ c. c == b':') target
    → mount_of source target (parse_access flag) ≡ ok m
    → Asks s m
long-Asks s source rest target flag m whole cut h = elim (Result-cases (parse_access flag)) [
  | inl (access, e) ↦
      mount_of-Asks s source target access m whole.1 cut.1 (sym (ap (mount_of source target) e) ∙ h)
        (rw (whole.0, cut.0, parse_access_sound flag access e) (long access))
  | inr (x, e) ↦ ground arith
]

parse_cli_mount-Asks : (s : Text) (m : WrittenMount) → parse_cli_mount s ≡ ok m → Asks s m
unfolding parse_cli_mount
parse_cli_mount-Asks s m h = elim (Option-cases (split_once b':' s)) [
  | inl n ↦ one-Asks s m (sym (ap (mount_of_parts s) (splitn-whole 1 s n)) ∙ h)
  | inr ((source, rest), e) ↦ elim (Option-cases (split_once b':' rest)) [
    | inl n ↦
        short-Asks s source rest m (split_once_sound b':' s source rest e)
          (Free-of_none b':' rest n)
          (sym (ap (mount_of_parts s) (splitn-one s source rest e n)) ∙ h)
    | inr ((target, flag), f) ↦
        long-Asks s source rest target flag m (split_once_sound b':' s source rest e)
          (split_once_sound b':' rest target flag f)
          (sym (ap (mount_of_parts s) (splitn-cuts s source rest target flag e f)) ∙ h)
  ]
]

-- An argument is parsed to a mount exactly when it is a source and a target without colons, with a
-- colon between them, and either nothing more, for a read-only mount, or a colon and the word of
-- the access of the mount, and these are the source and the target of the mount.
pub parse_cli_mount_iff : (s : Text) (m : WrittenMount) → (parse_cli_mount s ≡ ok m) ↔ Asks s m
parse_cli_mount_iff s m = (
  parse_cli_mount-Asks s m,
  λ a. parse_cli_mount-IsWritten m.source m.target m.access s a.source_free a.target_free a.written,
)
