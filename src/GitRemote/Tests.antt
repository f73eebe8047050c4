-- ===== src/GitRemote/Tests.antt =====
-- The URL and the settings of a remote, on examples.
use celily.Prelude.{
  ℕ, ◌≡◌, refl, Bool, true, false, Option, none, some, List, [], ◌∷◌, ◌++◌, map, ◌==◌, nat_eq,
  if◌then◌else◌,
}
use celily.Prelude.Fallible.{Result, ok, err}
use celily.Prelude.Text.{Text, text_eq, codes, strip_prefix}
use celily.Prelude.Text.Split.{join, push_head}
use celily.Effects.{History, run, bind}
use celily.GitRemote.{
  ext_url, replace, SandboxRemote, GitCommand, get, remove_section, not_sandbox, register,
  unregister, set_all, settings,
}
use celily.GitRemote.Url.{IsReader, read-ext_url}
use celily.GitRemote.Registered.{IsRegistered, changes, register-IsRegistered}

-- A reader of the URL's arguments, with whether a `%` has just been read.
unfoldable read_from : Bool → Text → List Text
read_from escaped [] = []
read_from true (c ∷ s) = push_head c (read_from false s)
read_from false (c ∷ s) =
    let next = read_from true s in
    let other = [] ∷ read_from false s in
    let plain = push_head c (read_from false s) in
    if c == b'%' then next else if c == b' ' then other else plain

read_from-IsReader : IsReader (read_from false)
unfolding read_from
read_from-IsReader = record {
  at_end = refl;
  at_percent = λ s. refl;
  at_escape = λ s. refl;
  at_space = λ s. refl;
  at_other = λ c s p q. rw (p, q) refl;
}

abbrev ext_arguments : List Text
ext_arguments = codes "a b" ∷ codes "50%" ∷ codes "--" ∷ codes "git" ∷ []

ext_url-arguments : ext_url (codes "lxc" ∷ ext_arguments) ≡ codes "ext::lxc a% b 50%% -- git"
unfolding ext_url replace join
ext_url-arguments = refl

-- The URL's arguments are read back.
read-ext_url_example :
    (s : Text) × (strip_prefix (codes "ext::") (ext_url (codes "lxc" ∷ ext_arguments)) ≡ some s)
    × (read_from false s ≡ codes "lxc" ∷ ext_arguments)
read-ext_url_example =
    read-ext_url (read_from false) read_from-IsReader (codes "lxc") ext_arguments refl

abbrev dev_remote : SandboxRemote
dev_remote = record { name = codes "dev"; url = codes "ext::lxc exec" }

-- The host's git answers every question with this text.
abbrev answering : Text → History GitCommand (Result ℕ Text) → GitCommand → Result ℕ Text
answering text h command = ok text

-- A remote of the user's is left alone.
register-other : run (answering (codes "https://x")) (register {E = ℕ} dev_remote) [] ≡ (
  err (not_sandbox (codes "https://x")),
  (get (codes "remote.dev.url"), ok (codes "https://x")) ∷ [],
)
unfolding register run bind set_all settings strip_prefix
register-other = refl

-- A stale remote of a sandbox is removed when its run ends.
unregister-own : run (answering (codes "ext::lxc exec")) (unregister {E = ℕ} dev_remote) [] ≡ (
  tt,
  (remove_section (codes "remote.dev"), ok (codes "ext::lxc exec"))
      ∷ (get (codes "remote.dev.url"), ok (codes "ext::lxc exec"))
      ∷ [],
)
unfolding unregister run celily.Prelude.Text.text_beq
unregister-own = refl

-- A stale remote makes room for the new settings.
register-IsRegistered_example :
    let (result, history) = run (answering (codes "ext::old")) (register {E = ℕ} dev_remote) [] in
    IsRegistered ℕ dev_remote (some (codes "ext::old")) result (changes history)
register-IsRegistered_example = register-IsRegistered ℕ dev_remote (answering (codes "ext::old"))
