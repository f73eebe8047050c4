-- ===== src/GitRemote.antt =====
-- celily/src/git_remote.rs, with util/git.rs: the remote of the host's repository that fetches from
-- an instance.
pub mod Url
pub mod Registered
mod Tests
use celily.Prelude.{
  ℕ, Bool, true, false, Option, none, some, List, [], ◌∷◌, ◌++◌, map, ◌==◌, nat_eq, if◌then◌else◌,
}
use celily.Prelude.Text.{Text, text_eq, codes, strip_prefix}
use celily.Prelude.Text.Split.{join}
use celily.Prelude.Fallible.{Result, ok, err}
use celily.Effects.{Program, Action, done, ask, bind, exec, ◌>>=◌, ◌>>◌, lift}

-- `str::replace`, of each occurrence of one character
unfoldable pub replace : ℕ → Text → Text → Text
replace c by [] = []
replace c by (d ∷ s) = let rest = replace c by s in if d == c then by ++ rest else d ∷ rest

abbrev pub escape : Text → Text
escape arg = replace b' ' (codes "% ") (replace b'%' (codes "%%") arg)

-- The URL that has git run the arguments.
unfoldable pub ext_url : List Text → Text
unfolding replace join
ext_url argv = codes "ext::" ++ join (codes " ") (map escape argv)

pub record SandboxRemote : Type 0 where
  pub name : Text
  pub url : Text

-- The remote of a branch, whose URL runs upload-pack on the worktree in the instance.
unfoldable pub new : Text → Text → (List Text → List Text) → SandboxRemote
unfolding ext_url
new branch worktree exec_argv = record {
  name = branch;
  url = ext_url (exec_argv (codes "git" ∷ codes "upload-pack" ∷ worktree ∷ []));
}

-- What is asked of the host's git: the value of a key, to set one, or to remove a section.
pub data GitCommand : Type 0 where
  get : Text → GitCommand
  set : Text → Text → GitCommand
  remove_section : Text → GitCommand

-- git's arguments for each.
unfoldable pub git_args : GitCommand → List Text
git_args (get key) = codes "config" ∷ key ∷ []
git_args (set key value) = codes "config" ∷ key ∷ value ∷ []
git_args (remove_section section) = codes "config" ∷ codes "--remove-section" ∷ section ∷ []

-- `git_config`: no value where git fails or prints nothing.
abbrev pub value_of : {E : Type 0} → Result E Text → Option Text
value_of (err _) = none
value_of (ok []) = none
value_of (ok (c ∷ s)) = some (c ∷ s)

-- The remote of that name is the user's, or git failed.
pub data RemoteError (E : Type 0) : Type 0 where
  not_sandbox : Text → RemoteError E
  git_failed : E → RemoteError E

abbrev pub Git : Type 0 → Type 0 → Type 0
Git E A = Action GitCommand (Result E Text) (RemoteError E) A

abbrev pub section_of : SandboxRemote → Text
section_of remote = codes "remote." ++ remote.name

abbrev pub key_of : SandboxRemote → Text → Text
key_of remote key = section_of remote ++ b'.' ∷ key

abbrev pub refspec : SandboxRemote → Text
refspec remote = codes "+refs/heads/" ++ (remote.name ++ (codes ":refs/heads/" ++ remote.name))

-- The settings of a remote, in order: nothing but its branch is ever fetched, and only on request.
unfoldable pub settings : SandboxRemote → List (Text × Text)
settings remote =
    (codes "url", remote.url)
    ∷ (codes "fetch", refspec remote)
    ∷ (codes "tagOpt", codes "--no-tags")
    ∷ (codes "prune", codes "false")
    ∷ (codes "pruneTags", codes "false")
    ∷ (codes "skipFetchAll", codes "true")
    ∷ []

abbrev pub is_ext : Text → Bool
is_ext url = elim (strip_prefix (codes "ext::") url) [ none ↦ false | some _ ↦ true ]

abbrev pub has_url : SandboxRemote → Option Text → Bool
has_url remote none = false
has_url remote (some url) = url == remote.url

module _ {E : Type 0} (remote : SandboxRemote) where
  -- A command of git for its effect.
  abbrev pub git : GitCommand → Git E (Unit {0})
  git command =
      ask command (λ answer. done (elim answer [ ok _ ↦ ok tt | err e ↦ err (git_failed e) ]))

  unfoldable pub set_all : List (Text × Text) → Git E (Unit {0})
  unfolding bind
  set_all [] = lift (ok tt)
  set_all ((key, value) ∷ rest) = do git (set (key_of remote key) value); set_all rest

  -- A stale remote of a sandbox is replaced; any other of that name is left alone.
  abbrev pub replace_stale : Text → Bool → Git E (Unit {0})
  replace_stale existing false = lift (err (not_sandbox existing))
  replace_stale existing true = git (remove_section (section_of remote))

  abbrev pub make_room : Option Text → Git E (Unit {0})
  make_room none = lift (ok tt)
  make_room (some existing) = replace_stale existing (is_ext existing)

  abbrev pub current : Git E (Option Text)
  current = ask (get (key_of remote (codes "url"))) (λ answer. done (ok (value_of answer)))

  unfoldable pub register : Git E (Unit {0})
  unfolding bind set_all settings strip_prefix
  register = do existing ← current; make_room existing; set_all (settings remote)

  -- Only the remote that has this URL is removed.
  abbrev pub remove_own : Bool → Program GitCommand (Result E Text) (Unit {0})
  remove_own false = done tt
  remove_own true = ask (remove_section (section_of remote)) (λ _. done tt)

  unfoldable pub unregister : Program GitCommand (Result E Text) (Unit {0})
  unregister =
      ask (get (key_of remote (codes "url")))
        (λ answer. remove_own (has_url remote (value_of answer)))
