-- ===== src/GitRemote/Registered.antt =====
-- What `register` changes in the configuration of the host's repository.
use celily.Prelude.{◌≡◌, refl, ◌⊎◌, inl, inr, Bool, true, false, Option, none, some, List, [], ◌∷◌}
use celily.Prelude.Fallible.{Result, ok, err}
use celily.Prelude.Text.{Text, codes}
use celily.Effects.{History, run, bind, ◌>>=◌}
use celily.Effects.Reaches.{Reaches, Then, Reaches->>=, Reaches-mono, run-Reaches}
use celily.GitRemote.{
  SandboxRemote, GitCommand, get, set, remove_section, RemoteError, git_failed, Git, git, set_all,
  settings, replace_stale, make_room, register, value_of, is_ext, key_of, section_of,
}

-- The changes asked for, the latest first, with whether git made them.
abbrev pub Changes : Type 0
Changes = List (GitCommand × Bool)

module _ {E : Type 0} where
  abbrev is_ok : Result E Text → Bool
  is_ok (ok _) = true
  is_ok (err _) = false

  abbrev change : GitCommand → Result E Text → Changes → Changes
  change (get key) answer log = log
  change (set key value) answer log = (set key value, is_ok answer) ∷ log
  change (remove_section section) answer log = (remove_section section, is_ok answer) ∷ log

  abbrev pub changes : History GitCommand (Result E Text) → Changes
  changes [] = []
  changes ((command, answer) ∷ h) = change command answer (changes h)

-- The settings were all made, in order, after the changes of the log.
abbrev pub applied : SandboxRemote → List (Text × Text) → Changes → Changes
applied remote [] log = log
applied remote ((key, value) ∷ rest) log =
    applied remote rest ((set (key_of remote key) value, true) ∷ log)

module _ (E : Type 0) (remote : SandboxRemote) where
  -- Success: all settings are made, after the removal of what was a sandbox's remote. An error: a
  -- remote that is no sandbox's is as it was.
  abbrev pub IsRegistered : Option Text → Result (RemoteError E) (Unit {0}) → Changes → Type 0
  IsRegistered none (ok _) log = log ≡ applied remote (settings remote) []
  IsRegistered none (err _) log = Unit {0}
  IsRegistered (some url) (ok _) log =
      (is_ext url ≡ true)
      × (log ≡ applied remote (settings remote) ((remove_section (section_of remote), true) ∷ []))
  IsRegistered (some url) (err _) log = (is_ext url ≡ true) ⊎ (log ≡ [])

  abbrev IsApplied :
      List (Text × Text) → Changes → Result (RemoteError E) (Unit {0}) → Changes → Type 0
  IsApplied entries before (ok _) log = log ≡ applied remote entries before
  IsApplied entries before (err _) log = Unit {0}

  -- One command of git: after it, the changes made count, and an error ends the code.
  git-Reaches :
      (Q : Result (RemoteError E) (Unit {0}) → Changes → Type 0) (command : GitCommand)
      (next : Unit {0} → Git E (Unit {0})) (log : Changes)
      → ((t : Text) → Reaches (change {E = E}) Q (next tt) (change {E = E} command (ok t) log))
      → ((e : E) → Q (err (git_failed e)) (change command (err e) log))
      → Reaches (change {E = E}) Q (git {E = E} remote command >>= next) log
  git-Reaches Q command next log on_ok on_err =
      Reaches->>= change Q (git {E = E} remote command) next log (λ r. answered r)
    where
      answered :
          (r : Result E Text)
          → Then
              (change {E = E})
              Q
              next
              (elim r [ ok _ ↦ ok tt | err e ↦ err (git_failed e) ])
              (change command r log)
      answered (ok t) = on_ok t
      answered (err e) = on_err e

  set_all-IsApplied :
      (entries : List (Text × Text)) (log : Changes)
      → Reaches (change {E = E}) (IsApplied entries log) (set_all {E = E} remote entries) log
  unfolding set_all
  set_all-IsApplied [] log = refl
  set_all-IsApplied ((key, value) ∷ rest) log =
      git-Reaches (IsApplied ((key, value) ∷ rest) log) (set (key_of remote key) value)
        (λ _. set_all {E = E} remote rest) log
        (λ t.
          Reaches-mono change _ _ (IsApplied-cons) (set_all {E = E} remote rest) _
            (set_all-IsApplied rest ((set (key_of remote key) value, true) ∷ log)))
        (λ e. tt)
    where
      IsApplied-cons :
          (m : Result (RemoteError E) (Unit {0})) (after : Changes)
          → IsApplied rest ((set (key_of remote key) value, true) ∷ log) m after
          → IsApplied ((key, value) ∷ rest) log m after
      IsApplied-cons (ok _) after h = h
      IsApplied-cons (err _) after h = tt

  make_room-IsRegistered :
      (url : Text) (stale : Bool)
      → is_ext url ≡ stale
      → Reaches
          (change {E = E})
          (IsRegistered (some url))
          (replace_stale {E = E} remote url stale
            >>= (λ _. set_all {E = E} remote (settings remote)))
          []
  unfolding bind
  make_room-IsRegistered url false e = inr refl
  make_room-IsRegistered url true e =
      git-Reaches (IsRegistered (some url)) (remove_section (section_of remote))
        (λ _. set_all {E = E} remote (settings remote)) []
        (λ t.
          Reaches-mono change _ _ with_room (set_all {E = E} remote (settings remote)) _
            (set_all-IsApplied (settings remote) ((remove_section (section_of remote), true) ∷ [])))
        (λ _. inl e)
    where
      with_room :
          (m : Result (RemoteError E) (Unit {0})) (after : Changes)
          → IsApplied (settings remote) ((remove_section (section_of remote), true) ∷ []) m after
          → IsRegistered (some url) m after
      with_room (ok _) after h = (e, h)
      with_room (err _) after h = inl e

  rest-IsRegistered :
      (existing : Option Text)
      → Reaches
          (change {E = E})
          (IsRegistered existing)
          (make_room {E = E} remote existing >>= (λ _. set_all {E = E} remote (settings remote)))
          []
  unfolding bind
  rest-IsRegistered none =
      Reaches-mono change _ _ without_room (set_all {E = E} remote (settings remote)) []
        (set_all-IsApplied (settings remote) [])
    where
      without_room :
          (m : Result (RemoteError E) (Unit {0})) (after : Changes)
          → IsApplied (settings remote) [] m after
          → IsRegistered none m after
      without_room (ok _) after h = h
      without_room (err _) after h = tt
  rest-IsRegistered (some url) = make_room-IsRegistered url (is_ext url) refl

  -- However git answers: if register succeeds, git made all settings of the remote in order, after
  -- the removal of the section of that name if a URL was set there, which then began with ext::,
  -- and no other change was asked for. If register fails and a URL was set that does not begin with
  -- ext::, no change was asked for.
  pub register-IsRegistered :
      (world : History GitCommand (Result E Text) → GitCommand → Result E Text)
      → let (result, history) = run world (register {E = E} remote) [] in
        IsRegistered
          (value_of (world [] (get (key_of remote (codes "url")))))
          result
          (changes history)
  unfolding register bind run
  register-IsRegistered world =
      let answer : Result E Text = world [] (get (key_of remote (codes "url"))) in
      run-Reaches change (IsRegistered (value_of answer)) changes (λ c r h. refl) world
        (make_room {E = E} remote (value_of answer)
          >>= (λ _. set_all {E = E} remote (settings remote)))
        ((get (key_of remote (codes "url")), answer) ∷ []) (rest-IsRegistered (value_of answer))
