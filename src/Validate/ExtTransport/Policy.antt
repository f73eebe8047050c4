-- ===== src/Validate/ExtTransport/Policy.antt =====
-- When git's `ext::` transport is accepted.
use celily.Prelude.{
  ◌≡◌, ◌≢◌, ◌↔◌, inl, inr, refl, sym, ◌∙◌, true, Option, none, some, List, arith, Bool-cases, ◌==◌,
  nat_eq, any,
}
use celily.Prelude.Fallible.{Result, ok, Result-cases}
use celily.Prelude.Text.{
  Text, text_eq, codes, to_ascii_lowercase, eq_ignore_ascii_case, eq_ignore_ascii_case_iff,
}
use celily.Prelude.Text.Split.{split}
use celily.Validate.ExtTransport.{
  CommandError, ConfigEntry, ExtError, lookup, is_outside, is_any, keep_always, or_else, of_entry,
  ext_policy, config_entries, judge, check_ext_transport_allowed,
}

-- The entry that git follows here says `user`, and the one that a submodule would follow does not
-- say `always`.
pub record IsAccepted (get_all : Text → Result CommandError Text) (allow_protocol : Option Text)
    : Type 0 where
  pub unset : allow_protocol ≡ none
  pub ext_allow : List ConfigEntry
  pub allow : List ConfigEntry
  pub ext_read : config_entries get_all (codes "protocol.ext.allow") ≡ ok ext_allow
  pub read : config_entries get_all (codes "protocol.allow") ≡ ok allow
  pub entry : ConfigEntry
  pub followed : lookup is_any ext_allow allow ≡ some entry
  pub user : to_ascii_lowercase entry.value ≡ codes "user"
  pub submodule_safe :
      (e : ConfigEntry)
      → lookup is_outside ext_allow allow ≡ some e
      → to_ascii_lowercase e.value ≢ codes "always"

judge_iff :
    (policy source : Text)
    → (judge (policy, source) ≡ ok tt) ↔ (to_ascii_lowercase policy ≡ codes "user")
judge_iff policy source =
    ground (arith, text_eq.same_iff (to_ascii_lowercase policy) (codes "user"))

always_lower : to_ascii_lowercase (codes "always") ≡ codes "always"
unfolding to_ascii_lowercase
always_lower = refl

user-ne-always : codes "user" ≢ codes "always"
user-ne-always h = cc

never_lower : to_ascii_lowercase (codes "never") ≢ codes "user"
unfolding to_ascii_lowercase
never_lower h = cc

always_iff :
    (e : ConfigEntry)
    → (eq_ignore_ascii_case e.value (codes "always") ≡ true)
      ↔ (to_ascii_lowercase e.value ≡ codes "always")
always_iff e =
    let (to, from) = eq_ignore_ascii_case_iff e.value (codes "always") in
    (λ h. to h ∙ always_lower, λ h. from (h ∙ sym always_lower))

-- The same for what the two lookups give.
abbrev SafeUser : Option ConfigEntry → Option ConfigEntry → Type 0
SafeUser outside here =
    (entry : ConfigEntry) × (here ≡ some entry)
    × (to_ascii_lowercase entry.value ≡ codes "user")
    × ((e : ConfigEntry) → outside ≡ some e → to_ascii_lowercase e.value ≢ codes "always")

abbrev judge_entry : Option ConfigEntry → Result ExtError (Unit {0})
judge_entry o = judge (of_entry o)

judge_entry_iff :
    (here : Option ConfigEntry)
    → (judge_entry here ≡ ok tt) ↔ (
        (entry : ConfigEntry) × (here ≡ some entry)
        × (to_ascii_lowercase entry.value ≡ codes "user"))
judge_entry_iff none =
    (λ h. absurd (never_lower ((judge_iff (codes "never") _).0 h)), λ h. absurd (ground arith))
judge_entry_iff (some e) =
    let (to, from) = judge_iff e.value (of_entry (some e)).1 in
    (λ h. (e, refl, to h), λ (entry, same, user). from (ground arith))

SafeUser-iff :
    (outside here : Option ConfigEntry)
    → (judge_entry (or_else (keep_always outside) here) ≡ ok tt) ↔ SafeUser outside here
SafeUser-iff none here =
    let (to, from) = judge_entry_iff here in
    (
      λ h. let (entry, same, user) = to h in (entry, same, user, λ e absent. absurd (ground arith)),
      λ (entry, same, user, safe). from (entry, same, user),
    )
SafeUser-iff (some e) here = elim (Bool-cases (eq_ignore_ascii_case e.value (codes "always"))) [
  | inl always ↦
      let lower = (always_iff e).0 always in
      rw always (
        λ h. absurd (user-ne-always (sym ((judge_iff e.value _).0 h) ∙ lower)),
        λ (entry, same, user, safe). absurd (safe e refl lower),
      )
  | inr other ↦
      let (to, from) = judge_entry_iff here in
      rw other (
        λ h.
            let (entry, same, user) = to h in
            (entry, same, user, λ x same_x lower. absurd (ground (arith, (always_iff x).1 lower))),
        λ (entry, same, user, safe). from (entry, same, user),
      )
]

-- Where `GIT_ALLOW_PROTOCOL` is set, the policy is never `user`.
listed-ne-user :
    (ext_allow allow : List ConfigEntry) (list : Text)
    → judge (ext_policy ext_allow allow (some list)) ≢ ok tt
unfolding ext_policy
listed-ne-user ext_allow allow list h =
    elim (Bool-cases (any (λ p. p == codes "ext") (split (λ c. c == b':') list))) [
      | inl e ↦ user-ne-always (sym ((judge_iff (codes "always") _).0 (rw e at h)) ∙ always_lower)
      | inr e ↦ never_lower ((judge_iff (codes "never") _).0 (rw e at h))
    ]

policy_iff :
    (ext_allow allow : List ConfigEntry) (allow_protocol : Option Text)
    → (judge (ext_policy ext_allow allow allow_protocol) ≡ ok tt) ↔ (
        (allow_protocol ≡ none)
        × SafeUser (lookup is_outside ext_allow allow) (lookup is_any ext_allow allow))
unfolding ext_policy
policy_iff ext_allow allow (some list) =
    (λ h. absurd (listed-ne-user ext_allow allow list h), λ h. absurd (ground arith))
policy_iff ext_allow allow none =
    let (to, from) =
      SafeUser-iff (lookup is_outside ext_allow allow) (lookup is_any ext_allow allow) in
    (λ h. (refl, to h), λ h. from h.1)

-- The ext:: transport is accepted exactly when GIT_ALLOW_PROTOCOL is unset, both keys can be read,
-- the entry that git follows says user, and the entry that a submodule would follow does not say
-- always, up to ASCII case.
pub check_ext_transport_allowed_iff :
    (get_all : Text → Result CommandError Text) (allow_protocol : Option Text)
    → (check_ext_transport_allowed get_all allow_protocol ≡ ok tt)
      ↔ IsAccepted get_all allow_protocol
unfolding check_ext_transport_allowed
check_ext_transport_allowed_iff get_all allow_protocol = (sound, complete)
  where
    sound :
        check_ext_transport_allowed get_all allow_protocol ≡ ok tt
        → IsAccepted get_all allow_protocol
    sound h = elim (Result-cases (config_entries get_all (codes "protocol.ext.allow"))) [
      | inr (error, e) ↦ absurd (ground arith)
      | inl (ext_allow, e) ↦ elim (Result-cases (config_entries get_all (codes "protocol.allow"))) [
        | inr (error, f) ↦ absurd (ground arith)
        | inl (allow, f) ↦
            let (unset, (entry, followed, user, safe)) =
              (policy_iff ext_allow allow allow_protocol).0 (ground arith) in
            record {
              unset = unset;
              ext_allow = ext_allow;
              allow = allow;
              ext_read = e;
              read = f;
              entry = entry;
              followed = followed;
              user = user;
              submodule_safe = safe;
            }
      ]
    ]

    complete :
        IsAccepted get_all allow_protocol
        → check_ext_transport_allowed get_all allow_protocol ≡ ok tt
    complete a =
        let judged =
          (policy_iff a.ext_allow a.allow allow_protocol).1
            (a.unset, (a.entry, a.followed, a.user, a.submodule_safe)) in
        ground (arith, a.ext_read, a.read, judged)
