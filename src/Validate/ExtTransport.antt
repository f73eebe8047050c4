-- ===== src/Validate/ExtTransport.antt =====
-- The `ext::` transport policy of celily/src/validate.rs, and git's answers as a parameter.
pub mod Policy
pub mod Entries
use celily.Prelude.{
  ℕ, Bool, true, false, not, ◌&&◌, ◌||◌, Option, none, some, List, [], ◌∷◌, ◌++◌, map, ◌==◌, nat_eq,
  if◌then◌else◌, any,
}
use celily.Prelude.Fallible.{Result, ok, err, ◌>>=◌, ◌>>◌}
use celily.Prelude.Text.{Text, text_eq, codes, to_ascii_lowercase, eq_ignore_ascii_case}
use celily.Prelude.Text.Split.{split, splitn}

-- `CommandError` of celily-lib, as far as the callers tell its cases apart.
pub data CommandError : Type 0 where
  non_zero : Option ℕ → CommandError
  other : CommandError

pub record ConfigEntry : Type 0 where
  pub key : Text
  pub scope : Text
  pub origin : Text
  pub value : Text

pub data ExtError : Type 0 where
  unreadable unexpected_output : Text → ExtError
  always_allowed not_allowed : Text → ExtError

-- The last element that passes: `iter().rfind`.
unfoldable pub rfind : (ConfigEntry → Bool) → List ConfigEntry → Option ConfigEntry
rfind p [] = none
rfind p (x ∷ xs) = elim (rfind p xs) [ some y ↦ some y | none ↦ if p x then some x else none ]

abbrev pub or_else : Option ConfigEntry → Option ConfigEntry → Option ConfigEntry
or_else (some e) o = some e
or_else none o = o

-- The last `protocol.ext.allow`, else the last `protocol.allow`.
abbrev pub lookup : (ConfigEntry → Bool) → List ConfigEntry → List ConfigEntry → Option ConfigEntry
lookup keep ext_allow allow = or_else (rfind keep ext_allow) (rfind keep allow)

-- Not of this repository: a submodule reads the entry too.
abbrev pub is_outside : ConfigEntry → Bool
is_outside e = not (e.scope == codes "local" || e.scope == codes "worktree")

abbrev pub is_any : ConfigEntry → Bool
is_any e = true

abbrev pub keep_always : Option ConfigEntry → Option ConfigEntry
keep_always none = none
keep_always (some e) = if eq_ignore_ascii_case e.value (codes "always") then some e else none

abbrev describe : ConfigEntry → Text
describe e =
    e.key
    ++ (codes " = " ++ (e.value ++ (codes ", " ++ (e.scope ++ (codes " scope, " ++ e.origin)))))

abbrev pub of_entry : Option ConfigEntry → Text × Text
of_entry none = (codes "never", codes "never, git's default")
of_entry (some e) = (e.value, describe e)

-- git's policy for `ext::` and where it comes from.
unfoldable pub ext_policy : List ConfigEntry → List ConfigEntry → Option Text → Text × Text
unfolding split
ext_policy ext_allow allow (some list) = (
  if any (λ p. p == codes "ext") (split (λ c. c == b':') list)
      then codes "always"
      else codes "never",
  codes "GIT_ALLOW_PROTOCOL=" ++ list,
)
ext_policy ext_allow allow none =
    of_entry
      (or_else (keep_always (lookup is_outside ext_allow allow)) (lookup is_any ext_allow allow))

-- `str::lines`: no line after the last line feed, and no carriage return before one.
unfoldable pub strip_cr : Text → Text
strip_cr [] = []
strip_cr (c ∷ []) = if c == 0x0d then [] else c ∷ []
strip_cr (c ∷ d ∷ s) = c ∷ strip_cr (d ∷ s)

abbrev is_blank : Text → Bool
is_blank [] = true
is_blank (_ ∷ _) = false

unfoldable pub drop_blank_end : List Text → List Text
drop_blank_end [] = []
drop_blank_end (l ∷ []) = if is_blank l then [] else l ∷ []
drop_blank_end (l ∷ m ∷ rest) = l ∷ drop_blank_end (m ∷ rest)

unfoldable pub lines : Text → List Text
unfolding strip_cr drop_blank_end split
lines s = map strip_cr (drop_blank_end (split (λ c. c == 0x0a) s))

-- One line of `git config --show-scope --show-origin --get-all`.
unfoldable pub parse_fields : Text → List Text → Result ExtError ConfigEntry
parse_fields key (scope ∷ origin ∷ value ∷ []) =
    ok (record { key = key; scope = scope; origin = origin; value = value })
parse_fields key _ = err (ExtError.unexpected_output key)

unfoldable pub parse_lines : Text → List Text → Result ExtError (List ConfigEntry)
unfolding parse_fields splitn
parse_lines key [] = ok []
parse_lines key (line ∷ rest) = do
  entry ← parse_fields key (splitn 2 0x09 line)
  entries ← parse_lines key rest
  ok (entry ∷ entries)

unfoldable pub parse_config_entries : Text → Text → Result ExtError (List ConfigEntry)
unfolding parse_lines lines
parse_config_entries key listing = parse_lines key (lines listing)

-- All values of a key: exit code 1 says that it is unset.
unfoldable pub config_entries :
    (Text → Result CommandError Text) → Text → Result ExtError (List ConfigEntry)
unfolding parse_config_entries
config_entries get_all key = elim (get_all key) [
  | ok listing ↦ parse_config_entries key listing
  | err (non_zero (some code)) ↦ if code == 1 then ok [] else err (ExtError.unreadable key)
  | err e ↦ err (ExtError.unreadable key)
]

abbrev pub judge : Text × Text → Result ExtError (Unit {0})
judge (policy, source) =
    if to_ascii_lowercase policy == codes "user"
    then ok tt
    else if to_ascii_lowercase policy == codes "always"
    then err (ExtError.always_allowed source)
    else err (ExtError.not_allowed source)

-- `get_all` runs `git config --get-all` in the project, `allow_protocol` is `GIT_ALLOW_PROTOCOL`.
unfoldable pub check_ext_transport_allowed :
    (Text → Result CommandError Text) → Option Text → Result ExtError (Unit {0})
unfolding config_entries ext_policy
check_ext_transport_allowed get_all allow_protocol = do
  ext_allow ← config_entries get_all (codes "protocol.ext.allow")
  allow ← config_entries get_all (codes "protocol.allow")
  judge (ext_policy ext_allow allow allow_protocol)
