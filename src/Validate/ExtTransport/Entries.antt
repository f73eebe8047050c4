-- ===== src/Validate/ExtTransport/Entries.antt =====
-- The lines of `git config`, as celily/src/validate.rs reads them.
use celily.Prelude.{
  ℕ, ◌≡◌, refl, sym, ap, ◌∙◌, Bool, List, [], ◌∷◌, ◌++◌, map, arith, ◌==◌, nat_eq, All,
}
use celily.Prelude.Fallible.{ok}
use celily.Prelude.Text.{Text}
use celily.Prelude.Text.Split.{
  split, splitn, Free, split-cons, split-append, split-eq-self_of_Free, split_once-append,
}
use celily.Validate.ExtTransport.{
  ConfigEntry, strip_cr, drop_blank_end, lines, parse_fields, parse_lines, parse_config_entries,
}

abbrev is_tab : ℕ → Bool
is_tab c = c == 0x09

abbrev is_newline : ℕ → Bool
is_newline c = c == 0x0a

-- The entry as a line of `git config --show-scope --show-origin --get-all`.
abbrev pub show_line : ConfigEntry → Text
show_line e = e.scope ++ 0x09 ∷ (e.origin ++ 0x09 ∷ e.value)

pub show_entries : List ConfigEntry → Text
show_entries [] = []
show_entries (e ∷ entries) = show_line e ++ 0x0a ∷ show_entries entries

-- An entry of the key whose line can be told apart.
pub record IsPlain (key : Text) (e : ConfigEntry) : Type 0 where
  pub key_same : e.key ≡ key
  pub scope_tab : Free (λ c. c == 0x09) e.scope
  pub origin_tab : Free (λ c. c == 0x09) e.origin
  pub one_line : Free (λ c. c == 0x0a) (show_line e)
  pub no_return : strip_cr (show_line e) ≡ show_line e

drop_blank_end-cons :
    (l : Text) (rest : List Text) (s : Text) (more : List Text)
    → rest ≡ s ∷ more
    → drop_blank_end (l ∷ rest) ≡ l ∷ drop_blank_end rest
unfolding drop_blank_end
drop_blank_end-cons l rest s more e = rw e refl

lines-nil : lines [] ≡ []
unfolding lines
lines-nil = refl

lines-append :
    (line rest : Text)
    → Free (λ c. c == 0x0a) line
    → lines (line ++ 0x0a ∷ rest) ≡ strip_cr line ∷ lines rest
unfolding lines
lines-append line rest free =
    let (s, more, e) = split-cons is_newline rest in
    let cut : split is_newline (line ++ 0x0a ∷ rest) ≡ line ∷ split is_newline rest =
      split-append is_newline line 0x0a rest refl
      ∙ ap (λ (xs : List Text). xs ++ split is_newline rest)
          (split-eq-self_of_Free is_newline line free) in
    ap (λ (xs : List Text). map strip_cr (drop_blank_end xs)) cut
    ∙ ap (map strip_cr) (drop_blank_end-cons line (split is_newline rest) s more e)

lines-show :
    (key : Text) (entries : List ConfigEntry)
    → All (IsPlain key) entries
    → lines (show_entries entries) ≡ map show_line entries
unfolding show_entries
lines-show key [] plain = lines-nil
lines-show key (e ∷ entries) plain =
    lines-append (show_line e) (show_entries entries) plain.0.one_line
    ∙ ap (λ (l : Text). l ∷ lines (show_entries entries)) plain.0.no_return
    ∙ ap (λ (ls : List Text). show_line e ∷ ls) (lines-show key entries plain.1)

splitn-show :
    (key : Text) (e : ConfigEntry)
    → IsPlain key e
    → splitn 2 0x09 (show_line e) ≡ e.scope ∷ e.origin ∷ e.value ∷ []
unfolding splitn
splitn-show key e plain = ground (
  arith,
  split_once-append 0x09 e.scope (e.origin ++ 0x09 ∷ e.value) plain.scope_tab,
  split_once-append 0x09 e.origin e.value plain.origin_tab,
)

parse_line-show :
    (key : Text) (e : ConfigEntry)
    → IsPlain key e
    → parse_fields key (splitn 2 0x09 (show_line e)) ≡ ok e
unfolding parse_fields
parse_line-show key e plain =
    ap (parse_fields key) (splitn-show key e plain)
    ∙ ap
        (λ (k : Text). ok (record { key = k; scope = e.scope; origin = e.origin; value = e.value }))
        (sym plain.key_same)

parse_lines-show :
    (key : Text) (entries : List ConfigEntry)
    → All (IsPlain key) entries
    → parse_lines key (map show_line entries) ≡ ok entries
unfolding parse_lines
parse_lines-show key [] plain = refl
parse_lines-show key (e ∷ entries) plain =
    ground (arith, parse_line-show key e plain.0, parse_lines-show key entries plain.1)

-- The entries of a key, printed one on a line, are read back, if no scope or origin holds a tab, no
-- line holds a line feed, and none ends with a carriage return.
pub parse_config_entries-show :
    (key : Text) (entries : List ConfigEntry)
    → All (IsPlain key) entries
    → parse_config_entries key (show_entries entries) ≡ ok entries
unfolding parse_config_entries
parse_config_entries-show key entries plain =
    ap (parse_lines key) (lines-show key entries plain) ∙ parse_lines-show key entries plain
