-- ===== src/Validate/Tests.antt =====
-- Runs of the validation on a small file system.
use celily.Prelude.{
  ℕ, ◌≡◌, ◌↔◌, refl, true, false, none, some, [], ◌∷◌, ◌++◌, ◌==◌, nat_eq, All, All-of_mem, any,
  any-false, if◌then◌else◌,
}
use celily.Prelude.Fallible.{Result, ok, err}
use celily.Prelude.Text.{Text, text_beq, text_eq, codes}
use celily.Prelude.Text.Split.{split}
use celily.Paths.{
  FilePath, root, components, join, strip_path, path_beq, is_under_or_eq, normal_pieces,
}
use celily.Paths.Raw.{display, join_text, absolute}
use celily.Paths.Under.{path_eq}
use celily.Validate.Files.{
  FileSystem, ValidateError, canonicalize_in_home, parent, ancestors, written_ancestors,
  refuse_symlinks,
}
use celily.Validate.Forbidden.{Forbidden, under, check, check_all}
use celily.Validate.MountSource.{validate_mount_source}
use celily.Validate.MountSource.Mountable.{IsMountable, validate_mount_source_iff}
use celily.Validate.ProxyConnect.{
  runtime_dir_of, build_proxy_forbidden_list, refuse_writable, validate_proxy_connect,
}
use celily.Validate.ProxyConnect.Proxyable.{IsProxyable, validate_proxy_connect_iff}
use celily.Validate.ExtTransport.{
  CommandError, non_zero, ConfigEntry, check_ext_transport_allowed, strip_cr,
}
use celily.Validate.ExtTransport.Policy.{IsAccepted, check_ext_transport_allowed_iff}
use celily.Validate.ExtTransport.Entries.{IsPlain, show_line}
use celily.Validate.Worktree.{Git, validate_worktree_preconditions}
use celily.Validate.Worktree.Ready.{IsReady, validate_worktree_preconditions_iff}

abbrev home : FilePath
home = root ∷ codes "home" ∷ codes "dev" ∷ []

abbrev project : FilePath
project = home ++ codes "project" ∷ []

abbrev runtime : FilePath
runtime = root ∷ codes "run" ∷ []

-- Every path is its own resolution, and a directory.
abbrev disk : FileSystem
disk = record {
  current_dir = none;
  canonicalize = λ p. some (components p);
  is_symlink = λ p. false;
  is_dir = λ p. true;
  is_file = λ p. false;
  exists = λ p. true;
}

abbrev keys : Forbidden
keys = Forbidden.subtree (home ++ codes ".ssh" ∷ []) (codes "~/.ssh")

validate_mount_source_iff_example :
    (validate_mount_source disk (codes "/home/dev/project") home (keys ∷ []) (project ∷ []) []
      ≡ ok project)
    ↔ IsMountable disk (codes "/home/dev/project") home (keys ∷ []) (project ∷ []) [] project
validate_mount_source_iff_example =
    validate_mount_source_iff disk (codes "/home/dev/project") home (keys ∷ []) (project ∷ []) []
      project

abbrev socket : FilePath
socket = runtime ++ codes "player.sock" ∷ []

validate_proxy_connect_iff_example :
    (validate_proxy_connect disk (codes "unix:/run/player.sock") home (some (codes "/run")) 1000 []
      ≡ ok socket)
    ↔ IsProxyable disk
        (codes "unix:/run/player.sock")
        home
        (runtime_dir_of disk (some (codes "/run")) 1000)
        []
        socket
validate_proxy_connect_iff_example =
    validate_proxy_connect_iff disk (codes "unix:/run/player.sock") home (some (codes "/run")) 1000
      [] socket

player_accepted :
    validate_proxy_connect disk (codes "unix:/run/player.sock") home (some (codes "/run")) 1000 []
    ≡ ok socket
unfolding validate_proxy_connect canonicalize_in_home absolute written_ancestors ancestors
    refuse_symlinks parent components check_all check build_proxy_forbidden_list runtime_dir_of
    under join is_under_or_eq path_beq strip_path refuse_writable text_beq split normal_pieces
player_accepted = refl

-- A directory of the home with one symlink: with a slash at its end, it is what it leads to.
abbrev linked : FileSystem
linked = record disk { is_symlink = λ p. p == codes "/home/dev/link" }

link_refused :
    canonicalize_in_home linked (codes "/home/dev//link") home
    ≡ err (ValidateError.through_symlink (codes "/home/dev/link"))
unfolding canonicalize_in_home absolute written_ancestors ancestors refuse_symlinks components
    normal_pieces display is_under_or_eq path_beq strip_path text_beq split parent join_text
link_refused = refl

link_followed :
    canonicalize_in_home linked (codes "/home/dev/link/") home ≡ ok (home ++ codes "link" ∷ [])
unfolding canonicalize_in_home absolute written_ancestors ancestors refuse_symlinks components
    normal_pieces display is_under_or_eq path_beq strip_path text_beq split parent join_text
link_followed = refl

abbrev user_entry : ConfigEntry
user_entry = record {
  key = codes "protocol.ext.allow";
  scope = codes "local";
  origin = codes "file:.git/config";
  value = codes "user";
}

-- git's answers: the entry for one key, and exit code 1 for the others.
answers : Text → Result CommandError Text
answers key =
    if key == codes "protocol.ext.allow"
    then ok (codes "local\tfile:.git/config\tuser\n")
    else err (non_zero (some 1))

check_ext_transport_allowed_iff_example :
    (check_ext_transport_allowed answers none ≡ ok tt) ↔ IsAccepted answers none
check_ext_transport_allowed_iff_example = check_ext_transport_allowed_iff answers none

free_of_any : (c : ℕ) (s : Text) → any (λ d. d == c) s ≡ false → All (λ d. (d == c) ≡ false) s
free_of_any c s h = All-of_mem (λ d. (d == c) ≡ false) s (any-false (λ d. d == c) s h)

user_entry-IsPlain : IsPlain (codes "protocol.ext.allow") user_entry
unfolding strip_cr
user_entry-IsPlain = record {
  key_same = refl;
  scope_tab = free_of_any 0x09 user_entry.scope refl;
  origin_tab = free_of_any 0x09 user_entry.origin refl;
  one_line = free_of_any 0x0a (show_line user_entry) refl;
  no_return = refl;
}

abbrev git : Git
git = record { has_commit = true; is_branch = λ name. true; get_all = answers }

validate_worktree_preconditions_iff_example :
    (validate_worktree_preconditions disk git none project (codes "main") ≡ ok tt)
    ↔ IsReady disk git none project (codes "main")
validate_worktree_preconditions_iff_example =
    validate_worktree_preconditions_iff disk git none project (codes "main")
