-- ===== src/Cli/Tests.antt =====
-- Arguments, accepted and refused.
use celily.Prelude.{◌≡◌, refl, ◌↔◌, List, [], ◌∷◌, ◌++◌}
use celily.Prelude.Fallible.{ok, err}
use celily.Prelude.Text.{Text, codes}
use celily.Prelude.Text.Split.{split, split_once, splitn}
use celily.Backend.Mount.{read_write, WrittenMount}
use celily.Paths.{root, components, join, normal_pieces}
use celily.GitRemote.{escape}
use celily.Cli.{parse_worktree_name, too_few, invalid_flag, parse_access, parse_cli_mount}
use celily.Cli.Mounts.{Asks, parse_cli_mount_iff}
use celily.Cli.Names.{join-parse_worktree_name}

worktree_name : parse_worktree_name (codes "fix-1.2_b") ≡ ok (codes "fix-1.2_b")
unfolding parse_worktree_name
worktree_name = refl

worktree_parent : parse_worktree_name (codes "..") ≡ err (codes "..")
unfolding parse_worktree_name
worktree_parent = refl

abbrev data_mount : WrittenMount
data_mount = record { source = codes "/data"; target = codes "/mnt"; access = read_write }

mount_written : parse_cli_mount (codes "/data:/mnt:readwrite") ≡ ok data_mount
unfolding parse_cli_mount split split_once splitn normal_pieces components parse_access
    celily.Prelude.Text.text_beq
mount_written = refl

mount_alone : parse_cli_mount (codes "/data") ≡ err (too_few (codes "/data"))
unfolding parse_cli_mount split_once splitn
mount_alone = refl

mount_more : parse_cli_mount (codes "a:b:readonly:c") ≡ err (invalid_flag (codes "readonly:c"))
unfolding parse_cli_mount split_once splitn parse_access celily.Prelude.Text.text_beq
mount_more = refl

parse_cli_mount_iff_example :
    (parse_cli_mount (codes "/data:/mnt:readwrite") ≡ ok data_mount)
    ↔ Asks (codes "/data:/mnt:readwrite") data_mount
parse_cli_mount_iff_example = parse_cli_mount_iff (codes "/data:/mnt:readwrite") data_mount

join-parse_worktree_name_example :
    (codes "fix" ≡ codes "fix")
    × (join (root ∷ codes "root" ∷ []) (codes "fix")
        ≡ (root ∷ codes "root" ∷ []) ++ codes "fix" ∷ [])
    × (escape (codes "fix") ≡ codes "fix")
unfolding parse_worktree_name
join-parse_worktree_name_example =
    join-parse_worktree_name (codes "fix") (codes "fix") root (codes "root" ∷ []) refl
