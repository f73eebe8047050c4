-- ===== src/Lxd/Tests.antt =====
-- Runs of the egress rules on a small configuration.
use celily.Prelude.{◌≡◌, ◌↔◌, refl, false, none, some, List, [], ◌∷◌, Memᴰ, arith}
use celily.Prelude.Text.{Text, text_beq, codes}
use celily.Network.Rule.{v4, NetworkRule}
use celily.Network.Params.{to_create_bridge_params}
use celily.Lxd.Acl.{Protocol, NetworkAclRule, allow_rule, build_rules_from_params}
use celily.Lxd.Acl.Egress.{IsOpen, build_rules_iff}
use celily.Paths.{FilePath, root}
use celily.Paths.Raw.{display}
use celily.Lxd.Instance.{LxcBackend, exec_args, exec_argv, exec_env}
use celily.Lxd.Instance.Exec.{read_exec, read_exec-exec_args}

abbrev mail : List NetworkRule
mail = NetworkRule.tcp (v4 16843009) (25 ∷ 587 ∷ []) ∷ []

abbrev to_mail : NetworkAclRule
to_mail = allow_rule Protocol.tcp (codes "1.1.1.1") (codes "25,587")

build_rules_iff_example :
    Memᴰ to_mail (build_rules_from_params (to_create_bridge_params mail false) (codes "10.0.0.1"))
    ↔ IsOpen mail (codes "10.0.0.1") to_mail
build_rules_iff_example = build_rules_iff mail false (codes "10.0.0.1") to_mail

abbrev daemon : LxcBackend
daemon = record {
  remote = none;
  project = some (codes "celily");
  pool = codes "zfs";
  binary = codes "lxc";
}

abbrev dev_home : FilePath
dev_home = root ∷ codes "home" ∷ codes "dev" ∷ []

abbrev git_env : List (Text × Text)
git_env = (codes "HOME", codes "/home/dev") ∷ (codes "A", codes "b=c") ∷ []

read_exec-exec_args_example :
    read_exec (exec_args (codes "inst") (codes "git" ∷ codes "--" ∷ []) git_env dev_home 1000 1001)
    ≡ some (
      codes "inst",
      record {
        uid = some 1000;
        gid = some 1001;
        cwd = some (display dev_home);
        env = git_env;
        cmd = codes "git" ∷ codes "--" ∷ [];
      },
    )
read_exec-exec_args_example =
    read_exec-exec_args (codes "inst") (codes "git" ∷ codes "--" ∷ []) git_env dev_home 1000 1001
      (omega arith) (omega arith) ((refl, (refl, (refl, (refl, tt)))), ((refl, tt), tt))

argv :
    exec_argv daemon
      (codes "inst")
      (codes "true" ∷ [])
      (exec_env [] (some dev_home) none)
      dev_home
      1000
      1001
    ≡ codes "lxc"
      ∷ codes "--project"
      ∷ codes "celily"
      ∷ codes "exec"
      ∷ codes "inst"
      ∷ codes "--user"
      ∷ codes "1000"
      ∷ codes "--group"
      ∷ codes "1001"
      ∷ codes "--cwd"
      ∷ codes "/home/dev"
      ∷ codes "--env"
      ∷ codes "HOME=/home/dev"
      ∷ codes "--"
      ∷ codes "true"
      ∷ []
unfolding exec_argv display text_beq
argv = refl
