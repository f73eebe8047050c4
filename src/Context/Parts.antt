-- ===== src/Context/Parts.antt =====
-- The steps that a resolved context has gone through.
use celily.Prelude.{◌≡◌, not, ◌&&◌, List, Bool-cases, inl, inr, arith}
use celily.Prelude.Fallible.{ok, Result-cases}
use celily.Backend.Mount.{Mount}
use celily.Naming.{is_valid_username}
use celily.Network.Rule.{NetworkRule}
use celily.Lxd.Instance.{Device}
use celily.Config.Merge.{Config}
use celily.Context.{Args, Host, Places, RunContext}
use celily.Context.Mounts.{requested_mounts, resolve_mounts}
use celily.Context.Environment.{Env, resolve_env}
use celily.Context.Devices.{proxy_devices}
use celily.Context.Resolve.{
  convert_rules, uid_of, gid_of, container_home_of, project_target_of, user_name, assemble,
  resolve_context,
}

-- A context is assembled of what its steps gave.
pub record IsResolvedFrom {D S : Type 0} (args : Args) (cfg : Config D S) (host : Host)
    (places : Places) (ctx : RunContext) : Type 0 where
  pub mounts : List Mount
  pub env : Env
  pub rules : List NetworkRule
  pub proxies : List Device
  pub mounted :
      resolve_mounts host.fs places (
        requested_mounts args cfg places.cwd places.home
          (container_home_of args cfg)
          (project_target_of args cfg))
      ≡ ok mounts
  pub env_resolved :
      resolve_env host.var cfg.env cfg.pass_env args.cli_pass_env args.cli_env ≡ ok env
  pub converted : convert_rules cfg.network_allow ≡ ok rules
  pub proxied :
      proxy_devices host places.home_canon mounts (uid_of args cfg) (gid_of args cfg) cfg.proxy
      ≡ ok proxies
  pub assembled : ctx ≡ assemble args cfg host places mounts env rules proxies

pub resolve_context-IsResolvedFrom :
    {D S : Type 0} (args : Args) (cfg : Config D S) (host : Host) (places : Places)
    (ctx : RunContext)
    → resolve_context args cfg host places ≡ ok ctx
    → IsResolvedFrom args cfg host places ctx
unfolding resolve_context
resolve_context-IsResolvedFrom args cfg host places ctx h =
    elim (Bool-cases (not (is_valid_username (user_name args cfg)) && not args.as_root)) [
      | inl bad ↦ absurd (ground arith)
      | inr good ↦
          elim (Result-cases (
            resolve_mounts host.fs places (
              requested_mounts args cfg places.cwd places.home (container_home_of args cfg)
                (project_target_of args cfg)))) [
                  | inr (x, e) ↦ absurd (ground arith)
                  | inl (mounts, m) ↦
                      elim (Result-cases (
                        resolve_env host.var cfg.env cfg.pass_env args.cli_pass_env args.cli_env)) [
                          | inr (x, e) ↦ absurd (ground arith)
                          | inl (env, v) ↦ elim (Result-cases (convert_rules cfg.network_allow)) [
                            | inr (x, e) ↦ absurd (ground arith)
                            | inl (rules, r) ↦
                                elim (Result-cases (
                                  proxy_devices host places.home_canon mounts (uid_of args cfg)
                                    (gid_of args cfg) cfg.proxy)) [
                                      | inr (x, e) ↦ absurd (ground arith)
                                      | inl (proxies, p) ↦ record {
                                        mounts = mounts;
                                        env = env;
                                        rules = rules;
                                        proxies = proxies;
                                        mounted = m;
                                        env_resolved = v;
                                        converted = r;
                                        proxied = p;
                                        assembled = ground arith;
                                      }
                                    ]
                          ]
                        ]
                ]
    ]
