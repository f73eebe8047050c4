-- ===== src/Lib.antt =====
-- celily: the parts of the program that decide what a sandboxed instance may do.
--
-- celily runs a command in an LXD or Incus instance. The library celily-lib puts each instance on
-- a bridge of its own; the bridge's egress ACL lets the instance reach the HTTP and DNS proxies on
-- the gateway, and listed TCP destinations. The proxies run in the process and enforce the allow
-- rules. The program in celily reads the configuration and validates what of the host the instance
-- is given.
--
-- Prelude: the shared names, Result, text as a list of codes with its splits and decimals, bits.
-- Backend: celily-lib/src/backend/mod.rs. Backend.Subnet is BridgeSubnet, with the IPv4 address
--   parser and printer of the standard library; Backend.Address prints addresses; Backend.Mount is
--   celily-lib/src/mount.rs.
-- Network: celily-lib/src/network. Rule is rule.rs, Params is params.rs, Dns is dns_handler.rs,
--   and Handler is handler.rs: Escape has the path tests, Quota the quota windows, Matching the
--   function rule_matches, and Handle the handler's state and its handle_request.
-- Effects: code that gives commands to the world outside, as a tree of the answers it may get,
--   with the ? operator, guards that are dropped on an early return, and tokio::join! on any
--   schedule. Runs and Reaches have the rules to reason about its runs.
-- Lxd: celily-lib/src/backend/lxd. Acl is acl.rs; Instance has the commands of instance.rs and
--   mod.rs; Bridge is network.rs and bridge.rs with the guard of acl.rs: create_bridge, command by
--   command.
-- Instance: celily-lib/src/instance, with network/mod.rs, distro.rs and limits.rs. Isolation is
--   NetworkIsolation::setup, Init is prepared.rs and Start is initialized.rs and running.rs; Held,
--   Devices and Trusted are views of a history: what is held, which devices were added, and which
--   stage of the start was reached. A backend is any answer to each call.
-- Paths: celily/src/util/path.rs, paths as lists of components. Paths.Raw has paths as they are
--   written, whose last slash the file system sees: they are made absolute and expanded as text.
-- Validate: celily/src/validate.rs. Files has canonicalize_in_home, Forbidden the forbidden
--   entries, MountSource and ProxyConnect the two checks that use them, ExtTransport git's ext::
--   policy, and Worktree the preconditions of worktree mode.
-- Config: celily/src/config. Rules is network.rs, the conversion of the configured allow rules,
--   and Rules.Keys what a loaded rule has; Profiles, Merge and Directory are mod.rs: the
--   inheritance chain, Config::merge with the parts of a Config, and load_for_dir; Permissions is
--   validation.rs.
-- Context: celily/src/context.rs. Mounts, Environment and Devices are the parts of
--   resolve_context, and Resolve puts them together; it validates with Validate and converts the
--   rules with Config.
-- GitRemote: celily/src/git_remote.rs, with git_config of celily/src/util/git.rs: the remote of
--   the host's repository that fetches from an instance, and its registration, command by command.
-- Cli: celily/src/cli_def.rs, the parsers of a worktree's name and of a mount.
-- Command: celily-lib/src/command, the result of a process from how it ended.
-- Naming: celily/src/util/naming.rs and username.rs.
--
-- A handler is a record, and handle_request gives the handler it leaves and what it answers.
-- Numbers are natural numbers; where the source has a machine integer whose range matters, a
-- hypothesis or the parser's bound says so. The count of a quota window stays at or below its u64
-- maximum, and no other arithmetic of these parts can overflow. Clones of a handler share their
-- windows behind a lock, so requests are taken one after another, in any order. The clock is an
-- argument.
--
-- The header map, the URI and the DNS names come from proxyapi and http, which are not in the
-- repository: HeaderMap, Request and DnsNames are parameters, and HeaderLaws is what the code
-- relies on. The file system at one moment is the parameter FileSystem, and git's answers are Git.
-- A path with two slashes at its start is taken as one with a single slash, as Linux does, and the
-- targets in an instance are normalised. Errors are values by their cases, without the text of
-- their messages. Logging is not modelled. Of asynchronous code, two futures that are joined go on
-- in turns, in every order; other calls are atomic. The daemon's answers are a function of all
-- that has happened, an argument of every run. Reading and parsing a configuration file is the
-- parameter load.
--
-- Not modelled: celily/src/main.rs; the derived parser of the command line and the deserialisation
-- of configuration files, which clap and serde generate; the start of the proxies in proxelar.rs,
-- which is tasks of proxyapi; the rest of the secret provider, a process; and mock.rs, a test
-- double.
--
-- The walk along the inheritance chain runs on fuel, one more than there are entries of [inherit]:
-- each step visits a name that has an entry and was not visited, so the fuel is never used up.
pub mod Prelude
pub mod Network
pub mod Backend
pub mod Effects
pub mod GitRemote
pub mod Instance
pub mod Lxd
pub mod Paths
pub mod Validate
pub mod Cli
pub mod Command
pub mod Config
pub mod Context
pub mod Naming
