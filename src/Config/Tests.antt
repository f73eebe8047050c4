-- ===== src/Config/Tests.antt =====
-- Runs of the conversion of the configured rules.
use celily.Prelude.{
  true, false, List, ◌≡◌, ◌≢◌, ◌++◌, Memᴰ, ◌↔◌, refl, true, none, some, [], ◌∷◌, nat_eq,
}
use celily.Prelude.Fallible.{Result, ok, err}
use celily.Prelude.Text.{Text, text_beq, codes, ends_with}
use celily.Network.Rule.{HttpScheme, HttpRule, NetworkRule}
use celily.Config.Rules.{
  ConfigQuotaConfig, ConfigHttpRule, http_into_library, convert_quota, quota_into_library,
  converted,
}
use celily.Config.Rules.Loaded.{quota_of}
use celily.Config.Rules.Keys.{IsConfigured, IsRuleOf, http_into_library_iff}
use celily.Paths.{FilePath, root, join, is_under_or_eq, components}
use celily.Paths.Raw.{expand_host_tilde}
use celily.Paths.Under.{IsUnder}
use celily.Validate.Files.{FileSystem}
use celily.Config.Profiles.{
  Inherit, ProfileError, merge_all, out_of_fuel, is_valid_profile_name, chain_of,
}
use celily.Config.Profiles.Lineage.{IsLineage, chain_of-ne-out_of_fuel}
use celily.Config.Profiles.Lineage.Chain.{chain_of_iff}
use celily.Config.Merge.{Config, merge, merge_backend, merge_limits, merge_worktree, overwrite_some}
use celily.Config.Merge.Layers.{AreLoaded, IsLayered, merge_all-IsLayered}
use celily.Config.Permissions.{
  Metadata, validate_node_permissions, IsPrivate, validate_node_permissions_iff,
}
use celily.Config.Directory.{Match, candidate, best_match}
use celily.Config.Directory.Longest.{IsFrom, best_match-IsUnder}

abbrev hourly : ConfigQuotaConfig
hourly = record { max_requests = 100; window = 3600 }

abbrev configured : ConfigHttpRule
configured = record {
  host = codes "api.example.org";
  ports = none;
  path_prefixes = none;
  auth = none;
  headers = [];
  methods = some (codes "POST" ∷ []);
  quota = some hourly;
}

abbrev loaded : HttpRule
loaded = converted configured HttpScheme.https (quota_of (some hourly))

http_into_library_iff_example :
    (http_into_library configured HttpScheme.https ≡ ok (NetworkRule.http loaded))
    ↔ (IsConfigured configured × IsRuleOf configured HttpScheme.https (NetworkRule.http loaded))
http_into_library_iff_example =
    http_into_library_iff configured HttpScheme.https (NetworkRule.http loaded)

loads : http_into_library configured HttpScheme.https ≡ ok (NetworkRule.http loaded)
unfolding http_into_library convert_quota quota_into_library ends_with
loads = refl

abbrev parents : Inherit
parents = (codes "web", codes "base") ∷ (codes "app", codes "web") ∷ []

app_chain : chain_of parents (codes "app") ≡ ok (codes "base" ∷ codes "web" ∷ codes "app" ∷ [])
unfolding chain_of text_beq
app_chain = refl

chain_of-ne-out_of_fuel_example : chain_of parents (codes "app") ≢ err out_of_fuel
chain_of-ne-out_of_fuel_example = chain_of-ne-out_of_fuel parents (codes "app")

chain_of_iff_example :
    (chain_of parents (codes "app") ≡ ok (codes "base" ∷ codes "web" ∷ codes "app" ∷ []))
    ↔ IsLineage parents (codes "app") (codes "base" ∷ codes "web" ∷ codes "app" ∷ [])
chain_of_iff_example =
    chain_of_iff parents (codes "app") (codes "base" ∷ codes "web" ∷ codes "app" ∷ [])

abbrev disk : FileSystem
disk = record {
  current_dir = none;
  canonicalize = λ p. some (components p);
  is_symlink = λ p. false;
  is_dir = λ p. true;
  is_file = λ p. false;
  exists = λ p. true;
}

abbrev home : FilePath
home = root ∷ codes "h" ∷ []

abbrev home_text : Text
home_text = codes "/h"

abbrev cwd : FilePath
cwd = home ++ codes "a" ∷ codes "b" ∷ []

abbrev mapped : List (Text × Text)
mapped = (codes "~", codes "base") ∷ (codes "~/a", codes "app") ∷ []

abbrev chosen : Match
chosen = record { path = home ++ codes "a" ∷ []; profile = codes "app" }

abbrev outer : Match
outer = record { path = home; profile = codes "base" }

chosen_test : best_match disk home_text cwd none mapped ≡ some chosen
unfolding best_match candidate is_valid_profile_name expand_host_tilde is_under_or_eq join text_beq
chosen_test = refl

outer_test : candidate disk home_text cwd (codes "~", codes "base") ≡ some outer
unfolding candidate is_valid_profile_name expand_host_tilde is_under_or_eq text_beq components
outer_test = refl

best_match-IsUnder_example :
    IsFrom disk home_text cwd mapped chosen
    × IsUnder cwd (home ++ codes "a" ∷ [])
    × IsUnder (home ++ codes "a" ∷ []) home
best_match-IsUnder_example =
    best_match-IsUnder disk home_text cwd mapped chosen outer (codes "~", codes "base") chosen_test
      (Memᴰ.head refl) outer_test

abbrev empty : Config (Unit {0}) (Unit {0})
empty = record {
  backend = record { kind = none; project = none; pool = none };
  image = none;
  kind = none;
  user = none;
  container_uid = none;
  container_gid = none;
  distro = none;
  security_nesting = none;
  secure_boot = none;
  limits = record {
    cpu = none;
    memory = none;
    disk = none;
    processes = none;
    disk_priority = none;
    memory_enforce = none;
    network_ingress = none;
    network_egress = none;
  };
  mounts = [];
  allowed_dirs = [];
  allowed_files = [];
  env = [];
  project_target = none;
  pass_env = [];
  secret_provider = none;
  network_allow = [];
  project_readwrite = none;
  worktree = record { user_name = none; user_email = none };
  mount_project = none;
  pre_run = [];
  proxy = [];
  volumes = [];
}

abbrev with_image : Text → Config (Unit {0}) (Unit {0})
with_image image = record empty { image = some image; env = (codes "IMAGE", image) ∷ [] }

-- A profile of each image.
abbrev profiles : Text → Result ProfileError (Config (Unit {0}) (Unit {0}))
profiles name = ok (with_image name)

abbrev layered : Config (Unit {0}) (Unit {0})
layered = record empty {
  image = some (codes "debian");
  env = (codes "IMAGE", codes "debian") ∷ (codes "IMAGE", codes "arch") ∷ [];
}

merge_all-layered : merge_all profiles merge empty (codes "arch" ∷ codes "debian" ∷ []) ≡ ok layered
unfolding merge_all merge merge_backend merge_limits merge_worktree overwrite_some
merge_all-layered = refl

merge_all-IsLayered_example :
    (configs : List (Config (Unit {0}) (Unit {0}))) × AreLoaded profiles
      (codes "arch" ∷ codes "debian" ∷ [])
      configs
    × IsLayered empty configs layered
merge_all-IsLayered_example =
    merge_all-IsLayered profiles empty (codes "arch" ∷ codes "debian" ∷ []) layered
      merge_all-layered

abbrev config_file : Metadata
config_file = record { uid = 1000; mode = 384 }

validate_node_permissions_iff_example :
    (validate_node_permissions (some config_file) 1000 ≡ ok tt) ↔ IsPrivate (some config_file) 1000
validate_node_permissions_iff_example = validate_node_permissions_iff (some config_file) 1000
