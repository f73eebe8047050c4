-- ===== src/Config/Merge/Layers.antt =====
-- What a chain of profiles of celily/src/config/mod.rs makes of the keys of a configuration.
use celily.Prelude.{
  ◌≡◌, refl, ap, ◌∙◌, inl, inr, Option, none, some, List, [], ◌∷◌, ◌++◌, map, arith, Bool-cases,
  append_assoc, ◌==◌,
}
use mathlib.Core.Path.{subst}
use celily.Prelude.Fallible.{Result, ok, Result-cases}
use celily.Prelude.Text.{Text, text_eq}
use celily.Network.Handler.Handle.{lookup}
use celily.Config.Profiles.{ProfileError, merge_all}
use celily.Config.Merge.{Config, overwrite_some, merge}

module _ {ℓ} {A : Type ℓ} where
  -- The last value that is set.
  abbrev pub last_set : Option A → List (Option A) → Option A
  last_set value [] = value
  last_set value (none ∷ more) = last_set value more
  last_set value (some a ∷ more) = last_set (some a) more

  -- The lists one after another.
  abbrev pub joined : List A → List (List A) → List A
  joined xs [] = xs
  joined xs (ys ∷ more) = xs ++ joined ys more

  last_set-overwrite_some :
      (a b : Option A) (more : List (Option A))
      → last_set (overwrite_some a b) more ≡ last_set a (b ∷ more)
  unfolding overwrite_some
  last_set-overwrite_some a none more = refl
  last_set-overwrite_some a (some value) more = refl

  joined-append :
      (xs ys : List A) (more : List (List A)) → joined (xs ++ ys) more ≡ joined xs (ys ∷ more)
  joined-append xs ys [] = refl
  joined-append xs ys (zs ∷ more) = append_assoc xs ys (joined zs more)

lookup-append :
    (key : Text) (xs ys : List (Text × Text))
    → lookup key (xs ++ ys) ≡ overwrite_some (lookup key ys) (lookup key xs)
unfolding lookup overwrite_some
lookup-append key [] ys = refl
lookup-append key ((k, v) ∷ xs) ys = elim (Bool-cases (k == key)) [
  | inl here ↦ rw here refl
  | inr other ↦ rw other (lookup-append key xs ys)
]

module _ {D S : Type 0} where
  -- A key of the last configuration that sets it, or of the first one.
  abbrev pub IsLastSet :
      {A : Type 0} → (Config D S → Option A) → Config D S → List (Config D S) → Config D S → Type 0
  IsLastSet key first more merged = key merged ≡ last_set (key first) (map key more)

  -- A key of all configurations, in their order.
  abbrev pub IsJoined :
      {A : Type 0} → (Config D S → List A) → Config D S → List (Config D S) → Config D S → Type 0
  IsJoined key first more merged = key merged ≡ joined (key first) (map key more)

  pub record IsLayered (first : Config D S) (more : List (Config D S)) (merged : Config D S)
      : Type 0 where
    pub image : IsLastSet (λ c. c.image) first more merged
    pub kind : IsLastSet (λ c. c.kind) first more merged
    pub user : IsLastSet (λ c. c.user) first more merged
    pub container_uid : IsLastSet (λ c. c.container_uid) first more merged
    pub container_gid : IsLastSet (λ c. c.container_gid) first more merged
    pub distro : IsLastSet (λ c. c.distro) first more merged
    pub security_nesting : IsLastSet (λ c. c.security_nesting) first more merged
    pub secure_boot : IsLastSet (λ c. c.secure_boot) first more merged
    pub project_target : IsLastSet (λ c. c.project_target) first more merged
    pub secret_provider : IsLastSet (λ c. c.secret_provider) first more merged
    pub project_readwrite : IsLastSet (λ c. c.project_readwrite) first more merged
    pub mount_project : IsLastSet (λ c. c.mount_project) first more merged
    pub backend_kind : IsLastSet (λ c. c.backend.kind) first more merged
    pub backend_project : IsLastSet (λ c. c.backend.project) first more merged
    pub backend_pool : IsLastSet (λ c. c.backend.pool) first more merged
    pub limits_cpu : IsLastSet (λ c. c.limits.cpu) first more merged
    pub limits_memory : IsLastSet (λ c. c.limits.memory) first more merged
    pub limits_disk : IsLastSet (λ c. c.limits.disk) first more merged
    pub limits_processes : IsLastSet (λ c. c.limits.processes) first more merged
    pub limits_disk_priority : IsLastSet (λ c. c.limits.disk_priority) first more merged
    pub limits_memory_enforce : IsLastSet (λ c. c.limits.memory_enforce) first more merged
    pub limits_network_ingress : IsLastSet (λ c. c.limits.network_ingress) first more merged
    pub limits_network_egress : IsLastSet (λ c. c.limits.network_egress) first more merged
    pub worktree_user_name : IsLastSet (λ c. c.worktree.user_name) first more merged
    pub worktree_user_email : IsLastSet (λ c. c.worktree.user_email) first more merged
    pub mounts : IsJoined (λ c. c.mounts) first more merged
    pub allowed_dirs : IsJoined (λ c. c.allowed_dirs) first more merged
    pub allowed_files : IsJoined (λ c. c.allowed_files) first more merged
    pub pass_env : IsJoined (λ c. c.pass_env) first more merged
    pub network_allow : IsJoined (λ c. c.network_allow) first more merged
    pub pre_run : IsJoined (λ c. c.pre_run) first more merged
    pub proxy : IsJoined (λ c. c.proxy) first more merged
    pub volumes : IsJoined (λ c. c.volumes) first more merged
    pub env : (name : Text) → IsLastSet (λ c. lookup name c.env) first more merged

  one-IsLayered : (c : Config D S) → IsLayered c [] c
  one-IsLayered c = record {
    image = refl;
    kind = refl;
    user = refl;
    container_uid = refl;
    container_gid = refl;
    distro = refl;
    security_nesting = refl;
    secure_boot = refl;
    project_target = refl;
    secret_provider = refl;
    project_readwrite = refl;
    mount_project = refl;
    backend_kind = refl;
    backend_project = refl;
    backend_pool = refl;
    limits_cpu = refl;
    limits_memory = refl;
    limits_disk = refl;
    limits_processes = refl;
    limits_disk_priority = refl;
    limits_memory_enforce = refl;
    limits_network_ingress = refl;
    limits_network_egress = refl;
    worktree_user_name = refl;
    worktree_user_email = refl;
    mounts = refl;
    allowed_dirs = refl;
    allowed_files = refl;
    pass_env = refl;
    network_allow = refl;
    pre_run = refl;
    proxy = refl;
    volumes = refl;
    env = λ name. refl;
  }

  merge-IsLayered :
      (a b : Config D S) (more : List (Config D S)) (merged : Config D S)
      → IsLayered (merge a b) more merged
      → IsLayered a (b ∷ more) merged
  unfolding merge
  merge-IsLayered a b more merged h = record {
    image = h.image ∙ last_set-overwrite_some a.image b.image (map (λ c. c.image) more);
    kind = h.kind ∙ last_set-overwrite_some a.kind b.kind (map (λ c. c.kind) more);
    user = h.user ∙ last_set-overwrite_some a.user b.user (map (λ c. c.user) more);
    container_uid =
        h.container_uid
        ∙ last_set-overwrite_some a.container_uid b.container_uid (map (λ c. c.container_uid) more);
    container_gid =
        h.container_gid
        ∙ last_set-overwrite_some a.container_gid b.container_gid (map (λ c. c.container_gid) more);
    distro = h.distro ∙ last_set-overwrite_some a.distro b.distro (map (λ c. c.distro) more);
    security_nesting =
        h.security_nesting
        ∙ last_set-overwrite_some a.security_nesting b.security_nesting
            (map (λ c. c.security_nesting) more);
    secure_boot =
        h.secure_boot
        ∙ last_set-overwrite_some a.secure_boot b.secure_boot (map (λ c. c.secure_boot) more);
    project_target =
        h.project_target
        ∙ last_set-overwrite_some a.project_target b.project_target
            (map (λ c. c.project_target) more);
    secret_provider =
        h.secret_provider
        ∙ last_set-overwrite_some a.secret_provider b.secret_provider
            (map (λ c. c.secret_provider) more);
    project_readwrite =
        h.project_readwrite
        ∙ last_set-overwrite_some a.project_readwrite b.project_readwrite
            (map (λ c. c.project_readwrite) more);
    mount_project =
        h.mount_project
        ∙ last_set-overwrite_some a.mount_project b.mount_project (map (λ c. c.mount_project) more);
    backend_kind =
        h.backend_kind
        ∙ last_set-overwrite_some a.backend.kind b.backend.kind (map (λ c. c.backend.kind) more);
    backend_project =
        h.backend_project
        ∙ last_set-overwrite_some a.backend.project b.backend.project
            (map (λ c. c.backend.project) more);
    backend_pool =
        h.backend_pool
        ∙ last_set-overwrite_some a.backend.pool b.backend.pool (map (λ c. c.backend.pool) more);
    limits_cpu =
        h.limits_cpu
        ∙ last_set-overwrite_some a.limits.cpu b.limits.cpu (map (λ c. c.limits.cpu) more);
    limits_memory =
        h.limits_memory
        ∙ last_set-overwrite_some a.limits.memory b.limits.memory (map (λ c. c.limits.memory) more);
    limits_disk =
        h.limits_disk
        ∙ last_set-overwrite_some a.limits.disk b.limits.disk (map (λ c. c.limits.disk) more);
    limits_processes =
        h.limits_processes
        ∙ last_set-overwrite_some a.limits.processes b.limits.processes
            (map (λ c. c.limits.processes) more);
    limits_disk_priority =
        h.limits_disk_priority
        ∙ last_set-overwrite_some a.limits.disk_priority b.limits.disk_priority
            (map (λ c. c.limits.disk_priority) more);
    limits_memory_enforce =
        h.limits_memory_enforce
        ∙ last_set-overwrite_some a.limits.memory_enforce b.limits.memory_enforce
            (map (λ c. c.limits.memory_enforce) more);
    limits_network_ingress =
        h.limits_network_ingress
        ∙ last_set-overwrite_some a.limits.network_ingress b.limits.network_ingress
            (map (λ c. c.limits.network_ingress) more);
    limits_network_egress =
        h.limits_network_egress
        ∙ last_set-overwrite_some a.limits.network_egress b.limits.network_egress
            (map (λ c. c.limits.network_egress) more);
    worktree_user_name =
        h.worktree_user_name
        ∙ last_set-overwrite_some a.worktree.user_name b.worktree.user_name
            (map (λ c. c.worktree.user_name) more);
    worktree_user_email =
        h.worktree_user_email
        ∙ last_set-overwrite_some a.worktree.user_email b.worktree.user_email
            (map (λ c. c.worktree.user_email) more);
    mounts = h.mounts ∙ joined-append a.mounts b.mounts (map (λ c. c.mounts) more);
    allowed_dirs =
        h.allowed_dirs
        ∙ joined-append a.allowed_dirs b.allowed_dirs (map (λ c. c.allowed_dirs) more);
    allowed_files =
        h.allowed_files
        ∙ joined-append a.allowed_files b.allowed_files (map (λ c. c.allowed_files) more);
    pass_env = h.pass_env ∙ joined-append a.pass_env b.pass_env (map (λ c. c.pass_env) more);
    network_allow =
        h.network_allow
        ∙ joined-append a.network_allow b.network_allow (map (λ c. c.network_allow) more);
    pre_run = h.pre_run ∙ joined-append a.pre_run b.pre_run (map (λ c. c.pre_run) more);
    proxy = h.proxy ∙ joined-append a.proxy b.proxy (map (λ c. c.proxy) more);
    volumes = h.volumes ∙ joined-append a.volumes b.volumes (map (λ c. c.volumes) more);
    env = λ name.
        h.env name
        ∙ ap (λ value. last_set value (map (λ c. lookup name c.env) more))
            (lookup-append name b.env a.env)
        ∙ last_set-overwrite_some (lookup name a.env) (lookup name b.env)
            (map (λ c. lookup name c.env) more);
  }

  -- The configurations that the names load.
  abbrev pub AreLoaded :
      (Text → Result ProfileError (Config D S)) → List Text → List (Config D S) → Type 0
  AreLoaded load [] [] = Unit {0}
  AreLoaded load [] (_ ∷ _) = ⊥
  AreLoaded load (_ ∷ _) [] = ⊥
  AreLoaded load (name ∷ names) (config ∷ configs) =
      (load name ≡ ok config) × AreLoaded load names configs

  -- If a chain of profiles is merged over a first configuration, each of its names loads, and in
  -- the result every single key and every variable of the environment has the value of the last
  -- configuration that sets it, and every list is the lists of all configurations, in their order.
  pub merge_all-IsLayered :
      (load : Text → Result ProfileError (Config D S)) (first : Config D S) (names : List Text)
      (merged : Config D S)
      → merge_all load merge first names ≡ ok merged
      → (profiles : List (Config D S)) × AreLoaded load names profiles
        × IsLayered first profiles merged
  unfolding merge_all
  merge_all-IsLayered load first [] merged h =
      let same : first ≡ merged = ground arith in
      ([], tt, subst (IsLayered first []) same (one-IsLayered first))
  merge_all-IsLayered load first (name ∷ names) merged h = elim (Result-cases (load name)) [
    | inr (x, e) ↦ absurd (ground arith)
    | inl (config, e) ↦
        let (profiles, loaded, layered) =
          merge_all-IsLayered load (merge first config) names merged (ground arith) in
        (config ∷ profiles, (e, loaded), merge-IsLayered first config profiles merged layered)
  ]
