-- ===== src/Scenarios/Plans.antt =====
-- A release with two components, two runtime specifications, and the locks of two keys.
use mathlib.Core.List.{Permᴰ}
use xyn_seed.Base.{
  ℕ, String, none, some, List, [], ◌∷◌, ◌≡◌, refl, arith, eq_iff, string_eq, nat_eq, ◌==◌,
  if◌then◌else◌, select,
}
use xyn_seed.Base.Json.{null, text}
use xyn_seed.Releases.{Component, ReleaseSpec, compile_release_to_runtime}
use xyn_seed.Releases.Determinism.{compile_release_to_runtime-perm}
use xyn_seed.Releases.Changes.{is_about}
use xyn_seed.Releases.Differences.{diff_actions-exact}
use xyn_seed.Releases.Plans.{Runtime, deployment, updated, index_by_name, item_action, diff_actions}
use xyn_seed.Base.Dict.{get, put}
use xyn_seed.Locks.{take, hash_lock_key}
use xyn_seed.Locks.Numbers.{hash_lock_key_injective}

abbrev component : String → Component
component name = record {
  name = name;
  build_image_name = none;
  image = some "nginx";
  ports = [];
  env = [];
  healthcheck = none;
  volume_mounts = [];
  resources = none;
  replicas = none;
  depends_on = [];
}

abbrev release : ReleaseSpec
release = record {
  namespace = "seed";
  name = "site";
  labels = [];
  backend = text "compose";
  networks = [];
  volumes = [];
  routes = null;
  components = component "web" ∷ component "api" ∷ [];
}

compile_release_to_runtime-perm_example :
    compile_release_to_runtime
      (record release {
        components = component "api" ∷ component "web" ∷ [];
        networks = [];
        volumes = [];
      })
      1
      none
    ≡ compile_release_to_runtime release 1 none
compile_release_to_runtime-perm_example =
    compile_release_to_runtime-perm release (component "api" ∷ component "web" ∷ []) [] [] 1 none
      ((ground (arith, eq_iff "api" "web"), tt), (tt, tt)) tt tt (Permᴰ.swap refl refl) Permᴰ.nil
      Permᴰ.nil

-- The items 1 and 2 are two versions of one deployment.
abbrev version_name : ℕ → String
version_name v = if v == 3 then "api" else "web"

abbrev runtime : List ℕ → Runtime ℕ
runtime deployments = record {
  deployments = deployments;
  services = [];
  volumes = [];
  networks = [];
  routes = [];
}

diff_actions-exact_example :
    select
      (is_about "deployment" "web")
      (diff_actions version_name (some (runtime (1 ∷ []))) (runtime (3 ∷ 2 ∷ [])))
    ≡ updated "deployment" "web" 1 2 ∷ []
unfolding get put index_by_name item_action
diff_actions-exact_example =
    diff_actions-exact version_name deployment "web" (runtime (1 ∷ [])) (runtime (3 ∷ 2 ∷ []))

-- A digest that tells no two keys apart.
abbrev zeros : String → List ℕ
zeros key = 0 ∷ 0 ∷ 0 ∷ 0 ∷ 0 ∷ 0 ∷ 0 ∷ 1 ∷ []

hash_lock_key_injective_example : take 8 (zeros "a") ≡ take 8 (zeros "b")
unfolding hash_lock_key
hash_lock_key_injective_example =
    hash_lock_key_injective zeros "a" "b" (omega arith, ground arith) (omega arith, ground arith)
      refl
