-- ===== src/Releases.antt =====
-- core/releases/compiler.py: `compile_release_to_runtime`. A part of the specification that is only
-- copied is JSON; the parts that are read by keys are records, with `none` for a key that is
-- missing. A port has no key with the value `None`.
pub mod Determinism
pub mod Plans
pub mod Differences
pub mod Indexes
pub mod Changes
use xyn_seed.Base.{
  ℕ, String, Bool, true, false, not, Option, none, some, List, [], ◌∷◌, ◌++◌, ◌<>◌, ◌==◌, string_eq,
  if◌then◌else◌, or_else, select, map,
}
use xyn_seed.Base.Dict.{Dict, get}
use xyn_seed.Base.Json.{Json, text}
use xyn_seed.Base.Sort.{sort}
use xyn_seed.Base.Text.{text_le}

pub record Port : Type 0 where
  pub container_port : ℕ
  pub protocol : Option String
  pub name : Option String
  pub host_port : Option ℕ

pub record VolumeMount : Type 0 where
  pub volume : String
  pub mount_path : String
  pub read_only : Option Json

-- `build` is its key `imageName`.
pub record Component : Type 0 where
  pub name : String
  pub build_image_name : Option String
  pub image : Option String
  pub ports : List Port
  pub env : Dict String
  pub healthcheck : Option Json
  pub volume_mounts : List VolumeMount
  pub resources : Option Json
  pub replicas : Option ℕ
  pub depends_on : List String

-- A network or a volume: its name, its key `type`, and the other keys.
pub record Resource : Type 0 where
  pub name : String
  pub type : Option Json
  pub others : Dict Json

pub record ReleaseSpec : Type 0 where
  pub namespace : String
  pub name : String
  pub labels : Dict String
  pub backend : Json
  pub networks : List Resource
  pub volumes : List Resource
  pub routes : Json
  pub components : List Component

pub record RuntimePort : Type 0 where
  pub container_port : ℕ
  pub protocol : String
  pub name : Option String
  pub published_port : Option ℕ

pub record RuntimeMount : Type 0 where
  pub name : String
  pub mount_path : String
  pub read_only : Option Json

pub record Container : Type 0 where
  pub name : String
  pub image : String
  pub ports : List RuntimePort
  pub env : List (String × String)
  pub healthcheck : Option Json
  pub volume_mounts : List RuntimeMount
  pub resources : Option Json

pub record Deployment : Type 0 where
  pub name : String
  pub replicas : ℕ
  pub depends_on : List String
  pub app : String
  pub container : Container

pub record ServicePort : Type 0 where
  pub name : Option String
  pub port : ℕ
  pub target_port : ℕ
  pub protocol : String

pub record Service : Type 0 where
  pub name : String
  pub app : String
  pub ports : List ServicePort

pub record RuntimeSpec : Type 0 where
  pub name : String
  pub namespace : String
  pub labels : Dict String
  pub release_id : String
  pub revision : ℕ
  pub backend : Json
  pub networks : List Resource
  pub volumes : List Resource
  pub deployments : List Deployment
  pub services : List Service
  pub routes : Json

-- `sorted(items, key=lambda item: item.get("name", ""))`.
unfoldable pub sorted_by : {A : Type 0} → (A → String) → List A → List A
sorted_by name = sort (λ a b. text_le (name a) (name b))

-- A port name that is empty is left out.
abbrev filled : Option String → Option String
filled none = none
filled (some s) = if s == "" then none else some s

abbrev runtime_port : Port → RuntimePort
runtime_port p = record {
  container_port = p.container_port;
  protocol = or_else p.protocol "tcp";
  name = filled p.name;
  published_port = p.host_port;
}

unfoldable pub ports_release_to_runtime : List Port → List RuntimePort
ports_release_to_runtime = map runtime_port

unfoldable pub env_dict_to_list : Dict String → List (String × String)
env_dict_to_list = sorted_by (λ e. e.0)

-- `f"{namespace}.{name}.{component['name']}:local"`.
abbrev local_image : ReleaseSpec → Component → String
local_image spec c = spec.namespace <> "." <> spec.name <> "." <> c.name <> ":local"

abbrev pub image_or_local : ReleaseSpec → Component → Option String → String
image_or_local spec c none = local_image spec c
image_or_local spec c (some s) = if s == "" then local_image spec c else s

-- The image of the build, if it has a name, before the image of the component.
unfoldable pub image_of : ReleaseSpec → Component → String
image_of spec c = elim (filled c.build_image_name) [
  | some s ↦ s
  | none ↦ image_or_local spec c c.image
]

abbrev runtime_mount : VolumeMount → RuntimeMount
runtime_mount m = record { name = m.volume; mount_path = m.mount_path; read_only = m.read_only }

unfoldable pub container_of : ReleaseSpec → Component → Container
container_of spec c = record {
  name = c.name;
  image = image_of spec c;
  ports = ports_release_to_runtime c.ports;
  env = env_dict_to_list c.env;
  healthcheck = c.healthcheck;
  volume_mounts = map runtime_mount c.volume_mounts;
  resources = c.resources;
}

unfoldable pub deployment_of : ReleaseSpec → Component → Deployment
deployment_of spec c = record {
  name = c.name;
  replicas = or_else c.replicas 1;
  depends_on = sort text_le c.depends_on;
  app = c.name;
  container = container_of spec c;
}

abbrev service_port : Port → ServicePort
service_port p = record {
  name = p.name;
  port = or_else p.host_port p.container_port;
  target_port = p.container_port;
  protocol = or_else p.protocol "tcp";
}

-- A component without ports has no service.
unfoldable pub services_of : List Component → List Service
services_of [] = []
services_of (c ∷ cs) =
    let rest = services_of cs in
    elim c.ports [
      | [] ↦ rest
      | p ∷ ps ↦ record { name = c.name; app = c.name; ports = map service_port (p ∷ ps) } ∷ rest
    ]

abbrev untyped : Resource → Resource
untyped r = record r { type = none }

-- `release_id or f"{namespace}.{name}"`.
abbrev pub release_id_or : Option String → String → String
release_id_or none d = d
release_id_or (some s) d = if s == "" then d else s

unfoldable pub compile_release_to_runtime : ReleaseSpec → ℕ → Option String → RuntimeSpec
compile_release_to_runtime spec revision release_id =
    let components = sorted_by (λ (c : Component). c.name) spec.components in
    record {
      name = spec.name;
      namespace = spec.namespace;
      labels = sorted_by (λ (e : String × String). e.0) spec.labels;
      release_id = release_id_or release_id (spec.namespace <> "." <> spec.name);
      revision = revision;
      backend = spec.backend;
      networks = sorted_by (λ (r : Resource). r.name) (map untyped spec.networks);
      volumes = sorted_by (λ (r : Resource). r.name) (map untyped spec.volumes);
      deployments = sorted_by (λ (d : Deployment). d.name) (map (deployment_of spec) components);
      services = sorted_by (λ (s : Service). s.name) (services_of components);
      routes = spec.routes;
    }
