-- ===== src/Examples/Shop.antt =====
-- A cluster whose namespace "shop" holds two Deployments, "web" and "db", and no autoscaler.
use kube_greencosts.Prelude.{
  String, put, Bool, true, false, ◌&&◌, Option, none, some, List, [], ◌∷◌, ◌==◌, StringMap,
  if◌then◌else◌,
}
use kube_greencosts.Prelude.Int.{ℤ}
use kube_greencosts.Api.{
  Namespace, WorkloadType, deployment, stateful_set, daemon_set, replica_set, unknown, NodeSelector,
  Workload,
}
use kube_greencosts.Cluster.{Cluster, Result, ok, err, not_found}

pub record Contents : Type 0 where
  pub annotations : StringMap
  pub owner_kinds : List String
  pub replicas : Option ℤ
  pub node_selector : NodeSelector

pub record Shop : Type 0 where
  pub web : Contents
  pub db : Contents

abbrev pub object : String → Contents → Workload
object name c = record {
  namespace = "shop";
  name = name;
  annotations = c.annotations;
  owner_kinds = c.owner_kinds;
  replicas = c.replicas;
  node_selector = c.node_selector;
}

abbrev pub contents : Workload → Contents
contents d = record {
  annotations = d.annotations;
  owner_kinds = d.owner_kinds;
  replicas = d.replicas;
  node_selector = d.node_selector;
}

abbrev pub is_deployment : WorkloadType → Bool
is_deployment deployment = true
is_deployment stateful_set = false
is_deployment daemon_set = false
is_deployment replica_set = false
is_deployment (unknown _) = false

abbrev pub is_here : WorkloadType → String → Bool
is_here t ns = is_deployment t && ns == "shop"

abbrev pub held : Shop → WorkloadType → String → String → Option Workload
held w t ns name =
    if is_here t ns
    then if name == "web"
      then some (object "web" w.web)
      else if name == "db"
      then some (object "db" w.db)
      else none
    else none

abbrev pub everything : Shop → List Workload
everything w = object "web" w.web ∷ object "db" w.db ∷ []

abbrev pub answer : WorkloadType → String → Shop → List Workload
answer t ns w = if is_here t ns then everything w else []

abbrev pub list : WorkloadType → Option String → Shop → Result (List Workload) × Shop
list t none w = (ok (if is_deployment t then everything w else []), w)
list t (some ns) w = (ok (answer t ns w), w)

abbrev pub found : Option Workload → Result Workload
found none = err not_found
found (some d) = ok d

abbrev pub patch : WorkloadType → Workload → Workload → Shop → Result (Unit {0}) × Shop
patch t d d' w =
    if is_here t d'.namespace
    then if d'.name == "web"
      then (ok tt, record w { web = contents d' })
      else if d'.name == "db"
      then (ok tt, record w { db = contents d' })
      else (err not_found, w)
    else (err not_found, w)

-- JSON, as far as these objects need it
abbrev pub write : NodeSelector → Option String
write none = some "null"
write (some _) = some "{}"

abbrev pub read : String → Option NodeSelector
read s = if s == "null" then some none else some (some [])

-- the namespace opts in to the policy "cheap"
abbrev pub shop_namespace : Namespace
shop_namespace = record {
  name = "shop";
  annotations = put (λ _. none) "greencosts.hstr.nl/clusterhibernatepolicy" "cheap";
}

abbrev pub namespace_of : Shop → String → Option Namespace
namespace_of w name = if name == "shop" then some shop_namespace else none

abbrev pub shop : Cluster
shop = record {
  World = Shop;
  list_namespaces = λ w. (ok (shop_namespace ∷ []), w);
  list_workloads = list;
  get_workload = λ t ns name w. (found (held w t ns name), w);
  patch_workload = patch;
  list_hpas = λ ns w. (ok [], w);
  patch_hpa = λ h h' w. (err not_found, w);
  sha256_hex = λ s. s;
  marshal = write;
  unmarshal = read;
}
