-- ===== src/Cluster/Laws.antt =====
-- What the controllers rely on of the Kubernetes API, seen as a store of objects under their kind,
-- namespace and name. No other client writes while a pass runs.
use mathlib.Core.List.{Memᴰ}
use kube_greencosts.Prelude.{String, ◌≡◌, ◌≢◌, ◌⊎◌, Option, none, some, List, [], ◌∷◌, All}
use kube_greencosts.Api.{WorkloadType, Workload, Hpa, Namespace}
use kube_greencosts.Cluster.{ok, err, not_found, Cluster}

-- The names of a list of objects of one namespace do not repeat.
abbrev pub Distinct : List Workload → Type 0
Distinct [] = Unit
Distinct (d ∷ ds) = All (λ (e : Workload). e.name ≢ d.name) ds × Distinct ds

module _ (k : Cluster) where
  open k use {
    World, list_namespaces, list_workloads, get_workload, patch_workload, list_hpas, patch_hpa,
  }

  pub record ClusterLaws : Type 0 where
    -- the object that the API server holds
    pub workload : World → WorkloadType → String → String → Option Workload
    pub namespace : World → String → Option Namespace
    -- a list gives the objects of the namespace, as they are held, each once, and all of them
    pub listed :
        (t : WorkloadType) (ns : String) (w : World) (l : List Workload)
        → (list_workloads t (some ns) w).0 ≡ ok l
        → All (λ (d : Workload). (d.namespace ≡ ns) × (workload w t ns d.name ≡ some d)) l
    pub listed_distinct :
        (t : WorkloadType) (ns : String) (w : World) (l : List Workload)
        → (list_workloads t (some ns) w).0 ≡ ok l
        → Distinct l
    pub listed_all :
        (t : WorkloadType) (ns name : String) (w : World) (l : List Workload) (d : Workload)
        → (list_workloads t (some ns) w).0 ≡ ok l
        → workload w t ns name ≡ some d
        → (d.name ≡ name) × Memᴰ d l
    -- a list of the whole cluster gives objects as they are held
    pub listed_everywhere :
        (t : WorkloadType) (w : World) (l : List Workload)
        → (list_workloads t none w).0 ≡ ok l
        → All (λ (d : Workload). workload w t d.namespace d.name ≡ some d) l
    pub listed_everywhere_all :
        (t : WorkloadType) (ns name : String) (w : World) (l : List Workload) (d : Workload)
        → (list_workloads t none w).0 ≡ ok l
        → workload w t ns name ≡ some d
        → (d.namespace ≡ ns) × (d.name ≡ name) × Memᴰ d l
    pub namespaces_listed :
        (w : World) (l : List Namespace)
        → (list_namespaces w).0 ≡ ok l
        → All (λ (n : Namespace). namespace w n.name ≡ some n) l
    pub list_keeps_namespace :
        (t : WorkloadType) (ns : Option String) (w : World)
        → namespace (list_workloads t ns w).1 ≡ namespace w
    pub list_namespaces_keeps : (w : World) → workload (list_namespaces w).1 ≡ workload w
    pub list_namespaces_keeps_namespace :
        (w : World) → namespace (list_namespaces w).1 ≡ namespace w
    -- a get answers with what is held
    pub got :
        (t : WorkloadType) (ns name : String) (w : World) (d : Workload)
        → (get_workload t ns name w).0 ≡ ok d
        → (d.namespace ≡ ns) × (d.name ≡ name) × (workload w t ns name ≡ some d)
    pub get_missing :
        (t : WorkloadType) (ns name : String) (w : World)
        → (get_workload t ns name w).0 ≡ err not_found
        → workload w t ns name ≡ none
    -- reads, and writes of autoscalers, leave the workloads alone
    pub list_keeps :
        (t : WorkloadType) (ns : Option String) (w : World)
        → workload (list_workloads t ns w).1 ≡ workload w
    pub get_keeps :
        (t : WorkloadType) (ns name : String) (w : World)
        → workload (get_workload t ns name w).1 ≡ workload w
    pub list_hpas_keeps : (ns : String) (w : World) → workload (list_hpas ns w).1 ≡ workload w
    pub patch_hpa_keeps : (h h' : Hpa) (w : World) → workload (patch_hpa h h' w).1 ≡ workload w
    -- a patch that succeeds stores the object
    pub patched :
        (t : WorkloadType) (d d' : Workload) (w : World)
        → (patch_workload t d d' w).0 ≡ ok tt
        → workload (patch_workload t d d' w).1 t d'.namespace d'.name ≡ some d'
    -- a patch that fails stores the object or nothing
    pub patch_atomic :
        (t : WorkloadType) (d d' : Workload) (w : World)
        → (workload (patch_workload t d d' w).1 t d'.namespace d'.name
            ≡ workload w t d'.namespace d'.name)
          ⊎ (workload (patch_workload t d d' w).1 t d'.namespace d'.name ≡ some d')
    -- a patch, failed or not, touches no object but its own
    pub patch_keeps :
        (t : WorkloadType) (d d' : Workload) (w : World) (u : WorkloadType) (ns name : String)
        → (u ≢ t) ⊎ (ns ≢ d'.namespace) ⊎ (name ≢ d'.name)
        → workload (patch_workload t d d' w).1 u ns name ≡ workload w u ns name
