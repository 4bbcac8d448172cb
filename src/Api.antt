-- ===== src/Api.antt =====
-- The custom resources of api/v1alpha1: hibernate policies, and the objects that they act on.
use kube_greencosts.Prelude.{String, Option, Bool, List, StringMap}
use kube_greencosts.Prelude.Int.{ℤ}

-- `WorkloadType`; a text that is none of the four constants is `unknown`
pub data WorkloadType : Type 0 where
  deployment stateful_set daemon_set replica_set : WorkloadType
  unknown : String → WorkloadType

-- `HibernateAction`
pub record HibernateAction : Type 0 where
  pub sleep_daemon_set : Bool
  pub max_replicas : Option ℤ

-- `hibernationOwner`
pub record HibernationOwner : Type 0 where
  pub kind : String
  pub namespace : String
  pub name : String

-- A `map[string]string` that JSON encodes: `none` is the nil map.
abbrev pub NodeSelector : Type 0
NodeSelector = Option (List (String × String))

-- What the controllers read and write of a Deployment, a StatefulSet, a ReplicaSet or a DaemonSet:
-- `replicas` is `Spec.Replicas`, `node_selector` the pod template's, and `owner_kinds` are the kinds
-- of the owner references.
pub record Workload : Type 0 where
  pub namespace : String
  pub name : String
  pub annotations : StringMap
  pub owner_kinds : List String
  pub replicas : Option ℤ
  pub node_selector : NodeSelector

-- What the controllers read and write of a HorizontalPodAutoscaler.
pub record Hpa : Type 0 where
  pub namespace : String
  pub name : String
  pub annotations : StringMap
  pub target_api_version : String
  pub target_kind : String
  pub target_name : String
  pub min_replicas : Option ℤ
  pub max_replicas : ℤ

-- `IncludedResources` and `ExcludedResources` of a `ClusterHibernatePolicySpec`
pub record KindFilter : Type 0 where
  pub included_resources : List WorkloadType
  pub excluded_resources : List WorkloadType

-- What the controllers read of a Namespace.
pub record Namespace : Type 0 where
  pub name : String
  pub annotations : StringMap
