-- ===== src/PolicyApi.antt =====
-- The two kinds of hibernate policy (api/v1alpha1), and what their reconciliation takes from outside.
use kube_greencosts.Prelude.{ℕ, String, ◌≡◌, Bool, List}
use kube_greencosts.Api.{WorkloadType, HibernateAction, KindFilter}
use kube_greencosts.Cluster.{Cluster, Result}
use kube_greencosts.Cluster.Laws.{ClusterLaws}
use kube_greencosts.Window.{AvailabilityWindow}

-- `metav1.Condition`; `status` is whether the text is "True"
pub record Condition : Type 0 where
  pub kind : String
  pub status : Bool
  pub reason : String
  pub message : String
  pub last_transition_time : ℕ

-- `HibernatePolicy`: its key, its specification and its status, in which a nil list is empty.
pub record HibernatePolicy : Type 0 where
  pub namespace : String
  pub name : String
  pub workload_types : List WorkloadType
  pub availability_windows : List AvailabilityWindow
  pub action : HibernateAction
  pub hibernated_workloads : List String
  pub conditions : List Condition

-- `ClusterHibernatePolicy`
pub record ClusterHibernatePolicy : Type 0 where
  pub name : String
  pub availability_windows : List AvailabilityWindow
  pub action : HibernateAction
  pub filter : KindFilter
  pub hibernated_workloads : List String
  pub conditions : List Condition

-- What a reconciliation takes from the API and the system's clock beside the workloads.
pub record PolicyStore (World : Type 0) : Type 0 where
  pub clock : World → ℕ × World
  pub get_policy : String → String → World → Result HibernatePolicy × World
  pub patch_policy_status : HibernatePolicy → HibernatePolicy → World → Result (Unit {0}) × World
  pub get_cluster_policy : String → World → Result ClusterHibernatePolicy × World
  pub patch_cluster_policy_status :
      ClusterHibernatePolicy → ClusterHibernatePolicy → World → Result (Unit {0}) × World

-- Reading the clock and writing a policy's status leave the workloads alone.
pub record PolicyLaws (k : Cluster) (laws : ClusterLaws k) (p : PolicyStore k.World) : Type 0 where
  pub clock_keeps : (w : k.World) → laws.workload (p.clock w).1 ≡ laws.workload w
  pub clock_keeps_namespace : (w : k.World) → laws.namespace (p.clock w).1 ≡ laws.namespace w
  pub status_keeps :
      (hp hp' : HibernatePolicy) (w : k.World)
      → laws.workload (p.patch_policy_status hp hp' w).1 ≡ laws.workload w
  pub cluster_status_keeps :
      (chp chp' : ClusterHibernatePolicy) (w : k.World)
      → laws.workload (p.patch_cluster_policy_status chp chp' w).1 ≡ laws.workload w
