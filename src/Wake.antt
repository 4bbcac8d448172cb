-- ===== src/Wake.antt =====
-- Waking the workloads of a namespace, one kind at a time
-- (internal/controller/hibernatepolicy_controller.go).
use kube_greencosts.Prelude.{String, ◌&&◌, some, List, [], ◌∷◌, if◌then◌else◌}
use kube_greencosts.Api.{
  WorkloadType, deployment, stateful_set, daemon_set, replica_set, unknown, HibernationOwner,
  Workload,
}
use kube_greencosts.Cluster.{Cluster, Exec, pure, ◌>>=◌, ◌>>◌}
use kube_greencosts.Marker.{is_hibernated, owned_by}
use kube_greencosts.Hpa.{restore_hpa}
use kube_greencosts.Patch.{kind_name, is_owned_by_deployment, woken, awake}

module _ (k : Cluster) where
  open k use {World, list_workloads, patch_workload, unmarshal}

  unfoldable pub wake_named :
      WorkloadType → String → String → HibernationOwner → Workload → Exec World (Unit {0})
  wake_named t ns name owner d =
      if is_hibernated d.annotations && owned_by d.annotations owner
      then (do restore_hpa k ns (kind_name t) name; patch_workload t d (woken d))
      else pure tt

  abbrev pub wake_object :
      WorkloadType → String → HibernationOwner → Workload → Exec World (Unit {0})
  wake_object t ns owner d = wake_named t ns d.name owner d

  unfoldable pub awaken_object : HibernationOwner → Workload → Exec World (Unit {0})
  awaken_object owner d =
      if is_hibernated d.annotations && owned_by d.annotations owner
      then patch_workload daemon_set d (awake unmarshal d)
      else pure tt

  -- `continue` is `pure tt`, and the first error is returned
  unfoldable pub wake_loop :
      (Workload → Exec World (Unit {0})) → List Workload → Exec World (Unit {0})
  wake_loop step [] = pure tt
  wake_loop step (d ∷ ds) = do step d; wake_loop step ds

  unfoldable pub wake_deployments : String → HibernationOwner → Exec World (Unit {0})
  wake_deployments ns owner = do
    l ← list_workloads deployment (some ns)
    wake_loop (wake_object deployment ns owner) l

  unfoldable pub wake_stateful_sets : String → HibernationOwner → Exec World (Unit {0})
  wake_stateful_sets ns owner = do
    l ← list_workloads stateful_set (some ns)
    wake_loop (wake_object stateful_set ns owner) l

  unfoldable pub wake_replica_set : String → HibernationOwner → Workload → Exec World (Unit {0})
  wake_replica_set ns owner d =
      if is_owned_by_deployment d.owner_kinds then pure tt else wake_object replica_set ns owner d

  unfoldable pub wake_replica_sets : String → HibernationOwner → Exec World (Unit {0})
  wake_replica_sets ns owner = do
    l ← list_workloads replica_set (some ns)
    wake_loop (wake_replica_set ns owner) l

  unfoldable pub wake_daemon_sets : String → HibernationOwner → Exec World (Unit {0})
  wake_daemon_sets ns owner = do
    l ← list_workloads daemon_set (some ns)
    wake_loop (awaken_object owner) l

  unfoldable pub wake_workload_type :
      String → WorkloadType → HibernationOwner → Exec World (Unit {0})
  wake_workload_type ns t owner = elim t [
    | deployment ↦ wake_deployments ns owner
    | stateful_set ↦ wake_stateful_sets ns owner
    | replica_set ↦ wake_replica_sets ns owner
    | daemon_set ↦ wake_daemon_sets ns owner
    | unknown _ ↦ pure tt
  ]
