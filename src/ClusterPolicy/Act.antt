-- ===== src/ClusterPolicy/Act.antt =====
-- What a cluster-wide hibernate policy does to one workload
-- (internal/controller/clusterhibernatepolicy_controller.go).
use kube_greencosts.Prelude.{String, true, false, Option, none, some, if◌then◌else◌}
use kube_greencosts.Api.{
  WorkloadType, deployment, stateful_set, daemon_set, replica_set, unknown, HibernateAction,
  HibernationOwner, Workload,
}
use kube_greencosts.Cluster.{
  Error, encoding_failed, Cluster, Exec, Result, ok, err, error_of, ignore_not_found,
}
use kube_greencosts.Marker.{is_hibernated, owned_by}
use kube_greencosts.Patch.{asleep}
use kube_greencosts.Hibernate.{Outcome, hibernate_named}
use kube_greencosts.Wake.{wake_named, awaken_object}
use kube_greencosts.ClusterPolicy.Collect.{WorkloadRef}

module _ (k : Cluster) where
  open k use {World, get_workload, patch_workload, marshal}

  abbrev pub slept : Result (Unit {0}) × World → Outcome × World
  slept (r, w) = ((true, error_of r), w)

  unfoldable pub sleep_once_with :
      HibernationOwner → Workload → Option String → World → Outcome × World
  sleep_once_with owner d none w = ((false, some encoding_failed), w)
  sleep_once_with owner d (some orig_json) w =
      slept (patch_workload daemon_set d (asleep owner orig_json d) w)

  -- the case of a DaemonSet, once it is fetched
  unfoldable pub sleep_once : HibernationOwner → Workload → World → Outcome × World
  unfolding sleep_once_with
  sleep_once owner d w =
      if is_hibernated d.annotations
      then if owned_by d.annotations owner then ((true, none), w) else ((false, none), w)
      else sleep_once_with owner d (marshal d.node_selector) w

  abbrev pub fetched :
      Result Workload × World → (Workload → World → Outcome × World) → Outcome × World
  fetched (err e, w) step = ((false, ignore_not_found e), w)
  fetched (ok d, w) step = step d w

  -- the three kinds that have replicas
  abbrev pub hibernate_replicated :
      WorkloadType → String → String → HibernateAction → HibernationOwner → World → Outcome × World
  hibernate_replicated t ns name action owner w =
      fetched (get_workload t ns name w) (hibernate_named k t ns name action owner)

  -- the `switch` of `hibernateWorkload`
  abbrev pub hibernate_at :
      WorkloadType → String → String → HibernateAction → HibernationOwner → World → Outcome × World
  hibernate_at deployment ns name action owner w =
      hibernate_replicated deployment ns name action owner w
  hibernate_at stateful_set ns name action owner w =
      hibernate_replicated stateful_set ns name action owner w
  hibernate_at daemon_set ns name action owner w =
      if action.sleep_daemon_set
      then fetched (get_workload daemon_set ns name w) (sleep_once owner)
      else ((false, none), w)
  hibernate_at replica_set ns name action owner w =
      hibernate_replicated replica_set ns name action owner w
  hibernate_at (unknown _) ns name action owner w = ((false, none), w)

  unfoldable pub hibernate_workload :
      WorkloadRef → HibernateAction → HibernationOwner → World → Outcome × World
  hibernate_workload ref action owner w =
      hibernate_at ref.kind ref.namespace ref.name action owner w

  abbrev pub fetched_for_wake :
      Result Workload × World → (Workload → Exec World (Unit {0})) → Option Error × World
  fetched_for_wake (err e, w) step = (ignore_not_found e, w)
  fetched_for_wake (ok d, w) step = (error_of (step d w).0, (step d w).1)

  abbrev pub wake_replicated :
      WorkloadType → String → String → HibernationOwner → World → Option Error × World
  wake_replicated t ns name owner w =
      fetched_for_wake (get_workload t ns name w) (wake_named k t ns name owner)

  -- the `switch` of `wakeWorkload`
  abbrev pub wake_at :
      WorkloadType → String → String → HibernationOwner → World → Option Error × World
  wake_at deployment ns name owner w = wake_replicated deployment ns name owner w
  wake_at stateful_set ns name owner w = wake_replicated stateful_set ns name owner w
  wake_at daemon_set ns name owner w =
      fetched_for_wake (get_workload daemon_set ns name w) (awaken_object k owner)
  wake_at replica_set ns name owner w = wake_replicated replica_set ns name owner w
  wake_at (unknown _) ns name owner w = (none, w)

  unfoldable pub wake_workload : WorkloadRef → HibernationOwner → World → Option Error × World
  wake_workload ref owner w = wake_at ref.kind ref.namespace ref.name owner w
