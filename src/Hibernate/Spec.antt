-- ===== src/Hibernate/Spec.antt =====
-- What the policy controllers are to make of a workload, as pure functions of it.
use kube_greencosts.Prelude.{Bool, String, ◌&&◌, Option, none, some, if◌then◌else◌}
use kube_greencosts.Api.{
  WorkloadType, deployment, stateful_set, daemon_set, replica_set, unknown, HibernateAction,
  HibernationOwner, NodeSelector, Workload,
}
use kube_greencosts.Cluster.{Cluster}
use kube_greencosts.Marker.{is_hibernated, owned_by, or_one, compute_target_replicas}
use kube_greencosts.Patch.{is_owned_by_deployment, scaled, woken, asleep, awake}

-- A workload above the cap is scaled down to it and marked. Any other, and one that is marked
-- already, stays as it is.
abbrev pub hibernate_spec : HibernateAction → HibernationOwner → Workload → Workload
hibernate_spec action owner d =
    let (target, should_scale) = compute_target_replicas action (or_one d.replicas) in
    if is_hibernated d.annotations then d else if should_scale then scaled owner target d else d

abbrev pub asleep_from : HibernationOwner → Workload → Option String → Workload
asleep_from owner d none = d
asleep_from owner d (some orig_json) = asleep owner orig_json d

-- A DaemonSet that is not marked is put to sleep.
abbrev pub sleep_spec : (NodeSelector → Option String) → HibernationOwner → Workload → Workload
sleep_spec marshal owner d =
    if is_hibernated d.annotations then d else asleep_from owner d (marshal d.node_selector)

abbrev pub is_own : HibernationOwner → Workload → Bool
is_own owner d = is_hibernated d.annotations && owned_by d.annotations owner

-- A workload that its owner hibernated is restored.
abbrev pub wake_spec : HibernationOwner → Workload → Workload
wake_spec owner d = if is_own owner d then woken d else d

abbrev pub awaken_spec : (String → Option NodeSelector) → HibernationOwner → Workload → Workload
awaken_spec unmarshal owner d = if is_own owner d then awake unmarshal d else d

abbrev pub unless_of_deployment : (Workload → Workload) → Workload → Workload
unless_of_deployment spec d = if is_owned_by_deployment d.owner_kinds then d else spec d

-- What the hibernation of each kind makes of a workload: the ReplicaSets of a Deployment are left
-- alone, and DaemonSets are touched only if the action says so.
abbrev pub hibernate_kind_spec :
    Cluster → HibernateAction → HibernationOwner → WorkloadType → Workload → Workload
hibernate_kind_spec k action owner deployment d = hibernate_spec action owner d
hibernate_kind_spec k action owner stateful_set d = hibernate_spec action owner d
hibernate_kind_spec k action owner replica_set d =
    unless_of_deployment (hibernate_spec action owner) d
hibernate_kind_spec k action owner daemon_set d =
    if action.sleep_daemon_set then sleep_spec k.marshal owner d else d
hibernate_kind_spec k action owner (unknown _) d = d

-- What the waking of each kind makes of a workload.
abbrev pub wake_kind_spec : Cluster → HibernationOwner → WorkloadType → Workload → Workload
wake_kind_spec k owner deployment d = wake_spec owner d
wake_kind_spec k owner stateful_set d = wake_spec owner d
wake_kind_spec k owner replica_set d = unless_of_deployment (wake_spec owner) d
wake_kind_spec k owner daemon_set d = awaken_spec k.unmarshal owner d
wake_kind_spec k owner (unknown _) d = d
