-- ===== src/Hibernate.antt =====
-- Hibernating and waking the workloads of a namespace, one kind at a time
-- (internal/controller/hibernatepolicy_controller.go).
pub mod Effect
pub mod Spec
pub mod Object
pub mod Run
pub mod Pass
pub mod Kinds
pub mod Cycle
pub mod Safety
pub mod Settle
pub mod Promise
use Prim.Native.String
use kube_greencosts.Prelude.{
  String, Bool, true, false, ◌&&◌, ◌||◌, Option, none, some, List, [], ◌∷◌, ◌++◌, ◌==◌,
  if◌then◌else◌,
}
use kube_greencosts.Prelude.Int.{ℤ}
use kube_greencosts.Api.{
  WorkloadType, deployment, stateful_set, daemon_set, replica_set, unknown, HibernateAction,
  HibernationOwner, Workload,
}
use kube_greencosts.Cluster.{
  Error, encoding_failed, Cluster, Exec, Result, ok, err, pure, error_of, ◌>>=◌, ◌>>◌,
}
use kube_greencosts.Marker.{is_hibernated, owned_by, or_one, compute_target_replicas}
use kube_greencosts.Hpa.{suspend_hpa, suspend_hpa_for_action, restore_hpa}
use kube_greencosts.Patch.{kind_name, is_owned_by_deployment, scaled, woken, asleep, awake}

-- A call's two results, `(hibernated bool, err error)`: whether the workload is counted, and the
-- error that ends the loop.
abbrev pub Outcome : Type 0
Outcome = Bool × Option Error

-- `action.MaxReplicas != nil`
abbrev pub is_set : Option ℤ → Bool
is_set none = false
is_set (some _) = true

module _ (k : Cluster) where
  open k use {World, list_workloads, patch_workload, marshal, unmarshal}

  abbrev reported : Exec World (Unit {0}) → World → Outcome × World
  reported m w = ((true, error_of (m w).0), (m w).1)

  abbrev then_suspend : Result (Unit {0}) × World → Exec World (Unit {0}) → Outcome × World
  then_suspend (ok _, w) m = reported m w
  then_suspend (err e, w) m = ((false, some e), w)

  -- One workload that has replicas, whose autoscaler is found by `name`: `continue` is the outcome
  -- `(false, none)`.
  unfoldable pub hibernate_named :
      WorkloadType
      → String
      → String
      → HibernateAction
      → HibernationOwner
      → Workload
      → World
      → Outcome × World
  hibernate_named t ns name action owner d w =
      let (target, should_scale) = compute_target_replicas action (or_one d.replicas) in
      if is_hibernated d.annotations
      then if owned_by d.annotations owner
        then reported (suspend_hpa_for_action k ns (kind_name t) name action) w
        else ((false, none), w)
      else if should_scale
      then then_suspend (patch_workload t d (scaled owner target d) w)
          (suspend_hpa k ns (kind_name t) name target)
      else ((false, none), w)

  -- The step of the loop over a list, which takes the name from the object.
  abbrev pub hibernate_object :
      WorkloadType
      → String
      → HibernateAction
      → HibernationOwner
      → Workload
      → World
      → Outcome × World
  hibernate_object t ns action owner d w = hibernate_named t ns d.name action owner d w

  abbrev patched_outcome : Result (Unit {0}) × World → Outcome × World
  patched_outcome (ok _, w) = ((true, none), w)
  patched_outcome (err e, w) = ((false, some e), w)

  unfoldable pub sleep_with : HibernationOwner → Workload → Option String → World → Outcome × World
  sleep_with owner d none w = ((false, some encoding_failed), w)
  sleep_with owner d (some orig_json) w =
      patched_outcome (patch_workload daemon_set d (asleep owner orig_json d) w)

  unfoldable pub sleep_object : HibernationOwner → Workload → World → Outcome × World
  unfolding sleep_with
  sleep_object owner d w =
      if is_hibernated d.annotations
      then if owned_by d.annotations owner then ((true, none), w) else ((false, none), w)
      else sleep_with owner d (marshal d.node_selector) w

  -- The loop over the items of a list: the names of what is hibernated, up to the first error.
  unfoldable pub hibernate_loop :
      String
      → (Workload → World → Outcome × World)
      → List Workload
      → List String
      → World
      → (List String × Option Error) × World
  hibernate_loop kind step [] names w = ((names, none), w)
  hibernate_loop kind step (d ∷ ds) names w =
      let ((counted, error), w') = step d w in
      elim error [
        | none ↦
            hibernate_loop kind step ds
              (if counted then names ++ String.◌++◌ kind (String.◌++◌ "/" d.name) ∷ [] else names)
              w'
        | some e ↦ ((names, some e), w')
      ]

  abbrev over_list :
      String
      → (Workload → World → Outcome × World)
      → Result (List Workload) × World
      → (List String × Option Error) × World
  over_list kind step (ok l, w) = hibernate_loop kind step l [] w
  over_list kind step (err e, w) = (([], some e), w)

  unfoldable pub hibernate_deployments :
      String → HibernateAction → HibernationOwner → World → (List String × Option Error) × World
  hibernate_deployments ns action owner w =
      over_list "Deployment" (hibernate_object deployment ns action owner)
        (list_workloads deployment (some ns) w)

  unfoldable pub hibernate_stateful_sets :
      String → HibernateAction → HibernationOwner → World → (List String × Option Error) × World
  hibernate_stateful_sets ns action owner w =
      over_list "StatefulSet" (hibernate_object stateful_set ns action owner)
        (list_workloads stateful_set (some ns) w)

  -- a ReplicaSet of a Deployment is left to the Deployment
  unfoldable pub hibernate_replica_set :
      String → HibernateAction → HibernationOwner → Workload → World → Outcome × World
  hibernate_replica_set ns action owner d w =
      if is_owned_by_deployment d.owner_kinds
      then ((false, none), w)
      else hibernate_object replica_set ns action owner d w

  unfoldable pub hibernate_replica_sets :
      String → HibernateAction → HibernationOwner → World → (List String × Option Error) × World
  hibernate_replica_sets ns action owner w =
      over_list "ReplicaSet" (hibernate_replica_set ns action owner)
        (list_workloads replica_set (some ns) w)

  unfoldable pub hibernate_daemon_sets :
      String → HibernationOwner → World → (List String × Option Error) × World
  hibernate_daemon_sets ns owner w =
      over_list "DaemonSet" (sleep_object owner) (list_workloads daemon_set (some ns) w)

  -- the `switch` on the workload type
  unfoldable pub hibernate_dispatch :
      String
      → WorkloadType
      → HibernateAction
      → HibernationOwner
      → World
      → (List String × Option Error) × World
  hibernate_dispatch ns deployment action owner w = hibernate_deployments ns action owner w
  hibernate_dispatch ns stateful_set action owner w = hibernate_stateful_sets ns action owner w
  hibernate_dispatch ns replica_set action owner w = hibernate_replica_sets ns action owner w
  hibernate_dispatch ns daemon_set action owner w =
      if action.sleep_daemon_set then hibernate_daemon_sets ns owner w else (([], none), w)
  hibernate_dispatch ns (unknown _) action owner w = (([], none), w)

  unfoldable pub hibernate_workload_type :
      String
      → WorkloadType
      → HibernateAction
      → HibernationOwner
      → World
      → (List String × Option Error) × World
  unfolding hibernate_dispatch
  hibernate_workload_type ns t action owner w =
      if action.sleep_daemon_set || is_set action.max_replicas
      then hibernate_dispatch ns t action owner w
      else (([], none), w)
