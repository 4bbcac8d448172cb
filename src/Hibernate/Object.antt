-- ===== src/Hibernate/Object.antt =====
-- Each step of a pass has the effect of a pure function on its workload.
use kube_greencosts.Prelude.{String, ◌≡◌, refl, inl, inr, Bool-cases, ◌&&◌, Option, none, some}
use kube_greencosts.Api.{
  daemon_set, replica_set, WorkloadType, HibernateAction, HibernationOwner, Workload,
}
use kube_greencosts.Cluster.{Cluster, Exec, Result, ok, err, error_of, continue}
use kube_greencosts.Cluster.Laws.{ClusterLaws}
use kube_greencosts.Marker.{is_hibernated, owned_by, or_one, compute_target_replicas}
use kube_greencosts.Hpa.{restore_hpa}
use kube_greencosts.Hpa.Effects.{
  Quiet, Quiet-suspend_hpa, Quiet-suspend_hpa_for_action, Quiet-restore_hpa,
}
use kube_greencosts.Patch.{kind_name, is_owned_by_deployment, scaled, woken, asleep, awake}
use kube_greencosts.Hibernate.{
  hibernate_named, then_suspend, patched_outcome, sleep_with, sleep_object, hibernate_replica_set,
}
use kube_greencosts.Wake.{wake_named, awaken_object, wake_replica_set}
use kube_greencosts.Hibernate.Spec.{
  hibernate_spec, sleep_spec, asleep_from, is_own, wake_spec, awaken_spec, unless_of_deployment,
}
use kube_greencosts.Hibernate.Effect.{
  Effect, Effect-quiet, Effect-failed, Effect-patch, Effect-after, ok_of_no_error,
}

module _ (k : Cluster) (laws : ClusterLaws k) (t : WorkloadType) (ns : String) where
  open k use {World, patch_workload}
  open laws use {workload}

  Effect-then_suspend :
      (d d' : Workload) (w : World) (m : Exec World (Unit {0})) (r : Result (Unit {0}))
      → d'.namespace ≡ ns
      → d'.name ≡ d.name
      → workload w t ns d.name ≡ some d
      → Quiet k laws m
      → (patch_workload t d d' w).0 ≡ r
      → let (o, w') = then_suspend k (r, (patch_workload t d d' w).1) m in
        Effect k laws t ns d d' o.1 w w'
  Effect-then_suspend d d' w m (ok _) in_ns same held quiet e =
      Effect-patch k laws t ns d d' _ in_ns same held (quiet (patch_workload t d d' w).1) (λ _. e)
  Effect-then_suspend d d' w m (err x) in_ns same held quiet e =
      Effect-patch k laws t ns d d' _ in_ns same held refl (λ h. cc)

  -- A step of the hibernating loop writes what `hibernate_spec` says, or fails.
  pub hibernate_named-Effect :
      (name : String) (action : HibernateAction) (owner : HibernationOwner) (d : Workload)
      (w : World)
      → d.namespace ≡ ns
      → workload w t ns d.name ≡ some d
      → let (o, w') = hibernate_named k t ns name action owner d w in
        Effect k laws t ns d (hibernate_spec action owner d) o.1 w w'
  unfolding hibernate_named scaled
  hibernate_named-Effect name action owner d w in_ns held =
      elim (Bool-cases (is_hibernated d.annotations)) [
        | inl marked ↦ rw marked (elim (Bool-cases (owned_by d.annotations owner)) [
          | inl own ↦ rw own (
              Effect-quiet k laws t ns d _
                (Quiet-suspend_hpa_for_action k laws ns (kind_name t) name action w) held)
          | inr foreign ↦ rw foreign (Effect-quiet k laws t ns d _ refl held)
        ])
        | inr fresh ↦
            rw fresh (elim (Bool-cases (compute_target_replicas action (or_one d.replicas)).1) [
              | inl above ↦ rw above (
                  Effect-then_suspend d _ w _ _ in_ns refl held
                    (Quiet-suspend_hpa k laws ns (kind_name t) name _) refl)
              | inr below ↦ rw below (Effect-quiet k laws t ns d _ refl held)
            ])
      ]

  Effect-restore :
      (d d' : Workload) (w : World) (m : Exec World (Unit {0})) (r : Result (Unit {0}))
      → d'.namespace ≡ ns
      → d'.name ≡ d.name
      → workload w t ns d.name ≡ some d
      → Quiet k laws m
      → (m w).0 ≡ r
      → let (r', w') = continue r (λ _. patch_workload t d d') (m w).1 in
        Effect k laws t ns d d' (error_of r') w w'
  Effect-restore d d' w m (ok _) in_ns same held quiet e =
      Effect-after k laws t ns d d' _ (quiet w)
        (λ held1. Effect-patch k laws t ns d d' _ in_ns same held1 refl (ok_of_no_error _)) held
  Effect-restore d d' w m (err x) in_ns same held quiet e =
      Effect-failed k laws t ns d d' x (quiet w) held

  -- A step of the waking loop writes what `wake_spec` says, or fails.
  pub wake_named-Effect :
      (name : String) (owner : HibernationOwner) (d : Workload) (w : World)
      → d.namespace ≡ ns
      → workload w t ns d.name ≡ some d
      → let (r, w') = wake_named k t ns name owner d w in
        Effect k laws t ns d (wake_spec owner d) (error_of r) w w'
  unfolding wake_named woken
  wake_named-Effect name owner d w in_ns held =
      elim (Bool-cases (is_hibernated d.annotations && owned_by d.annotations owner)) [
        | inl own ↦ rw own (
            Effect-restore d _ w (restore_hpa k ns (kind_name t) name) _ in_ns refl held
              (Quiet-restore_hpa k laws ns (kind_name t) name) refl)
        | inr other ↦ rw other (Effect-quiet k laws t ns d _ refl held)
      ]

module _ (k : Cluster) (laws : ClusterLaws k) (ns : String) where
  open k use {World, patch_workload, marshal, unmarshal}
  open laws use {workload}

  -- The same of a step over ReplicaSets, which skips those of a Deployment.
  pub hibernate_replica_set-Effect :
      (action : HibernateAction) (owner : HibernationOwner) (d : Workload) (w : World)
      → d.namespace ≡ ns
      → workload w replica_set ns d.name ≡ some d
      → let (o, w') = hibernate_replica_set k ns action owner d w in
        Effect k laws replica_set ns d
          (unless_of_deployment (hibernate_spec action owner) d)
          o.1
          w
          w'
  unfolding hibernate_replica_set
  hibernate_replica_set-Effect action owner d w in_ns held =
      elim (Bool-cases (is_owned_by_deployment d.owner_kinds)) [
        | inl of_deployment ↦ rw of_deployment (Effect-quiet k laws replica_set ns d _ refl held)
        | inr free ↦
            rw free
              (hibernate_named-Effect k laws replica_set ns d.name action owner d w in_ns held)
      ]

  pub wake_replica_set-Effect :
      (owner : HibernationOwner) (d : Workload) (w : World)
      → d.namespace ≡ ns
      → workload w replica_set ns d.name ≡ some d
      → let (r, w') = wake_replica_set k ns owner d w in
        Effect k laws replica_set ns d (unless_of_deployment (wake_spec owner) d) (error_of r) w w'
  unfolding wake_replica_set
  wake_replica_set-Effect owner d w in_ns held =
      elim (Bool-cases (is_owned_by_deployment d.owner_kinds)) [
        | inl of_deployment ↦ rw of_deployment (Effect-quiet k laws replica_set ns d _ refl held)
        | inr free ↦ rw free (wake_named-Effect k laws replica_set ns d.name owner d w in_ns held)
      ]

  Effect-patched_outcome :
      (d d' : Workload) (w : World) (r : Result (Unit {0}))
      → d'.namespace ≡ ns
      → d'.name ≡ d.name
      → workload w daemon_set ns d.name ≡ some d
      → (patch_workload daemon_set d d' w).0 ≡ r
      → let (o, w') = patched_outcome k (r, (patch_workload daemon_set d d' w).1) in
        Effect k laws daemon_set ns d d' o.1 w w'
  Effect-patched_outcome d d' w (ok _) in_ns same held e =
      Effect-patch k laws daemon_set ns d d' _ in_ns same held refl (λ _. e)
  Effect-patched_outcome d d' w (err x) in_ns same held e =
      Effect-patch k laws daemon_set ns d d' _ in_ns same held refl (λ h. cc)

  sleep_with-Effect :
      (owner : HibernationOwner) (d : Workload) (json : Option String) (w : World)
      → d.namespace ≡ ns
      → workload w daemon_set ns d.name ≡ some d
      → let (o, w') = sleep_with k owner d json w in
        Effect k laws daemon_set ns d (asleep_from owner d json) o.1 w w'
  unfolding sleep_with asleep
  sleep_with-Effect owner d none w in_ns held = Effect-quiet k laws daemon_set ns d _ refl held
  sleep_with-Effect owner d (some json) w in_ns held =
      Effect-patched_outcome d _ w _ in_ns refl held refl

  pub sleep_object-Effect :
      (owner : HibernationOwner) (d : Workload) (w : World)
      → d.namespace ≡ ns
      → workload w daemon_set ns d.name ≡ some d
      → let (o, w') = sleep_object k owner d w in
        Effect k laws daemon_set ns d (sleep_spec marshal owner d) o.1 w w'
  unfolding sleep_object
  sleep_object-Effect owner d w in_ns held = elim (Bool-cases (is_hibernated d.annotations)) [
    | inl marked ↦ rw marked (elim (Bool-cases (owned_by d.annotations owner)) [
      | inl own ↦ rw own (Effect-quiet k laws daemon_set ns d _ refl held)
      | inr foreign ↦ rw foreign (Effect-quiet k laws daemon_set ns d _ refl held)
    ])
    | inr fresh ↦ rw fresh (sleep_with-Effect owner d (marshal d.node_selector) w in_ns held)
  ]

  pub awaken_object-Effect :
      (owner : HibernationOwner) (d : Workload) (w : World)
      → d.namespace ≡ ns
      → workload w daemon_set ns d.name ≡ some d
      → let (r, w') = awaken_object k owner d w in
        Effect k laws daemon_set ns d (awaken_spec unmarshal owner d) (error_of r) w w'
  unfolding awaken_object awake
  awaken_object-Effect owner d w in_ns held = elim (Bool-cases (is_own owner d)) [
    | inl own ↦
        rw own (Effect-patch k laws daemon_set ns d _ _ in_ns refl held refl (ok_of_no_error _))
    | inr other ↦ rw other (Effect-quiet k laws daemon_set ns d _ refl held)
  ]
