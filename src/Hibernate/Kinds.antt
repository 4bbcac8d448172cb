-- ===== src/Hibernate/Kinds.antt =====
-- Every kind of workload: the passes refine the pure functions of Hibernate/Spec.antt.
use kube_greencosts.Prelude.{
  String, arith, ◌≡◌, refl, inl, inr, true, false, Bool-cases, same_if, ◌||◌, none,
}
use kube_greencosts.Api.{
  WorkloadType, deployment, stateful_set, daemon_set, replica_set, unknown, HibernateAction,
  HibernationOwner, Workload,
}
use kube_greencosts.Cluster.{Cluster, error_of}
use kube_greencosts.Cluster.Laws.{ClusterLaws}
use kube_greencosts.Marker.{is_hibernated, compute_target_replicas}
use kube_greencosts.Patch.{is_owned_by_deployment}
use kube_greencosts.Hibernate.{
  is_set, hibernate_dispatch, hibernate_object, sleep_object, hibernate_replica_set,
  hibernate_deployments, hibernate_stateful_sets, hibernate_replica_sets, hibernate_daemon_sets,
  hibernate_workload_type,
}
use kube_greencosts.Wake.{
  wake_object, awaken_object, wake_replica_set, wake_deployments, wake_stateful_sets,
  wake_replica_sets, wake_daemon_sets, wake_workload_type,
}
use kube_greencosts.Hibernate.Spec.{hibernate_spec, hibernate_kind_spec, wake_kind_spec}
use kube_greencosts.Hibernate.Object.{
  hibernate_named-Effect, wake_named-Effect, hibernate_replica_set-Effect, wake_replica_set-Effect,
  sleep_object-Effect, awaken_object-Effect,
}
use kube_greencosts.Hibernate.Pass.{Pass, Pass-idle, hibernate-Pass, wake-Pass}

module _ (k : Cluster) (laws : ClusterLaws k) (ns : String) where
  open k use {World}

  module _ (action : HibernateAction) (owner : HibernationOwner) where
    abbrev pub spec_of : WorkloadType → Workload → Workload
    spec_of = hibernate_kind_spec k action owner

    hibernate_deployments-Pass :
        (w : World)
        → let ((_, e), w') = hibernate_deployments k ns action owner w in
          Pass k laws deployment ns (spec_of deployment) e w w'
    unfolding hibernate_deployments
    hibernate_deployments-Pass =
        hibernate-Pass k laws deployment ns _ (hibernate_object k deployment ns action owner)
          (λ d w h. hibernate_named-Effect k laws deployment ns d.name action owner d w h.0 h.1)
          "Deployment"

    hibernate_stateful_sets-Pass :
        (w : World)
        → let ((_, e), w') = hibernate_stateful_sets k ns action owner w in
          Pass k laws stateful_set ns (spec_of stateful_set) e w w'
    unfolding hibernate_stateful_sets
    hibernate_stateful_sets-Pass =
        hibernate-Pass k laws stateful_set ns _ (hibernate_object k stateful_set ns action owner)
          (λ d w h. hibernate_named-Effect k laws stateful_set ns d.name action owner d w h.0 h.1)
          "StatefulSet"

    hibernate_replica_sets-Pass :
        (w : World)
        → let ((_, e), w') = hibernate_replica_sets k ns action owner w in
          Pass k laws replica_set ns (spec_of replica_set) e w w'
    unfolding hibernate_replica_sets
    hibernate_replica_sets-Pass =
        hibernate-Pass k laws replica_set ns _ (hibernate_replica_set k ns action owner)
          (λ d w h. hibernate_replica_set-Effect k laws ns action owner d w h.0 h.1) "ReplicaSet"

    hibernate_daemon_sets-Pass :
        (w : World)
        → action.sleep_daemon_set ≡ true
        → let ((_, e), w') = hibernate_daemon_sets k ns owner w in
          Pass k laws daemon_set ns (spec_of daemon_set) e w w'
    unfolding hibernate_daemon_sets
    hibernate_daemon_sets-Pass w sleeps = rw sleeps (
        hibernate-Pass k laws daemon_set ns _ (sleep_object k owner)
          (λ d w h. sleep_object-Effect k laws ns owner d w h.0 h.1) "DaemonSet" w)

    -- without a cap no workload is scaled
    uncapped_spec : action.max_replicas ≡ none → (d : Workload) → hibernate_spec action owner d ≡ d
    unfolding compute_target_replicas
    uncapped_spec e d = rw (e, compute_target_replicas) (same_if (is_hibernated d.annotations) d)

    idle_spec :
        (t : WorkloadType)
        → action.sleep_daemon_set ≡ false
        → action.max_replicas ≡ none
        → (d : Workload) → spec_of t d ≡ d
    idle_spec deployment s e d = uncapped_spec e d
    idle_spec stateful_set s e d = uncapped_spec e d
    idle_spec replica_set s e d =
        rw (uncapped_spec e d) (same_if (is_owned_by_deployment d.owner_kinds) d)
    idle_spec daemon_set s e d = rw s refl
    idle_spec (unknown _) s e d = refl

    hibernate_dispatch-Pass :
        (t : WorkloadType) (w : World)
        → let ((_, e), w') = hibernate_dispatch k ns t action owner w in
          Pass k laws t ns (spec_of t) e w w'
    unfolding hibernate_dispatch
    hibernate_dispatch-Pass deployment w = hibernate_deployments-Pass w
    hibernate_dispatch-Pass stateful_set w = hibernate_stateful_sets-Pass w
    hibernate_dispatch-Pass replica_set w = hibernate_replica_sets-Pass w
    hibernate_dispatch-Pass daemon_set w = elim (Bool-cases action.sleep_daemon_set) [
      | inl sleeps ↦ rw sleeps (rw sleeps at (hibernate_daemon_sets-Pass w sleeps))
      | inr stays ↦ rw stays (Pass-idle k laws daemon_set ns _ w (λ d. refl))
    ]
    hibernate_dispatch-Pass (unknown s) w = Pass-idle k laws (unknown s) ns _ w (λ d. refl)

    -- Hibernating a kind of workload makes of every object of the namespace what
    -- `hibernate_kind_spec` says, if no error is reported. With an error each object is as before or
    -- as it says. Objects of other kinds and other namespaces are never touched.
    pub hibernate_workload_type-Pass :
        (t : WorkloadType) (w : World)
        → let ((_, e), w') = hibernate_workload_type k ns t action owner w in
          Pass k laws t ns (hibernate_kind_spec k action owner t) e w w'
    unfolding hibernate_workload_type
    hibernate_workload_type-Pass t w =
        elim (Bool-cases (action.sleep_daemon_set || is_set action.max_replicas)) [
          | inl acts ↦ rw acts (hibernate_dispatch-Pass t w)
          | inr idles ↦
              rw idles (Pass-idle k laws t ns _ w (idle_spec t (ground arith) (ground arith)))
        ]

  -- Waking a kind of workload makes of every object of the namespace what `wake_kind_spec` says, if
  -- no error is returned. With an error each object is as before or as it says. Objects of other
  -- kinds and other namespaces are never touched.
  pub wake_workload_type-Pass :
      (owner : HibernationOwner) (t : WorkloadType) (w : World)
      → let (r, w') = wake_workload_type k ns t owner w in
        Pass k laws t ns (wake_kind_spec k owner t) (error_of r) w w'
  unfolding wake_workload_type wake_deployments wake_stateful_sets wake_replica_sets
      wake_daemon_sets
  wake_workload_type-Pass owner deployment =
      wake-Pass k laws deployment ns _ (wake_object k deployment ns owner)
        (λ d w h. wake_named-Effect k laws deployment ns d.name owner d w h.0 h.1)
  wake_workload_type-Pass owner stateful_set =
      wake-Pass k laws stateful_set ns _ (wake_object k stateful_set ns owner)
        (λ d w h. wake_named-Effect k laws stateful_set ns d.name owner d w h.0 h.1)
  wake_workload_type-Pass owner replica_set =
      wake-Pass k laws replica_set ns _ (wake_replica_set k ns owner)
        (λ d w h. wake_replica_set-Effect k laws ns owner d w h.0 h.1)
  wake_workload_type-Pass owner daemon_set =
      wake-Pass k laws daemon_set ns _ (awaken_object k owner)
        (λ d w h. awaken_object-Effect k laws ns owner d w h.0 h.1)
  wake_workload_type-Pass owner (unknown s) = λ w. Pass-idle k laws (unknown s) ns _ w (λ d. refl)
