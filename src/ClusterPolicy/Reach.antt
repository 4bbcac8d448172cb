-- ===== src/ClusterPolicy/Reach.antt =====
-- Each way to hibernate or wake one workload has the effect that its specification says.
use kube_greencosts.Prelude.{String, ◌≡◌, refl, ◌∙◌, ap, inl, inr, Bool-cases, Option, none, some}
use kube_greencosts.Api.{
  WorkloadType, deployment, stateful_set, daemon_set, replica_set, unknown, HibernateAction,
  HibernationOwner, Workload,
}
use kube_greencosts.Cluster.{Cluster, Exec, Result, ok, err, error_of}
use kube_greencosts.Cluster.Laws.{ClusterLaws}
use kube_greencosts.Marker.{is_hibernated, owned_by}
use kube_greencosts.Patch.{asleep}
use kube_greencosts.Hibernate.{Outcome, hibernate_named}
use kube_greencosts.Wake.{wake_named}
use kube_greencosts.Hibernate.Spec.{hibernate_spec, sleep_spec, asleep_from, wake_spec}
use kube_greencosts.Hibernate.Effect.{Effect, Effect-quiet, Effect-patch, ok_of_no_error}
use kube_greencosts.Hibernate.Object.{
  hibernate_named-Effect, wake_named-Effect, awaken_object-Effect,
}
use kube_greencosts.ClusterPolicy.Act.{
  slept, sleep_once_with, sleep_once, fetched, hibernate_at, fetched_for_wake, wake_at,
}
use kube_greencosts.ClusterPolicy.Effects.{
  hibernate_one_spec, wake_one_spec, Reach, Reach-missing, Reach-idle, Reach-step,
}

module _ (k : Cluster) (laws : ClusterLaws k) where
  open k use {World, get_workload, patch_workload, marshal, unmarshal}
  open laws use {workload, got, get_missing, get_keeps}

  module _ (t : WorkloadType) (ns name : String) (spec : Workload → Workload) where
    at_world :
        {w1 w : World} {d : Workload}
        → workload w1 ≡ workload w
        → d.name ≡ name
        → workload w t ns name ≡ some d
        → workload w1 t ns d.name ≡ some d
    at_world q same held = (λ i. q i t ns (same i)) ∙ held

    module _ (step : Workload → World → Outcome × World)
        (effect : (d : Workload) (w : World)
          → d.namespace ≡ ns
          → workload w t ns d.name ≡ some d
          → Effect k laws t ns d (spec d) (step d w).0.1 w (step d w).1) where
      fetched-after :
          (w : World) (r : Result Workload)
          → (get_workload t ns name w).0 ≡ r
          → let (o, w') = fetched k (r, (get_workload t ns name w).1) step in
            Reach k laws t ns name spec o.1 w w'
      fetched-after w (ok d) e =
          let (space, same, held) = got t ns name w d e in
          Reach-step k laws t ns name spec d _ w _ _ (get_keeps t ns name w) same held
            (effect d _ space (at_world (get_keeps t ns name w) same held))
      fetched-after w (err x) e =
          Reach-missing k laws t ns name spec x w _ (get_keeps t ns name w)
            (λ same. get_missing t ns name w (e ∙ ap err same))

      pub Reach-fetched :
          (w : World)
          → let (o, w') = fetched k (get_workload t ns name w) step in
            Reach k laws t ns name spec o.1 w w'
      Reach-fetched w = fetched-after w _ refl

    module _ (step : Workload → Exec World (Unit {0}))
        (effect : (d : Workload) (w : World)
          → d.namespace ≡ ns
          → workload w t ns d.name ≡ some d
          → Effect k laws t ns d (spec d) (error_of (step d w).0) w (step d w).1) where
      fetched_for_wake-after :
          (w : World) (r : Result Workload)
          → (get_workload t ns name w).0 ≡ r
          → let (e, w') = fetched_for_wake k (r, (get_workload t ns name w).1) step in
            Reach k laws t ns name spec e w w'
      fetched_for_wake-after w (ok d) e =
          let (space, same, held) = got t ns name w d e in
          Reach-step k laws t ns name spec d _ w _ _ (get_keeps t ns name w) same held
            (effect d _ space (at_world (get_keeps t ns name w) same held))
      fetched_for_wake-after w (err x) e =
          Reach-missing k laws t ns name spec x w _ (get_keeps t ns name w)
            (λ same. get_missing t ns name w (e ∙ ap err same))

      pub Reach-fetched_for_wake :
          (w : World)
          → let (e, w') = fetched_for_wake k (get_workload t ns name w) step in
            Reach k laws t ns name spec e w w'
      Reach-fetched_for_wake w = fetched_for_wake-after w _ refl

  module _ (ns name : String) (owner : HibernationOwner) where
    Effect-slept :
        (d d' : Workload) (w : World)
        → d'.namespace ≡ ns
        → d'.name ≡ d.name
        → workload w daemon_set ns d.name ≡ some d
        → let (o, w') = slept k (patch_workload daemon_set d d' w) in
          Effect k laws daemon_set ns d d' o.1 w w'
    Effect-slept d d' w in_ns same held =
        Effect-patch k laws daemon_set ns d d' _ in_ns same held refl (ok_of_no_error _)

    sleep_once_with-Effect :
        (d : Workload) (json : Option String) (w : World)
        → d.namespace ≡ ns
        → workload w daemon_set ns d.name ≡ some d
        → let (o, w') = sleep_once_with k owner d json w in
          Effect k laws daemon_set ns d (asleep_from owner d json) o.1 w w'
    unfolding sleep_once_with asleep
    sleep_once_with-Effect d none w in_ns held = Effect-quiet k laws daemon_set ns d _ refl held
    sleep_once_with-Effect d (some json) w in_ns held = Effect-slept d _ w in_ns refl held

    sleep_once-Effect :
        (d : Workload) (w : World)
        → d.namespace ≡ ns
        → workload w daemon_set ns d.name ≡ some d
        → let (o, w') = sleep_once k owner d w in
          Effect k laws daemon_set ns d (sleep_spec marshal owner d) o.1 w w'
    unfolding sleep_once
    sleep_once-Effect d w in_ns held = elim (Bool-cases (is_hibernated d.annotations)) [
      | inl marked ↦ rw marked (elim (Bool-cases (owned_by d.annotations owner)) [
        | inl own ↦ rw own (Effect-quiet k laws daemon_set ns d _ refl held)
        | inr foreign ↦ rw foreign (Effect-quiet k laws daemon_set ns d _ refl held)
      ])
      | inr fresh ↦ rw fresh (sleep_once_with-Effect d (marshal d.node_selector) w in_ns held)
    ]

    Reach-replicated :
        (t : WorkloadType) (action : HibernateAction) (w : World)
        → let (o, w') =
            fetched k (get_workload t ns name w) (hibernate_named k t ns name action owner) in
          Reach k laws t ns name (hibernate_spec action owner) o.1 w w'
    Reach-replicated t action w =
        Reach-fetched t ns name _ _ (hibernate_named-Effect k laws t ns name action owner) w

    pub hibernate_at-Reach :
        (t : WorkloadType) (action : HibernateAction) (w : World)
        → let (o, w') = hibernate_at k t ns name action owner w in
          Reach k laws t ns name (hibernate_one_spec k action owner t) o.1 w w'
    hibernate_at-Reach deployment action w = Reach-replicated deployment action w
    hibernate_at-Reach stateful_set action w = Reach-replicated stateful_set action w
    hibernate_at-Reach daemon_set action w = elim (Bool-cases action.sleep_daemon_set) [
      | inl sleeps ↦ rw sleeps (Reach-fetched daemon_set ns name _ _ sleep_once-Effect w)
      | inr stays ↦ rw stays (Reach-idle k laws daemon_set ns name _ _ w (λ d. refl))
    ]
    hibernate_at-Reach replica_set action w = Reach-replicated replica_set action w
    hibernate_at-Reach (unknown s) action w =
        Reach-idle k laws (unknown s) ns name _ _ w (λ d. refl)

    Reach-woken :
        (t : WorkloadType) (w : World)
        → let (e, w') =
            fetched_for_wake k (get_workload t ns name w) (wake_named k t ns name owner) in
          Reach k laws t ns name (wake_spec owner) e w w'
    Reach-woken t w =
        Reach-fetched_for_wake t ns name _ _ (wake_named-Effect k laws t ns name owner) w

    pub wake_at-Reach :
        (t : WorkloadType) (w : World)
        → let (e, w') = wake_at k t ns name owner w in
          Reach k laws t ns name (wake_one_spec k owner t) e w w'
    wake_at-Reach deployment w = Reach-woken deployment w
    wake_at-Reach stateful_set w = Reach-woken stateful_set w
    wake_at-Reach daemon_set w =
        Reach-fetched_for_wake daemon_set ns name _ _ (awaken_object-Effect k laws ns owner) w
    wake_at-Reach replica_set w = Reach-woken replica_set w
    wake_at-Reach (unknown s) w = Reach-idle k laws (unknown s) ns name _ _ w (λ d. refl)
