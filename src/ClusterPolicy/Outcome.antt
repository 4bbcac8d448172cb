-- ===== src/ClusterPolicy/Outcome.antt =====
-- What a reconciliation of a cluster-wide policy makes of the cluster.
use kube_greencosts.Prelude.{ℕ, String, ◌≡◌, refl, ◌∙◌, Bool, true, false, none, List, [], ◌∷◌}
use kube_greencosts.Api.{
  WorkloadType, deployment, stateful_set, daemon_set, replica_set, unknown, Workload,
}
use kube_greencosts.Cluster.{Error, Cluster, ok}
use kube_greencosts.Cluster.Laws.{ClusterLaws}
use kube_greencosts.Window.{Calendar, is_in_availability_window}
use kube_greencosts.Hibernate.Settle.{hibernate_kind_spec-again, wake_kind_spec-again}
use kube_greencosts.PolicyApi.{ClusterHibernatePolicy, PolicyStore, PolicyLaws}
use kube_greencosts.Policy.{Reconciled}
use kube_greencosts.Policy.Outcome.{requeue-keeps, finished-keeps, finished-errors}
use kube_greencosts.ClusterPolicy.Collect.{WorkloadRef}
use kube_greencosts.ClusterPolicy.Act.{hibernate_workload, wake_workload}
use kube_greencosts.ClusterPolicy.Effects.{hibernate_one_spec, wake_one_spec, Reach-idle}
use kube_greencosts.ClusterPolicy.Reach.{hibernate_at-Reach, wake_at-Reach}
use kube_greencosts.ClusterPolicy.Reconcile.{
  cluster_owner, is_action_set, wake_refs, hibernate_refs, act_on, after_collection,
}
use kube_greencosts.ClusterPolicy.Tour.{Tour, ended, visited}

module _ (k : Cluster) (laws : ClusterLaws k) (chp : ClusterHibernatePolicy) where
  open k use {World}
  open laws use {workload}

  -- What the reconciliation is to make of a governed workload, by whether a window is open and whether
  -- the action is set.
  abbrev pub cluster_spec : Bool → Bool → WorkloadType → Workload → Workload
  cluster_spec true b t d = wake_one_spec k (cluster_owner chp) t d
  cluster_spec false true t d = hibernate_one_spec k chp.action (cluster_owner chp) t d
  cluster_spec false false t d = d

  wake_refs-Tour :
      (refs : List WorkloadRef) (w : World)
      → let (errs, w') = wake_refs k (cluster_owner chp) refs w in
        Tour k laws (wake_one_spec k (cluster_owner chp)) refs errs w w'
  unfolding wake_refs wake_workload
  wake_refs-Tour [] w = ended
  wake_refs-Tour (ref ∷ refs) w =
      visited (wake_at-Reach k laws ref.namespace ref.name (cluster_owner chp) ref.kind w)
        (wake_refs-Tour refs _)

  hibernate_refs-Tour :
      (refs : List WorkloadRef) (w : World)
      → let ((_, errs), w') = hibernate_refs k chp.action (cluster_owner chp) refs w in
        Tour k laws (hibernate_one_spec k chp.action (cluster_owner chp)) refs errs w w'
  unfolding hibernate_refs hibernate_workload
  hibernate_refs-Tour [] w = ended
  hibernate_refs-Tour (ref ∷ refs) w =
      visited
        (hibernate_at-Reach k laws ref.namespace ref.name (cluster_owner chp) ref.kind chp.action w)
        (hibernate_refs-Tour refs _)

  pub cluster_spec-again :
      (b s : Bool) (t : WorkloadType) (d : Workload)
      → cluster_spec b s t (cluster_spec b s t d) ≡ cluster_spec b s t d
  cluster_spec-again true s deployment d = wake_kind_spec-again k (cluster_owner chp) deployment d
  cluster_spec-again true s stateful_set d = wake_kind_spec-again k (cluster_owner chp) deployment d
  cluster_spec-again true s daemon_set d = wake_kind_spec-again k (cluster_owner chp) daemon_set d
  cluster_spec-again true s replica_set d = wake_kind_spec-again k (cluster_owner chp) deployment d
  cluster_spec-again true s (unknown _) d = refl
  cluster_spec-again false true deployment d =
      hibernate_kind_spec-again k (cluster_owner chp) chp.action deployment d
  cluster_spec-again false true stateful_set d =
      hibernate_kind_spec-again k (cluster_owner chp) chp.action deployment d
  cluster_spec-again false true daemon_set d =
      hibernate_kind_spec-again k (cluster_owner chp) chp.action daemon_set d
  cluster_spec-again false true replica_set d =
      hibernate_kind_spec-again k (cluster_owner chp) chp.action deployment d
  cluster_spec-again false true (unknown _) d = refl
  cluster_spec-again false false t d = refl

  idle-Tour :
      (refs : List WorkloadRef) (w : World) → Tour k laws (cluster_spec false false) refs [] w w
  idle-Tour [] w = ended
  idle-Tour (ref ∷ refs) w =
      visited {e = none} (Reach-idle k laws ref.kind ref.namespace ref.name _ none w (λ d. refl))
        (idle-Tour refs w)

  act_on-Tour :
      (b s : Bool) (refs : List WorkloadRef) (w : World)
      → let ((_, errs), w') = act_on k b s chp refs w in
        Tour k laws (cluster_spec b s) refs errs w w'
  act_on-Tour true s refs w = wake_refs-Tour refs w
  act_on-Tour false true refs w = hibernate_refs-Tour refs w
  act_on-Tour false false refs w = idle-Tour refs w

  module _ (c : Calendar) (p : PolicyStore k.World) (rest : PolicyLaws k laws p) where
    module _ (now : ℕ) (refs : List WorkloadRef) (w : World) where
      abbrev pub open_now : Bool
      open_now = (is_in_availability_window c chp.availability_windows now).0

      abbrev pub acted : (List String × List Error) × World
      acted = act_on k open_now (is_action_set chp.action) chp refs w

      abbrev pub finish : Reconciled × World
      finish = after_collection k c p chp now (ok refs, w)

      pub toured :
          Tour k laws (cluster_spec open_now (is_action_set chp.action)) refs acted.0.1 w acted.1
      toured = act_on-Tour open_now (is_action_set chp.action) refs w

      pub finish-keeps : workload finish.1 ≡ workload acted.1
      finish-keeps =
          finished-keeps k laws c p rest _ _
            (requeue-keeps k laws c p rest open_now _ chp.availability_windows _) _ _
          ∙ rest.cluster_status_keeps chp _ _
          ∙ rest.clock_keeps acted.1

      pub finish-errors : finish.0.errors ≡ [] → acted.0.1 ≡ []
      finish-errors h =
          finished-errors k laws c p rest acted.0.1 _
            (requeue-keeps k laws c p rest open_now _ chp.availability_windows _) _ _ h
