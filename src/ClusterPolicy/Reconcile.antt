-- ===== src/ClusterPolicy/Reconcile.antt =====
-- The reconciliation of a cluster-wide hibernate policy
-- (internal/controller/clusterhibernatepolicy_controller.go).
use Prim.Native.String
use kube_greencosts.Prelude.{ℕ, String, Bool, true, false, ◌||◌, none, some, List, [], ◌∷◌, length}
use kube_greencosts.Prelude.Int.{pos}
use kube_greencosts.Api.{HibernateAction, HibernationOwner}
use kube_greencosts.Strconv.{itoa}
use kube_greencosts.Cluster.{Error, Cluster, Result, ok, err, ignore_not_found}
use kube_greencosts.Window.{Calendar, is_in_availability_window}
use kube_greencosts.Hibernate.{Outcome, is_set}
use kube_greencosts.PolicyApi.{ClusterHibernatePolicy, PolicyStore}
use kube_greencosts.Policy.{
  Reconciled, condition_type_ready, set_condition, cons_error, requeue, finished,
}
use kube_greencosts.ClusterPolicy.Collect.{WorkloadRef, ref_string, collect_workloads}
use kube_greencosts.ClusterPolicy.Act.{hibernate_workload, wake_workload}

abbrev pub cluster_owner : ClusterHibernatePolicy → HibernationOwner
cluster_owner chp = record { kind = "ClusterHibernatePolicy"; namespace = ""; name = chp.name }

-- the status that is patched
abbrev pub with_cluster_status :
    ClusterHibernatePolicy → List WorkloadRef → List String → ℕ → ClusterHibernatePolicy
with_cluster_status chp refs hibernated transition = record chp {
  hibernated_workloads = hibernated;
  conditions = set_condition chp.conditions (record {
    kind = condition_type_ready;
    status = true;
    reason = "Reconciled";
    message = String.◌++◌ (itoa (pos (length refs))) " workload(s) governed by this policy";
    last_transition_time = transition;
  });
}

-- `actionSet`
abbrev pub is_action_set : HibernateAction → Bool
is_action_set action = action.sleep_daemon_set || is_set action.max_replicas

-- the names that are reported: of what is hibernated, where there is no error
abbrev pub reported_name : Outcome → WorkloadRef → List String → List String
reported_name (true, none) ref names = ref_string ref ∷ names
reported_name (false, none) ref names = names
reported_name (b, some e) ref names = names

module _ (k : Cluster) where
  open k use {World}

  unfoldable pub wake_refs : HibernationOwner → List WorkloadRef → World → List Error × World
  wake_refs owner [] w = ([], w)
  wake_refs owner (ref ∷ refs) w =
      let (e, w1) = wake_workload k ref owner w in
      let (errs, w2) = wake_refs owner refs w1 in (cons_error e errs, w2)

  unfoldable pub hibernate_refs :
      HibernateAction
      → HibernationOwner
      → List WorkloadRef
      → World
      → (List String × List Error) × World
  hibernate_refs action owner [] w = (([], []), w)
  hibernate_refs action owner (ref ∷ refs) w =
      let (o, w1) = hibernate_workload k ref action owner w in
      let ((names, errs), w2) = hibernate_refs action owner refs w1 in
      ((reported_name o ref names, cons_error o.1 errs), w2)

  -- the loop over the references, by whether a window is open and whether the action is set: each
  -- turn of it is a `continue` where neither is
  abbrev pub act_on :
      Bool
      → Bool
      → ClusterHibernatePolicy
      → List WorkloadRef
      → World
      → (List String × List Error) × World
  act_on true b chp refs w =
      let (errs, w1) = wake_refs (cluster_owner chp) refs w in (([], errs), w1)
  act_on false true chp refs w = hibernate_refs chp.action (cluster_owner chp) refs w
  act_on false false chp refs w = (([], []), w)

module _ (k : Cluster) (c : Calendar) (p : PolicyStore k.World) where
  open k use {World}
  open p use {clock, get_cluster_policy, patch_cluster_policy_status}

  -- what follows the collection
  abbrev pub after_collection :
      ClusterHibernatePolicy → ℕ → Result (List WorkloadRef) × World → Reconciled × World
  after_collection chp now (err e, w) = (record { requeue_after = 0; errors = e ∷ [] }, w)
  after_collection chp now (ok refs, w) =
      let (in_window, window_end) = is_in_availability_window c chp.availability_windows now in
      let ((hibernated, errs), w1) = act_on k in_window (is_action_set chp.action) chp refs w in
      let (transition, w2) = clock w1 in
      finished k c p
        (patch_cluster_policy_status chp (with_cluster_status chp refs hibernated transition) w2)
        errs (requeue k c p in_window window_end chp.availability_windows now)

  unfoldable pub reconcile_cluster_policy : ClusterHibernatePolicy → World → Reconciled × World
  reconcile_cluster_policy chp w =
      let (now, w1) = clock w in
      after_collection chp now (collect_workloads k chp.name chp.filter w1)

  abbrev pub fetched_cluster_policy : Result ClusterHibernatePolicy × World → Reconciled × World
  fetched_cluster_policy (err e, w) =
      (record { requeue_after = 0; errors = cons_error (ignore_not_found e) [] }, w)
  fetched_cluster_policy (ok chp, w) = reconcile_cluster_policy chp w

  unfoldable pub reconcile_cluster : String → World → Reconciled × World
  reconcile_cluster name w = fetched_cluster_policy (get_cluster_policy name w)
