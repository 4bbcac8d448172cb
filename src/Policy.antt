-- ===== src/Policy.antt =====
-- The reconciliation of a hibernate policy (internal/controller/hibernatepolicy_controller.go).
pub mod Sweep
pub mod Outcome
pub mod Requeue
use Prim.Native.String
use kube_greencosts.Prelude.{
  ℕ, zero, suc, ◌+◌, ◌-◌, ◌*◌, String, Bool, true, false, ◌&&◌, Option, none, some, List, [], ◌∷◌,
  ◌++◌, ◌==◌, length, ltb, if◌then◌else◌,
}
use kube_greencosts.Prelude.Int.{pos}
use kube_greencosts.Api.{WorkloadType, HibernateAction, HibernationOwner}
use kube_greencosts.Strconv.{itoa}
use kube_greencosts.Cluster.{Error, Cluster, Result, ok, err, error_of, ignore_not_found}
use kube_greencosts.Window.{
  AvailabilityWindow, Calendar, is_zero_time, is_in_availability_window,
  next_availability_window_start,
}
use kube_greencosts.PolicyApi.{Condition, HibernatePolicy, PolicyStore}
use kube_greencosts.Hibernate.{hibernate_workload_type}
use kube_greencosts.Wake.{wake_workload_type}

-- `ctrl.Result` and the joined errors
pub record Reconciled : Type 0 where
  pub requeue_after : ℕ
  pub errors : List Error

-- five minutes, in nanoseconds
abbrev pub window_check_interval : ℕ
window_check_interval = 300000000000

abbrev pub condition_type_ready : String
condition_type_ready = "Ready"

-- `setCondition`
unfoldable pub set_condition : List Condition → Condition → List Condition
set_condition [] c = c ∷ []
set_condition (existing ∷ conditions) c =
    if existing.kind == c.kind then c ∷ conditions else existing ∷ set_condition conditions c

abbrev pub cons_error : Option Error → List Error → List Error
cons_error none errs = errs
cons_error (some e) errs = e ∷ errs

-- `time.Until(boundary)` read at `later`, where it is positive and shorter than the interval
unfoldable pub requeue_until : ℕ → ℕ → ℕ
requeue_until boundary later =
    if ltb later boundary && ltb (boundary - later) window_check_interval
    then boundary - later
    else window_check_interval

abbrev pub owner_of : HibernatePolicy → HibernationOwner
owner_of hp = record { kind = "HibernatePolicy"; namespace = hp.namespace; name = hp.name }

-- the status that is patched
abbrev pub with_status : HibernatePolicy → List String → ℕ → HibernatePolicy
with_status hp hibernated transition = record hp {
  hibernated_workloads = hibernated;
  conditions = set_condition hp.conditions (record {
    kind = condition_type_ready;
    status = true;
    reason = "Reconciled";
    message =
        String.◌++◌ (itoa (pos (length hp.workload_types)))
          (String.◌++◌ " workload type(s) managed in namespace " hp.namespace);
    last_transition_time = transition;
  });
}

module _ (k : Cluster) where
  open k use {World}

  unfoldable pub wake_types :
      String → HibernationOwner → List WorkloadType → World → List Error × World
  wake_types ns owner [] w = ([], w)
  wake_types ns owner (t ∷ ts) w =
      let (r, w1) = wake_workload_type k ns t owner w in
      let (errs, w2) = wake_types ns owner ts w1 in (cons_error (error_of r) errs, w2)

  -- the names of a kind whose call failed are dropped
  abbrev added : List String × Option Error → List String → List String
  added (names, none) rest = names ++ rest
  added (names, some e) rest = rest

  unfoldable pub hibernate_types :
      String
      → HibernateAction
      → HibernationOwner
      → List WorkloadType
      → World
      → (List String × List Error) × World
  hibernate_types ns action owner [] w = (([], []), w)
  hibernate_types ns action owner (t ∷ ts) w =
      let (r, w1) = hibernate_workload_type k ns t action owner w in
      let ((names, errs), w2) = hibernate_types ns action owner ts w1 in
      ((added r names, cons_error r.1 errs), w2)

  -- the two loops, by whether a window is open
  abbrev pub act : Bool → HibernatePolicy → World → (List String × List Error) × World
  act true hp w =
      let (errs, w1) = wake_types hp.namespace (owner_of hp) hp.workload_types w in (([], errs), w1)
  act false hp w = hibernate_types hp.namespace hp.action (owner_of hp) hp.workload_types w

module _ (k : Cluster) (c : Calendar) (p : PolicyStore k.World) where
  open k use {World}
  open p use {clock, get_policy, patch_policy_status}

  abbrev pub requeue_at : ℕ → World → ℕ × World
  requeue_at boundary w = let (later, w1) = clock w in (requeue_until boundary later, w1)

  -- by whether there is no next start
  abbrev pub requeue_at_start : ℕ → Bool → World → ℕ × World
  requeue_at_start next true w = (window_check_interval, w)
  requeue_at_start next false w = requeue_at next w

  -- The next check: the clock is read only where there is a boundary.
  abbrev pub requeue : Bool → ℕ → List AvailabilityWindow → ℕ → World → ℕ × World
  requeue true window_end windows now w = requeue_at window_end w
  requeue false window_end windows now w =
      let next = next_availability_window_start c windows now in
      requeue_at_start next (is_zero_time next) w

  abbrev pub finished :
      Result (Unit {0}) × World → List Error → (World → ℕ × World) → Reconciled × World
  finished (err e, w) errs next = (record { requeue_after = 0; errors = e ∷ [] }, w)
  finished (ok _, w) errs next =
      let (after, w1) = next w in (record { requeue_after = after; errors = errs }, w1)

  unfoldable pub reconcile_policy : HibernatePolicy → World → Reconciled × World
  reconcile_policy hp w =
      let (now, w1) = clock w in
      let (in_window, window_end) = is_in_availability_window c hp.availability_windows now in
      let ((hibernated, errs), w2) = act k in_window hp w1 in
      let (transition, w3) = clock w2 in
      finished (patch_policy_status hp (with_status hp hibernated transition) w3) errs
        (requeue in_window window_end hp.availability_windows now)

  abbrev pub fetched_policy : Result HibernatePolicy × World → Reconciled × World
  fetched_policy (err e, w) =
      (record { requeue_after = 0; errors = cons_error (ignore_not_found e) [] }, w)
  fetched_policy (ok hp, w) = reconcile_policy hp w

  unfoldable pub reconcile : String → String → World → Reconciled × World
  reconcile ns name w = fetched_policy (get_policy ns name w)
