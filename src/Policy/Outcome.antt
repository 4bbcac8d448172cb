-- ===== src/Policy/Outcome.antt =====
-- What a reconciliation of a hibernate policy makes of the cluster, and when it is to run again.
use mathlib.Core.List.{Memᴰ}
use kube_greencosts.Prelude.{
  ℕ, String, ◌≡◌, ◌≢◌, refl, ◌∙◌, ◌⊎◌, inl, inr, Bool, true, false, some, List, [], ◌∷◌, All,
}
use kube_greencosts.Api.{WorkloadType, HibernateAction, HibernationOwner, Workload}
use kube_greencosts.Cluster.{Error, Cluster, Result, ok, err}
use kube_greencosts.Cluster.Laws.{ClusterLaws}
use kube_greencosts.Window.{AvailabilityWindow, Calendar, is_in_availability_window}
use kube_greencosts.Hibernate.Spec.{hibernate_kind_spec, wake_kind_spec}
use kube_greencosts.Hibernate.Kinds.{hibernate_workload_type-Pass, wake_workload_type-Pass}
use kube_greencosts.Hibernate.Settle.{hibernate_kind_spec-again, wake_kind_spec-again}
use kube_greencosts.PolicyApi.{HibernatePolicy, PolicyStore, PolicyLaws}
use kube_greencosts.Policy.{
  Reconciled, owner_of, wake_types, hibernate_types, act, requeue, requeue_at_start, finished,
  reconcile_policy,
}
use kube_greencosts.Policy.Sweep.{Sweep, ended, passed, Sweep-frame, Sweep-reaches, Sweep-either}

module _ (k : Cluster) (laws : ClusterLaws k) (ns : String) (owner : HibernationOwner) where
  open k use {World}

  wake_types-Sweep :
      (ts : List WorkloadType) (w : World)
      → let (errs, w') = wake_types k ns owner ts w in
        Sweep k laws ns (wake_kind_spec k owner) ts errs w w'
  unfolding wake_types
  wake_types-Sweep [] w = ended
  wake_types-Sweep (t ∷ ts) w =
      passed (wake_workload_type-Pass k laws ns owner t w) (wake_types-Sweep ts _)

  hibernate_types-Sweep :
      (action : HibernateAction) (ts : List WorkloadType) (w : World)
      → let ((_, errs), w') = hibernate_types k ns action owner ts w in
        Sweep k laws ns (hibernate_kind_spec k action owner) ts errs w w'
  unfolding hibernate_types
  hibernate_types-Sweep action [] w = ended
  hibernate_types-Sweep action (t ∷ ts) w =
      passed (hibernate_workload_type-Pass k laws ns action owner t w)
        (hibernate_types-Sweep action ts _)

module _ (k : Cluster) (laws : ClusterLaws k) (c : Calendar) (p : PolicyStore k.World)
    (rest : PolicyLaws k laws p) where
  open k use {World}
  open laws use {workload}

  requeue_at_start-keeps :
      (next : ℕ) (b : Bool) (w : World) → workload (requeue_at_start k c p next b w).1 ≡ workload w
  requeue_at_start-keeps next true w = refl
  requeue_at_start-keeps next false w = rest.clock_keeps w

  pub requeue-keeps :
      (b : Bool) (window_end : ℕ) (windows : List AvailabilityWindow) (now : ℕ) (w : World)
      → workload (requeue k c p b window_end windows now w).1 ≡ workload w
  requeue-keeps true window_end windows now w = rest.clock_keeps w
  requeue-keeps false window_end windows now w = requeue_at_start-keeps _ _ w

  module _ (errs : List Error) (next : World → ℕ × World)
      (keeps : (w : World) → workload (next w).1 ≡ workload w) where
    pub finished-keeps :
        (r : Result (Unit {0})) (w : World)
        → workload (finished k c p (r, w) errs next).1 ≡ workload w
    finished-keeps (ok _) w = keeps w
    finished-keeps (err e) w = refl

    pub finished-errors :
        (r : Result (Unit {0})) (w : World)
        → (finished k c p (r, w) errs next).0.errors ≡ []
        → errs ≡ []
    finished-errors (ok _) w h = h
    finished-errors (err e) w h = absurd (cc)

module _ (k : Cluster) (laws : ClusterLaws k) (c : Calendar) (p : PolicyStore k.World)
    (rest : PolicyLaws k laws p) (hp : HibernatePolicy) where
  open k use {World}
  open laws use {workload}

  -- What the reconciliation is to make of a workload of a listed kind.
  abbrev pub policy_spec : Bool → WorkloadType → Workload → Workload
  policy_spec true t d = wake_kind_spec k (owner_of hp) t d
  policy_spec false t d = hibernate_kind_spec k hp.action (owner_of hp) t d

  act-Sweep :
      (b : Bool) (w : World)
      → let ((_, errs), w') = act k b hp w in
        Sweep k laws hp.namespace (policy_spec b) hp.workload_types errs w w'
  act-Sweep true w = wake_types-Sweep k laws hp.namespace (owner_of hp) hp.workload_types w
  act-Sweep false w =
      hibernate_types-Sweep k laws hp.namespace (owner_of hp) hp.action hp.workload_types w

  policy_spec-again :
      (b : Bool) (t : WorkloadType) (d : Workload)
      → policy_spec b t (policy_spec b t d) ≡ policy_spec b t d
  policy_spec-again true t d = wake_kind_spec-again k (owner_of hp) t d
  policy_spec-again false t d = hibernate_kind_spec-again k (owner_of hp) hp.action t d

  module _ (w : World) where
    abbrev pub in_window : Bool
    in_window = (is_in_availability_window c hp.availability_windows (p.clock w).0).0

    abbrev pub outcome : Reconciled × World
    outcome = reconcile_policy k c p hp w

    abbrev acted : (List String × List Error) × World
    acted = act k in_window hp (p.clock w).1

    swept :
        Sweep k laws hp.namespace
          (policy_spec in_window)
          hp.workload_types
          acted.0.1
          (p.clock w).1
          acted.1
    swept = act-Sweep in_window (p.clock w).1

    outcome-keeps : workload outcome.1 ≡ workload acted.1
    unfolding reconcile_policy
    outcome-keeps =
        finished-keeps k laws c p rest _ _ (requeue-keeps k laws c p rest in_window _ _ _) _ _
        ∙ rest.status_keeps hp _ _
        ∙ rest.clock_keeps acted.1

    outcome-errors : outcome.0.errors ≡ [] → acted.0.1 ≡ []
    unfolding reconcile_policy
    outcome-errors h =
        finished-errors k laws c p rest acted.0.1 _
          (requeue-keeps k laws c p rest in_window _ hp.availability_windows _) _ _ h

    at_end :
        (u : WorkloadType) (ns name : String)
        → workload outcome.1 u ns name ≡ workload acted.1 u ns name
    at_end u ns name i = outcome-keeps i u ns name

    at_start :
        (u : WorkloadType) (ns name : String)
        → workload (p.clock w).1 u ns name ≡ workload w u ns name
    at_start u ns name i = rest.clock_keeps w i u ns name

    -- If reconciling a policy reports no error, then every workload of a listed kind in its namespace
    -- is held as the waking specification says where an availability window is open at the time that
    -- is read, and as the hibernating specification says where none is.
    pub policy_reaches :
        (u : WorkloadType) (name : String) (d : Workload)
        → Memᴰ u hp.workload_types
        → workload w u hp.namespace name ≡ some d
        → outcome.0.errors ≡ []
        → workload outcome.1 u hp.namespace name ≡ some (policy_spec in_window u d)
    policy_reaches u name d m there fine =
        at_end u hp.namespace name
        ∙ Sweep-reaches k laws hp.namespace (policy_spec in_window) (policy_spec-again in_window) u
            name d swept (outcome-errors fine) m (at_start u hp.namespace name ∙ there)

    -- Reconciling a policy leaves each workload of its namespace as it was or as the specification
    -- says, whatever errors it reports.
    pub policy_never_half_done :
        (u : WorkloadType) (name : String) (d : Workload)
        → workload w u hp.namespace name ≡ some d
        → (workload outcome.1 u hp.namespace name ≡ some d)
          ⊎ (workload outcome.1 u hp.namespace name ≡ some (policy_spec in_window u d))
    policy_never_half_done u name d there =
        elim (Sweep-either k laws hp.namespace (policy_spec in_window) (policy_spec-again in_window)
          u name d swept (inl (at_start u hp.namespace name ∙ there))) [
            | inl before ↦ inl (at_end u hp.namespace name ∙ before)
            | inr after ↦ inr (at_end u hp.namespace name ∙ after)
          ]

    -- Reconciling a policy changes no workload of another namespace, and none of a kind that the
    -- policy does not list, whatever errors it reports.
    pub policy_others_kept :
        (u : WorkloadType) (ns name : String)
        → All (λ (t : WorkloadType). u ≢ t) hp.workload_types ⊎ (ns ≢ hp.namespace)
        → workload outcome.1 u ns name ≡ workload w u ns name
    policy_others_kept u ns name other =
        at_end u ns name
        ∙ Sweep-frame k laws hp.namespace (policy_spec in_window) swept u ns name other
        ∙ at_start u ns name
