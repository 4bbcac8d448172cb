-- ===== src/ClusterPolicy/Promise.antt =====
-- What a reconciliation of a cluster-wide policy promises.
use mathlib.Core.List.{Memᴰ}
use kube_greencosts.Prelude.{
  ℕ, String, ◌≡◌, ◌≢◌, refl, sym, ◌∙◌, ap, ◌⊎◌, inl, inr, some, List, [], ◌∷◌, All,
}
use kube_greencosts.Api.{WorkloadType, Workload}
use kube_greencosts.Cluster.{Cluster, Result, ok, err}
use kube_greencosts.Cluster.Laws.{ClusterLaws}
use kube_greencosts.Window.{Calendar, is_in_availability_window}
use kube_greencosts.PolicyApi.{ClusterHibernatePolicy, PolicyStore, PolicyLaws}
use kube_greencosts.Policy.{Reconciled}
use kube_greencosts.ClusterPolicy.Collect.{WorkloadRef, policy_of, collect_workloads}
use kube_greencosts.ClusterPolicy.Sound.{collect_workloads-Yields}
use kube_greencosts.ClusterPolicy.Selection.{precedence}
use kube_greencosts.ClusterPolicy.Reconcile.{
  is_action_set, after_collection, reconcile_cluster_policy,
}
use kube_greencosts.ClusterPolicy.Tour.{Differs, ref_cases, Tour-frame, Tour-reaches, Tour-either}
use kube_greencosts.ClusterPolicy.Outcome.{
  acted, cluster_spec, cluster_spec-again, toured, finish-keeps, finish-errors,
}

module _ (k : Cluster) (laws : ClusterLaws k) (chp : ClusterHibernatePolicy) (c : Calendar)
    (p : PolicyStore k.World) (rest : PolicyLaws k laws p) (w : k.World) where
  open laws use {workload}

  abbrev now : ℕ
  now = (p.clock w).0

  abbrev collected : Result (List WorkloadRef) × k.World
  collected = collect_workloads k chp.name chp.filter (p.clock w).1

  abbrev pub cluster_outcome : Reconciled × k.World
  cluster_outcome = reconcile_cluster_policy k c p chp w

  -- What is to become of a workload at the time that is read.
  abbrev pub spec_now : WorkloadType → Workload → Workload
  spec_now =
      cluster_spec k laws chp (is_in_availability_window c chp.availability_windows now).0
        (is_action_set chp.action)

  read_only : workload collected.1 ≡ workload w
  read_only =
      (collect_workloads-Yields (workload (p.clock w).1) (laws.namespace (p.clock w).1) chp.name
        chp.filter k laws (p.clock w).1 refl refl).same_workloads
      ∙ rest.clock_keeps w

  at_key :
      (u : WorkloadType) (ns name : String) → workload collected.1 u ns name ≡ workload w u ns name
  at_key u ns name i = read_only i u ns name

  at_result :
      (r : Result (List WorkloadRef))
      → collected.0 ≡ r
      → cluster_outcome ≡ after_collection k c p chp now (r, collected.1)
  unfolding reconcile_cluster_policy
  at_result r e =
      ap (λ (x : Result (List WorkloadRef)). after_collection k c p chp now (x, collected.1)) e

  abbrev after : Result (List WorkloadRef) → Reconciled × k.World
  after r = after_collection k c p chp now (r, collected.1)

  module _ (refs : List WorkloadRef) where
    at_end :
        (u : WorkloadType) (ns name : String)
        → workload (after (ok refs)).1 u ns name
          ≡ workload (acted k laws chp c p rest now refs collected.1).1 u ns name
    at_end u ns name i = finish-keeps k laws chp c p rest now refs collected.1 i u ns name

    reaches_after :
        (ref : WorkloadRef) (d : Workload)
        → Memᴰ ref refs
        → workload w ref.kind ref.namespace ref.name ≡ some d
        → (after (ok refs)).0.errors ≡ []
        → workload (after (ok refs)).1 ref.kind ref.namespace ref.name ≡ some (spec_now ref.kind d)
    reaches_after ref d m there fine =
        at_end ref.kind ref.namespace ref.name
        ∙ Tour-reaches k laws spec_now (cluster_spec-again k laws chp _ _) ref d
            (toured k laws chp c p rest now refs collected.1)
            (finish-errors k laws chp c p rest now refs collected.1 fine) m
            (at_key ref.kind ref.namespace ref.name ∙ there)

    either_after :
        (ref : WorkloadRef) (d : Workload)
        → workload w ref.kind ref.namespace ref.name ≡ some d
        → (workload (after (ok refs)).1 ref.kind ref.namespace ref.name ≡ some d)
          ⊎ (workload (after (ok refs)).1 ref.kind ref.namespace ref.name
              ≡ some (spec_now ref.kind d))
    either_after ref d there =
        elim (Tour-either k laws spec_now (cluster_spec-again k laws chp _ _) ref d
          (toured k laws chp c p rest now refs collected.1)
          (inl (at_key ref.kind ref.namespace ref.name ∙ there))) [
            | inl before ↦ inl (at_end ref.kind ref.namespace ref.name ∙ before)
            | inr written ↦ inr (at_end ref.kind ref.namespace ref.name ∙ written)
          ]

    kept_after :
        (t : WorkloadType) (ns name : String)
        → All (λ (ref : WorkloadRef). Differs ref t ns name) refs
        → workload (after (ok refs)).1 t ns name ≡ workload w t ns name
    kept_after t ns name other =
        at_end t ns name
        ∙ Tour-frame k laws spec_now (toured k laws chp c p rest now refs collected.1) t ns name
            other
        ∙ at_key t ns name

  -- If reconciling a cluster-wide policy reports no error, then the workload of every reference that
  -- is collected is held as the specification says at the time that is read: woken where an
  -- availability window is open, hibernated where none is and an action is set, and else as before.
  pub cluster_reaches :
      (refs : List WorkloadRef) (ref : WorkloadRef) (d : Workload)
      → collected.0 ≡ ok refs
      → Memᴰ ref refs
      → workload w ref.kind ref.namespace ref.name ≡ some d
      → cluster_outcome.0.errors ≡ []
      → workload cluster_outcome.1 ref.kind ref.namespace ref.name ≡ some (spec_now ref.kind d)
  cluster_reaches refs ref d e m there fine =
      (λ i. workload (at_result (ok refs) e i).1 ref.kind ref.namespace ref.name)
      ∙ reaches_after refs ref d m there (sym (λ i. (at_result (ok refs) e i).0.errors) ∙ fine)

  either_way :
      (ref : WorkloadRef) (d : Workload) (r : Result (List WorkloadRef))
      → workload w ref.kind ref.namespace ref.name ≡ some d
      → (workload (after r).1 ref.kind ref.namespace ref.name ≡ some d)
        ⊎ (workload (after r).1 ref.kind ref.namespace ref.name ≡ some (spec_now ref.kind d))
  either_way ref d (err x) there = inl (at_key ref.kind ref.namespace ref.name ∙ there)
  either_way ref d (ok refs) there = either_after refs ref d there

  -- Reconciling a cluster-wide policy leaves each workload of the cluster as it was or as the
  -- specification says, whatever errors it reports.
  pub cluster_never_half_done :
      (ref : WorkloadRef) (d : Workload)
      → workload w ref.kind ref.namespace ref.name ≡ some d
      → (workload cluster_outcome.1 ref.kind ref.namespace ref.name ≡ some d)
        ⊎ (workload cluster_outcome.1 ref.kind ref.namespace ref.name ≡ some (spec_now ref.kind d))
  unfolding reconcile_cluster_policy
  cluster_never_half_done ref d there = either_way ref d collected.0 there

  differ :
      (t : WorkloadType) (ns name : String) (refs : List WorkloadRef)
      → All (λ (ref : WorkloadRef). ref ≢ record { namespace = ns; kind = t; name = name }) refs
      → All (λ (ref : WorkloadRef). Differs ref t ns name) refs
  differ t ns name [] _ = tt
  differ t ns name (ref ∷ refs) (h, hs) = (
    elim (ref_cases (record { namespace = ns; kind = t; name = name }) ref) [
      | inl same ↦ absurd (h same)
      | inr other ↦ other
    ],
    differ t ns name refs hs,
  )

  kept_way :
      (t : WorkloadType) (ns name : String) (d : Workload)
      → workload w t ns name ≡ some d
      → policy_of d.annotations ≢ ""
      → policy_of d.annotations ≢ chp.name
      → (r : Result (List WorkloadRef)) → collected.0 ≡ r
      → workload (after r).1 t ns name ≡ some d
  kept_way t ns name d there named other (err x) e = at_key t ns name ∙ there
  kept_way t ns name d there named other (ok refs) e =
      kept_after refs t ns name (
        differ t ns name refs (
          precedence k laws chp.name chp.filter (p.clock w).1 t ns name d refs
            ((λ i. rest.clock_keeps w i t ns name) ∙ there) named other e))
      ∙ there

  -- Reconciling a cluster-wide policy leaves a workload that names another policy as it was, whatever
  -- its namespace names, and whatever errors are reported.
  pub cluster_others_kept :
      (t : WorkloadType) (ns name : String) (d : Workload)
      → workload w t ns name ≡ some d
      → policy_of d.annotations ≢ ""
      → policy_of d.annotations ≢ chp.name
      → workload cluster_outcome.1 t ns name ≡ some d
  unfolding reconcile_cluster_policy
  cluster_others_kept t ns name d there named other =
      kept_way t ns name d there named other collected.0 refl
