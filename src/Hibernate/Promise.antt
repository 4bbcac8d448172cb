-- ===== src/Hibernate/Promise.antt =====
-- What a pass over one kind of workload promises, and what a second pass makes of a failed one.
use kube_greencosts.Prelude.{String, ◌≡◌, ◌≢◌, ap, ◌∙◌, ◌⊎◌, inl, inr, Option, none, some, List}
use kube_greencosts.Api.{WorkloadType, HibernateAction, HibernationOwner, Workload}
use kube_greencosts.Cluster.{Error, Result, Cluster, error_of}
use kube_greencosts.Cluster.Laws.{ClusterLaws}
use kube_greencosts.Hibernate.{hibernate_workload_type}
use kube_greencosts.Wake.{wake_workload_type}
use kube_greencosts.Hibernate.Spec.{hibernate_kind_spec, wake_kind_spec}
use kube_greencosts.Hibernate.Kinds.{hibernate_workload_type-Pass, wake_workload_type-Pass}
use kube_greencosts.Hibernate.Settle.{hibernate_kind_spec-again, wake_kind_spec-again}

module _ (k : Cluster) (laws : ClusterLaws k) (ns : String) (owner : HibernationOwner)
    (t : WorkloadType) where
  open laws use {workload}

  abbrev pub hibernated : HibernateAction → k.World → (List String × Option Error) × k.World
  hibernated action w = hibernate_workload_type k ns t action owner w

  abbrev pub woken_up : k.World → Result (Unit {0}) × k.World
  woken_up w = wake_workload_type k ns t owner w

  -- If hibernating a kind of workload reports no error, then every workload of the namespace is held
  -- as the specification of its kind says.
  pub hibernate_reaches :
      (action : HibernateAction) (w : k.World) (name : String) (d : Workload)
      → workload w t ns name ≡ some d
      → (hibernated action w).0.1 ≡ none
      → workload (hibernated action w).1 t ns name ≡ some (hibernate_kind_spec k action owner t d)
  hibernate_reaches action w name d there fine =
      (hibernate_workload_type-Pass k laws ns action owner t w).done fine name d there

  -- If waking a kind of workload returns no error, then every workload of the namespace is held as
  -- the specification of its kind says.
  pub wake_reaches :
      (w : k.World) (name : String) (d : Workload)
      → workload w t ns name ≡ some d
      → error_of (woken_up w).0 ≡ none
      → workload (woken_up w).1 t ns name ≡ some (wake_kind_spec k owner t d)
  wake_reaches w name d there fine =
      (wake_workload_type-Pass k laws ns owner t w).done fine name d there

  -- Hibernating or waking a kind of workload leaves each workload of the namespace as it was or as
  -- the specification of its kind says, whether it reports an error or not.
  pub never_half_done :
      (action : HibernateAction) (w : k.World) (name : String) (d : Workload)
      → workload w t ns name ≡ some d
      → ((workload (hibernated action w).1 t ns name ≡ some d)
          ⊎ (workload (hibernated action w).1 t ns name
              ≡ some (hibernate_kind_spec k action owner t d)))
        × ((workload (woken_up w).1 t ns name ≡ some d)
            ⊎ (workload (woken_up w).1 t ns name ≡ some (wake_kind_spec k owner t d)))
  never_half_done action w name d there = (
    (hibernate_workload_type-Pass k laws ns action owner t w).either name d there,
    (wake_workload_type-Pass k laws ns owner t w).either name d there,
  )

  -- Hibernating or waking a kind of workload in a namespace leaves the workloads of every other kind
  -- and every other namespace unchanged, whether it reports an error or not.
  pub others_kept :
      (action : HibernateAction) (w : k.World) (u : WorkloadType) (ns' name : String)
      → (u ≢ t) ⊎ (ns' ≢ ns)
      → (workload (hibernated action w).1 u ns' name ≡ workload w u ns' name)
        × (workload (woken_up w).1 u ns' name ≡ workload w u ns' name)
  others_kept action w u ns' name other = (
    (hibernate_workload_type-Pass k laws ns action owner t w).frame u ns' name other,
    (wake_workload_type-Pass k laws ns owner t w).frame u ns' name other,
  )

  -- If a hibernation is run again, and the second run reports no error, then every workload is held
  -- as the specification says of what it was before the first run, whether the first run failed part
  -- of the way or not.
  pub hibernate_retried :
      (action : HibernateAction) (w : k.World) (name : String) (d : Workload)
      → workload w t ns name ≡ some d
      → (hibernated action (hibernated action w).1).0.1 ≡ none
      → workload (hibernated action (hibernated action w).1).1 t ns name
        ≡ some (hibernate_kind_spec k action owner t d)
  hibernate_retried action w name d there fine =
      elim ((hibernate_workload_type-Pass k laws ns action owner t w).either name d there) [
        | inl before ↦ hibernate_reaches action _ name d before fine
        | inr after ↦
            hibernate_reaches action _ name _ after fine
            ∙ ap some (hibernate_kind_spec-again k owner action t d)
      ]

  -- If a waking is run again, and the second run returns no error, then every workload is held as the
  -- specification says of what it was before the first run, whether the first run failed part of the
  -- way or not.
  pub wake_retried :
      (w : k.World) (name : String) (d : Workload)
      → workload w t ns name ≡ some d
      → error_of (woken_up (woken_up w).1).0 ≡ none
      → workload (woken_up (woken_up w).1).1 t ns name ≡ some (wake_kind_spec k owner t d)
  wake_retried w name d there fine =
      elim ((wake_workload_type-Pass k laws ns owner t w).either name d there) [
        | inl before ↦ wake_reaches _ name d before fine
        | inr after ↦ wake_reaches _ name _ after fine ∙ ap some (wake_kind_spec-again k owner t d)
      ]
