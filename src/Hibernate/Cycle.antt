-- ===== src/Hibernate/Cycle.antt =====
-- A night and a morning: one policy hibernates a kind of workload, and later wakes it.
use kube_greencosts.Prelude.{
  ◌==◌, ℕ, ◌^◌, ◌<◌, String, ◌≡◌, refl, sym, ap, ◌∙◌, ◌⊎◌, inl, inr, true, false, Bool-cases,
  Option, none, some, List,
}
use kube_greencosts.Prelude.Int.{ℤ, pos}
use kube_greencosts.Api.{
  WorkloadType, deployment, stateful_set, daemon_set, replica_set, unknown, HibernateAction,
  HibernationOwner, Workload,
}
use kube_greencosts.Cluster.{Error, Result, Cluster, error_of}
use kube_greencosts.Cluster.Laws.{ClusterLaws}
use kube_greencosts.Marker.{is_hibernated, mark_hibernated, or_one, compute_target_replicas}
use kube_greencosts.Marker.Laws.{owned_by-mark_hibernated}
use kube_greencosts.Patch.{scaled, asleep, is_owned_by_deployment}
use kube_greencosts.Patch.RoundTrip.{IsUnmarked, woken-scaled, awake-asleep}
use kube_greencosts.Hibernate.{hibernate_workload_type}
use kube_greencosts.Wake.{wake_workload_type}
use kube_greencosts.Hibernate.Spec.{
  hibernate_spec, asleep_from, is_own, wake_spec, awaken_spec, hibernate_kind_spec, wake_kind_spec,
}
use kube_greencosts.Hibernate.Kinds.{hibernate_workload_type-Pass, wake_workload_type-Pass}

-- A workload as it is, or with its replica count written out.
abbrev pub IsRestored : Workload → Workload → Type 0
IsRestored d d' = (d' ≡ d) ⊎ (d' ≡ record d { replicas = some (or_one d.replicas) })

unmarked-is_hibernated :
    (d : Workload) → IsUnmarked d.annotations → is_hibernated d.annotations ≡ false
unmarked-is_hibernated d u = rw u.no_hibernated refl

is_own-scaled :
    (owner : HibernationOwner) (target : ℤ) (d : Workload)
    → is_own owner (scaled owner target d) ≡ true
unfolding scaled mark_hibernated
is_own-scaled owner target d = owned_by-mark_hibernated _ owner

-- Waking undoes scaling down.
wake-hibernate :
    (action : HibernateAction) (owner : HibernationOwner) (d : Workload) (n : ℕ)
    → IsUnmarked d.annotations
    → or_one d.replicas ≡ pos n
    → n < 2 ^ 31
    → IsRestored d (wake_spec owner (hibernate_spec action owner d))
wake-hibernate action owner d n u e h =
    elim (Bool-cases (compute_target_replicas action (or_one d.replicas)).1) [
      | inl above ↦
          rw (unmarked-is_hibernated d u, above, is_own-scaled owner _ d)
            (inr (
              woken-scaled owner _ d n u e h
              ∙ ap (λ (v : ℤ). record d { replicas = some v }) (sym e)))
      | inr below ↦ rw (unmarked-is_hibernated d u, below) (rw u.no_hibernated (inl refl))
    ]

-- What is assumed of an object before the night: no version of the controllers has marked it, its
-- replica count is one that an `int32` holds, and JSON reads its node selector back.
pub record IsPristine (k : Cluster) (d : Workload) (n : ℕ) : Type 0 where
  pub unmarked : IsUnmarked d.annotations
  pub count : or_one d.replicas ≡ pos n
  pub fits : n < 2 ^ 31
  pub json_filled : (json : String) → k.marshal d.node_selector ≡ some json → (json == "") ≡ false
  pub json_read :
      (json : String)
      → k.marshal d.node_selector ≡ some json
      → k.unmarshal json ≡ some d.node_selector

owner_kinds-hibernate :
    (action : HibernateAction) (owner : HibernationOwner) (d : Workload)
    → (hibernate_spec action owner d).owner_kinds ≡ d.owner_kinds
unfolding scaled
owner_kinds-hibernate action owner d = elim (Bool-cases (is_hibernated d.annotations)) [
  | inl marked ↦ rw marked refl
  | inr fresh ↦ rw fresh (elim (Bool-cases (compute_target_replicas action (or_one d.replicas)).1) [
    | inl above ↦ rw above refl
    | inr below ↦ rw below refl
  ])
]

module _ (k : Cluster) (action : HibernateAction) (owner : HibernationOwner) (d : Workload) {n : ℕ}
    (p : IsPristine k d n) where
  fresh : is_hibernated d.annotations ≡ false
  fresh = unmarked-is_hibernated d p.unmarked

  is_own-asleep : (json : String) → is_own owner (asleep owner json d) ≡ true
  unfolding asleep mark_hibernated
  is_own-asleep json = owned_by-mark_hibernated _ owner

  awaken-asleep_from :
      (found : Option String)
      → k.marshal d.node_selector ≡ found
      → IsRestored d (awaken_spec k.unmarshal owner (asleep_from owner d found))
  awaken-asleep_from none e = rw fresh (inl refl)
  awaken-asleep_from (some json) e = rw (is_own-asleep json) (
      inl (
        awake-asleep k.unmarshal owner json d p.unmarked (p.json_filled json e)
          (p.json_read json e)))

  unowned : awaken_spec k.unmarshal owner d ≡ d
  unowned = rw fresh refl

  -- Waking undoes hibernation, for every kind of workload.
  wake_kind-hibernate_kind :
      (t : WorkloadType)
      → IsRestored d (wake_kind_spec k owner t (hibernate_kind_spec k action owner t d))
  wake_kind-hibernate_kind deployment = wake-hibernate action owner d n p.unmarked p.count p.fits
  wake_kind-hibernate_kind stateful_set = wake-hibernate action owner d n p.unmarked p.count p.fits
  wake_kind-hibernate_kind replica_set = elim (Bool-cases (is_owned_by_deployment d.owner_kinds)) [
    | inl of_deployment ↦ rw (of_deployment, of_deployment) (inl refl)
    | inr free ↦
        rw (free, owner_kinds-hibernate action owner d, free)
          (wake-hibernate action owner d n p.unmarked p.count p.fits)
  ]
  wake_kind-hibernate_kind daemon_set = elim (Bool-cases action.sleep_daemon_set) [
    | inl sleeps ↦ rw (sleeps, fresh) (awaken-asleep_from _ refl)
    | inr stays ↦ rw stays (inl unowned)
  ]
  wake_kind-hibernate_kind (unknown _) = inl refl

module _ (k : Cluster) (laws : ClusterLaws k) (ns : String) (action : HibernateAction)
    (owner : HibernationOwner) (t : WorkloadType) (w : k.World) where
  open laws use {workload}

  abbrev pub night : (List String × Option Error) × k.World
  night = hibernate_workload_type k ns t action owner w

  abbrev pub morning : Result (Unit {0}) × k.World
  morning = wake_workload_type k ns t owner night.1

  -- If a kind of workload is hibernated and then woken by one owner, and neither call reports an
  -- error, then every workload of that kind and namespace that was unmarked before, with a replica
  -- count that an `int32` holds and a node selector that JSON reads back, is held as it was before,
  -- but that an unset replica count may be written out as the default 1.
  pub morning_restores :
      (name : String) (d : Workload) (n : ℕ)
      → IsPristine k d n
      → workload w t ns name ≡ some d
      → night.0.1 ≡ none
      → error_of morning.0 ≡ none
      → (d' : Workload) × (workload morning.1 t ns name ≡ some d') × IsRestored d d'
  morning_restores name d n p there slept woke = (
    wake_kind_spec k owner t (hibernate_kind_spec k action owner t d),
    (wake_workload_type-Pass k laws ns owner t night.1).done woke name _
        ((hibernate_workload_type-Pass k laws ns action owner t w).done slept name d there),
    wake_kind-hibernate_kind k action owner d p t,
  )
