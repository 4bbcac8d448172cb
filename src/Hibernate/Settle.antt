-- ===== src/Hibernate/Settle.antt =====
-- What a workload is after a pass is left alone by a second pass.
use kube_greencosts.Prelude.{
  String, ◌≡◌, refl, ap, ◌⊎◌, inl, inr, true, false, Bool-cases, Option, none, some, arith,
}
use kube_greencosts.Prelude.Int.{ℤ}
use kube_greencosts.Api.{
  WorkloadType, deployment, stateful_set, daemon_set, replica_set, unknown, HibernateAction,
  HibernationOwner, NodeSelector, Workload,
}
use kube_greencosts.Cluster.{Cluster}
use kube_greencosts.Marker.{
  is_hibernated, mark_hibernated, clear_hibernated, or_one, compute_target_replicas,
}
use kube_greencosts.Patch.{scaled, woken, asleep, awake, is_owned_by_deployment}
use kube_greencosts.Hibernate.Spec.{
  hibernate_spec, asleep_from, is_own, wake_spec, awaken_spec, hibernate_kind_spec, wake_kind_spec,
}
use kube_greencosts.Hibernate.Safety.{hibernate_kind_spec-marked, wake_kind_spec-other}

scaled-marked :
    (owner : HibernationOwner) (target : ℤ) (d : Workload)
    → is_hibernated (scaled owner target d).annotations ≡ true
unfolding scaled mark_hibernated
scaled-marked owner target d = ground arith

asleep-marked :
    (owner : HibernationOwner) (json : String) (d : Workload)
    → is_hibernated (asleep owner json d).annotations ≡ true
unfolding asleep mark_hibernated
asleep-marked owner json d = ground arith

woken-unmarked : (d : Workload) → is_hibernated (woken d).annotations ≡ false
unfolding woken clear_hibernated
woken-unmarked d = ground arith

awake-unmarked :
    (unmarshal : String → Option NodeSelector) (d : Workload)
    → is_hibernated (awake unmarshal d).annotations ≡ false
unfolding awake clear_hibernated
awake-unmarked unmarshal d = ground arith

module _ (k : Cluster) (owner : HibernationOwner) where
  -- What hibernation leaves is as it was or is marked.
  hibernate_spec-settles :
      (action : HibernateAction) (d : Workload)
      → (hibernate_spec action owner d ≡ d)
        ⊎ (is_hibernated (hibernate_spec action owner d).annotations ≡ true)
  hibernate_spec-settles action d = elim (Bool-cases (is_hibernated d.annotations)) [
    | inl marked ↦ rw marked (inl refl)
    | inr fresh ↦
        rw fresh (elim (Bool-cases (compute_target_replicas action (or_one d.replicas)).1) [
          | inl above ↦ rw above (inr (scaled-marked owner _ d))
          | inr below ↦ rw below (inl refl)
        ])
  ]

  asleep_from-settles :
      (d : Workload) (json : Option String)
      → (asleep_from owner d json ≡ d)
        ⊎ (is_hibernated (asleep_from owner d json).annotations ≡ true)
  asleep_from-settles d none = inl refl
  asleep_from-settles d (some json) = inr (asleep-marked owner json d)

  hibernate_kind_spec-settles :
      (action : HibernateAction) (t : WorkloadType) (d : Workload)
      → (hibernate_kind_spec k action owner t d ≡ d)
        ⊎ (is_hibernated (hibernate_kind_spec k action owner t d).annotations ≡ true)
  hibernate_kind_spec-settles action deployment d = hibernate_spec-settles action d
  hibernate_kind_spec-settles action stateful_set d = hibernate_spec-settles action d
  hibernate_kind_spec-settles action replica_set d =
      elim (Bool-cases (is_owned_by_deployment d.owner_kinds)) [
        | inl of_deployment ↦ rw of_deployment (inl refl)
        | inr free ↦ rw free (hibernate_spec-settles action d)
      ]
  hibernate_kind_spec-settles action daemon_set d = elim (Bool-cases action.sleep_daemon_set) [
    | inl sleeps ↦ rw sleeps (elim (Bool-cases (is_hibernated d.annotations)) [
      | inl marked ↦ rw marked (inl refl)
      | inr fresh ↦ rw fresh (asleep_from-settles d _)
    ])
    | inr stays ↦ rw stays (inl refl)
  ]
  hibernate_kind_spec-settles action (unknown _) d = inl refl

  pub hibernate_kind_spec-again :
      (action : HibernateAction) (t : WorkloadType) (d : Workload)
      → hibernate_kind_spec k action owner t (hibernate_kind_spec k action owner t d)
        ≡ hibernate_kind_spec k action owner t d
  hibernate_kind_spec-again action t d = elim (hibernate_kind_spec-settles action t d) [
    | inl same ↦ ap (hibernate_kind_spec k action owner t) same
    | inr marked ↦ hibernate_kind_spec-marked k owner _ action t marked
  ]

  wake_spec-settles : (d : Workload) → is_own owner (wake_spec owner d) ≡ false
  wake_spec-settles d = elim (Bool-cases (is_own owner d)) [
    | inl own ↦ rw own (rw (woken-unmarked d) refl)
    | inr other ↦ rw other other
  ]

  awaken_spec-settles : (d : Workload) → is_own owner (awaken_spec k.unmarshal owner d) ≡ false
  awaken_spec-settles d = elim (Bool-cases (is_own owner d)) [
    | inl own ↦ rw own (rw (awake-unmarked k.unmarshal d) refl)
    | inr other ↦ rw other other
  ]

  pub wake_kind_spec-again :
      (t : WorkloadType) (d : Workload)
      → wake_kind_spec k owner t (wake_kind_spec k owner t d) ≡ wake_kind_spec k owner t d
  wake_kind_spec-again deployment d =
      wake_kind_spec-other k owner _ deployment (wake_spec-settles d)
  wake_kind_spec-again stateful_set d =
      wake_kind_spec-other k owner _ stateful_set (wake_spec-settles d)
  wake_kind_spec-again replica_set d = elim (Bool-cases (is_owned_by_deployment d.owner_kinds)) [
    | inl of_deployment ↦ rw (of_deployment, of_deployment) refl
    | inr free ↦
        rw free (wake_kind_spec-other k owner (wake_spec owner d) replica_set (wake_spec-settles d))
  ]
  wake_kind_spec-again daemon_set d =
      wake_kind_spec-other k owner _ daemon_set (awaken_spec-settles d)
  wake_kind_spec-again (unknown _) d = refl
