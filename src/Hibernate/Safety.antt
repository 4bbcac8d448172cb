-- ===== src/Hibernate/Safety.antt =====
-- What the passes never do, and what hibernation achieves.
use kube_greencosts.Prelude.{
  String, ◌≡◌, refl, ap, ◌∙◌, ◌⊎◌, inl, inr, true, false, Bool-cases, same_if, Option, none, some,
  arith,
}
use kube_greencosts.Prelude.Int.{ℤ, ltℤ, ◌≤ℤ◌}
use kube_greencosts.Api.{
  WorkloadType, deployment, stateful_set, daemon_set, replica_set, unknown, HibernateAction,
  HibernationOwner, Workload,
}
use kube_greencosts.Cluster.{Cluster}
use kube_greencosts.Cluster.Laws.{ClusterLaws}
use kube_greencosts.Marker.{is_hibernated, owned_by, or_one, compute_target_replicas}
use kube_greencosts.Patch.{scaled, is_owned_by_deployment}
use kube_greencosts.Hibernate.{hibernate_workload_type}
use kube_greencosts.Wake.{wake_workload_type}
use kube_greencosts.Hibernate.Spec.{hibernate_spec, is_own, hibernate_kind_spec, wake_kind_spec}
use kube_greencosts.Hibernate.Kinds.{hibernate_workload_type-Pass, wake_workload_type-Pass}

-- Hibernated, by someone other than `owner`.
pub record IsForeign (owner : HibernationOwner) (d : Workload) : Type 0 where
  pub marked : is_hibernated d.annotations ≡ true
  pub not_own : owned_by d.annotations owner ≡ false

module _ (k : Cluster) (owner : HibernationOwner) (d : Workload) where
  pub hibernate_kind_spec-marked :
      (action : HibernateAction) (t : WorkloadType)
      → is_hibernated d.annotations ≡ true
      → hibernate_kind_spec k action owner t d ≡ d
  hibernate_kind_spec-marked action deployment m = rw m refl
  hibernate_kind_spec-marked action stateful_set m = rw m refl
  hibernate_kind_spec-marked action replica_set m =
      rw m (same_if (is_owned_by_deployment d.owner_kinds) d)
  hibernate_kind_spec-marked action daemon_set m = rw m (same_if action.sleep_daemon_set d)
  hibernate_kind_spec-marked action (unknown _) m = refl

  pub wake_kind_spec-other :
      (t : WorkloadType) → is_own owner d ≡ false → wake_kind_spec k owner t d ≡ d
  wake_kind_spec-other deployment o = rw o refl
  wake_kind_spec-other stateful_set o = rw o refl
  wake_kind_spec-other replica_set o = rw o (same_if (is_owned_by_deployment d.owner_kinds) d)
  wake_kind_spec-other daemon_set o = rw o refl
  wake_kind_spec-other (unknown _) o = refl

kept :
    {d d' : Workload} {held : Option Workload}
    → (held ≡ some d) ⊎ (held ≡ some d')
    → d' ≡ d
    → held ≡ some d
kept (inl a) e = a
kept (inr b) e = b ∙ ap some e

module _ (k : Cluster) (laws : ClusterLaws k) (ns : String) (owner : HibernationOwner)
    (t : WorkloadType) (w : k.World) where
  open laws use {workload}

  -- A workload that another owner hibernated is held unchanged after any call of one owner, to
  -- hibernate under any action or to wake, whether the call fails or not.
  pub foreign_kept :
      (action : HibernateAction) (name : String) (d : Workload)
      → IsForeign owner d
      → workload w t ns name ≡ some d
      → (workload (hibernate_workload_type k ns t action owner w).1 t ns name ≡ some d)
        × (workload (wake_workload_type k ns t owner w).1 t ns name ≡ some d)
  foreign_kept action name d f there = (
    kept ((hibernate_workload_type-Pass k laws ns action owner t w).either name d there)
        (hibernate_kind_spec-marked k owner d action t f.marked),
    kept ((wake_workload_type-Pass k laws ns owner t w).either name d there)
        (wake_kind_spec-other k owner d t (ground (arith, f.marked, f.not_own))),
  )

-- The kinds that have replicas to scale.
abbrev pub HasReplicas : WorkloadType → Workload → Type 0
HasReplicas deployment d = Unit
HasReplicas stateful_set d = Unit
HasReplicas replica_set d = is_owned_by_deployment d.owner_kinds ≡ false
HasReplicas daemon_set d = ⊥
HasReplicas (unknown _) d = ⊥

at_most : (a b : ℤ) → ltℤ a b ≡ false → b ≤ℤ a
at_most a b h = ground arith

hibernate_spec-le :
    (action : HibernateAction) (owner : HibernationOwner) (most : ℤ) (d : Workload)
    → action.max_replicas ≡ some most
    → is_hibernated d.annotations ≡ false
    → or_one (hibernate_spec action owner d).replicas ≤ℤ most
unfolding compute_target_replicas scaled
hibernate_spec-le action owner most d e fresh =
    rw (fresh, e, compute_target_replicas)
      (elim (Bool-cases (ltℤ most (or_one d.replicas))) [
        | inl above ↦ rw above (omega arith)
        | inr below ↦ rw below (at_most most (or_one d.replicas) below)
      ])

module _ (k : Cluster) (action : HibernateAction) (owner : HibernationOwner) (most : ℤ)
    (d : Workload) where
  hibernate_kind_spec-le :
      (t : WorkloadType)
      → HasReplicas t d
      → action.max_replicas ≡ some most
      → is_hibernated d.annotations ≡ false
      → or_one (hibernate_kind_spec k action owner t d).replicas ≤ℤ most
  hibernate_kind_spec-le deployment _ e fresh = hibernate_spec-le action owner most d e fresh
  hibernate_kind_spec-le stateful_set _ e fresh = hibernate_spec-le action owner most d e fresh
  hibernate_kind_spec-le replica_set free e fresh =
      rw free (hibernate_spec-le action owner most d e fresh)
  hibernate_kind_spec-le daemon_set h e fresh = absurd h
  hibernate_kind_spec-le (unknown _) h e fresh = absurd h

-- Where the action has a cap and no error is reported, every workload of a kind with replicas that
-- was not marked as hibernated before has at most as many replicas as the cap afterwards. The
-- ReplicaSets of a Deployment are not of such a kind.
pub hibernated_capped :
    (k : Cluster) (laws : ClusterLaws k) (ns : String) (action : HibernateAction)
    (owner : HibernationOwner) (t : WorkloadType) (w : k.World) (name : String) (d : Workload)
    (most : ℤ)
    → HasReplicas t d
    → action.max_replicas ≡ some most
    → is_hibernated d.annotations ≡ false
    → laws.workload w t ns name ≡ some d
    → (hibernate_workload_type k ns t action owner w).0.1 ≡ none
    → (d' : Workload) × (laws.workload (hibernate_workload_type k ns t action owner w).1 t ns name
        ≡ some d')
      × (or_one d'.replicas ≤ℤ most)
hibernated_capped k laws ns action owner t w name d most has e fresh there fine = (
  hibernate_kind_spec k action owner t d,
  (hibernate_workload_type-Pass k laws ns action owner t w).done fine name d there,
  hibernate_kind_spec-le k action owner most d t has e fresh,
)
