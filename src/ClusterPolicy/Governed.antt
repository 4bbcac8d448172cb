-- ===== src/ClusterPolicy/Governed.antt =====
-- The workloads that a cluster-wide policy governs, and that no others are collected.
use kube_greencosts.Prelude.{
  String, ◌≡◌, ◌⊎◌, inl, inr, false, Bool-cases, Option, some, List, [], ◌∷◌, ◌==◌, eq_iff, All,
}
use kube_greencosts.Api.{WorkloadType, Namespace, Workload}
use kube_greencosts.ClusterPolicy.Collect.{
  WorkloadRef, policy_of, is_skipped, namespace_refs, annotated_refs,
}

module _ (view : WorkloadType → String → String → Option Workload)
    (spaces : String → Option Namespace) (policy : String) where
  -- The reference is of an object that is held, is not a ReplicaSet of a Deployment, and names the
  -- policy, or names none and stands in a namespace that names it.
  pub record Governed (ref : WorkloadRef) : Type 0 where
    pub object : Workload
    pub held : view ref.kind ref.namespace ref.name ≡ some object
    pub not_skipped : is_skipped ref.kind object ≡ false
    pub chosen :
        (policy_of object.annotations ≡ policy)
        ⊎ ((policy_of object.annotations ≡ "")
            × ((n : Namespace) × (spaces ref.namespace ≡ some n)
                × (policy_of n.annotations ≡ policy)))

  module _ (t : WorkloadType) where
    pub namespace_refs-Governed :
        (ns : String) (n : Namespace)
        → spaces ns ≡ some n
        → policy_of n.annotations ≡ policy
        → (l : List Workload)
        → All (λ (d : Workload). (d.namespace ≡ ns) × (view t ns d.name ≡ some d)) l
        → All Governed (namespace_refs ns policy t l)
    unfolding namespace_refs
    namespace_refs-Governed ns n e f [] _ = tt
    namespace_refs-Governed ns n e f (d ∷ ds) (h, hs) =
        let rest = namespace_refs-Governed ns n e f ds hs in
        elim (Bool-cases (is_skipped t d)) [
          | inl skip ↦ rw skip rest
          | inr take ↦ rw take (elim (Bool-cases (policy_of d.annotations == "")) [
            | inl blank ↦ rw blank (
              (record {
                object = d;
                held = h.1;
                not_skipped = take;
                chosen = inr ((eq_iff _ "").0 blank, (n, e, f));
              }),
              rest,
            )
            | inr named ↦ rw named (elim (Bool-cases (policy_of d.annotations == policy)) [
              | inl own ↦ rw own (
                (record {
                  object = d;
                  held = h.1;
                  not_skipped = take;
                  chosen = inl ((eq_iff _ policy).0 own);
                }),
                rest,
              )
              | inr other ↦ rw other rest
            ])
          ])
        ]

    pub annotated_refs-Governed :
        (l : List Workload)
        → All (λ (d : Workload). view t d.namespace d.name ≡ some d) l
        → All Governed (annotated_refs policy t l)
    unfolding annotated_refs
    annotated_refs-Governed [] _ = tt
    annotated_refs-Governed (d ∷ ds) (h, hs) =
        let rest = annotated_refs-Governed ds hs in
        elim (Bool-cases (is_skipped t d)) [
          | inl skip ↦ rw skip rest
          | inr take ↦ rw take (elim (Bool-cases (policy_of d.annotations == policy)) [
            | inl own ↦ rw own (
              (record {
                object = d;
                held = h;
                not_skipped = take;
                chosen = inl ((eq_iff _ policy).0 own);
              }),
              rest,
            )
            | inr other ↦ rw other rest
          ])
        ]
