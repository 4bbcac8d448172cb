-- ===== src/ClusterPolicy/Selection.antt =====
-- What the collection of a cluster-wide policy amounts to.
use kube_greencosts.Prelude.{
  String, ◌≡◌, ◌≢◌, refl, sym, ◌∙◌, ap, subst, inl, inr, true, some, List, [], ◌∷◌, All,
}
use kube_greencosts.Api.{WorkloadType, KindFilter, Workload}
use kube_greencosts.Cluster.{Cluster, ok, Result}
use kube_greencosts.Cluster.Laws.{ClusterLaws}
use kube_greencosts.Cluster.Reads.{Holds}
use kube_greencosts.ClusterPolicy.Collect.{WorkloadRef, kind_allowed, policy_of, collect_workloads}
use kube_greencosts.ClusterPolicy.Governed.{Governed}
use kube_greencosts.ClusterPolicy.Sound.{Apart, IsSelection, collect_workloads-Yields}

pub at_answer {ℓ} :
    {A : Type ℓ} (P : A → Type 0) (r : Result A) (a : A) → r ≡ ok a → Holds P r → P a
at_answer P r a e h = subst (Holds P) e h

some_inj {ℓ} : {A : Type ℓ} (a b : A) → some a ≡ some b → a ≡ b
some_inj a b h = cc

module _ (k : Cluster) (laws : ClusterLaws k) (policy : String) (spec : KindFilter)
    (w : k.World) where
  open laws use {workload, namespace}

  selection :
      (refs : List WorkloadRef)
      → (collect_workloads k policy spec w).0 ≡ ok refs
      → IsSelection (workload w) (namespace w) policy spec refs
  selection refs e =
      at_answer (IsSelection (workload w) (namespace w) policy spec) _ refs e
        (collect_workloads-Yields (workload w) (namespace w) policy spec k laws w refl refl).holds

  -- What a cluster-wide policy collects are references of distinct texts and allowed kinds, each to a
  -- workload that is held, is not a ReplicaSet of a Deployment, and names the policy, or names none
  -- and stands in a namespace that names it.
  pub collect_workloads-Governed :
      (refs : List WorkloadRef)
      → (collect_workloads k policy spec w).0 ≡ ok refs
      → All (Governed (workload w) (namespace w) policy) refs
        × All (λ (ref : WorkloadRef). kind_allowed ref spec ≡ true) refs
        × Apart refs
  collect_workloads-Governed = selection

  all_other :
      (t : WorkloadType) (ns name : String) (d : Workload)
      → workload w t ns name ≡ some d
      → policy_of d.annotations ≢ ""
      → policy_of d.annotations ≢ policy
      → (refs : List WorkloadRef) → All (Governed (workload w) (namespace w) policy) refs
      → All (λ (ref : WorkloadRef). ref ≢ record { namespace = ns; kind = t; name = name }) refs
  all_other t ns name d there named other [] _ = tt
  all_other t ns name d there named other (ref ∷ refs) (g, gs) = (
    (λ e. absurd (elim g.chosen [
      | inl own ↦ other (ap (λ (x : Workload). policy_of x.annotations) (sym (same e)) ∙ own)
      | inr (blank, _) ↦
          named (ap (λ (x : Workload). policy_of x.annotations) (sym (same e)) ∙ blank)
    ])),
    all_other t ns name d there named other refs gs,
  )
    where
      same : ref ≡ record { namespace = ns; kind = t; name = name } → g.object ≡ d
      same e =
          some_inj _ _
            (sym g.held ∙ ap (λ (r : WorkloadRef). workload w r.kind r.namespace r.name) e ∙ there)

  -- A workload that names another policy is not collected, whatever its namespace names.
  pub precedence :
      (t : WorkloadType) (ns name : String) (d : Workload) (refs : List WorkloadRef)
      → workload w t ns name ≡ some d
      → policy_of d.annotations ≢ ""
      → policy_of d.annotations ≢ policy
      → (collect_workloads k policy spec w).0 ≡ ok refs
      → All (λ (ref : WorkloadRef). ref ≢ record { namespace = ns; kind = t; name = name }) refs
  precedence t ns name d refs there named other e =
      all_other t ns name d there named other refs (selection refs e).0
