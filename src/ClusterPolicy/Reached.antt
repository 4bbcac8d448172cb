-- ===== src/ClusterPolicy/Reached.antt =====
-- The collection of a cluster-wide policy leaves out no workload that names it.
use mathlib.Core.List.{Memᴰ}
use mathlib.Core.List.Memᴰ
use kube_greencosts.Prelude.{
  String, ◌≡◌, refl, subst, inl, inr, true, false, Bool-cases, Option, some, List, [], ◌∷◌, ◌==◌,
  All,
}
use kube_greencosts.Api.{
  WorkloadType, deployment, stateful_set, daemon_set, replica_set, KindFilter, Namespace, Workload,
}
use kube_greencosts.Cluster.{Cluster, ok}
use kube_greencosts.Cluster.Laws.{ClusterLaws}
use kube_greencosts.Cluster.Reads.{
  Yields, Yields-pure, Yields-bind, HasAll, HeldIn, Yields-list_all, Yields-list_workloads,
  Yields-list_namespaces,
}
use kube_greencosts.ClusterPolicy.Collect.{
  WorkloadRef, ref_string, kind_allowed, Collected, add_each, policy_of, is_skipped, annotated_refs,
  all_workloads_in_namespace, add_namespaces, add_annotated, collect_workloads,
}
use kube_greencosts.ClusterPolicy.Complete.{
  has_ref, Honest, add_each-Honest, add_each-keeps, add_each-hits, annotated_refs-hits,
}
use kube_greencosts.ClusterPolicy.Selection.{at_answer}

module _ (view : WorkloadType → String → String → Option Workload)
    (spaces : String → Option Namespace) (policy : String) (spec : KindFilter) (k : Cluster)
    (laws : ClusterLaws k) where
  abbrev Any {ℓ} : {A : Type ℓ} → A → Type 0
  Any a = Unit

  namespace-Any :
      (ns : String) → Yields k laws view spaces Any (all_workloads_in_namespace k ns policy)
  unfolding all_workloads_in_namespace
  namespace-Any ns =
      Yields-bind k laws view spaces _ Any _
        (λ deploys a.
          Yields-bind k laws view spaces _ Any _
            (λ sts b.
              Yields-bind k laws view spaces _ Any _
                (λ dss c.
                  Yields-bind k laws view spaces _ Any _
                    (λ rss d. Yields-pure k laws view spaces Any _ tt) _ (listed replica_set))
                _ (listed daemon_set))
            _ (listed stateful_set))
        _ (listed deployment)
    where
      listed :
          (t : WorkloadType)
          → Yields k laws view spaces
              (All (HeldIn k laws view spaces t ns))
              (k.list_workloads t (some ns))
      listed t = Yields-list_workloads k laws view spaces t ns

  add_namespaces-Honest :
      (ns : List Namespace) (c : Collected)
      → Honest c
      → Yields k laws view spaces Honest (add_namespaces k policy spec ns c)
  unfolding add_namespaces
  add_namespaces-Honest [] c h = Yields-pure k laws view spaces Honest c h
  add_namespaces-Honest (n ∷ ns) c h = elim (Bool-cases (policy_of n.annotations == policy)) [
    | inl own ↦ rw own (
        Yields-bind k laws view spaces _ Honest _
          (λ refs _.
            add_namespaces-Honest ns (add_each spec c refs) (add_each-Honest spec refs c h))
          _ (namespace-Any n.name))
    | inr other ↦ rw other (add_namespaces-Honest ns c h)
  ]

  module _ (ref : WorkloadRef) (d : Workload)
      (there : view ref.kind ref.namespace ref.name ≡ some d) (take : is_skipped ref.kind d ≡ false)
      (own : policy_of d.annotations ≡ policy) (kind_ok : kind_allowed ref spec ≡ true) where
    -- after the loops over these kinds
    abbrev After : List WorkloadType → Collected → Type 0
    After us c = Honest c × (Memᴰ ref.kind us → has_ref (ref_string ref) c.refs ≡ true)

    hit :
        (l : List Workload) (c : Collected)
        → HasAll k laws view spaces ref.kind l
        → Honest c
        → has_ref (ref_string ref) (add_each spec c (annotated_refs policy ref.kind l)).refs ≡ true
    hit l c all honest =
        let (space, named, m) = all ref.namespace ref.name d there in
        add_each-hits spec (annotated_refs policy ref.kind l) c ref honest kind_ok (
          subst (λ (r : WorkloadRef). Memᴰ r (annotated_refs policy ref.kind l))
            (λ i. record { namespace = space i; kind = ref.kind; name = named i })
            (annotated_refs-hits policy ref.kind l d take own m))

    step :
        (u : WorkloadType) (us : List WorkloadType) (c : Collected) (l : List Workload)
        → HasAll k laws view spaces u l
        → After us c
        → After (u ∷ us) (add_each spec c (annotated_refs policy u l))
    step u us c l all (honest, past) = (
      add_each-Honest spec _ c honest,
      λ m. elim m [
        | Memᴰ.head e ↦
            subst
              (λ (v : WorkloadType).
                HasAll k laws view spaces v l
                → has_ref (ref_string ref) (add_each spec c (annotated_refs policy v l)).refs
                  ≡ true)
              e (λ every. hit l c every honest) all
        | Memᴰ.tail rest ↦ add_each-keeps spec _ c (ref_string ref) (past rest)
      ],
    )

    add_annotated-After :
        (u : WorkloadType) (us : List WorkloadType) (c : Collected)
        → After us c
        → Yields k laws view spaces (After (u ∷ us)) (add_annotated k policy spec u c)
    unfolding add_annotated
    add_annotated-After u us c h =
        Yields-bind k laws view spaces _ (After (u ∷ us)) _
          (λ l all. Yields-pure k laws view spaces (After (u ∷ us)) _ (step u us c l all h)) _
          (Yields-list_all k laws view spaces u)

    collect_workloads-Reaches :
        Memᴰ ref.kind (replica_set ∷ daemon_set ∷ stateful_set ∷ deployment ∷ [])
        → Yields k laws view spaces
            (λ (refs : List WorkloadRef). has_ref (ref_string ref) refs ≡ true)
            (collect_workloads k policy spec)
    unfolding collect_workloads
    collect_workloads-Reaches kind =
        Yields-bind k laws view spaces _ _ _
          (λ ns h.
            Yields-bind k laws view spaces _ _ _
              (λ c0 s0.
                Yields-bind k laws view spaces _ _ _
                  (λ c1 s1.
                    Yields-bind k laws view spaces _ _ _
                      (λ c2 s2.
                        Yields-bind k laws view spaces _ _ _
                          (λ c3 s3.
                            Yields-bind k laws view spaces _ _ _
                              (λ c4 s4. Yields-pure k laws view spaces _ _ (s4.1 kind)) _
                              (add_annotated-After replica_set _ c3 s3))
                          _ (add_annotated-After daemon_set _ c2 s2))
                      _ (add_annotated-After stateful_set _ c1 s1))
                  _ (add_annotated-After deployment [] c0 (s0, λ m. absurd (Memᴰ.not-nil m))))
              _ (add_namespaces-Honest ns _ (λ text e. absurd (cc))))
          _ (Yields-list_namespaces k laws view spaces)

-- Every workload of one of the four kinds that names a cluster-wide policy, is of an allowed kind and
-- is not a ReplicaSet of a Deployment has its text among the references that are collected.
pub annotated_collected :
    (k : Cluster) (laws : ClusterLaws k) (policy : String) (spec : KindFilter) (w : k.World)
    (ref : WorkloadRef) (d : Workload) (refs : List WorkloadRef)
    → Memᴰ ref.kind (replica_set ∷ daemon_set ∷ stateful_set ∷ deployment ∷ [])
    → laws.workload w ref.kind ref.namespace ref.name ≡ some d
    → is_skipped ref.kind d ≡ false
    → policy_of d.annotations ≡ policy
    → kind_allowed ref spec ≡ true
    → (collect_workloads k policy spec w).0 ≡ ok refs
    → has_ref (ref_string ref) refs ≡ true
annotated_collected k laws policy spec w ref d refs kind there take own kind_ok e =
    at_answer (λ (l : List WorkloadRef). has_ref (ref_string ref) l ≡ true) _ refs e
      (collect_workloads-Reaches (laws.workload w) (laws.namespace w) policy spec k laws ref d there
        take own kind_ok kind w refl refl).holds
