-- ===== src/ClusterPolicy/Sound.antt =====
-- A collection keeps its properties as references are added to it.
use kube_greencosts.Prelude.{
  String, ◌≡◌, ◌≢◌, refl, sym, ◌∙◌, ap, inl, inr, true, false, Bool-cases, Option, some, List, [],
  ◌∷◌, ◌++◌, ◌==◌, eq_iff, eq_refl, All, All-append,
}
use kube_greencosts.Api.{
  WorkloadType, deployment, stateful_set, daemon_set, replica_set, KindFilter, Namespace, Workload,
}
use kube_greencosts.Cluster.{Cluster}
use kube_greencosts.Cluster.Laws.{ClusterLaws}
use kube_greencosts.Cluster.Reads.{
  Yields, Yields-pure, Yields-bind, HeldNamespace, HeldIn, Yields-list_workloads,
  Yields-list_everywhere, Yields-list_namespaces,
}
use kube_greencosts.ClusterPolicy.Collect.{
  WorkloadRef, ref_string, has_item, kind_allowed, Collected, add, add_each, policy_of,
  namespace_refs, annotated_refs, all_workloads_in_namespace, add_namespaces, add_annotated,
  collect_workloads,
}
use kube_greencosts.ClusterPolicy.Governed.{
  Governed, namespace_refs-Governed, annotated_refs-Governed,
}

-- No two references of a list have one text.
abbrev pub Apart : List WorkloadRef → Type 0
Apart [] = Unit
Apart (ref ∷ refs) = All (λ (x : WorkloadRef). ref_string x ≢ ref_string ref) refs × Apart refs

Apart-snoc :
    (refs : List WorkloadRef) (ref : WorkloadRef)
    → All (λ (x : WorkloadRef). ref_string ref ≢ ref_string x) refs
    → Apart refs
    → Apart (refs ++ ref ∷ [])
Apart-snoc [] ref _ _ = (tt, tt)
Apart-snoc (x ∷ refs) ref (h, hs) (p, ps) =
    (All-append _ refs _ p (h, tt), Apart-snoc refs ref hs ps)

-- what is recorded stays so, and differs from what is not
grows :
    (ref : WorkloadRef) (seen : List String) (refs : List WorkloadRef)
    → All (λ (x : WorkloadRef). has_item (ref_string x) seen ≡ true) refs
    → All (λ (x : WorkloadRef). has_item (ref_string x) (ref_string ref ∷ seen) ≡ true) refs
grows ref seen [] _ = tt
grows ref seen (x ∷ refs) (h, hs) = (
  elim (Bool-cases (ref_string x == ref_string ref)) [
    | inl same ↦ rw same refl
    | inr other ↦ rw other h
  ],
  grows ref seen refs hs,
)

differs :
    (ref : WorkloadRef) (seen : List String) (refs : List WorkloadRef)
    → has_item (ref_string ref) seen ≡ false
    → All (λ (x : WorkloadRef). has_item (ref_string x) seen ≡ true) refs
    → All (λ (x : WorkloadRef). ref_string ref ≢ ref_string x) refs
differs ref seen [] new _ = tt
differs ref seen (x ∷ refs) new (h, hs) = (
  (λ e. let clash = sym new ∙ ap (λ (text : String). has_item text seen) e ∙ h in absurd (cc)),
  differs ref seen refs new hs,
)

module _ (view : WorkloadType → String → String → Option Workload)
    (spaces : String → Option Namespace) (policy : String) (spec : KindFilter) where
  -- What holds of a collection as it grows.
  pub record Sound (c : Collected) : Type 0 where
    pub governed : All (Governed view spaces policy) c.refs
    pub allowed : All (λ (ref : WorkloadRef). kind_allowed ref spec ≡ true) c.refs
    pub recorded : All (λ (ref : WorkloadRef). has_item (ref_string ref) c.seen ≡ true) c.refs
    pub apart : Apart c.refs

  add-Sound :
      (c : Collected) (ref : WorkloadRef)
      → Governed view spaces policy ref
      → Sound c
      → Sound (add spec c ref)
  unfolding add
  add-Sound c ref g s = elim (Bool-cases (kind_allowed ref spec)) [
    | inl ok_kind ↦ rw ok_kind (elim (Bool-cases (has_item (ref_string ref) c.seen)) [
      | inl old ↦ rw old s
      | inr new ↦ rw new (record {
        governed = All-append _ c.refs _ s.governed (g, tt);
        allowed = All-append _ c.refs _ s.allowed (ok_kind, tt);
        recorded =
            All-append _ c.refs _ (grows ref c.seen c.refs s.recorded)
              (rw (eq_refl (ref_string ref)) refl, tt);
        apart = Apart-snoc c.refs ref (differs ref c.seen c.refs new s.recorded) s.apart;
      })
    ])
    | inr other_kind ↦ rw other_kind s
  ]

  add_each-Sound :
      (refs : List WorkloadRef) (c : Collected)
      → All (Governed view spaces policy) refs
      → Sound c
      → Sound (add_each spec c refs)
  unfolding add_each
  add_each-Sound [] c _ s = s
  add_each-Sound (ref ∷ refs) c (g, gs) s =
      add_each-Sound refs (add spec c ref) gs (add-Sound c ref g s)

  abbrev pub IsSelection : List WorkloadRef → Type 0
  IsSelection refs =
      All (Governed view spaces policy) refs
      × All (λ (ref : WorkloadRef). kind_allowed ref spec ≡ true) refs
      × Apart refs

  module _ (k : Cluster) (laws : ClusterLaws k) where
    all_workloads-Governed :
        (ns : String) (n : Namespace)
        → spaces ns ≡ some n
        → policy_of n.annotations ≡ policy
        → Yields k laws view spaces
            (All (Governed view spaces policy))
            (all_workloads_in_namespace k ns policy)
    unfolding all_workloads_in_namespace
    all_workloads-Governed ns n e f =
        Yields-bind k laws view spaces _ _ _
          (λ deploys a.
            Yields-bind k laws view spaces _ _ _
              (λ sts b.
                Yields-bind k laws view spaces _ _ _
                  (λ dss c.
                    Yields-bind k laws view spaces _ _ _
                      (λ rss d.
                        Yields-pure k laws view spaces (All (Governed view spaces policy)) _ (
                          All-append _ _ _ (refs deployment deploys a) (
                            All-append _ _ _ (refs stateful_set sts b)
                              (All-append _ _ _ (refs daemon_set dss c) (refs replica_set rss d)))))
                      _ (listed replica_set))
                  _ (listed daemon_set))
              _ (listed stateful_set))
          _ (listed deployment)
      where
        refs :
            (t : WorkloadType) (l : List Workload)
            → All (HeldIn k laws view spaces t ns) l
            → All (Governed view spaces policy) (namespace_refs ns policy t l)
        refs t = namespace_refs-Governed view spaces policy t ns n e f

        listed :
            (t : WorkloadType)
            → Yields k laws view spaces
                (All (HeldIn k laws view spaces t ns))
                (k.list_workloads t (some ns))
        listed t = Yields-list_workloads k laws view spaces t ns

    add_namespaces-Sound :
        (ns : List Namespace) (c : Collected)
        → All (HeldNamespace k laws view spaces) ns
        → Sound c
        → Yields k laws view spaces Sound (add_namespaces k policy spec ns c)
    unfolding add_namespaces
    add_namespaces-Sound [] c _ s = Yields-pure k laws view spaces Sound c s
    add_namespaces-Sound (n ∷ ns) c (h, hs) s =
        elim (Bool-cases (policy_of n.annotations == policy)) [
          | inl own ↦ rw own (
              Yields-bind k laws view spaces _ _ _
                (λ refs g.
                  add_namespaces-Sound ns (add_each spec c refs) hs (add_each-Sound refs c g s))
                _ (all_workloads-Governed n.name n h ((eq_iff _ policy).0 own)))
          | inr other ↦ rw other (add_namespaces-Sound ns c hs s)
        ]

    add_annotated-Sound :
        (t : WorkloadType) (c : Collected)
        → Sound c
        → Yields k laws view spaces Sound (add_annotated k policy spec t c)
    unfolding add_annotated
    add_annotated-Sound t c s =
        Yields-bind k laws view spaces _ _ _
          (λ l h. Yields-pure k laws view spaces Sound _ (
            add_each-Sound (annotated_refs policy t l) c
              (annotated_refs-Governed view spaces policy t l h) s))
          _ (Yields-list_everywhere k laws view spaces t)

    pub collect_workloads-Yields :
        Yields k laws view spaces IsSelection (collect_workloads k policy spec)
    unfolding collect_workloads
    collect_workloads-Yields =
        Yields-bind k laws view spaces _ _ _
          (λ ns h.
            Yields-bind k laws view spaces _ _ _
              (λ c0 s0.
                Yields-bind k laws view spaces _ _ _
                  (λ c1 s1.
                    Yields-bind k laws view spaces _ _ _
                      (λ c2 s2.
                        Yields-bind k laws view spaces _ _ _
                          (λ c3 s3.
                            Yields-bind k laws view spaces _ _ _
                              (λ c4 s4.
                                Yields-pure k laws view spaces IsSelection _
                                  (s4.governed, s4.allowed, s4.apart))
                              _ (add_annotated-Sound replica_set c3 s3))
                          _ (add_annotated-Sound daemon_set c2 s2))
                      _ (add_annotated-Sound stateful_set c1 s1))
                  _ (add_annotated-Sound deployment c0 s0))
              _
              (add_namespaces-Sound ns _ h
                (record { governed = tt; allowed = tt; recorded = tt; apart = tt })))
          _ (Yields-list_namespaces k laws view spaces)
