-- ===== src/ClusterPolicy/Collect.antt =====
-- Which workloads a cluster-wide hibernate policy governs
-- (internal/controller/clusterhibernatepolicy_controller.go).
use Prim.Native.String
use kube_greencosts.Prelude.{
  String, Bool, true, false, not, ◌&&◌, none, some, List, [], ◌∷◌, ◌++◌, ◌==◌, StringMap, value_at,
  if◌then◌else◌,
}
use kube_greencosts.Api.{
  WorkloadType, deployment, stateful_set, daemon_set, replica_set, unknown, KindFilter, Namespace,
  Workload,
}
use kube_greencosts.Cluster.{Cluster, Exec, pure, ◌>>=◌}
use kube_greencosts.Patch.{kind_name, is_owned_by_deployment}

abbrev pub annotation_cluster_hibernate_policy : String
annotation_cluster_hibernate_policy = "greencosts.hstr.nl/clusterhibernatepolicy"

-- `workloadRef`. The source holds the kind as text, and makes references of the four kinds only.
pub record WorkloadRef : Type 0 where
  pub namespace : String
  pub kind : WorkloadType
  pub name : String

-- `workloadRef.String`
abbrev pub ref_string : WorkloadRef → String
ref_string ref =
    String.◌++◌ ref.namespace
      (String.◌++◌ "/" (String.◌++◌ (kind_name ref.kind) (String.◌++◌ "/" ref.name)))

-- Whether a set of texts, or a list of kinds as `workloadKindFilter` makes a set of it, has an item.
abbrev pub has_item : String → List String → Bool
has_item x [] = false
has_item x (y ∷ ys) = if x == y then true else has_item x ys

abbrev pub has_kind : WorkloadType → List WorkloadType → Bool
has_kind t [] = false
has_kind t (u ∷ us) = if kind_name t == kind_name u then true else has_kind t us

abbrev excluding : WorkloadType → List WorkloadType → Bool
excluding t [] = true
excluding t (u ∷ us) = not (has_kind t (u ∷ us))

abbrev kind_allowed_by : WorkloadType → List WorkloadType → List WorkloadType → Bool
kind_allowed_by t [] excluded = excluding t excluded
kind_allowed_by t (u ∷ us) excluded = has_kind t (u ∷ us)

-- `kindAllowed`: the included kinds, where there are any, else all kinds but the excluded
abbrev pub kind_allowed : WorkloadRef → KindFilter → Bool
kind_allowed ref spec = kind_allowed_by ref.kind spec.included_resources spec.excluded_resources

-- `seen` and `refs`
pub record Collected : Type 0 where
  pub seen : List String
  pub refs : List WorkloadRef

-- the closure `add`
unfoldable pub add : KindFilter → Collected → WorkloadRef → Collected
add spec c ref =
    if kind_allowed ref spec
    then if has_item (ref_string ref) c.seen
      then c
      else record { seen = ref_string ref ∷ c.seen; refs = c.refs ++ ref ∷ [] }
    else c

unfoldable pub add_each : KindFilter → Collected → List WorkloadRef → Collected
unfolding add
add_each spec c [] = c
add_each spec c (ref ∷ refs) = add_each spec (add spec c ref) refs

abbrev pub policy_of : StringMap → String
policy_of annotations = value_at annotations annotation_cluster_hibernate_policy

-- only the loops over ReplicaSets leave out the objects of a Deployment
abbrev pub is_skipped : WorkloadType → Workload → Bool
is_skipped deployment d = false
is_skipped stateful_set d = false
is_skipped daemon_set d = false
is_skipped replica_set d = is_owned_by_deployment d.owner_kinds
is_skipped (unknown _) d = false

-- the loops of `allWorkloadsInNamespace`
unfoldable pub namespace_refs : String → String → WorkloadType → List Workload → List WorkloadRef
namespace_refs namespace policy t [] = []
namespace_refs namespace policy t (d ∷ ds) =
    let rest = namespace_refs namespace policy t ds in
    if is_skipped t d
    then rest
    else if not (policy_of d.annotations == "") && not (policy_of d.annotations == policy)
    then rest
    else record { namespace = namespace; kind = t; name = d.name } ∷ rest

-- the loops of `collectWorkloads` over objects that carry the annotation
unfoldable pub annotated_refs : String → WorkloadType → List Workload → List WorkloadRef
annotated_refs policy t [] = []
annotated_refs policy t (d ∷ ds) =
    let rest = annotated_refs policy t ds in
    if is_skipped t d
    then rest
    else if policy_of d.annotations == policy
    then record { namespace = d.namespace; kind = t; name = d.name } ∷ rest
    else rest

module _ (k : Cluster) where
  open k use {World, list_namespaces, list_workloads}

  unfoldable pub all_workloads_in_namespace : String → String → Exec World (List WorkloadRef)
  all_workloads_in_namespace namespace policy = do
    deploys ← list_workloads deployment (some namespace)
    sts ← list_workloads stateful_set (some namespace)
    dss ← list_workloads daemon_set (some namespace)
    rss ← list_workloads replica_set (some namespace)
    pure (
        namespace_refs namespace policy deployment deploys
        ++ (namespace_refs namespace policy stateful_set sts
            ++ (namespace_refs namespace policy daemon_set dss
                ++ namespace_refs namespace policy replica_set rss)))

  -- the loop over the namespaces
  unfoldable pub add_namespaces :
      String → KindFilter → List Namespace → Collected → Exec World Collected
  add_namespaces policy spec [] c = pure c
  add_namespaces policy spec (n ∷ ns) c =
      if policy_of n.annotations == policy
      then (do
        refs ← all_workloads_in_namespace n.name policy
        add_namespaces policy spec ns (add_each spec c refs))
      else add_namespaces policy spec ns c

  unfoldable pub add_annotated :
      String → KindFilter → WorkloadType → Collected → Exec World Collected
  add_annotated policy spec t c = do
    l ← list_workloads t none
    pure (add_each spec c (annotated_refs policy t l))

  unfoldable pub collect_workloads : String → KindFilter → Exec World (List WorkloadRef)
  collect_workloads policy spec = do
    ns ← list_namespaces
    c ← add_namespaces policy spec ns (record { seen = []; refs = [] })
    c ← add_annotated policy spec deployment c
    c ← add_annotated policy spec stateful_set c
    c ← add_annotated policy spec daemon_set c
    c ← add_annotated policy spec replica_set c
    pure c.refs
