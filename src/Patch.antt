-- ===== src/Patch.antt =====
-- What the hibernate controllers write onto a workload
-- (internal/controller/hibernatepolicy_controller.go).
pub mod RoundTrip
use kube_greencosts.Prelude.{
  String, Bool, true, false, Option, none, some, List, [], ◌∷◌, ◌==◌, value_at, put, delete,
  if◌then◌else◌,
}
use kube_greencosts.Prelude.Int.{ℤ, int32}
use kube_greencosts.Api.{
  WorkloadType, deployment, stateful_set, daemon_set, replica_set, unknown, HibernationOwner,
  NodeSelector, Workload,
}
use kube_greencosts.Strconv.{itoa}
use kube_greencosts.Marker.{
  annotation_original_replicas, annotation_original_node_selector, mark_hibernated,
  clear_hibernated, or_one, parse_original_replicas,
}

-- the constants `workloadKind…`
abbrev pub kind_name : WorkloadType → String
kind_name deployment = "Deployment"
kind_name stateful_set = "StatefulSet"
kind_name daemon_set = "DaemonSet"
kind_name replica_set = "ReplicaSet"
kind_name (unknown s) = s

unfoldable pub is_owned_by_deployment : List String → Bool
is_owned_by_deployment [] = false
is_owned_by_deployment (kind ∷ kinds) =
    if kind == "Deployment" then true else is_owned_by_deployment kinds

-- What is patched onto a workload that is scaled down.
unfoldable pub scaled : HibernationOwner → ℤ → Workload → Workload
scaled owner target d = record d {
  annotations =
      mark_hibernated (put d.annotations annotation_original_replicas (itoa (or_one d.replicas)))
        owner;
  replicas = some target;
}

-- What is patched onto a workload that is woken.
unfoldable pub woken : Workload → Workload
woken d = record d {
  annotations = delete (clear_hibernated d.annotations) annotation_original_replicas;
  replicas =
      some (int32 (parse_original_replicas (value_at d.annotations annotation_original_replicas)));
}

abbrev pub hibernate_node_selector : NodeSelector
hibernate_node_selector = some (("greencosts.hstr.nl/hibernate", "true") ∷ [])

-- What is patched onto a DaemonSet that is put to sleep, its node selector kept as JSON.
unfoldable pub asleep : HibernationOwner → String → Workload → Workload
asleep owner orig_json d = record d {
  annotations =
      mark_hibernated (put d.annotations annotation_original_node_selector orig_json) owner;
  node_selector = hibernate_node_selector;
}

-- a stored selector that does not parse is restored as nil
abbrev or_nil : Option NodeSelector → NodeSelector
or_nil none = none
or_nil (some selector) = selector

-- What is patched onto a DaemonSet that is woken.
unfoldable pub awake : (String → Option NodeSelector) → Workload → Workload
awake unmarshal d =
    let orig_json = value_at d.annotations annotation_original_node_selector in
    record d {
      annotations = delete (clear_hibernated d.annotations) annotation_original_node_selector;
      node_selector = if orig_json == "" then none else or_nil (unmarshal orig_json);
    }
