-- ===== src/Marker.antt =====
-- The annotations by which a hibernated workload records its owner, and the replica arithmetic
-- (internal/controller/hibernatepolicy_controller.go, helpers.go).
pub mod Laws
use kube_greencosts.Prelude.{
  ℕ, String, Bool, true, false, ◌&&◌, Option, none, some, ◌==◌, StringMap, value_at, put, delete,
  if◌then◌else◌,
}
use kube_greencosts.Prelude.Int.{ℤ, pos, negsuc, ltℤ}
use kube_greencosts.Api.{HibernateAction, HibernationOwner}
use kube_greencosts.Strconv.{atoi}

abbrev pub annotation_original_replicas : String
annotation_original_replicas = "greencosts.hstr.nl/original-replicas"

abbrev pub annotation_original_node_selector : String
annotation_original_node_selector = "greencosts.hstr.nl/original-nodeselector"

abbrev pub annotation_hibernated : String
annotation_hibernated = "greencosts.hstr.nl/hibernated"

abbrev pub annotation_hibernated_by_kind : String
annotation_hibernated_by_kind = "greencosts.hstr.nl/hibernated-by-kind"

abbrev pub annotation_hibernated_by_name : String
annotation_hibernated_by_name = "greencosts.hstr.nl/hibernated-by-name"

abbrev pub annotation_hibernated_by_namespace : String
annotation_hibernated_by_namespace = "greencosts.hstr.nl/hibernated-by-namespace"

-- `annotations[annotationHibernated] == annotationTrueValue`
abbrev pub is_hibernated : StringMap → Bool
is_hibernated annotations = value_at annotations annotation_hibernated == "true"

unfoldable pub mark_hibernated : StringMap → HibernationOwner → StringMap
mark_hibernated annotations owner =
    put
      (put
        (put (put annotations annotation_hibernated "true") annotation_hibernated_by_kind
          owner.kind)
        annotation_hibernated_by_name owner.name)
      annotation_hibernated_by_namespace owner.namespace

unfoldable pub clear_hibernated : StringMap → StringMap
clear_hibernated annotations =
    delete
      (delete (delete (delete annotations annotation_hibernated) annotation_hibernated_by_kind)
        annotation_hibernated_by_name)
      annotation_hibernated_by_namespace

-- The three empty annotations are the marker of versions that recorded no owner.
unfoldable pub owned_by : StringMap → HibernationOwner → Bool
owned_by annotations owner =
    let kind = value_at annotations annotation_hibernated_by_kind in
    let name = value_at annotations annotation_hibernated_by_name in
    let namespace = value_at annotations annotation_hibernated_by_namespace in
    if kind == "" && (name == "" && namespace == "")
    then true
    else kind == owner.kind && (name == owner.name && namespace == owner.namespace)

-- an unset replica count, or minimum of an autoscaler, is 1
abbrev pub or_one : Option ℤ → ℤ
or_one none = pos 1
or_one (some n) = n

-- `computeTargetReplicas`: the target, and whether to scale down
unfoldable pub compute_target_replicas : HibernateAction → ℤ → ℤ × Bool
compute_target_replicas action current = elim action.max_replicas [
  | none ↦ (pos 0, false)
  | some most ↦ if ltℤ most current then (most, true) else (pos 0, false)
]

abbrev pub default_original_replicas : ℕ
default_original_replicas = 1

abbrev not_negative : Option ℤ → ℕ
not_negative none = default_original_replicas
not_negative (some (pos v)) = v
not_negative (some (negsuc _)) = default_original_replicas

unfoldable pub parse_original_replicas : String → ℕ
parse_original_replicas s = if s == "" then default_original_replicas else not_negative (atoi s)
