-- ===== src/Patch/RoundTrip.antt =====
-- Waking a workload undoes its hibernation.
use kube_greencosts.Prelude.{
  ℕ, ◌^◌, ◌<◌, String, ◌≡◌, refl, ap, Option, none, some, arith, fun_ext, eq_iff, StringMap, delete,
  ◌==◌, false, put,
}
use kube_greencosts.Prelude.Int.{ℤ, pos}
use kube_greencosts.Api.{HibernationOwner, NodeSelector, Workload}
use kube_greencosts.Marker.{
  annotation_original_replicas, annotation_original_node_selector, annotation_hibernated,
  annotation_hibernated_by_kind, annotation_hibernated_by_name, annotation_hibernated_by_namespace,
  mark_hibernated, clear_hibernated, or_one,
}
use kube_greencosts.Marker.Laws.{parse_original_replicas-itoa}
use kube_greencosts.Patch.{scaled, woken, asleep, awake}

-- An object that no version of the controllers has marked.
pub record IsUnmarked (m : StringMap) : Type 0 where
  pub no_hibernated : m annotation_hibernated ≡ none
  pub no_kind : m annotation_hibernated_by_kind ≡ none
  pub no_name : m annotation_hibernated_by_name ≡ none
  pub no_namespace : m annotation_hibernated_by_namespace ≡ none
  pub no_replicas : m annotation_original_replicas ≡ none
  pub no_selector : m annotation_original_node_selector ≡ none

workload_path :
    {d d' : Workload}
    → d.namespace ≡ d'.namespace
    → d.name ≡ d'.name
    → d.annotations ≡ d'.annotations
    → d.owner_kinds ≡ d'.owner_kinds
    → d.replicas ≡ d'.replicas
    → d.node_selector ≡ d'.node_selector
    → d ≡ d'
workload_path a b c e f g i = record {
  namespace = a i;
  name = b i;
  annotations = c i;
  owner_kinds = e i;
  replicas = f i;
  node_selector = g i;
}

module _ (m : StringMap) (o : HibernationOwner) (u : IsUnmarked m) where
  -- Marking and clearing leave the annotations as they were, with the annotation that holds the
  -- original value set in between and deleted at the end.
  cleared_replicas :
      (v : String)
      → delete
          (clear_hibernated (mark_hibernated (put m annotation_original_replicas v) o))
          annotation_original_replicas
        ≡ m
  unfolding clear_hibernated mark_hibernated
  cleared_replicas v = fun_ext λ j. ground (
    arith,
    eq_iff annotation_hibernated j,
    eq_iff annotation_hibernated_by_kind j,
    eq_iff annotation_hibernated_by_name j,
    eq_iff annotation_hibernated_by_namespace j,
    eq_iff annotation_original_replicas j,
  )

  cleared_selector :
      (v : String)
      → delete
          (clear_hibernated (mark_hibernated (put m annotation_original_node_selector v) o))
          annotation_original_node_selector
        ≡ m
  unfolding clear_hibernated mark_hibernated
  cleared_selector v = fun_ext λ j. ground (
    arith,
    eq_iff annotation_hibernated j,
    eq_iff annotation_hibernated_by_kind j,
    eq_iff annotation_hibernated_by_name j,
    eq_iff annotation_hibernated_by_namespace j,
    eq_iff annotation_original_node_selector j,
  )

-- Scaled down to any target and woken, a workload of `n` replicas is as before, but that an unset
-- replica count is written out as the default 1.
pub woken-scaled :
    (o : HibernationOwner) (target : ℤ) (d : Workload) (n : ℕ)
    → IsUnmarked d.annotations
    → or_one d.replicas ≡ pos n
    → n < 2 ^ 31
    → woken (scaled o target d) ≡ record d { replicas = some (pos n) }
unfolding woken scaled mark_hibernated
woken-scaled o target d n u e h = rw e (
    workload_path refl refl (cleared_replicas d.annotations o u _) refl
      (ap some (parse_original_replicas-itoa n h)) refl)

-- Put to sleep and woken, a DaemonSet is as before, where the stored JSON reads back as the node
-- selector that it was written from.
pub awake-asleep :
    (unmarshal : String → Option NodeSelector) (o : HibernationOwner) (json : String) (d : Workload)
    → IsUnmarked d.annotations
    → (json == "") ≡ false
    → unmarshal json ≡ some d.node_selector
    → awake unmarshal (asleep o json d) ≡ d
unfolding awake asleep mark_hibernated
awake-asleep unmarshal o json d u filled e =
    rw (filled, e) (workload_path refl refl (cleared_selector d.annotations o u _) refl refl refl)
