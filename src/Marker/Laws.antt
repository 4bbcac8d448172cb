-- ===== src/Marker/Laws.antt =====
-- What marking, clearing and reading back the annotations amount to.
use kube_greencosts.Prelude.{ℕ, ◌^◌, ◌<◌, ◌≡◌, ◌≢◌, ◌↔◌, true, arith, eq_iff, eq_refl, StringMap}
use kube_greencosts.Prelude.Int.{pos, int32, int32_in_range}
use kube_greencosts.Api.{HibernationOwner}
use kube_greencosts.Strconv.{itoa}
use kube_greencosts.Strconv.RoundTrip.{atoi-itoa, itoa-ne-empty}
use kube_greencosts.Marker.{mark_hibernated, owned_by, parse_original_replicas}

-- The owner that marked an object is recognised as its owner.
pub owned_by-mark_hibernated :
    (m : StringMap) (o : HibernationOwner) → owned_by (mark_hibernated m o) o ≡ true
unfolding owned_by mark_hibernated
owned_by-mark_hibernated m o = ground (arith, eq_refl o.kind, eq_refl o.name, eq_refl o.namespace)

-- Exactly the owner that marked an object is recognised, where it has a kind.
pub owned_by-mark_hibernated_iff :
    (m : StringMap) (o p : HibernationOwner)
    → o.kind ≢ ""
    → (owned_by (mark_hibernated m o) p ≡ true) ↔ (o ≡ p)
unfolding owned_by mark_hibernated
owned_by-mark_hibernated_iff m o p h = (
  ground (
    arith,
    eq_iff o.kind "",
    eq_iff o.kind p.kind,
    eq_iff o.name p.name,
    eq_iff o.namespace p.namespace,
  ),
  λ e. rw (← e) (owned_by-mark_hibernated m o),
)

-- Every replica count of an `int32` is read back from the annotation that holds it.
pub parse_original_replicas-itoa :
    (n : ℕ) → n < 2 ^ 31 → int32 (parse_original_replicas (itoa (pos n))) ≡ pos n
unfolding parse_original_replicas
parse_original_replicas-itoa n h =
    rw (itoa-ne-empty (pos n), atoi-itoa n (omega arith)) (int32_in_range n h)
