-- ===== src/Hpa/RoundTrip.antt =====
-- Restoring an autoscaler undoes its suspension.
use kube_greencosts.Prelude.{
  inl, inr, Bool-cases, ◌==◌, false, ℕ, ◌^◌, ◌<◌, String, ◌≡◌, ◌≢◌, none, some, arith, fun_ext,
  eq_iff,
}
use kube_greencosts.Prelude.Int.{ℤ, pos}
use kube_greencosts.Api.{Hpa}
use kube_greencosts.Marker.{or_one}
use kube_greencosts.Marker.Laws.{parse_original_replicas-itoa}
use kube_greencosts.Hpa.{
  annotation_original_hpa_min, annotation_original_hpa_max,
  annotation_original_hpa_target_api_version, annotation_original_hpa_target_kind,
  annotation_original_hpa_target_name, is_zero, suspended, restored,
}

-- An autoscaler as a cluster holds it before any suspension: replica bounds that an `int32` holds and
-- none of the five annotations.
pub record IsPristine (h : Hpa) (least most : ℕ) : Type 0 where
  pub least_eq : or_one h.min_replicas ≡ pos least
  pub most_eq : h.max_replicas ≡ pos most
  pub least_fits : least < 2 ^ 31
  pub most_fits : most < 2 ^ 31
  pub named : h.target_name ≢ ""
  pub no_min : h.annotations annotation_original_hpa_min ≡ none
  pub no_max : h.annotations annotation_original_hpa_max ≡ none
  pub no_version : h.annotations annotation_original_hpa_target_api_version ≡ none
  pub no_kind : h.annotations annotation_original_hpa_target_kind ≡ none
  pub no_name : h.annotations annotation_original_hpa_target_name ≡ none

hpa_path :
    {h h' : Hpa}
    → h.namespace ≡ h'.namespace
    → h.name ≡ h'.name
    → h.annotations ≡ h'.annotations
    → h.target_api_version ≡ h'.target_api_version
    → h.target_kind ≡ h'.target_kind
    → h.target_name ≡ h'.target_name
    → h.min_replicas ≡ h'.min_replicas
    → h.max_replicas ≡ h'.max_replicas
    → h ≡ h'
hpa_path a b c d e f g m i = record {
  namespace = a i;
  name = b i;
  annotations = c i;
  target_api_version = d i;
  target_kind = e i;
  target_name = f i;
  min_replicas = g i;
  max_replicas = m i;
}

module _ (sha256_hex : String → String) (target : ℤ) (h : Hpa) {least most : ℕ}
    (p : IsPristine h least most) where
  -- No key of the five is left, and no other key is changed.
  annotations-restored : (restored (suspended sha256_hex target h)).annotations ≡ h.annotations
  unfolding restored suspended
  annotations-restored = fun_ext λ j. ground (
    arith,
    eq_iff annotation_original_hpa_min j,
    eq_iff annotation_original_hpa_max j,
    eq_iff annotation_original_hpa_target_api_version j,
    eq_iff annotation_original_hpa_target_kind j,
    eq_iff annotation_original_hpa_target_name j,
  )

  abbrev Agree : Hpa → Type 0
  Agree r =
      (r.namespace ≡ h.namespace)
      × (r.name ≡ h.name)
      × (r.target_api_version ≡ h.target_api_version)
      × (r.target_kind ≡ h.target_kind)
      × (r.target_name ≡ h.target_name)
      × (r.min_replicas ≡ some (or_one h.min_replicas))
      × (r.max_replicas ≡ h.max_replicas)

  has_target : (h.target_name == "") ≡ false
  has_target = ground (arith, eq_iff h.target_name "")

  fields-restored : Agree (restored (suspended sha256_hex target h))
  unfolding restored suspended
  fields-restored = elim (Bool-cases (is_zero target)) [
    | inl zero ↦
        rw (zero, has_target)
          (ground (
            arith,
            parse_original_replicas-itoa least p.least_fits,
            parse_original_replicas-itoa most p.most_fits,
          ))
    | inr more ↦
        rw (more, p.no_name)
          (ground (
            arith,
            parse_original_replicas-itoa least p.least_fits,
            parse_original_replicas-itoa most p.most_fits,
          ))
  ]

  -- Suspended at any target and restored, an autoscaler is as before, but that an unset minimum is
  -- written out as the default 1; where it has a minimum and a maximum from 0 to below 2 ^ 31, a target
  -- with a name, and none of the five annotations that a suspension writes.
  pub restored-suspended :
      restored (suspended sha256_hex target h)
      ≡ record h { min_replicas = some (or_one h.min_replicas) }
  restored-suspended =
      let (a, b, c, d, e, f, g) = fields-restored in hpa_path a b annotations-restored c d e f g
