-- ===== src/Hpa.antt =====
-- Suspending and restoring HorizontalPodAutoscalers (internal/controller/helpers.go).
pub mod RoundTrip
pub mod Effects
use Prim.Native.String
use Prim.Native.String.{slice}
use kube_greencosts.Prelude.{
  ℕ, zero, suc, String, Bool, true, false, ◌&&◌, Option, none, some, List, [], ◌∷◌, ◌==◌, StringMap,
  value_at, put, delete, if◌then◌else◌,
}
use kube_greencosts.Prelude.Int.{ℤ, pos, negsuc, int32}
use kube_greencosts.Api.{HibernateAction, Hpa}
use kube_greencosts.Cluster.{Cluster, Exec, Result, ok, err, pure, ◌>>=◌}
use kube_greencosts.Strconv.{itoa}
use kube_greencosts.Marker.{or_one, parse_original_replicas}

abbrev pub annotation_original_hpa_min : String
annotation_original_hpa_min = "greencosts.hstr.nl/original-hpa-min"

abbrev pub annotation_original_hpa_max : String
annotation_original_hpa_max = "greencosts.hstr.nl/original-hpa-max"

abbrev pub annotation_original_hpa_target_api_version : String
annotation_original_hpa_target_api_version = "greencosts.hstr.nl/original-hpa-target-api-version"

abbrev pub annotation_original_hpa_target_kind : String
annotation_original_hpa_target_kind = "greencosts.hstr.nl/original-hpa-target-kind"

abbrev pub annotation_original_hpa_target_name : String
annotation_original_hpa_target_name = "greencosts.hstr.nl/original-hpa-target-name"

abbrev pub hpa_detached_target_prefix : String
hpa_detached_target_prefix = "kube-greencosts-hibernated"

abbrev pub short_hash_length : ℕ
short_hash_length = 10

-- `value` is hashed to hexadecimal text, of which the first characters are kept.
unfoldable pub short_hash : (String → String) → String → String
short_hash sha256_hex value = slice (sha256_hex value) 0 short_hash_length

unfoldable pub detached_hpa_target_name : (String → String) → String → String → String
unfolding short_hash
detached_hpa_target_name sha256_hex kind name =
    String.◌++◌ hpa_detached_target_prefix
      (String.◌++◌ "-" (short_hash sha256_hex (String.◌++◌ kind (String.◌++◌ "/" name))))

abbrev pub is_zero : ℤ → Bool
is_zero (pos zero) = true
is_zero (pos (suc n)) = false
is_zero (negsuc n) = false

-- the loop of `findHPA`
unfoldable pub first_targeting : String → String → List Hpa → Option Hpa
first_targeting kind name [] = none
first_targeting kind name (h ∷ hs) =
    if h.target_kind == kind && h.target_name == name then some h else first_targeting kind name hs

-- the loop of `findSuspendedHPA`
unfoldable pub first_suspended : String → String → List Hpa → Option Hpa
first_suspended kind name [] = none
first_suspended kind name (h ∷ hs) =
    if value_at h.annotations annotation_original_hpa_target_kind == kind
      && value_at h.annotations annotation_original_hpa_target_name == name
    then some h
    else first_suspended kind name hs

-- `suspendHPA`, from the test of the annotation to the patch: what the autoscaler becomes.
unfoldable pub suspended : (String → String) → ℤ → Hpa → Hpa
suspended sha256_hex target h =
    let bounds =
      put (put h.annotations annotation_original_hpa_min (itoa (or_one h.min_replicas)))
        annotation_original_hpa_max (itoa h.max_replicas) in
    if is_zero target
    then record h {
      annotations =
          put
            (put (put bounds annotation_original_hpa_target_api_version h.target_api_version)
              annotation_original_hpa_target_kind h.target_kind)
            annotation_original_hpa_target_name h.target_name;
      target_name = detached_hpa_target_name sha256_hex h.target_kind h.target_name;
    }
    else record h { annotations = bounds; min_replicas = some target; max_replicas = target }

abbrev retargeted : Hpa → Hpa
retargeted h =
    let target_name = value_at h.annotations annotation_original_hpa_target_name in
    if target_name == "" then h else record h {
      target_api_version = value_at h.annotations annotation_original_hpa_target_api_version;
      target_kind = value_at h.annotations annotation_original_hpa_target_kind;
      target_name = target_name;
    }

-- `restoreHPA`, from the parsed annotations to the patch: what the autoscaler becomes.
unfoldable pub restored : Hpa → Hpa
restored h =
    let r = retargeted h in
    record r {
      annotations =
          delete
            (delete
              (delete
                (delete (delete h.annotations annotation_original_hpa_min)
                  annotation_original_hpa_max)
                annotation_original_hpa_target_api_version)
              annotation_original_hpa_target_kind)
            annotation_original_hpa_target_name;
      min_replicas =
          some
            (int32 (parse_original_replicas (value_at h.annotations annotation_original_hpa_min)));
      max_replicas =
          int32 (parse_original_replicas (value_at h.annotations annotation_original_hpa_max));
    }

abbrev pub is_suspended : Hpa → Bool
is_suspended h = if value_at h.annotations annotation_original_hpa_min == "" then false else true

module _ (k : Cluster) where
  open k use {World, list_hpas, patch_hpa, sha256_hex}

  unfoldable pub find_hpa : String → String → String → Exec World (Option Hpa)
  find_hpa namespace kind name = do
    list ← list_hpas namespace
    pure (first_targeting kind name list)

  unfoldable pub find_suspended_hpa : String → String → String → Exec World (Option Hpa)
  find_suspended_hpa namespace kind name = do
    list ← list_hpas namespace
    pure (first_suspended kind name list)

  unfoldable pub suspend_found : ℤ → Option Hpa → Exec World (Unit {0})
  suspend_found target none = pure tt
  suspend_found target (some h) =
      if is_suspended h then pure tt else patch_hpa h (suspended sha256_hex target h)

  unfoldable pub suspend_hpa : String → String → String → ℤ → Exec World (Unit {0})
  unfolding find_hpa suspend_found
  suspend_hpa namespace kind name target = do
    found ← find_hpa namespace kind name
    suspend_found target found

  unfoldable pub suspend_to : String → String → String → Option ℤ → Exec World (Unit {0})
  suspend_to namespace kind name none = pure tt
  suspend_to namespace kind name (some most) = suspend_hpa namespace kind name most

  unfoldable pub suspend_hpa_for_action :
      String → String → String → HibernateAction → Exec World (Unit {0})
  unfolding suspend_to
  suspend_hpa_for_action namespace kind name action =
      suspend_to namespace kind name action.max_replicas

  unfoldable pub restore_found : Option Hpa → Exec World (Unit {0})
  restore_found none = pure tt
  restore_found (some h) = if is_suspended h then patch_hpa h (restored h) else pure tt

  -- an autoscaler that was detached is found by the target that its annotations hold
  unfoldable pub or_find_suspended : String → String → String → Option Hpa → Exec World (Option Hpa)
  unfolding find_suspended_hpa
  or_find_suspended namespace kind name none = find_suspended_hpa namespace kind name
  or_find_suspended namespace kind name (some h) = pure (some h)

  unfoldable pub restore_hpa : String → String → String → Exec World (Unit {0})
  unfolding find_hpa or_find_suspended restore_found
  restore_hpa namespace kind name = do
    found ← find_hpa namespace kind name
    found ← or_find_suspended namespace kind name found
    restore_found found
