-- ===== src/Examples/Markers.antt =====
-- Single workloads and autoscalers, hibernated and woken.
use kube_greencosts.Prelude.{◌≡◌, refl, none, some, [], ◌∷◌, arith, StringMap}
use kube_greencosts.Prelude.Int.{pos}
use kube_greencosts.Api.{HibernationOwner, Workload, Hpa}
use kube_greencosts.Strconv.{itoa, atoi}
use kube_greencosts.Strconv.RoundTrip.{atoi-itoa}
use kube_greencosts.Patch.RoundTrip.{IsUnmarked}
use kube_greencosts.Hpa.{suspended, restored}
use kube_greencosts.Hpa.RoundTrip.{IsPristine, restored-suspended}

abbrev no_annotations : StringMap
no_annotations key = none

abbrev owner : HibernationOwner
owner = record { kind = "HibernatePolicy"; namespace = "team"; name = "night" }

abbrev other : HibernationOwner
other = record { kind = "HibernatePolicy"; namespace = "team"; name = "day" }

abbrev app : Workload
app = record {
  namespace = "team";
  name = "app";
  annotations = no_annotations;
  owner_kinds = [];
  replicas = none;
  node_selector = some (("disk", "ssd") ∷ []);
}

abbrev scaler : Hpa
scaler = record {
  namespace = "team";
  name = "app";
  annotations = no_annotations;
  target_api_version = "apps/v1";
  target_kind = "Deployment";
  target_name = "app";
  min_replicas = some (pos 2);
  max_replicas = pos 10;
}

app-IsUnmarked : IsUnmarked no_annotations
app-IsUnmarked = record {
  no_hibernated = refl;
  no_kind = refl;
  no_name = refl;
  no_namespace = refl;
  no_replicas = refl;
  no_selector = refl;
}

scaler-IsPristine : IsPristine scaler 2 10
scaler-IsPristine = record {
  least_eq = refl;
  most_eq = refl;
  least_fits = omega arith;
  most_fits = omega arith;
  named = λ e. absurd (cc);
  no_min = refl;
  no_max = refl;
  no_version = refl;
  no_kind = refl;
  no_name = refl;
}

atoi-itoa_example : atoi (itoa (pos 1024)) ≡ some (pos 1024)
atoi-itoa_example = atoi-itoa 1024 (omega arith)

restored-suspended_example :
    restored (suspended (λ s. s) (pos 0) scaler) ≡ record scaler { min_replicas = some (pos 2) }
restored-suspended_example = restored-suspended (λ s. s) (pos 0) scaler scaler-IsPristine
