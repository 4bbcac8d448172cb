-- ===== src/Examples/Policies.antt =====
-- A policy at work in the example cluster.
use kube_greencosts.Prelude.{
  String, ◌≡◌, refl, ◌⊎◌, inl, false, Option, none, some, List, [], ◌∷◌, arith, StringMap, ◌==◌,
  subst,
}
use kube_greencosts.Prelude.Int.{ℤ, pos, ◌≤ℤ◌}
use kube_greencosts.Api.{deployment, stateful_set, HibernateAction, HibernationOwner, Workload}
use kube_greencosts.Cluster.{Error, ok, error_of}
use kube_greencosts.Marker.{or_one, compute_target_replicas, owned_by, mark_hibernated}
use kube_greencosts.Strconv.{itoa}
use kube_greencosts.Hpa.{
  suspend_hpa, restore_hpa, suspend_hpa_for_action, first_targeting, first_suspended,
}
use kube_greencosts.Patch.{scaled, woken}
use kube_greencosts.Patch.RoundTrip.{IsUnmarked}
use kube_greencosts.Hibernate.{
  hibernate_workload_type, hibernate_dispatch, hibernate_deployments, hibernate_loop,
  hibernate_named,
}
use kube_greencosts.Wake.{wake_workload_type, wake_deployments, wake_loop, wake_named}
use kube_greencosts.Hibernate.Cycle.{IsPristine, IsRestored, night, morning, morning_restores}
use kube_greencosts.Hibernate.Spec.{hibernate_kind_spec, wake_kind_spec}
use kube_greencosts.Hibernate.Safety.{IsForeign, foreign_kept, hibernated_capped}
use kube_greencosts.Hibernate.Promise.{
  hibernated, woken_up, hibernate_reaches, wake_reaches, never_half_done, others_kept,
  hibernate_retried,
}
use kube_greencosts.Examples.Shop.{Contents, Shop, object, held, shop}
use kube_greencosts.Examples.ShopLaws.{shop-ClusterLaws, some_inj}

abbrev no_annotations : StringMap
no_annotations key = none

abbrev policy : HibernationOwner
policy = record { kind = "HibernatePolicy"; namespace = "shop"; name = "night" }

abbrev at_most_one : HibernateAction
at_most_one = record { sleep_daemon_set = false; max_replicas = some (pos 1) }

abbrev replicas_of : ℤ → Contents
replicas_of n = record {
  annotations = no_annotations;
  owner_kinds = [];
  replicas = some n;
  node_selector = none;
}

abbrev open_shop : Shop
open_shop = record { web = replicas_of (pos 3); db = replicas_of (pos 1) }

abbrev web_object : Workload
web_object = object "web" open_shop.web

abbrev unmarked : IsUnmarked no_annotations
unmarked = record {
  no_hibernated = refl;
  no_kind = refl;
  no_name = refl;
  no_namespace = refl;
  no_replicas = refl;
  no_selector = refl;
}

web-IsPristine : IsPristine shop web_object 3
web-IsPristine = record {
  unmarked = unmarked;
  count = refl;
  fits = omega arith;
  json_filled = λ json e. subst (λ (j : String). j == "" ≡ false) (some_inj "null" json e) refl;
  json_read =
      λ json e. subst (λ (j : String). shop.unmarshal j ≡ some none) (some_inj "null" json e) refl;
}

abbrev at_night : (List String × Option Error) × Shop
at_night = night shop shop-ClusterLaws "shop" at_most_one policy deployment open_shop

night_runs : at_night.0 ≡ ("Deployment/web" ∷ [], none)
unfolding hibernate_workload_type hibernate_dispatch hibernate_deployments hibernate_loop
    hibernate_named compute_target_replicas scaled suspend_hpa first_targeting
night_runs = refl

morning_runs :
    (morning shop shop-ClusterLaws "shop" at_most_one policy deployment open_shop).0 ≡ ok tt
unfolding hibernate_workload_type hibernate_dispatch hibernate_deployments hibernate_loop
    hibernate_named compute_target_replicas scaled suspend_hpa first_targeting wake_workload_type
    wake_deployments wake_loop wake_named restore_hpa owned_by mark_hibernated first_suspended woken
    itoa
morning_runs = refl

morning_restores_example :
    (d' : Workload) × (held
        (morning shop shop-ClusterLaws "shop" at_most_one policy deployment open_shop).1
        deployment
        "shop"
        "web"
      ≡ some d')
    × IsRestored web_object d'
morning_restores_example =
    morning_restores shop shop-ClusterLaws "shop" at_most_one policy deployment open_shop "web"
      web_object 3 web-IsPristine refl (λ i. (night_runs i).1) (λ i. error_of (morning_runs i))

abbrev later : Shop
later = at_night.1

abbrev later_web : Workload
later_web = object "web" later.web

again_runs :
    (hibernated shop shop-ClusterLaws "shop" policy deployment at_most_one later).0.1 ≡ none
unfolding hibernate_workload_type hibernate_dispatch hibernate_deployments hibernate_loop
    hibernate_named compute_target_replicas scaled suspend_hpa first_targeting owned_by
    mark_hibernated suspend_hpa_for_action
again_runs = refl

wake_again_runs :
    error_of
      (woken_up shop shop-ClusterLaws "shop" policy deployment
        (woken_up shop shop-ClusterLaws "shop" policy deployment open_shop).1).0
    ≡ none
unfolding wake_workload_type wake_deployments wake_loop wake_named restore_hpa owned_by
    mark_hibernated first_suspended woken itoa
wake_again_runs = refl

wake_runs : error_of (woken_up shop shop-ClusterLaws "shop" policy deployment open_shop).0 ≡ none
unfolding wake_workload_type wake_deployments wake_loop wake_named
wake_runs = refl

hibernate_reaches_example :
    held
      (hibernated shop shop-ClusterLaws "shop" policy deployment at_most_one open_shop).1
      deployment
      "shop"
      "web"
    ≡ some (hibernate_kind_spec shop at_most_one policy deployment web_object)
hibernate_reaches_example =
    hibernate_reaches shop shop-ClusterLaws "shop" policy deployment at_most_one open_shop "web"
      web_object refl (λ i. (night_runs i).1)

wake_reaches_example :
    held (woken_up shop shop-ClusterLaws "shop" policy deployment later).1 deployment "shop" "web"
    ≡ some (wake_kind_spec shop policy deployment later_web)
wake_reaches_example =
    wake_reaches shop shop-ClusterLaws "shop" policy deployment later "web" later_web refl
      (λ i. error_of (morning_runs i))

never_half_done_example :
    ((held
          (hibernated shop shop-ClusterLaws "shop" policy deployment at_most_one open_shop).1
          deployment
          "shop"
          "web"
        ≡ some web_object)
      ⊎ (held
            (hibernated shop shop-ClusterLaws "shop" policy deployment at_most_one open_shop).1
            deployment
            "shop"
            "web"
          ≡ some (hibernate_kind_spec shop at_most_one policy deployment web_object)))
    × ((held
            (woken_up shop shop-ClusterLaws "shop" policy deployment open_shop).1
            deployment
            "shop"
            "web"
          ≡ some web_object)
        ⊎ (held
              (woken_up shop shop-ClusterLaws "shop" policy deployment open_shop).1
              deployment
              "shop"
              "web"
            ≡ some (wake_kind_spec shop policy deployment web_object)))
never_half_done_example =
    never_half_done shop shop-ClusterLaws "shop" policy deployment at_most_one open_shop "web"
      web_object refl

others_kept_example :
    (held
        (hibernated shop shop-ClusterLaws "shop" policy stateful_set at_most_one open_shop).1
        deployment
        "shop"
        "web"
      ≡ held open_shop deployment "shop" "web")
    × (held
          (woken_up shop shop-ClusterLaws "shop" policy stateful_set open_shop).1
          deployment
          "shop"
          "web"
        ≡ held open_shop deployment "shop" "web")
others_kept_example =
    others_kept shop shop-ClusterLaws "shop" policy stateful_set at_most_one open_shop deployment
      "shop" "web" (inl (λ e. absurd (cc)))

hibernate_retried_example :
    held
      (hibernated shop shop-ClusterLaws "shop" policy deployment at_most_one later).1
      deployment
      "shop"
      "web"
    ≡ some (hibernate_kind_spec shop at_most_one policy deployment web_object)
hibernate_retried_example =
    hibernate_retried shop shop-ClusterLaws "shop" policy deployment at_most_one open_shop "web"
      web_object refl again_runs

abbrev other_policy : HibernationOwner
other_policy = record { kind = "HibernatePolicy"; namespace = "shop"; name = "weekend" }

later_web-IsForeign : IsForeign other_policy later_web
unfolding hibernate_workload_type hibernate_dispatch hibernate_deployments hibernate_loop
    hibernate_named compute_target_replicas scaled suspend_hpa first_targeting owned_by
    mark_hibernated
later_web-IsForeign = record { marked = refl; not_own = refl }

foreign_kept_example :
    (held
        (hibernate_workload_type shop "shop" deployment at_most_one other_policy later).1
        deployment
        "shop"
        "web"
      ≡ some later_web)
    × (held (wake_workload_type shop "shop" deployment other_policy later).1 deployment "shop" "web"
        ≡ some later_web)
foreign_kept_example =
    foreign_kept shop shop-ClusterLaws "shop" other_policy deployment later at_most_one "web"
      later_web later_web-IsForeign refl

hibernated_capped_example :
    (d' : Workload) × (held
        (hibernate_workload_type shop "shop" deployment at_most_one policy open_shop).1
        deployment
        "shop"
        "web"
      ≡ some d')
    × (or_one d'.replicas ≤ℤ pos 1)
hibernated_capped_example =
    hibernated_capped shop shop-ClusterLaws "shop" at_most_one policy deployment open_shop "web"
      web_object (pos 1) tt refl refl refl (λ i. (night_runs i).1)
