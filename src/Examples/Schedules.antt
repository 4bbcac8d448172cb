-- ===== src/Examples/Schedules.antt =====
-- The reconciliation of policies in the example cluster.
use mathlib.Core.List.{Memᴰ}
use kube_greencosts.Prelude.{
  ◌≤◌, ◌<◌, String, ◌≡◌, ◌≢◌, refl, ◌⊎◌, true, false, none, some, [], ◌∷◌, All, StringMap, put,
  ne_text,
}
use kube_greencosts.Prelude.Int.{pos}
use kube_greencosts.Api.{deployment, HibernateAction, KindFilter, Workload}
use kube_greencosts.Cluster.{ok, err, not_found}
use kube_greencosts.Window.{is_in_availability_window}
use kube_greencosts.PolicyApi.{HibernatePolicy, ClusterHibernatePolicy, PolicyStore, PolicyLaws}
use kube_greencosts.Window.{contains_weekday, weekday_from_spec}
use kube_greencosts.Hibernate.{
  hibernate_workload_type, hibernate_deployments, hibernate_loop, hibernate_named,
}
use kube_greencosts.Marker.{compute_target_replicas}
use kube_greencosts.Patch.{scaled}
use kube_greencosts.Hpa.{suspend_hpa, first_targeting}
use kube_greencosts.Policy.{reconcile, reconcile_policy, hibernate_types, window_check_interval}
use kube_greencosts.Policy.Outcome.{policy_spec, policy_reaches, policy_never_half_done}
use kube_greencosts.Policy.Requeue.{policy_requeued}
use kube_greencosts.ClusterPolicy.Collect.{
  WorkloadRef, ref_string, kind_allowed, add, add_each, namespace_refs, annotated_refs,
  all_workloads_in_namespace, add_namespaces, add_annotated, collect_workloads,
}
use kube_greencosts.ClusterPolicy.Governed.{Governed}
use kube_greencosts.ClusterPolicy.Sound.{Apart}
use kube_greencosts.ClusterPolicy.Selection.{collect_workloads-Governed, precedence}
use kube_greencosts.ClusterPolicy.Complete.{has_ref}
use kube_greencosts.ClusterPolicy.Reached.{annotated_collected}
use kube_greencosts.ClusterPolicy.Act.{hibernate_workload}
use kube_greencosts.ClusterPolicy.Reconcile.{hibernate_refs, reconcile_cluster_policy}
use kube_greencosts.ClusterPolicy.Promise.{
  spec_now, cluster_reaches, cluster_never_half_done, cluster_others_kept,
}
use kube_greencosts.Examples.Shop.{namespace_of, Contents, Shop, object, held, shop}
use kube_greencosts.Examples.ShopLaws.{shop-ClusterLaws}
use kube_greencosts.Examples.Windows.{days, office, evening}

abbrev at_most_one : HibernateAction
at_most_one = record { sleep_daemon_set = false; max_replicas = some (pos 1) }

abbrev night_policy : HibernatePolicy
night_policy = record {
  namespace = "shop";
  name = "night";
  workload_types = deployment ∷ [];
  availability_windows = office ∷ [];
  action = at_most_one;
  hibernated_workloads = [];
  conditions = [];
}

abbrev cheap_policy : ClusterHibernatePolicy
cheap_policy = record {
  name = "cheap";
  availability_windows = office ∷ [];
  action = at_most_one;
  filter = record { included_resources = []; excluded_resources = [] };
  hibernated_workloads = [];
  conditions = [];
}

-- It is evening, and the status is written.
abbrev store : PolicyStore Shop
store = record {
  clock = λ w. (evening, w);
  get_policy = λ ns name w. (ok night_policy, w);
  patch_policy_status = λ hp hp' w. (ok tt, w);
  get_cluster_policy = λ name w. (ok cheap_policy, w);
  patch_cluster_policy_status = λ chp chp' w. (ok tt, w);
}

store-PolicyLaws : PolicyLaws shop shop-ClusterLaws store
store-PolicyLaws = record {
  clock_keeps = λ w. refl;
  clock_keeps_namespace = λ w. refl;
  status_keeps = λ hp hp' w. refl;
  cluster_status_keeps = λ chp chp' w. refl;
}

abbrev three : StringMap → Contents
three annotations = record {
  annotations = annotations;
  owner_kinds = [];
  replicas = some (pos 3);
  node_selector = none;
}

-- the Deployment "db" names a policy of its own
abbrev open_shop : Shop
open_shop = record {
  web = three (λ _. none);
  db = three (put (λ _. none) "greencosts.hstr.nl/clusterhibernatepolicy" "own");
}

abbrev web : Workload
web = object "web" open_shop.web

abbrev db : Workload
db = object "db" open_shop.db

policy_runs : (reconcile_policy shop days store night_policy open_shop).0.errors ≡ []
unfolding reconcile_policy hibernate_types hibernate_workload_type is_in_availability_window
    contains_weekday weekday_from_spec hibernate_deployments hibernate_loop hibernate_named
    compute_target_replicas scaled suspend_hpa first_targeting
policy_runs = refl

policy_reaches_example :
    held (reconcile_policy shop days store night_policy open_shop).1 deployment "shop" "web"
    ≡ some (
        policy_spec shop shop-ClusterLaws days store store-PolicyLaws night_policy
          (is_in_availability_window days (office ∷ []) evening).0
          deployment
          web)
policy_reaches_example =
    policy_reaches shop shop-ClusterLaws days store store-PolicyLaws night_policy open_shop
      deployment "web" web (Memᴰ.head refl) refl policy_runs

policy_never_half_done_example :
    (held (reconcile_policy shop days store night_policy open_shop).1 deployment "shop" "web"
      ≡ some web)
    ⊎ (held (reconcile_policy shop days store night_policy open_shop).1 deployment "shop" "web"
        ≡ some (
            policy_spec shop shop-ClusterLaws days store store-PolicyLaws night_policy
              (is_in_availability_window days (office ∷ []) evening).0
              deployment
              web))
policy_never_half_done_example =
    policy_never_half_done shop shop-ClusterLaws days store store-PolicyLaws night_policy open_shop
      deployment "web" web refl

policy_requeued_example :
    let result = (reconcile shop days store "shop" "night" open_shop).0 in
    (((store.get_policy "shop" "night" open_shop).0 ≡ err not_found)
      × (result.requeue_after ≡ 0)
      × (result.errors ≡ []))
    ⊎ ((result.requeue_after ≡ 0) × (result.errors ≢ []))
    ⊎ ((0 < result.requeue_after) × (result.requeue_after ≤ window_check_interval))
policy_requeued_example = policy_requeued shop days store "shop" "night" open_shop

abbrev all_kinds : KindFilter
all_kinds = record { included_resources = []; excluded_resources = [] }

abbrev ref_of : String → WorkloadRef
ref_of name = record { namespace = "shop"; kind = deployment; name = name }

collects : (collect_workloads shop "cheap" all_kinds open_shop).0 ≡ ok (ref_of "web" ∷ [])
unfolding collect_workloads add_namespaces all_workloads_in_namespace namespace_refs add_each add
    add_annotated annotated_refs
collects = refl

collect_workloads-Governed_example :
    All (Governed (held open_shop) (namespace_of open_shop) "cheap") (ref_of "web" ∷ [])
    × All (λ (ref : WorkloadRef). kind_allowed ref all_kinds ≡ true) (ref_of "web" ∷ [])
    × Apart (ref_of "web" ∷ [])
collect_workloads-Governed_example =
    collect_workloads-Governed shop shop-ClusterLaws "cheap" all_kinds open_shop (ref_of "web" ∷ [])
      collects

precedence_example : All (λ (ref : WorkloadRef). ref ≢ ref_of "db") (ref_of "web" ∷ [])
precedence_example =
    precedence shop shop-ClusterLaws "cheap" all_kinds open_shop deployment "shop" "db" db
      (ref_of "web" ∷ []) refl (ne_text "own" "" refl) (ne_text "own" "cheap" refl) collects

collects_own : (collect_workloads shop "own" all_kinds open_shop).0 ≡ ok (ref_of "db" ∷ [])
unfolding collect_workloads add_namespaces all_workloads_in_namespace namespace_refs add_each add
    add_annotated annotated_refs
collects_own = refl

annotated_collected_example : has_ref (ref_string (ref_of "db")) (ref_of "db" ∷ []) ≡ true
annotated_collected_example =
    annotated_collected shop shop-ClusterLaws "own" all_kinds open_shop (ref_of "db") db
      (ref_of "db" ∷ []) (Memᴰ.tail (Memᴰ.tail (Memᴰ.tail (Memᴰ.head refl)))) refl refl refl refl
      collects_own

cluster_runs : (reconcile_cluster_policy shop days store cheap_policy open_shop).0.errors ≡ []
unfolding reconcile_cluster_policy hibernate_refs hibernate_workload collect_workloads
    add_namespaces all_workloads_in_namespace namespace_refs add_each add add_annotated
    annotated_refs is_in_availability_window contains_weekday weekday_from_spec hibernate_named
    compute_target_replicas scaled suspend_hpa first_targeting
cluster_runs = refl

cluster_reaches_example :
    held (reconcile_cluster_policy shop days store cheap_policy open_shop).1 deployment "shop" "web"
    ≡ some (
        spec_now shop shop-ClusterLaws cheap_policy days store store-PolicyLaws open_shop deployment
          web)
cluster_reaches_example =
    cluster_reaches shop shop-ClusterLaws cheap_policy days store store-PolicyLaws open_shop
      (ref_of "web" ∷ []) (ref_of "web") web collects (Memᴰ.head refl) refl cluster_runs

cluster_never_half_done_example :
    (held
        (reconcile_cluster_policy shop days store cheap_policy open_shop).1
        deployment
        "shop"
        "web"
      ≡ some web)
    ⊎ (held
          (reconcile_cluster_policy shop days store cheap_policy open_shop).1
          deployment
          "shop"
          "web"
        ≡ some (
            spec_now shop shop-ClusterLaws cheap_policy days store store-PolicyLaws open_shop
              deployment web))
cluster_never_half_done_example =
    cluster_never_half_done shop shop-ClusterLaws cheap_policy days store store-PolicyLaws open_shop
      (ref_of "web") web refl

cluster_others_kept_example :
    held (reconcile_cluster_policy shop days store cheap_policy open_shop).1 deployment "shop" "db"
    ≡ some db
cluster_others_kept_example =
    cluster_others_kept shop shop-ClusterLaws cheap_policy days store store-PolicyLaws open_shop
      deployment "shop" "db" db refl (ne_text "own" "" refl) (ne_text "own" "cheap" refl)
