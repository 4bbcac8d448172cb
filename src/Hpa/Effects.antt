-- ===== src/Hpa/Effects.antt =====
-- Calls about autoscalers leave every workload as it is, whether they succeed or fail.
use kube_greencosts.Prelude.{String, ◌≡◌, refl, ◌∙◌, inl, inr, Bool-cases, Option, none, some}
use kube_greencosts.Prelude.Int.{ℤ}
use kube_greencosts.Api.{HibernateAction, Hpa}
use kube_greencosts.Cluster.{Cluster, Exec, Result, ok, err, continue, ◌>>=◌}
use kube_greencosts.Cluster.Laws.{ClusterLaws}
use kube_greencosts.Hpa.{
  is_suspended, suspended, restored, find_hpa, find_suspended_hpa, suspend_found, suspend_hpa,
  suspend_to, suspend_hpa_for_action, restore_found, or_find_suspended, restore_hpa,
}

module _ (k : Cluster) (laws : ClusterLaws k) where
  open k use {World, list_hpas, patch_hpa, sha256_hex}
  open laws use {workload, list_hpas_keeps, patch_hpa_keeps}

  -- An action that leaves the workloads alone.
  abbrev pub Quiet {ℓ} : {A : Type ℓ} → Exec World A → Type 0
  Quiet m = (w : World) → workload (m w).1 ≡ workload w

  Quiet-continue {ℓ κ} :
      {A : Type ℓ} {B : Type κ} (r : Result A) (f : A → Exec World B)
      → ((a : A) → Quiet (f a))
      → Quiet (continue r f)
  Quiet-continue (ok a) f q w = q a w
  Quiet-continue (err e) f q w = refl

  pub Quiet-bind {ℓ κ} :
      {A : Type ℓ} {B : Type κ} (m : Exec World A) (f : A → Exec World B)
      → Quiet m
      → ((a : A) → Quiet (f a))
      → Quiet (m >>= f)
  Quiet-bind m f q r w = Quiet-continue (m w).0 f r (m w).1 ∙ q w

  Quiet-find : (ns kind name : String) → Quiet (find_hpa k ns kind name)
  unfolding find_hpa
  Quiet-find ns kind name = Quiet-bind (list_hpas ns) _ (list_hpas_keeps ns) (λ _ w. refl)

  Quiet-find_suspended : (ns kind name : String) → Quiet (find_suspended_hpa k ns kind name)
  unfolding find_suspended_hpa
  Quiet-find_suspended ns kind name = Quiet-bind (list_hpas ns) _ (list_hpas_keeps ns) (λ _ w. refl)

  Quiet-suspend_found : (target : ℤ) (found : Option Hpa) → Quiet (suspend_found k target found)
  unfolding suspend_found
  Quiet-suspend_found target none w = refl
  Quiet-suspend_found target (some h) w = elim (Bool-cases (is_suspended h)) [
    | inl e ↦ rw e refl
    | inr e ↦ rw e (patch_hpa_keeps h (suspended sha256_hex target h) w)
  ]

  pub Quiet-suspend_hpa :
      (ns kind name : String) (target : ℤ) → Quiet (suspend_hpa k ns kind name target)
  unfolding suspend_hpa
  Quiet-suspend_hpa ns kind name target =
      Quiet-bind (find_hpa k ns kind name) _ (Quiet-find ns kind name) (Quiet-suspend_found target)

  Quiet-suspend_to :
      (ns kind name : String) (most : Option ℤ) → Quiet (suspend_to k ns kind name most)
  unfolding suspend_to
  Quiet-suspend_to ns kind name none w = refl
  Quiet-suspend_to ns kind name (some most) w = Quiet-suspend_hpa ns kind name most w

  pub Quiet-suspend_hpa_for_action :
      (ns kind name : String) (action : HibernateAction)
      → Quiet (suspend_hpa_for_action k ns kind name action)
  unfolding suspend_hpa_for_action
  Quiet-suspend_hpa_for_action ns kind name action =
      Quiet-suspend_to ns kind name action.max_replicas

  Quiet-restore_found : (found : Option Hpa) → Quiet (restore_found k found)
  unfolding restore_found
  Quiet-restore_found none w = refl
  Quiet-restore_found (some h) w = elim (Bool-cases (is_suspended h)) [
    | inl e ↦ rw e (patch_hpa_keeps h (restored h) w)
    | inr e ↦ rw e refl
  ]

  Quiet-or_find :
      (ns kind name : String) (found : Option Hpa) → Quiet (or_find_suspended k ns kind name found)
  unfolding or_find_suspended
  Quiet-or_find ns kind name none w = Quiet-find_suspended ns kind name w
  Quiet-or_find ns kind name (some h) w = refl

  pub Quiet-restore_hpa : (ns kind name : String) → Quiet (restore_hpa k ns kind name)
  unfolding restore_hpa
  Quiet-restore_hpa ns kind name =
      Quiet-bind (find_hpa k ns kind name) _ (Quiet-find ns kind name) λ found.
        Quiet-bind (or_find_suspended k ns kind name found) _ (Quiet-or_find ns kind name found)
          Quiet-restore_found
