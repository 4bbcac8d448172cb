-- ===== src/EnergyJob/Rules/Dispatching.antt =====
-- How a property of the state passes through a dispatch.
use kube_greencosts.Prelude.{ℕ, String, ◌≡◌, refl, true, none, List, [], ◌∷◌}
use kube_greencosts.Prelude.Int.{pos}
use kube_greencosts.Cluster.{Result, ok, err}
use kube_greencosts.EnergyJob.Types.{
  Job, ConcurrencyPolicy, allow, forbid, replace, ObjectReference, CronJobStatus,
  EnergyAwareCronJob, JobLibrary, JobStore,
}
use kube_greencosts.EnergyJob.Run.{Act, Requeue, pure, ◌>>=◌, call, reading, run_of}
use kube_greencosts.EnergyJob.Sync.{unless_not_found, delete_found}
use kube_greencosts.EnergyJob.Dispatch.{
  build_job, created_or_known, with_status, delete_refs, replaced, create_or_find,
  dispatched_status, dispatch_job,
}
use kube_greencosts.EnergyJob.Laws.{Ends, Triple, Triple-bind}

module _ {F World : Type 0} (lib : JobLibrary F) (store : JobStore F World) where
  -- a dispatch from the creation of the job on
  abbrev pub finish : EnergyAwareCronJob → EnergyAwareCronJob → ℕ → Job → Act World Requeue
  finish base e t created = do
    transition ← reading store.clock
    _ ← call (
        store.patch_status base
          (with_status e (dispatched_status lib store e.status created t transition)))
    pure (record { requeue = true; requeue_after = pos 0 })

  -- From `K` before, `D` holds from the creation of the job on, and `I` after the patch.
  pub record DispatchRules (base e : EnergyAwareCronJob) (t : ℕ) (I K D : World → Type 0)
      : Type 0 where
    pub weaken_before : (w : World) → K w → I w
    pub weaken : (w : World) → D w → I w
    pub deleted : (ns name : String) (w : World) → K w → K (store.delete_job ns name w).1
    pub created :
        (job : Job) (w : World)
        → lib.set_controller_reference e (build_job lib.sha256_hex e t) ≡ ok job
        → K w
        → D (store.create_job job w).1
    pub clock_keeps : (w : World) → D w → D (store.clock w).1
    pub patched :
        (s : CronJobStatus) (w : World)
        → s.next_scheduled_time ≡ none
        → D w
        → I (store.patch_status base (with_status e s) w).1

  module _ (base e : EnergyAwareCronJob) (t : ℕ) (I K D : World → Type 0)
      (rules : DispatchRules base e t I K D) where
    Ends-result :
        {A : Type 0} (P : World → Type 0) (r : Result A) (w : World)
        → ((v : World) → P v → I v)
        → P w
        → Ends I (λ _. P) (run_of r) w
    Ends-result P (ok a) w weaken p = p
    Ends-result P (err x) w weaken p = weaken w p

    deleting : (refs : List ObjectReference) → Triple I K (delete_refs lib store refs) (λ _. K)
    unfolding delete_refs
    deleting [] w k = k
    deleting (ref ∷ refs) w k =
        Triple-bind I K (λ _. K) (λ _. K) (call (delete_found lib store ref.namespace ref.name))
          (λ _. delete_refs lib store refs)
          (λ v x.
            Ends-result K (unless_not_found (store.delete_job ref.namespace ref.name v).0) _
              rules.weaken_before (rules.deleted ref.namespace ref.name v x))
          (λ _. deleting refs) w k

    replacing :
        (policy : ConcurrencyPolicy) (active : List ObjectReference)
        → Triple I K (replaced lib store policy active) (λ _. K)
    replacing replace active = deleting active
    replacing forbid active = λ w k. k
    replacing allow active = λ w k. k

    -- the job is the one that was built, with its owner
    abbrev Owned : Job → World → Type 0
    Owned job w = K w × (lib.set_controller_reference e (build_job lib.sha256_hex e t) ≡ ok job)

    Ends-Owned :
        (r : Result Job) (w : World)
        → lib.set_controller_reference e (build_job lib.sha256_hex e t) ≡ r
        → K w
        → Ends I Owned (run_of r) w
    Ends-Owned (ok job) w h k = (k, h)
    Ends-Owned (err x) w h k = rules.weaken_before w k

    finishing : (created : Job) → Triple I D (finish base e t created) (λ _. I)
    finishing created w d =
        Triple-bind I D (λ _. I) (λ _. I)
          (call (
            store.patch_status base
              (with_status e (dispatched_status lib store e.status created t (store.clock w).0))))
          (λ _. pure (record { requeue = true; requeue_after = pos 0 }))
          (λ v x.
            Ends-result I
              (store.patch_status base
                (with_status e (dispatched_status lib store e.status created t (store.clock w).0))
                v).0
              _ (λ u i. i) (rules.patched _ v refl x))
          (λ _ v i. i) (store.clock w).1 (rules.clock_keeps w d)

    pub Triple-dispatch : Triple I K (dispatch_job lib store base e t) (λ _. I)
    unfolding dispatch_job
    Triple-dispatch =
        Triple-bind I K (λ _. K) (λ _. I)
          (replaced lib store e.spec.concurrency_policy e.status.active) _
          (replacing e.spec.concurrency_policy e.status.active)
          (λ _.
            Triple-bind I K Owned (λ _. I)
              (call (λ w. (lib.set_controller_reference e (build_job lib.sha256_hex e t), w))) _
              (λ w k. Ends-Owned _ w refl k)
              (λ job.
                Triple-bind I (Owned job) (λ _. D) (λ _. I) (call (create_or_find lib store job)) _
                  (λ w o.
                    Ends-result D (created_or_known job (store.create_job job w).0) _ rules.weaken
                      (rules.created job w o.1 o.0))
                  finishing))
