-- ===== src/EnergyJob/Due.antt =====
-- A start that is due is made: after a reconciliation that succeeds, the job of a stored time that has
-- come is there. What a dispatch leaves.
pub mod Promise
use kube_greencosts.Prelude.{
  ℕ, ◌≤◌, String, ◌≡◌, refl, sym, ◌∙◌, ap, subst, false, true, Option, none, some, List, leb, arith,
}
use kube_greencosts.Prelude.Int.{pos}
use kube_greencosts.Cluster.{
  Result, ok, err, not_found, already_exists, api_failed, encoding_failed,
}
use kube_greencosts.Price.{Float}
use kube_greencosts.EnergyJob.Types.{Job, EnergyAwareCronJob, JobLibrary, JobStore}
use kube_greencosts.EnergyJob.Run.{
  Run, done, failed, panicked, Act, Requeue, continue, pure, ◌>>=◌, call, reading, run_of,
}
use kube_greencosts.EnergyJob.Naming.{energy_aware_cron_job_name}
use kube_greencosts.EnergyJob.Sync.{Tracked, track, limit_or, prune, sync_active_jobs}
use kube_greencosts.EnergyJob.Dispatch.{
  build_job, created_or_known, with_status, replaced, create_or_find, dispatched_status,
  dispatch_job,
}
use kube_greencosts.EnergyJob.Reconcile.{is_suspended, by_stored, after_sync, after_get, reconcile}
use kube_greencosts.EnergyJob.Laws.{JobLaws, Ends, Triple, Ends-continue, Triple-bind}
use kube_greencosts.EnergyJob.Rules.Dispatching.{finish}

-- A job that `Create` makes, or finds, is there after the call.
pub record CreateLaws {F World : Type 0} (lib : JobLibrary F) (store : JobStore F World)
    (laws : JobLaws lib store) : Type 0 where
  pub made :
      (job made : Job) (w : World)
      → (store.create_job job w).0 ≡ ok made
      → (x : Job) × (laws.job_at (store.create_job job w).1 job.namespace job.name ≡ some x)
  pub found :
      (job : Job) (w : World)
      → (store.create_job job w).0 ≡ err already_exists
      → (x : Job) × (laws.job_at (store.create_job job w).1 job.namespace job.name ≡ some x)

module _ {World : Type 0} where
  abbrev pub Anything : World → Type 0
  Anything w = Unit

  pub Ends-any : {A : Type 0} (r : Run A) (w : World) → Ends Anything (λ _. Anything) r w
  Ends-any (done a) w = tt
  Ends-any (failed e) w = tt
  Ends-any panicked w = tt

  -- the world at the end
  pub Ends-there :
      {A : Type 0} (Q : A → Type 0) (r : Run A) (w : World)
      → Ends Anything (λ a _. Q a) r w
      → Ends Anything (λ a v. Q a × (v ≡ w)) r w
  Ends-there Q (done a) w q = (q, refl)
  Ends-there Q (failed e) w q = tt
  Ends-there Q panicked w q = tt

  pub Ends-done :
      {A : Type 0} (Q : A → World → Type 0) (r : Run A) (a : A) (w : World)
      → Ends Anything Q r w
      → r ≡ done a
      → Q a w
  Ends-done Q (done b) a w q = λ h. let same : b ≡ a = cc in subst (λ (x : _). Q x w) same q
  Ends-done Q (failed e) a w q = λ h. absurd (cc)
  Ends-done Q panicked a w q = λ h. absurd (cc)

module _ (float : Float) {World : Type 0} (lib : JobLibrary float.F)
    (store : JobStore float.F World) (laws : JobLaws lib store)
    (creates : CreateLaws lib store laws) where
  open laws use {job_at}

  abbrev pub Present : String → String → World → Type 0
  Present ns a w = (j : Job) × (job_at w ns a ≡ some j)

  Present-same :
      (ns a : String) (w w' : World) → job_at w' ≡ job_at w → Present ns a w → Present ns a w'
  Present-same ns a w w' same (j, h) = (j, (λ i. same i ns a) ∙ h)

  module _ (base e : EnergyAwareCronJob) (t : ℕ) where
    abbrev pub name_of : String
    name_of = energy_aware_cron_job_name lib.sha256_hex e.name t

    abbrev Named : Job → Type 0
    Named job = (job.namespace ≡ e.namespace) × (job.name ≡ name_of)

    Ends-Named :
        (r : Result Job) (w : World)
        → lib.set_controller_reference e (build_job lib.sha256_hex e t) ≡ r
        → Ends Anything (λ job _. Named job) (run_of r) w
    Ends-Named (ok job) w h = laws.owned e (build_job lib.sha256_hex e t) job h
    Ends-Named (err x) w h = tt

    Ends-created :
        (job : Job) (w : World) (r : Result Job)
        → Named job
        → (store.create_job job w).0 ≡ r
        → Ends Anything
            (λ _. Present e.namespace name_of)
            (run_of (created_or_known job r))
            (store.create_job job w).1
    Ends-created job w (ok made) named h =
        let (x, p) = creates.made job made w h in
        (x, (λ i. job_at (store.create_job job w).1 (sym named.0 i) (sym named.1 i)) ∙ p)
    Ends-created job w (err already_exists) named h =
        let (x, p) = creates.found job w h in
        (x, (λ i. job_at (store.create_job job w).1 (sym named.0 i) (sym named.1 i)) ∙ p)
    Ends-created job w (err not_found) named h = tt
    Ends-created job w (err api_failed) named h = tt
    Ends-created job w (err encoding_failed) named h = tt

    abbrev pub Here : World → Type 0
    Here = Present e.namespace name_of

    -- the job is there, and the object is looked at again at once
    abbrev pub Made : Requeue → World → Type 0
    Made r w = (r.requeue ≡ true) × Here w

    Ends-patched :
        (r : Result EnergyAwareCronJob) (w : World)
        → Here w
        → Ends Anything (λ _. Here) (run_of r) w
    Ends-patched (ok e') w p = p
    Ends-patched (err x) w p = tt

    finishing : (created : Job) → Triple Anything Here (finish lib store base e t created) Made
    finishing created w p =
        let s = dispatched_status lib store e.status created t (store.clock w).0 in
        Triple-bind Anything Here (λ _. Here) Made
          (call (store.patch_status base (with_status e s)))
          (λ _. pure (record { requeue = true; requeue_after = pos 0 }))
          (λ v q.
            Ends-patched (store.patch_status base (with_status e s) v).0 _
              (Present-same _ _ v _ (laws.patch_jobs base (with_status e s) v) q))
          (λ _ v q. (refl, q)) (store.clock w).1 (Present-same _ _ w _ (laws.clock_same w).0 p)

    -- A dispatch that succeeds leaves the job and requeues.
    pub Triple-present : Triple Anything Anything (dispatch_job lib store base e t) Made
    unfolding dispatch_job
    Triple-present =
        Triple-bind Anything Anything (λ _. Anything) Made
          (replaced lib store e.spec.concurrency_policy e.status.active) _
          (λ w _. Ends-any (replaced lib store e.spec.concurrency_policy e.status.active w).0 _)
          (λ _.
            Triple-bind Anything Anything (λ job _. Named job) Made
              (call (λ w. (lib.set_controller_reference e (build_job lib.sha256_hex e t), w))) _
              (λ w _. Ends-Named _ w refl)
              (λ job.
                Triple-bind Anything (λ _. Named job) (λ _. Here) Made
                  (call (create_or_find lib store job)) _
                  (λ w named. Ends-created job w _ named refl) finishing))
