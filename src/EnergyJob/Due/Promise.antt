-- ===== src/EnergyJob/Due/Promise.antt =====
-- A start that is due is made.
use kube_greencosts.Prelude.{
  ℕ, ◌≤◌, String, ◌≡◌, refl, sym, subst, false, true, Option, some, List, [], leb, arith,
}
use kube_greencosts.Cluster.{Result, ok}
use kube_greencosts.Price.{Float}
use kube_greencosts.EnergyJob.Types.{Job, EnergyAwareCronJob, JobLibrary, JobStore}
use kube_greencosts.EnergyJob.Run.{done, Requeue, pure, call, run_of}
use kube_greencosts.EnergyJob.Naming.{energy_aware_cron_job_name}
use kube_greencosts.EnergyJob.Sync.{Tracked, track, limit_or, prune, sync_active_jobs}
use kube_greencosts.EnergyJob.Reconcile.{is_suspended, by_stored, after_sync, after_get, reconcile}
use kube_greencosts.EnergyJob.Laws.{JobLaws, Ends, Triple, Ends-continue, Triple-bind}
use kube_greencosts.EnergyJob.Rules.Whole.{listing, synced}
use kube_greencosts.EnergyJob.Due.{
  CreateLaws, Anything, Ends-any, Ends-there, Ends-done, Made, Triple-present,
}

module _ (float : Float) {World : Type 0} (lib : JobLibrary float.F)
    (store : JobStore float.F World) (laws : JobLaws lib store)
    (creates : CreateLaws lib store laws) where
  open laws use {job_at}

  module _ (base : EnergyAwareCronJob) where
    abbrev IsSynced : EnergyAwareCronJob → Type 0
    IsSynced e = (l : List Job) × (e ≡ synced float lib store base l)

    -- the state after the tracking, and how the rest ends from a state
    abbrev pub tracked_after : World → World
    tracked_after v = (sync_active_jobs lib store base v).1

    abbrev pub Turned : (Requeue → World → Type 0) → List Job → World → Type 0
    Turned Q l v =
        Ends Anything Q (after_sync float lib store base (synced float lib store base l) v).0
          (after_sync float lib store base (synced float lib store base l) v).1

    syncing : Triple Anything Anything (sync_active_jobs lib store base) (λ e _. IsSynced e)
    unfolding sync_active_jobs
    syncing =
        Triple-bind Anything Anything (λ _. Anything) (λ e _. IsSynced e)
          (call (listing float lib store base)) _
          (λ w _. Ends-any (run_of (listing float lib store base w).0) _)
          (λ l.
            Triple-bind Anything Anything (λ _. Anything) (λ e _. IsSynced e)
              (prune lib store (limit_or 3 base.spec.successful_jobs_history_limit)
                (tracks l).successful)
              _ (λ w _. Ends-any _ _)
              (λ _.
                Triple-bind Anything Anything (λ _. Anything) (λ e _. IsSynced e)
                  (prune lib store (limit_or 1 base.spec.failed_jobs_history_limit)
                    (tracks l).failed)
                  (λ _. pure (synced float lib store base l)) (λ w _. Ends-any _ _)
                  (λ _ w _. (l, refl))))
      where
        tracks : List Job → Tracked
        tracks l = track l base.status.last_successful_time

    -- What comes after the tracking decides how a reconciliation that reads the object ends.
    pub reconcile_ends :
        (Q : Requeue → World → Type 0) (ns name : String) (w : World) (r : Requeue)
        → (store.get_cron_job ns name w).0 ≡ ok base
        → ((l : List Job) → Turned Q l (tracked_after (store.get_cron_job ns name w).1))
        → (reconcile float lib store ns name w).0 ≡ done r
        → Q r (reconcile float lib store ns name w).1
    unfolding reconcile after_get
    reconcile_ends Q ns name w r read turned success =
        made (store.get_cron_job ns name w).0 read success
      where
        w1 : World
        w1 = (store.get_cron_job ns name w).1

        following :
            (e : EnergyAwareCronJob) (v : World)
            → IsSynced e × (v ≡ tracked_after w1)
            → Ends Anything Q
                (after_sync float lib store base e v).0
                (after_sync float lib store base e v).1
        following e v ((l, same), at) =
            subst
              (λ (x : EnergyAwareCronJob).
                Ends Anything Q (after_sync float lib store base x v).0
                  (after_sync float lib store base x v).1)
              (sym same) (subst (Turned Q l) (sym at) (turned l))

        ends :
            Ends Anything Q
              (after_get float lib store (ok base) w1).0
              (after_get float lib store (ok base) w1).1
        ends =
            Ends-continue Anything (λ e v. IsSynced e × (v ≡ tracked_after w1)) Q
              (after_sync float lib store base) (sync_active_jobs lib store base w1).0
              (tracked_after w1)
              (Ends-there (IsSynced) (sync_active_jobs lib store base w1).0 (tracked_after w1)
                (syncing w1 tt))
              following

        made :
            (a : Result EnergyAwareCronJob)
            → a ≡ ok base
            → (after_get float lib store a w1).0 ≡ done r
            → Q r (after_get float lib store a w1).1
        made a q = rw q (
            Ends-done Q (after_get float lib store (ok base) w1).0 r
              (after_get float lib store (ok base) w1).1 ends)

    module _ (t : ℕ) (stored_time : base.status.next_scheduled_time ≡ some t)
        (awake : is_suspended base.spec.suspend ≡ false) where
      turning :
          (l : List Job) (v : World)
          → t ≤ (store.clock v).0
          → Turned (Made float lib store laws creates base (synced float lib store base l) t) l v
      unfolding after_sync
      turning l v come = rw awake (
          subst
            (λ (o : Option ℕ).
              Ends Anything
                (Made float lib store laws creates base (synced float lib store base l) t)
                (by_stored float lib store base (synced float lib store base l) (store.clock v).0 o
                  (store.clock v).1).0
                (by_stored float lib store base (synced float lib store base l) (store.clock v).0 o
                  (store.clock v).1).1)
            (sym stored_time)
            (rw (below come) (
              Triple-present float lib store laws creates base (synced float lib store base l) t
                (store.clock v).1 tt)))
        where
          below : t ≤ (store.clock v).0 → leb t (store.clock v).0 ≡ true
          below h = ground arith

  -- Where an EnergyAwareCronJob that is not suspended is read with a stored time, and the clock shows at
  -- least that time once its jobs are tracked, a reconciliation that succeeds leaves a job of the name
  -- that its name and the stored time give, in its namespace: a start that is due is not lost.
  pub due_start_made :
      (ns name : String) (w : World) (base : EnergyAwareCronJob) (t : ℕ) (r : Requeue)
      → (store.get_cron_job ns name w).0 ≡ ok base
      → base.status.next_scheduled_time ≡ some t
      → is_suspended base.spec.suspend ≡ false
      → t ≤ (store.clock (sync_active_jobs lib store base (store.get_cron_job ns name w).1).1).0
      → (reconcile float lib store ns name w).0 ≡ done r
      → (j : Job) × (job_at
            (reconcile float lib store ns name w).1
            base.namespace
            (energy_aware_cron_job_name lib.sha256_hex base.name t)
          ≡ some j)
  due_start_made ns name w base t r read stored_time awake come success =
      (reconcile_ends base
        (Made float lib store laws creates base (synced float lib store base []) t) ns name w r read
        (λ l. turning base t stored_time awake l _ come) success).1
