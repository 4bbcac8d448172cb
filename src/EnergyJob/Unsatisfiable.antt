-- ===== src/EnergyJob/Unsatisfiable.antt =====
-- A schedule that never fires: the cron library then answers Go's zero time.
use kube_greencosts.Prelude.{
  ◌≢◌, String, ℕ, ◌≡◌, refl, sym, ◌∙◌, ap, subst, false, Option, none, some, ltb, arith, true, List,
  [],
}
use kube_greencosts.Prelude.Int.{ℤ, pos}
use kube_greencosts.Price.{Float}
use kube_greencosts.Schedule.{next_schedule_time}
use kube_greencosts.Cluster.{ok}
use kube_greencosts.EnergyJob.Types.{
  Job, ConcurrencyPolicy, allow, forbid, replace, ObjectReference, EnergyAwareCronJob, Parsed,
  parsed, JobLibrary, JobStore,
}
use kube_greencosts.EnergyJob.Run.{Run, done, Requeue}
use kube_greencosts.EnergyJob.Naming.{energy_aware_cron_job_name}
use kube_greencosts.EnergyJob.Sync.{sync_active_jobs}
use kube_greencosts.EnergyJob.Laws.{JobLaws, Ends}
use kube_greencosts.EnergyJob.Rules.Whole.{synced}
use kube_greencosts.EnergyJob.Due.{CreateLaws, Anything, Made, Triple-present}
use kube_greencosts.EnergyJob.Due.Promise.{reconcile_ends}
use kube_greencosts.EnergyJob.Dispatch.{dispatch_job}
use kube_greencosts.EnergyJob.Reconcile.{
  schedule_text, is_suspended, last_run_of, is_forbidden, is_zero_duration, when_due, at_occurrence,
  at_next, by_schedule, by_stored, after_sync, reconcile,
}

module _ (float : Float) {World : Type 0} (lib : JobLibrary float.F)
    (store : JobStore float.F World) (base e : EnergyAwareCronJob) where
  at_zero : (now : ℕ) → ltb now 0 ≡ false
  at_zero now = ground arith

  dispatched :
      (schedule : ℕ → ℕ) (w : World)
      → lib.parse_schedule (schedule_text e.spec) ≡ parsed schedule
      → ((t : ℕ) → schedule t ≡ 0)
      → is_suspended e.spec.suspend ≡ false
      → e.status.next_scheduled_time ≡ none
      → e.spec.starting_deadline_seconds ≡ none
      → is_forbidden e.spec.concurrency_policy e.status.active ≡ false
      → e.spec.schedule_window ≡ pos 0
      → after_sync float lib store base e w
        ≡ dispatch_job lib store base e (store.clock w).0 (store.clock w).1
  unfolding after_sync at_occurrence when_due
  dispatched schedule w known never awake unset no_deadline free zero_window = rw awake (
      ap (λ (o : Option ℕ). by_stored float lib store base e now o w1) unset
      ∙ ap (λ (p : Parsed). by_schedule float lib store base e now p w1) known
      ∙ ap
          (λ (d : Option ℤ).
            at_next float lib store base e now (next_schedule_time schedule (last_run_of e) now d)
              w1)
          no_deadline
      ∙ ap (λ (t : ℕ). at_occurrence float lib store base e now t w1) (never (last_run_of e))
      ∙ due)
    where
      now : ℕ
      now = (store.clock w).0

      w1 : World
      w1 = (store.clock w).1

      zero : is_zero_duration e.spec.schedule_window ≡ true
      zero = ap (λ (z : ℤ). is_zero_duration z) zero_window

      due : at_occurrence float lib store base e now 0 w1 ≡ dispatch_job lib store base e now w1
      due = rw (at_zero now, free, zero) refl

not_forbid :
    (policy : ConcurrencyPolicy) (active : List ObjectReference)
    → policy ≢ forbid
    → is_forbidden policy active ≡ false
not_forbid forbid active h = absurd (h refl)
not_forbid allow active h = refl
not_forbid replace active h = refl

module _ (float : Float) {World : Type 0} (lib : JobLibrary float.F)
    (store : JobStore float.F World) (laws : JobLaws lib store)
    (creates : CreateLaws lib store laws) where
  open laws use {job_at}

  -- With a schedule that never fires, a schedule window of zero, no starting deadline and a concurrency
  -- policy other than Forbid, every reconciliation that succeeds, where the EnergyAwareCronJob is read
  -- without a stored time and is not suspended, leaves a job in its namespace under the name that its
  -- name and the time give that the clock shows once its jobs are tracked, and requeues at once.
  pub unsatisfiable_starts :
      (ns name : String) (w : World) (base : EnergyAwareCronJob) (schedule : ℕ → ℕ) (r : Requeue)
      → (store.get_cron_job ns name w).0 ≡ ok base
      → lib.parse_schedule (schedule_text base.spec) ≡ parsed schedule
      → ((t : ℕ) → schedule t ≡ 0)
      → is_suspended base.spec.suspend ≡ false
      → base.status.next_scheduled_time ≡ none
      → base.spec.starting_deadline_seconds ≡ none
      → base.spec.concurrency_policy ≢ forbid
      → base.spec.schedule_window ≡ pos 0
      → (reconcile float lib store ns name w).0 ≡ done r
      → (r.requeue ≡ true)
        × ((j : Job) × (job_at (reconcile float lib store ns name w).1 base.namespace (
                energy_aware_cron_job_name lib.sha256_hex base.name
                  (store.clock
                    (sync_active_jobs lib store base (store.get_cron_job ns name w).1).1).0)
              ≡ some j))
  unsatisfiable_starts ns name w base schedule r read known never awake unset no_deadline policy
        zero_window success =
      reconcile_ends float lib store laws creates base
        (Made float lib store laws creates base (synced float lib store base []) (store.clock u).0)
        ns name w r read
        (λ l.
          subst
            (λ (x : Run Requeue × World).
              Ends Anything
                (Made float lib store laws creates base (synced float lib store base l)
                  (store.clock u).0)
                x.0 x.1)
            (sym (
              dispatched float lib store base (synced float lib store base l) schedule u known never
                awake unset no_deadline
                (not_forbid base.spec.concurrency_policy
                  (synced float lib store base l).status.active policy)
                zero_window))
            (Triple-present float lib store laws creates base (synced float lib store base l)
              (store.clock u).0 (store.clock u).1 tt))
        success
    where
      u : World
      u = (sync_active_jobs lib store base (store.get_cron_job ns name w).1).1
