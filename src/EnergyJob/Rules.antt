-- ===== src/EnergyJob/Rules.antt =====
-- How a property of the state passes through a reconciliation: what it needs at each call that
-- changes the state, and that this is enough.
pub mod Turn
pub mod Whole
pub mod Dispatching
use kube_greencosts.Prelude.{
  ℕ, String, ◌≡◌, refl, ap, inl, inr, Bool, true, false, Bool-cases, Option, none, some, List, [],
  ◌∷◌, leb, ltb,
}
use kube_greencosts.Cluster.{
  Result, ok, err, not_found, already_exists, api_failed, encoding_failed,
}
use kube_greencosts.Price.{
  Float, PricePoint, Selected, selected, failed, filter_prices_in_window, select_price_point,
}
use kube_greencosts.Schedule.{next_schedule_time}
use kube_greencosts.EnergyJob.Types.{
  CronJobStatus, EnergyAwareCronJob, Parsed, parsed, unparsed, JobLibrary, JobStore,
}
use kube_greencosts.EnergyJob.Dispatch.{
  retry_short, with_status, failed_status, dispatch_job, fail_with,
}
use kube_greencosts.EnergyJob.Optimal.{
  added, requeue_until, select_message, scheduled_status, schedule_at, at_selected, in_window,
  with_prices, fetch_prices,
}
use kube_greencosts.EnergyJob.Reconcile.{
  schedule_text, is_suspended, last_run_of, is_forbidden, is_zero_duration, nothing_more,
  requeue_stored, wait_stored, when_due, at_occurrence, too_many_missed, at_next, by_schedule,
  by_stored, after_sync,
}
use kube_greencosts.EnergyJob.Laws.{Ends, Triple, Triple-bind}

module _ (float : Float) {World : Type 0} (lib : JobLibrary float.F)
    (store : JobStore float.F World) where
  open float use {F}

  -- The state in which the clock is read that decides, after the tracking of jobs.
  module _ (u : World) where
    abbrev pub now : ℕ
    now = (store.clock u).0

    -- An occurrence of the schedule that is due, and is not forbidden.
    pub record IsOpen (e : EnergyAwareCronJob) (t : ℕ) : Type 0 where
      pub awake : is_suspended e.spec.suspend ≡ false
      pub unset : e.status.next_scheduled_time ≡ none
      pub free : is_forbidden e.spec.concurrency_policy e.status.active ≡ false
      pub due : ltb now t ≡ false
      pub schedule : ℕ → ℕ
      pub known : lib.parse_schedule (schedule_text e.spec) ≡ parsed schedule
      pub occurs :
          next_schedule_time schedule (last_run_of e) now e.spec.starting_deadline_seconds ≡ some t

    -- A price point later than now that was selected for the occurrence, of the prices that are read
    -- right after the clock.
    pub record IsChosen (e : EnergyAwareCronJob) (t : ℕ) (p : PricePoint F) : Type 0 where
      pub open_at : IsOpen e t
      pub later : leb p.at now ≡ false
      pub prices : List (PricePoint F)
      pub read :
          (store.get_price_source e.namespace e.spec.energy_price_source (store.clock u).1).0
          ≡ ok prices
      pub best :
          select_price_point float
            (filter_prices_in_window float prices t (added t e.spec.schedule_window))
            e.spec.strategy
            e.spec.estimated_duration
            (added t e.spec.schedule_window)
          ≡ selected p

    -- From `K` before, `I` holds after every call that changes the state.
    pub record Rules (base e : EnergyAwareCronJob) (I K : World → Type 0) : Type 0 where
      pub weaken : (w : World) → K w → I w
      pub clock_keeps : (w : World) → K w → K (store.clock w).1
      pub clock_keeps_after : (w : World) → I w → I (store.clock w).1
      pub prices_keep :
          (ns name : String) (w : World) → K w → K (store.get_price_source ns name w).1
      pub same_time :
          (s : CronJobStatus) (w : World)
          → s.next_scheduled_time ≡ e.status.next_scheduled_time
          → K w
          → I (store.patch_status base (with_status e s) w).1
      pub no_time :
          (s : CronJobStatus) (w : World)
          → s.next_scheduled_time ≡ none
          → K w
          → I (store.patch_status base (with_status e s) w).1
      pub new_time :
          (s : CronJobStatus) (t : ℕ) (p : PricePoint F) (w : World)
          → IsChosen e t p
          → s.next_scheduled_time ≡ some p.at
          → K w
          → I (store.patch_status base (with_status e s) w).1
      pub dispatch_stored :
          (t : ℕ)
          → is_suspended e.spec.suspend ≡ false
          → leb t now ≡ true
          → e.status.next_scheduled_time ≡ some t
          → Triple I K (dispatch_job lib store base e t) (λ _. I)
      pub dispatch_now :
          (t : ℕ) → IsOpen e t → Triple I K (dispatch_job lib store base e now) (λ _. I)
