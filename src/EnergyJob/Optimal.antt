-- ===== src/EnergyJob/Optimal.antt =====
-- The choice of the time at which a job of an EnergyAwareCronJob starts
-- (energyawarecronjob_controller.go: steps 9 to 11 of Reconcile).
use Prim.Native.String
use kube_greencosts.Prelude.{
  ℕ, ◌+◌, ◌-◌, ◌^◌, String, true, false, some, List, [], ◌∷◌, ltb, leb, if◌then◌else◌,
}
use kube_greencosts.Prelude.Int.{ℤ, pos, negsuc, pos_part, neg_part}
use kube_greencosts.Cluster.{
  Error, not_found, already_exists, api_failed, encoding_failed, Result, ok, err,
}
use kube_greencosts.Price.{
  Float, PricePoint, Selected, selected, SelectError, no_prices, unsupported_strategy, no_fit,
  failed, filter_prices_in_window, select_price_point,
}
use kube_greencosts.Policy.{set_condition}
use kube_greencosts.EnergyJob.Types.{CronJobStatus, EnergyAwareCronJob, JobLibrary, JobStore}
use kube_greencosts.EnergyJob.Run
use kube_greencosts.EnergyJob.Run.{Act, Requeue, pure, ◌>>=◌, call, reading}
use kube_greencosts.EnergyJob.Dispatch.{
  retry_short, ready_condition, with_status, dispatch_job, fail_with,
}

-- `t.Add(d)`, which stops at the zero time
abbrev pub added : ℕ → ℤ → ℕ
added t d = t + pos_part d - neg_part d

abbrev pub smaller : ℕ → ℕ → ℕ
smaller a b = if ltb a b then a else b

-- `t.Sub(now)`, which stops at the ends of Go's Duration
abbrev pub duration_between : ℕ → ℕ → ℤ
duration_between t now =
    if leb now t
    then pos (smaller (t - now) (2 ^ 63 - 1))
    else negsuc (smaller (now - t - 1) (2 ^ 63 - 1))

module _ (float : Float) {World : Type 0} (lib : JobLibrary float.F)
    (store : JobStore float.F World) where
  open float use {F}
  open lib use {quote, rfc3339, duration_text, price_text}
  open store use {clock, patch_status, get_price_source}

  -- `RequeueAfter: time.Until(t)`
  abbrev pub requeue_until : ℕ → Act World Requeue
  requeue_until t = do
    later ← reading clock
    pure (record { requeue = false; requeue_after = duration_between t later })

  abbrev pub select_message : EnergyAwareCronJob → SelectError → String
  select_message eacj no_prices = "no prices available"
  select_message eacj unsupported_strategy =
      String.◌++◌ "unsupported energyStrategy.strategy " (quote eacj.spec.strategy)
  select_message eacj no_fit =
      String.◌++◌ "no complete price interval fits estimatedDuration "
        (duration_text eacj.spec.estimated_duration)

  -- the status of step 11
  abbrev pub scheduled_status : CronJobStatus → PricePoint F → ℕ → ℕ → CronJobStatus
  scheduled_status s p next_cron_time transition = record s {
    next_cron_window = some next_cron_time;
    next_scheduled_time = some p.at;
    conditions = set_condition s.conditions (
        ready_condition true "Scheduled"
          (String.◌++◌ "optimally scheduled at " (
            String.◌++◌ (rfc3339 p.at)
              (String.◌++◌ " (" (String.◌++◌ (price_text p.eur_per_mwh) " €/MWh)"))))
          transition);
  }

  -- Step 11.
  unfoldable pub schedule_at :
      EnergyAwareCronJob → EnergyAwareCronJob → ℕ → PricePoint F → Act World Requeue
  schedule_at base eacj next_cron_time p = do
    transition ← reading clock
    _ ← call (
        patch_status base
          (with_status eacj (scheduled_status eacj.status p next_cron_time transition)))
    requeue_until p.at

  -- the end of step 10
  abbrev pub at_selected :
      EnergyAwareCronJob → EnergyAwareCronJob → ℕ → ℕ → Selected F → Act World Requeue
  at_selected base eacj now next_cron_time (failed e) =
      fail_with lib store base eacj (select_message eacj e)
  at_selected base eacj now next_cron_time (selected p) =
      if leb p.at now
      then dispatch_job lib store base eacj now
      else schedule_at base eacj next_cron_time p

  -- Step 10, on the price points of the window.
  unfoldable pub in_window :
      EnergyAwareCronJob → EnergyAwareCronJob → ℕ → ℕ → List (PricePoint F) → Act World Requeue
  in_window base eacj now next_cron_time [] = do
    _ ← call (patch_status base eacj)
    pure (record { requeue = false; requeue_after = retry_short })
  in_window base eacj now next_cron_time (p ∷ ps) = at_selected base eacj now next_cron_time (
      select_price_point float (p ∷ ps) eacj.spec.strategy eacj.spec.estimated_duration
        (added next_cron_time eacj.spec.schedule_window))

  abbrev fails : Error → Act World Requeue
  fails e w = (Run.failed e, w)

  -- Step 9, after the price source is read.
  abbrev pub with_prices :
      EnergyAwareCronJob
      → EnergyAwareCronJob
      → ℕ
      → ℕ
      → Result (List (PricePoint F))
      → Act World Requeue
  with_prices base eacj now next_cron_time (ok prices) = in_window base eacj now next_cron_time (
      filter_prices_in_window float prices next_cron_time
        (added next_cron_time eacj.spec.schedule_window))
  with_prices base eacj now next_cron_time (err not_found) = fail_with lib store base eacj (
      String.◌++◌ "EnergyPriceSource "
        (String.◌++◌ (quote eacj.spec.energy_price_source) " not found"))
  with_prices base eacj now next_cron_time (err already_exists) = fails already_exists
  with_prices base eacj now next_cron_time (err api_failed) = fails api_failed
  with_prices base eacj now next_cron_time (err encoding_failed) = fails encoding_failed

  abbrev pub fetch_prices : EnergyAwareCronJob → EnergyAwareCronJob → ℕ → ℕ → Act World Requeue
  fetch_prices base eacj now next_cron_time w =
      let fetched = get_price_source eacj.namespace eacj.spec.energy_price_source w in
      with_prices base eacj now next_cron_time fetched.0 fetched.1
