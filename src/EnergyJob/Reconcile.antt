-- ===== src/EnergyJob/Reconcile.antt =====
-- The reconciliation of an EnergyAwareCronJob (energyawarecronjob_controller.go:
-- EnergyAwareCronJobReconciler.Reconcile). The steps carry the numbers of the source's comments.
use Prim.Native.Char.{code}
use Prim.Native.String
use kube_greencosts.Prelude.{
  ℕ, String, Bool, true, false, ◌&&◌, ◌||◌, Option, none, some, List, [], ◌∷◌, ltb, leb, nat_eq,
  ◌==◌, if◌then◌else◌,
}
use kube_greencosts.Prelude.Int.{ℤ, pos, negsuc}
use kube_greencosts.Cluster.{Error, Result, ok, err, ignore_not_found}
use kube_greencosts.Price.{Float}
use kube_greencosts.Schedule.{next_schedule_time}
use kube_greencosts.EnergyJob.Types.{
  ConcurrencyPolicy, allow, forbid, replace, CronJobSpec, EnergyAwareCronJob, Parsed, parsed,
  unparsed, JobLibrary, JobStore, ObjectReference,
}
use kube_greencosts.EnergyJob.Run
use kube_greencosts.EnergyJob.Run.{Act, Requeue, pure, ◌>>=◌, ◌>>◌, call, reading}
use kube_greencosts.EnergyJob.Optimal.{requeue_until, fetch_prices}
use kube_greencosts.EnergyJob.Sync.{sync_active_jobs}
use kube_greencosts.EnergyJob.Dispatch.{with_status, dispatch_job, fail_with}

-- `strings.HasPrefix`
unfoldable pub has_prefix : String → String → Bool
has_prefix s String.[] = true
has_prefix String.[] (String.◌∷◌ d t) = false
has_prefix (String.◌∷◌ c s) (String.◌∷◌ d t) = nat_eq (code c) (code d) && has_prefix s t

abbrev pub or_utc : Option String → String
or_utc none = "UTC"
or_utc (some tz) = if tz == "" then "UTC" else tz

-- Step 4: the schedule with its time zone.
unfoldable pub schedule_text : CronJobSpec → String
unfolding has_prefix
schedule_text spec =
    if has_prefix spec.schedule "TZ=" || has_prefix spec.schedule "CRON_TZ="
    then spec.schedule
    else String.◌++◌ "TZ=" (String.◌++◌ (or_utc spec.time_zone) (String.◌++◌ " " spec.schedule))

abbrev pub is_suspended : Option Bool → Bool
is_suspended none = false
is_suspended (some b) = b

abbrev pub last_run_of : EnergyAwareCronJob → ℕ
last_run_of eacj = elim eacj.status.last_schedule_time [
  | none ↦ eacj.creation_timestamp
  | some t ↦ t
]

-- whether Forbid is set while a job is active
abbrev pub is_forbidden : ConcurrencyPolicy → List ObjectReference → Bool
is_forbidden forbid [] = false
is_forbidden forbid (ref ∷ refs) = true
is_forbidden allow active = false
is_forbidden replace active = false

abbrev pub is_zero_duration : ℤ → Bool
is_zero_duration (pos n) = nat_eq n 0
is_zero_duration (negsuc n) = false

abbrev pub nothing_more : Requeue
nothing_more = record { requeue = false; requeue_after = pos 0 }

abbrev pub too_many_missed : String
too_many_missed = "too many missed schedules (> 100); check startingDeadlineSeconds"

module _ (float : Float) {World : Type 0} (lib : JobLibrary float.F)
    (store : JobStore float.F World) where
  open float use {F}
  open lib use {parse_schedule, quote, rfc3339, duration_text, price_text}
  open store use {clock, get_cron_job, patch_status, get_price_source}

  -- Step 3 after the patch, which replaces the object by the one that is stored: without the time
  -- in it, the nil pointer is read.
  abbrev pub requeue_stored : Option ℕ → Act World Requeue
  requeue_stored none w = (Run.panicked, w)
  requeue_stored (some t) w = requeue_until float lib store t w

  unfoldable pub wait_stored : EnergyAwareCronJob → EnergyAwareCronJob → Act World Requeue
  wait_stored base eacj = do
    stored ← call (patch_status base eacj)
    requeue_stored stored.status.next_scheduled_time

  -- Steps 7 to 10, at an occurrence that is due.
  unfoldable pub when_due : EnergyAwareCronJob → EnergyAwareCronJob → ℕ → ℕ → Act World Requeue
  when_due base eacj now next_cron_time =
      if is_forbidden eacj.spec.concurrency_policy eacj.status.active
      then (do
        _ ← call (
            patch_status base
              (with_status eacj (record eacj.status { last_schedule_time = some now })))
        pure nothing_more)
      else if is_zero_duration eacj.spec.schedule_window
      then dispatch_job lib store base eacj now
      else fetch_prices float lib store base eacj now next_cron_time

  -- Step 6.
  unfoldable pub at_occurrence : EnergyAwareCronJob → EnergyAwareCronJob → ℕ → ℕ → Act World Requeue
  at_occurrence base eacj now next_cron_time =
      if ltb now next_cron_time
      then (do
        _ ← call (
            patch_status base
              (with_status eacj (record eacj.status { next_cron_window = some next_cron_time })))
        requeue_until float lib store next_cron_time)
      else when_due base eacj now next_cron_time

  -- Step 5, after the next occurrence is sought.
  abbrev pub at_next : EnergyAwareCronJob → EnergyAwareCronJob → ℕ → Option ℕ → Act World Requeue
  at_next base eacj now none = fail_with lib store base eacj too_many_missed
  at_next base eacj now (some next_cron_time) = at_occurrence base eacj now next_cron_time

  -- Step 4, after the schedule is parsed.
  abbrev pub by_schedule : EnergyAwareCronJob → EnergyAwareCronJob → ℕ → Parsed → Act World Requeue
  by_schedule base eacj now (unparsed e) = fail_with lib store base eacj (
      String.◌++◌ "invalid schedule " (String.◌++◌ (quote eacj.spec.schedule) (String.◌++◌ ": " e)))
  by_schedule base eacj now (parsed next) =
      at_next base eacj now
        (next_schedule_time next (last_run_of eacj) now eacj.spec.starting_deadline_seconds)

  -- Step 3, and what follows it where no time is stored.
  abbrev pub by_stored : EnergyAwareCronJob → EnergyAwareCronJob → ℕ → Option ℕ → Act World Requeue
  by_stored base eacj now none =
      by_schedule base eacj now (parse_schedule (schedule_text eacj.spec))
  by_stored base eacj now (some t) =
      if leb t now then dispatch_job lib store base eacj t else wait_stored base eacj

  -- Step 2.
  unfoldable pub after_sync : EnergyAwareCronJob → EnergyAwareCronJob → Act World Requeue
  after_sync base eacj =
      if is_suspended eacj.spec.suspend
      then (do
        _ ← call (
            patch_status base
              (with_status eacj (record eacj.status { next_scheduled_time = none })))
        pure nothing_more)
      else (do now ← reading clock; by_stored base eacj now eacj.status.next_scheduled_time)

  abbrev pub ignored : Option Error → Act World Requeue
  ignored none w = (Run.done nothing_more, w)
  ignored (some e) w = (Run.failed e, w)

  unfoldable pub after_get : Result EnergyAwareCronJob → Act World Requeue
  after_get (err e) = ignored (ignore_not_found e)
  after_get (ok base) = do eacj ← sync_active_jobs lib store base; after_sync base eacj

  -- `Reconcile`
  unfoldable pub reconcile : String → String → Act World Requeue
  reconcile ns name w = after_get (get_cron_job ns name w).0 (get_cron_job ns name w).1
