-- ===== src/JobWebhook.antt =====
-- The admission of EnergyAwareCronJobs (internal/webhook/energyawarecronjob_webhook.go).
pub mod Laws
use kube_greencosts.Prelude.{
  ℕ, zero, suc, ◌+◌, ◌*◌, ◌-◌, ◌^◌, String, Bool, true, false, Option, none, some, ◌==◌,
  if◌then◌else◌,
}
use kube_greencosts.Prelude.Int.{ℤ, pos, ltℤ}
use kube_greencosts.Schedule.{second}
use kube_greencosts.EnergyJob.Types.{CronJobSpec, Parsed, parsed, unparsed}
use kube_greencosts.EnergyJob.Optimal.{duration_between}
use kube_greencosts.EnergyJob.Reconcile.{schedule_text, is_zero_duration}

pub data SpecError : Type 0 where
  duration_exceeds_window schedule_empty invalid_schedule window_exceeds_interval : SpecError

abbrev pub samples : ℕ
samples = 1000

-- 2026-01-01 00:00:00 UTC, in nanoseconds from Go's zero time
abbrev pub reference : ℕ
reference = 63902822400 * second

abbrev pub max_duration : ℤ
max_duration = pos (2 ^ 63 - 1)

abbrev pub lesser : ℤ → ℤ → ℤ
lesser d least = if ltℤ d least then d else least

-- The loop of `minimumCronInterval`, with the turns that are left.
unfoldable pub least_gap : (ℕ → ℕ) → ℕ → ℕ → ℤ → ℤ
least_gap next zero prev least = least
least_gap next (suc turns) prev least =
    least_gap next turns (next prev) (lesser (duration_between (next prev) prev) least)

-- `minimumCronInterval`
abbrev pub minimum_cron_interval : (ℕ → ℕ) → ℤ
minimum_cron_interval next = least_gap next (samples - 1) (next reference) max_duration

abbrev pub check_interval : ℤ → ℤ → Option SpecError
check_interval least window = if ltℤ least window then some window_exceeds_interval else none

-- What is checked of the schedule: its text with the time zone, as the controller builds it.
abbrev pub check_schedule : Parsed → ℤ → Option SpecError
check_schedule (unparsed e) window = some invalid_schedule
check_schedule (parsed next) window = check_interval (minimum_cron_interval next) window

-- The checks, for the schedule window of the specification.
abbrev pub validate_window : (String → Parsed) → CronJobSpec → ℤ → Option SpecError
validate_window parse_schedule spec window =
    if ltℤ window spec.estimated_duration
    then some duration_exceeds_window
    else if is_zero_duration window
    then none
    else if spec.schedule == ""
    then some schedule_empty
    else check_schedule (parse_schedule (schedule_text spec)) window

-- `validateEnergyAwareCronJobSpec`
unfoldable pub validate_spec : (String → Parsed) → CronJobSpec → Option SpecError
validate_spec parse_schedule spec = validate_window parse_schedule spec spec.schedule_window
