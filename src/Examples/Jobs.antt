-- ===== src/Examples/Jobs.antt =====
-- The bakery's EnergyAwareCronJob, reconciled.
use Prim.Native.String.{len}
use kube_greencosts.Prelude.{
  ℕ, ◌+◌, ◌*◌, ◌≤◌, String, ◌≡◌, refl, ap, ◌∙◌, ◌-◌, inr, none, some, arith,
}
use kube_greencosts.Prelude.Int.{pos}
use kube_greencosts.Schedule.{second, deadline_of, skip_missed}
use kube_greencosts.Strconv.{itoa}
use kube_greencosts.Price.{filter_prices_in_window, select_price_point, select_loop, score_loop}
use kube_greencosts.EnergyJob.Types.{Job, allow, forbid, EnergyAwareCronJob}
use kube_greencosts.EnergyJob.Naming.{
  short_label_value, short_object_name, trim_right, trim_left, energy_aware_cron_job_name,
}
use kube_greencosts.EnergyJob.Naming.Bounds.{names_fit}
use kube_greencosts.EnergyJob.Sync.{
  finished_by, track, first_of, delete_each, prune, sync_active_jobs,
}
use kube_greencosts.EnergyJob.Optimal.{schedule_at, in_window}
use kube_greencosts.EnergyJob.Dispatch.{delete_refs, dispatch_job, fail_with}
use kube_greencosts.EnergyJob.Reconcile.{
  has_prefix, schedule_text, wait_stored, when_due, at_occurrence, after_sync, after_get, reconcile,
}
use kube_greencosts.EnergyJob.Forbid.Promise.{
  UnfinishedAt, here, next, reconciled, elsewhere, forbid_keeps_one,
}
use kube_greencosts.EnergyJob.Run.{Requeue, done}
use kube_greencosts.EnergyJob.Due.Promise.{due_start_made}
use kube_greencosts.EnergyJob.Timely.{IsStarted}
use kube_greencosts.EnergyJob.Timely.Promise.{IsInWindow, starts_on_time, stored-IsInWindow}
use kube_greencosts.Examples.Prices.{whole}
use kube_greencosts.Examples.Bakery.{Bakery, bakery, tools, hour, midnight, bake, open_at}
use kube_greencosts.Examples.BakeryLaws.{bakery-JobLaws, bakery-CreateLaws}

-- the bakery after a reconciliation
abbrev run : Bakery → Bakery
run w = (reconcile whole tools bakery "shop" "bake" w).1

abbrev an_hour_later : Bakery → Bakery
an_hour_later w = record w { now = w.now + hour }

abbrev before : Bakery
before = open_at (bake forbid (pos 0) (pos 0))

-- one occurrence, and the next, which the unfinished job forbids
abbrev after : Bakery
after = run (an_hour_later (run before))

abbrev job_name : String
job_name = "bake-1767657660"

abbrev Forbids : Bakery → Type 0
Forbids w =
    (e : EnergyAwareCronJob)
    → bakery-JobLaws.stored w "shop" "bake" ≡ some e
    → e.spec.concurrency_policy ≡ forbid

policy_of :
    (x e : EnergyAwareCronJob)
    → x.spec.concurrency_policy ≡ forbid
    → some x ≡ some e
    → e.spec.concurrency_policy ≡ forbid
policy_of x e known same =
    let object : e ≡ x = cc in
    ap (λ (y : EnergyAwareCronJob). y.spec.concurrency_policy) object ∙ known

Forbids-before : Forbids before
Forbids-before e = policy_of _ e refl

Forbids-later : Forbids (an_hour_later (run before))
unfolding itoa short_label_value short_object_name trim_right trim_left energy_aware_cron_job_name
    finished_by track first_of delete_each prune sync_active_jobs deadline_of skip_missed
    delete_refs dispatch_job fail_with has_prefix schedule_text wait_stored when_due at_occurrence
    after_sync after_get reconcile
Forbids-later e = policy_of _ e refl

only_job : (job : Job) × (bakery-JobLaws.job_at after "shop" job_name ≡ some job)
unfolding itoa short_label_value short_object_name trim_right trim_left energy_aware_cron_job_name
    finished_by track first_of delete_each prune sync_active_jobs deadline_of skip_missed
    delete_refs dispatch_job fail_with has_prefix schedule_text wait_stored when_due at_occurrence
    after_sync after_get reconcile
only_job = (_, refl)

unfinished : UnfinishedAt whole tools bakery "shop" "bake" bakery-JobLaws after job_name
unfolding itoa short_label_value short_object_name trim_right trim_left energy_aware_cron_job_name
    finished_by track first_of delete_each prune sync_active_jobs deadline_of skip_missed
    delete_refs dispatch_job fail_with has_prefix schedule_text wait_stored when_due at_occurrence
    after_sync after_get reconcile
unfinished = (_, refl, refl, refl)

forbid_keeps_one_example : job_name ≡ job_name
forbid_keeps_one_example =
    forbid_keeps_one whole tools bakery "shop" "bake" bakery-JobLaws before after job_name job_name
      (λ a (j, there, _, _). let clash : none ≡ some j = there in absurd (cc))
      (next
        (next (next here (reconciled before Forbids-before)) (
          elsewhere (run before) (an_hour_later (run before)) (λ a u. u) (λ e h. inr (e, h, refl))))
        (reconciled (an_hour_later (run before)) Forbids-later))
      unfinished unfinished

job_of : (job : Job) × (bakery-JobLaws.job_at (run before) "shop" job_name ≡ some job)
unfolding itoa short_label_value short_object_name trim_right trim_left energy_aware_cron_job_name
    finished_by track first_of delete_each prune sync_active_jobs deadline_of skip_missed
    delete_refs dispatch_job fail_with has_prefix schedule_text wait_stored when_due at_occurrence
    after_sync after_get reconcile
job_of = (_, refl)

starts_on_time_example :
    IsStarted whole tools bakery "shop" "bake" bakery-JobLaws before "shop" job_name
starts_on_time_example =
    starts_on_time whole tools bakery "shop" "bake" bakery-JobLaws before "shop" job_name job_of.0
      refl job_of.1

-- two hours from midnight on for a job of half an hour
abbrev two_hours : EnergyAwareCronJob
two_hours = bake allow (pos (2 * hour)) (pos (1800 * second))

abbrev PlannedFor : EnergyAwareCronJob → ℕ → Type 0
PlannedFor e t =
    (bakery-JobLaws.stored (run (open_at two_hours)) "shop" "bake" ≡ some e)
    × (e.status.next_scheduled_time ≡ some t)

-- The price of 10 at one o'clock wins.
planned_at_one : (e : EnergyAwareCronJob) × PlannedFor e (midnight + 3600 * second)
unfolding itoa short_label_value short_object_name trim_right trim_left energy_aware_cron_job_name
    finished_by track first_of delete_each prune sync_active_jobs deadline_of skip_missed
    delete_refs dispatch_job fail_with has_prefix schedule_text wait_stored when_due at_occurrence
    after_sync after_get reconcile filter_prices_in_window score_loop select_loop select_price_point
    schedule_at in_window
planned_at_one = (_, (refl, refl))

stored-IsInWindow_example :
    IsInWindow whole tools bakery "shop" "bake" bakery-JobLaws
      (open_at two_hours)
      two_hours
      (1800 * second)
      (midnight + 3600 * second)
stored-IsInWindow_example =
    stored-IsInWindow whole tools bakery "shop" "bake" bakery-JobLaws (open_at two_hours) two_hours
      planned_at_one.0 (1800 * second - 1) (midnight + 3600 * second) refl refl refl
      planned_at_one.1.0 planned_at_one.1.1

abbrev long_name : String
long_name = "bake-the-bread-of-all-the-shops-of-the-town-when-the-price-is-lowest"

names_fit_example :
    (len (short_label_value tools.sha256_hex long_name) ≤ 63)
    × (len (energy_aware_cron_job_name tools.sha256_hex long_name midnight) ≤ 63)
names_fit_example = names_fit tools.sha256_hex long_name midnight (omega arith)

-- The stored time came half a minute ago.
abbrev planned : EnergyAwareCronJob
planned = record two_hours {
  status = record two_hours.status { next_scheduled_time = some (midnight + 30 * second) };
}

planned_run :
    (r : Requeue) × ((reconcile whole tools bakery "shop" "bake" (open_at planned)).0 ≡ done r)
unfolding itoa short_label_value short_object_name trim_right trim_left energy_aware_cron_job_name
    finished_by track first_of delete_each prune sync_active_jobs deadline_of skip_missed
    delete_refs dispatch_job fail_with has_prefix schedule_text wait_stored when_due at_occurrence
    after_sync after_get reconcile
planned_run = (_, refl)

come : midnight + 30 * second ≤ (sync_active_jobs tools bakery planned (open_at planned)).1.now
unfolding itoa short_label_value short_object_name trim_right trim_left energy_aware_cron_job_name
    finished_by track first_of delete_each prune sync_active_jobs deadline_of skip_missed
    delete_refs dispatch_job fail_with has_prefix schedule_text wait_stored when_due at_occurrence
    after_sync after_get reconcile
come = omega arith

due_start_made_example :
    (j : Job) × (bakery-JobLaws.job_at
        (run (open_at planned))
        "shop"
        (energy_aware_cron_job_name tools.sha256_hex "bake" (midnight + 30 * second))
      ≡ some j)
due_start_made_example =
    due_start_made whole tools bakery bakery-JobLaws bakery-CreateLaws "shop" "bake"
      (open_at planned) planned (midnight + 30 * second) planned_run.0 refl refl refl come
      planned_run.1
