-- ===== src/Examples/Histories.antt =====
-- Histories, and schedules that are admitted or never fire.
use kube_greencosts.Prelude.{ℕ, ◌*◌, String, ◌≡◌, refl, true, none, some, List, [], ◌∷◌, arith}
use kube_greencosts.Prelude.Int.{pos}
use kube_greencosts.Schedule.{second, deadline_of, skip_missed}
use kube_greencosts.Strconv.{itoa}
use kube_greencosts.EnergyJob.Types.{Job, allow, forbid, EnergyAwareCronJob, parsed, JobLibrary}
use kube_greencosts.EnergyJob.Sync.{
  finished_by, track, first_of, delete_each, prune, sync_active_jobs,
}
use kube_greencosts.EnergyJob.Sync.History.{IsPruned, keeps_newest}
use kube_greencosts.EnergyJob.Dispatch.{delete_refs, dispatch_job, fail_with}
use kube_greencosts.EnergyJob.Laws.{JobLaws}
use kube_greencosts.EnergyJob.Due.{CreateLaws}
use kube_greencosts.EnergyJob.Run.{Run, Requeue, done}
use kube_greencosts.EnergyJob.Naming.{
  short_label_value, short_object_name, trim_right, trim_left, energy_aware_cron_job_name,
}
use kube_greencosts.Examples.BakeryLaws.{bakery-JobLaws, bakery-CreateLaws}
use kube_greencosts.EnergyJob.Reconcile.{
  has_prefix, schedule_text, wait_stored, when_due, at_occurrence, after_sync, after_get, reconcile,
}
use kube_greencosts.EnergyJob.Unsatisfiable.{unsatisfiable_starts}
use kube_greencosts.JobWebhook.{least_gap, validate_spec}
use kube_greencosts.JobWebhook.Laws.{IsApart, admitted_windows_apart}
use kube_greencosts.Examples.Prices.{whole}
use kube_greencosts.Examples.Bakery.{
  Bakery, bakery, tools, hour, hourly, midnight, no_labels, bake, open_at,
}
use kube_greencosts.Examples.BakerySort.{tools-SortLaws}

abbrev baked : String → ℕ → Job
baked name start = record {
  namespace = "shop";
  name = name;
  uid = name;
  labels = no_labels;
  annotations = no_labels;
  creation_timestamp = start;
  owner = some "1";
  spec = "oven";
  conditions = [];
  start_time = some start;
  completion_time = none;
}

abbrev history : List Job
history = baked "b" 20 ∷ baked "c" 30 ∷ baked "a" 10 ∷ []

abbrev full : Bakery
full = record { now = midnight; jobs = history; object = none }

-- The oldest of three jobs is deleted.
keeps_two : (prune tools bakery (pos 2) history full).1.jobs ≡ baked "b" 20 ∷ baked "c" 30 ∷ []
unfolding prune delete_each first_of
keeps_two = refl

keeps_newest_example :
    (deleted : List Job) × (kept : List Job) × IsPruned tools bakery tools-SortLaws 2 history
      deleted kept
keeps_newest_example = keeps_newest tools bakery tools-SortLaws 2 history

-- The thirtieth of February never comes.
abbrev never : JobLibrary ℕ
never = record tools { parse_schedule = λ _. parsed (λ _. 0) }

abbrev always_due : EnergyAwareCronJob
always_due = bake allow (pos 0) (pos 0)

abbrev never-JobLaws : JobLaws never bakery
never-JobLaws = record {
  job_at = bakery-JobLaws.job_at;
  stored = bakery-JobLaws.stored;
  clock_same = bakery-JobLaws.clock_same;
  get_same = bakery-JobLaws.get_same;
  got = bakery-JobLaws.got;
  list_same = bakery-JobLaws.list_same;
  listed = bakery-JobLaws.listed;
  price_same = bakery-JobLaws.price_same;
  delete_stored = bakery-JobLaws.delete_stored;
  deleted = bakery-JobLaws.deleted;
  create_stored = bakery-JobLaws.create_stored;
  created = bakery-JobLaws.created;
  patch_jobs = bakery-JobLaws.patch_jobs;
  patched = bakery-JobLaws.patched;
  owned = bakery-JobLaws.owned;
}

never-CreateLaws : CreateLaws never bakery never-JobLaws
never-CreateLaws = record { made = bakery-CreateLaws.made; found = bakery-CreateLaws.found }

abbrev ran : Run Requeue × Bakery
ran = reconcile whole never bakery "shop" "bake" (open_at always_due)

requeued_at_once : (r : Requeue) × (ran.0 ≡ done r)
unfolding itoa short_label_value short_object_name trim_right trim_left energy_aware_cron_job_name
    finished_by track first_of delete_each prune sync_active_jobs deadline_of skip_missed
    delete_refs dispatch_job fail_with has_prefix schedule_text wait_stored when_due at_occurrence
    after_sync after_get reconcile
requeued_at_once = (_, refl)

unsatisfiable_starts_example :
    (requeued_at_once.0.requeue ≡ true)
    × ((j : Job) × (never-JobLaws.job_at ran.1 "shop" (
            energy_aware_cron_job_name never.sha256_hex "bake"
              (bakery.clock
                (sync_active_jobs never bakery always_due
                  (bakery.get_cron_job "shop" "bake" (open_at always_due)).1).1).0)
          ≡ some j))
unsatisfiable_starts_example =
    unsatisfiable_starts whole never bakery never-JobLaws never-CreateLaws "shop" "bake"
      (open_at always_due) always_due (λ _. 0) requeued_at_once.0 refl refl (λ t. refl) refl refl
      refl (λ h. absurd (cc)) refl requeued_at_once.1

-- half an hour within every hour
abbrev each_hour : EnergyAwareCronJob
each_hour = bake forbid (pos hour) (pos (1800 * second))

each_hour_admitted : validate_spec (λ _. parsed hourly) each_hour.spec ≡ none
unfolding validate_spec schedule_text has_prefix least_gap
each_hour_admitted = refl

admitted_windows_apart_example : IsApart (λ _. parsed hourly) each_hour.spec hour
admitted_windows_apart_example =
    admitted_windows_apart (λ _. parsed hourly) each_hour.spec hour refl (omega arith)
      each_hour_admitted
