-- ===== src/EnergyJob/Dispatch.antt =====
-- The start of a job, and the report of an error (energyawarecronjob_controller.go: dispatchJob,
-- buildJob, failWith).
use Prim.Native.String
use kube_greencosts.Prelude.{ℕ, String, Bool, true, false, none, some, List, [], ◌∷◌, ◌++◌, put}
use kube_greencosts.Prelude.Int.{ℤ, pos}
use kube_greencosts.Cluster.{
  not_found, already_exists, api_failed, encoding_failed, Result, ok, err,
}
use kube_greencosts.PolicyApi.{Condition}
use kube_greencosts.Policy.{set_condition, condition_type_ready}
use kube_greencosts.EnergyJob.Types.{
  Job, ObjectReference, ConcurrencyPolicy, allow, forbid, replace, CronJobStatus,
  EnergyAwareCronJob, JobLibrary, JobStore,
}
use kube_greencosts.EnergyJob.Run.{Act, Requeue, pure, ◌>>=◌, ◌>>◌, call, reading}
use kube_greencosts.EnergyJob.Naming.{owner_label_value, energy_aware_cron_job_name}
use kube_greencosts.EnergyJob.Sync.{reference_to, delete_found}

abbrev pub owner_label : String
owner_label = "greencosts.hstr.nl/owner"

abbrev pub condition_reason_error : String
condition_reason_error = "FetchFailed"

-- fifteen minutes, in nanoseconds
abbrev pub retry_short : ℤ
retry_short = pos 900000000000

-- `buildJob`
abbrev pub build_job : (String → String) → EnergyAwareCronJob → ℕ → Job
build_job sha256_hex eacj scheduled_at = record {
  namespace = eacj.namespace;
  name = energy_aware_cron_job_name sha256_hex eacj.name scheduled_at;
  uid = "";
  labels = put eacj.spec.template_labels owner_label (owner_label_value sha256_hex eacj.name);
  annotations = eacj.spec.template_annotations;
  creation_timestamp = 0;
  owner = none;
  spec = eacj.spec.template_spec;
  conditions = [];
  start_time = none;
  completion_time = none;
}

-- The job after `Create`: one that exists already is left as it was built.
abbrev pub created_or_known : Job → Result Job → Result Job
created_or_known job (ok created) = ok created
created_or_known job (err already_exists) = ok job
created_or_known job (err not_found) = err not_found
created_or_known job (err api_failed) = err api_failed
created_or_known job (err encoding_failed) = err encoding_failed

abbrev pub ready_condition : Bool → String → String → ℕ → Condition
ready_condition status reason message transition = record {
  kind = condition_type_ready;
  status = status;
  reason = reason;
  message = message;
  last_transition_time = transition;
}

abbrev pub with_status : EnergyAwareCronJob → CronJobStatus → EnergyAwareCronJob
with_status eacj status = record eacj { status = status }

module _ {F World : Type 0} (lib : JobLibrary F) (store : JobStore F World) where
  open lib use {set_controller_reference, sha256_hex, rfc3339}
  open store use {clock, patch_status, create_job}

  unfoldable pub delete_refs : List ObjectReference → Act World (Unit {0})
  delete_refs [] = pure tt
  delete_refs (ref ∷ refs) = do
    call (delete_found lib store ref.namespace ref.name)
    delete_refs refs

  -- Under Replace the active jobs are deleted first.
  abbrev pub replaced : ConcurrencyPolicy → List ObjectReference → Act World (Unit {0})
  replaced replace active = delete_refs active
  replaced forbid active = pure tt
  replaced allow active = pure tt

  abbrev pub create_or_find : Job → World → Result Job × World
  create_or_find job w = (created_or_known job (create_job job w).0, (create_job job w).1)

  -- the status that is patched after a dispatch
  abbrev pub dispatched_status : CronJobStatus → Job → ℕ → ℕ → CronJobStatus
  dispatched_status s job now transition = record s {
    active = s.active ++ reference_to job ∷ [];
    last_schedule_time = some now;
    next_cron_window = none;
    next_scheduled_time = none;
    conditions = set_condition s.conditions (
        ready_condition true "JobDispatched"
          (String.◌++◌ "job " (String.◌++◌ job.name (String.◌++◌ " dispatched at " (rfc3339 now))))
          transition);
  }

  -- `dispatchJob`
  unfoldable pub dispatch_job : EnergyAwareCronJob → EnergyAwareCronJob → ℕ → Act World Requeue
  dispatch_job base eacj now = do
    replaced eacj.spec.concurrency_policy eacj.status.active
    job ← call (λ w. (set_controller_reference eacj (build_job sha256_hex eacj now), w))
    created ← call (create_or_find job)
    transition ← reading clock
    _ ← call (
        patch_status base (with_status eacj (dispatched_status eacj.status created now transition)))
    pure (record { requeue = true; requeue_after = pos 0 })

  -- the status that is patched after an error
  abbrev pub failed_status : CronJobStatus → String → ℕ → CronJobStatus
  failed_status s message transition = record s {
    conditions =
        set_condition s.conditions
          (ready_condition false condition_reason_error message transition);
  }

  -- `failWith`, with the text of the error
  unfoldable pub fail_with : EnergyAwareCronJob → EnergyAwareCronJob → String → Act World Requeue
  fail_with base eacj message = do
    transition ← reading clock
    _ ← call (patch_status base (with_status eacj (failed_status eacj.status message transition)))
    pure (record { requeue = false; requeue_after = retry_short })
