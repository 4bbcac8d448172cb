-- ===== src/EnergyJob/Sync.antt =====
-- The jobs of an EnergyAwareCronJob: which are active, and which are deleted as history
-- (energyawarecronjob_controller.go: syncActiveJobs, jobFinished, jobStartTime).
pub mod History
use kube_greencosts.Prelude.{
  ℕ, zero, suc, ◌+◌, ◌-◌, String, Bool, ◌&&◌, ◌||◌, Option, none, some, List, [], ◌∷◌, length, ltb,
  leb, ◌==◌, if◌then◌else◌,
}
use kube_greencosts.Prelude.Int.{ℤ, pos, negsuc}
use kube_greencosts.Cluster.{
  not_found, already_exists, api_failed, encoding_failed, Result, ok, err,
}
use kube_greencosts.EnergyJob.Types.{
  JobCondition, Job, ObjectReference, EnergyAwareCronJob, JobLibrary, JobStore,
}
use kube_greencosts.EnergyJob.Run.{Act, panicked, pure, ◌>>=◌, ◌>>◌, call}
use kube_greencosts.EnergyJob.Naming.{owner_label_value}

abbrev pub job_complete : String
job_complete = "Complete"

abbrev pub job_failed : String
job_failed = "Failed"

-- `jobFinished`: the type of the first terminal condition that is true
unfoldable pub finished_by : List JobCondition → Option String
finished_by [] = none
finished_by (c ∷ cs) =
    if (c.kind == job_complete || c.kind == job_failed) && c.status == "True"
    then some c.kind
    else finished_by cs

abbrev pub job_finished : Job → Option String
job_finished job = finished_by job.conditions

abbrev pub job_start_time : Job → ℕ
job_start_time job = elim job.start_time [ none ↦ job.creation_timestamp | some t ↦ t ]

abbrev pub reference_to : Job → ObjectReference
reference_to job = record {
  api_version = "batch/v1";
  kind = "Job";
  namespace = job.namespace;
  name = job.name;
  uid = job.uid;
}

-- The lists that the loop fills.
pub record Tracked : Type 0 where
  pub active : List Job
  pub successful : List Job
  pub failed : List Job
  pub last_successful_time : Option ℕ

-- the later of the last success and a completion
abbrev pub latest : Option ℕ → Option ℕ → Option ℕ
latest last none = last
latest none (some t) = some t
latest (some last) (some t) = if ltb last t then some t else some last

abbrev pub tracked : Option String → Job → Tracked → Tracked
tracked none job rest = record rest { active = job ∷ rest.active }
tracked (some kind) job rest =
    if kind == job_complete
    then record rest { successful = job ∷ rest.successful }
    else record rest { failed = job ∷ rest.failed }

abbrev pub success_of : Option String → Job → Option ℕ → Option ℕ
success_of none job last = last
success_of (some kind) job last =
    if kind == job_complete then latest last job.completion_time else last

-- The loop over the jobs that are listed.
unfoldable pub track : List Job → Option ℕ → Tracked
track [] last = record { active = []; successful = []; failed = []; last_successful_time = last }
track (job ∷ jobs) last =
    tracked (job_finished job) job (track jobs (success_of (job_finished job) job last))

abbrev pub starts_before : Job → Job → Bool
starts_before a b = ltb (job_start_time a) (job_start_time b)

-- `jobs[:n]`
unfoldable pub first_of : ℕ → List Job → List Job
first_of zero jobs = []
first_of (suc n) [] = []
first_of (suc n) (job ∷ jobs) = job ∷ first_of n jobs

-- the answer of a delete, `apierrors.IsNotFound` set aside
abbrev pub unless_not_found : Result (Unit {0}) → Result (Unit {0})
unless_not_found (ok u) = ok u
unless_not_found (err not_found) = ok tt
unless_not_found (err already_exists) = err already_exists
unless_not_found (err api_failed) = err api_failed
unless_not_found (err encoding_failed) = err encoding_failed

abbrev pub limit_or : ℕ → Option ℤ → ℤ
limit_or n none = pos n
limit_or n (some limit) = limit

abbrev pub mapped : List Job → List ObjectReference
mapped [] = []
mapped (job ∷ jobs) = reference_to job ∷ mapped jobs

module _ {F World : Type 0} (lib : JobLibrary F) (store : JobStore F World) where
  open lib use {sort_slice, capacity, sha256_hex}
  open store use {list_jobs, delete_job}

  abbrev pub delete_found : String → String → World → Result (Unit {0}) × World
  delete_found ns name w = (unless_not_found (delete_job ns name w).0, (delete_job ns name w).1)

  unfoldable pub delete_each : List Job → Act World (Unit {0})
  delete_each [] = pure tt
  delete_each (job ∷ jobs) = do call (delete_found job.namespace job.name); delete_each jobs

  abbrev panics : Act World (Unit {0})
  panics w = (panicked, w)

  -- The deletion of the excess. A limit below zero asks for more jobs than there are: past the
  -- slice's capacity that panics, and before it the jobs are followed by nil pointers.
  unfoldable pub prune : ℤ → List Job → Act World (Unit {0})
  prune (pos limit) jobs =
      if ltb limit (length jobs)
      then delete_each (first_of (length jobs - limit) (sort_slice starts_before jobs))
      else pure tt
  prune (negsuc n) jobs =
      if leb (length jobs + suc n) (capacity (length jobs))
      then (do delete_each (sort_slice starts_before jobs); panics)
      else panics

  abbrev pub with_jobs : EnergyAwareCronJob → Tracked → EnergyAwareCronJob
  with_jobs eacj t = record eacj {
    status = record eacj.status {
      active = mapped t.active;
      last_successful_time = t.last_successful_time;
    };
  }

  -- `syncActiveJobs`, which returns the object with the new status
  unfoldable pub sync_active_jobs : EnergyAwareCronJob → Act World EnergyAwareCronJob
  sync_active_jobs eacj = do
    jobs ← call (list_jobs eacj.namespace (owner_label_value sha256_hex eacj.name))
    let t = track jobs eacj.status.last_successful_time
    prune (limit_or 3 eacj.spec.successful_jobs_history_limit) t.successful
    prune (limit_or 1 eacj.spec.failed_jobs_history_limit) t.failed
    pure (with_jobs eacj t)
