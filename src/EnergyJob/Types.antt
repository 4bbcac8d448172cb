-- ===== src/EnergyJob/Types.antt =====
-- EnergyAwareCronJobs (api/v1alpha1/energyawarecronjob_types.go), the jobs that they start, and what
-- their controller takes from outside.
use kube_greencosts.Prelude.{ℕ, String, Bool, Option, List, StringMap}
use kube_greencosts.Prelude.Int.{ℤ}
use kube_greencosts.Cluster.{Result}
use kube_greencosts.PolicyApi.{Condition}
use kube_greencosts.Price.{PricePoint}

-- `batchv1.JobCondition`
pub record JobCondition : Type 0 where
  pub kind : String
  pub status : String

-- `batchv1.Job`. Its specification is only copied, and stands as a text.
pub record Job : Type 0 where
  pub namespace : String
  pub name : String
  pub uid : String
  pub labels : StringMap
  pub annotations : StringMap
  pub creation_timestamp : ℕ
  -- the UID of the controller that owns it
  pub owner : Option String
  pub spec : String
  pub conditions : List JobCondition
  pub start_time : Option ℕ
  pub completion_time : Option ℕ

-- `corev1.ObjectReference`
pub record ObjectReference : Type 0 where
  pub api_version : String
  pub kind : String
  pub namespace : String
  pub name : String
  pub uid : String

-- `batchv1.ConcurrencyPolicy`; any other text acts as Allow
pub data ConcurrencyPolicy : Type 0 where
  allow forbid replace : ConcurrencyPolicy

-- `EnergyAwareCronJobSpec`, with the fields of its CronJobSpec. A duration counts nanoseconds.
pub record CronJobSpec : Type 0 where
  pub energy_price_source : String
  pub strategy : String
  pub estimated_duration : ℤ
  pub schedule_window : ℤ
  pub schedule : String
  pub time_zone : Option String
  pub suspend : Option Bool
  pub concurrency_policy : ConcurrencyPolicy
  pub starting_deadline_seconds : Option ℤ
  pub successful_jobs_history_limit : Option ℤ
  pub failed_jobs_history_limit : Option ℤ
  pub template_labels : StringMap
  pub template_annotations : StringMap
  pub template_spec : String

-- `EnergyAwareCronJobStatus`
pub record CronJobStatus : Type 0 where
  pub active : List ObjectReference
  pub last_schedule_time : Option ℕ
  pub next_cron_window : Option ℕ
  pub next_scheduled_time : Option ℕ
  pub last_successful_time : Option ℕ
  pub conditions : List Condition

pub record EnergyAwareCronJob : Type 0 where
  pub namespace : String
  pub name : String
  pub uid : String
  pub creation_timestamp : ℕ
  pub spec : CronJobSpec
  pub status : CronJobStatus

-- The answer of `cron.Parser.Parse`: the occurrence after an instant, or an error's text.
pub data Parsed : Type 0 where
  parsed : (ℕ → ℕ) → Parsed
  unparsed : String → Parsed

-- The libraries: the cron parser, `controllerutil.SetControllerReference`, `sort.Slice`, the
-- capacity of a slice that `append` has filled, SHA-256, and the formats of `fmt` and `time`.
pub record JobLibrary (F : Type 0) : Type 0 where
  pub parse_schedule : String → Parsed
  pub set_controller_reference : EnergyAwareCronJob → Job → Result Job
  pub sort_slice : (Job → Job → Bool) → List Job → List Job
  pub capacity : ℕ → ℕ
  pub sha256_hex : String → String
  pub quote : String → String
  pub rfc3339 : ℕ → String
  pub duration_text : ℤ → String
  pub price_text : F → String

-- The API, and the clock. A list takes a namespace and the value of the owner label; a status patch
-- takes the object before and after, and answers the object that is then stored.
pub record JobStore (F World : Type 0) : Type 0 where
  pub clock : World → ℕ × World
  pub get_cron_job : String → String → World → Result EnergyAwareCronJob × World
  pub patch_status :
      EnergyAwareCronJob → EnergyAwareCronJob → World → Result EnergyAwareCronJob × World
  pub list_jobs : String → String → World → Result (List Job) × World
  pub delete_job : String → String → World → Result (Unit {0}) × World
  pub create_job : Job → World → Result Job × World
  pub get_price_source : String → String → World → Result (List (PricePoint F)) × World
