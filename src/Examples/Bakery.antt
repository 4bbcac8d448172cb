-- ===== src/Examples/Bakery.antt =====
-- A namespace "shop" that holds one EnergyAwareCronJob, "bake", and its jobs.
use kube_greencosts.Prelude.{
  ℕ, ◌+◌, ◌*◌, ◌/◌, ◌-◌, String, Bool, ◌&&◌, Option, none, some, List, [], ◌∷◌, StringMap, ◌==◌,
  if◌then◌else◌,
}
use kube_greencosts.Prelude.Int.{ℤ}
use kube_greencosts.Cluster.{Result, ok, err, not_found, already_exists}
use kube_greencosts.Price.{PricePoint}
use kube_greencosts.Schedule.{second}
use kube_greencosts.EnergyJob.Types.{
  Job, ConcurrencyPolicy, EnergyAwareCronJob, parsed, JobLibrary, JobStore,
}
use kube_greencosts.EnergyJob.Laws.{truncated}
use kube_greencosts.Examples.Prices.{point}

pub record Bakery : Type 0 where
  pub now : ℕ
  pub jobs : List Job
  pub object : Option EnergyAwareCronJob

abbrev pub hour : ℕ
hour = 3600 * second

abbrev pub hourly : ℕ → ℕ
hourly t = (t / hour + 1) * hour

abbrev pub is_key : String → String → String → String → Bool
is_key ns name ns' name' = ns == ns' && name == name'

abbrev pub find_job : String → String → List Job → Option Job
find_job ns name [] = none
find_job ns name (j ∷ jobs) =
    if is_key j.namespace j.name ns name then some j else find_job ns name jobs

abbrev pub without : String → String → List Job → List Job
without ns name [] = []
without ns name (j ∷ jobs) =
    if is_key j.namespace j.name ns name then without ns name jobs else j ∷ without ns name jobs

abbrev pub find_object : String → String → Option EnergyAwareCronJob → Option EnergyAwareCronJob
find_object ns name none = none
find_object ns name (some e) = if is_key e.namespace e.name ns name then some e else none

abbrev pub or_not_found : {A : Type 0} → Option A → Result A
or_not_found none = err not_found
or_not_found (some a) = ok a

-- the object with its time in whole seconds
abbrev pub whole_object : EnergyAwareCronJob → EnergyAwareCronJob
whole_object e = record e {
  status = record e.status { next_scheduled_time = truncated e.status.next_scheduled_time };
}

abbrev pub patched_over :
    Option EnergyAwareCronJob → EnergyAwareCronJob → Bakery → Result EnergyAwareCronJob × Bakery
patched_over none e w = (err not_found, w)
patched_over (some old) e w = (ok (whole_object e), record w { object = some (whole_object e) })

abbrev pub created_beside : Option Job → Job → Bakery → Result Job × Bakery
created_beside (some old) j w = (err already_exists, w)
created_beside none j w = (ok j, record w { jobs = j ∷ w.jobs })

-- midnight
abbrev pub midnight : ℕ
midnight = 63903254400 * second

abbrev pub night_prices : List (PricePoint ℕ)
night_prices =
    point (midnight + 1800 * second) 20
    ∷ point (midnight + 3600 * second) 10
    ∷ point (midnight + 5400 * second) 30
    ∷ point (midnight + 9000 * second) 5
    ∷ []

abbrev pub bakery : JobStore ℕ Bakery
bakery = record {
  clock = λ w. (w.now, w);
  get_cron_job = λ ns name w. (or_not_found (find_object ns name w.object), w);
  patch_status = λ base e w. patched_over (find_object e.namespace e.name w.object) e w;
  list_jobs = λ ns label w. (ok w.jobs, w);
  delete_job = λ ns name w. (ok tt, record w { jobs = without ns name w.jobs });
  create_job = λ j w. created_beside (find_job j.namespace j.name w.jobs) j w;
  get_price_source = λ ns name w. (ok night_prices, w);
}

abbrev pub insert_job : (Job → Job → Bool) → Job → List Job → List Job
insert_job less j [] = j ∷ []
insert_job less j (k ∷ jobs) = if less k j then k ∷ insert_job less j jobs else j ∷ k ∷ jobs

abbrev pub sort_jobs : (Job → Job → Bool) → List Job → List Job
sort_jobs less [] = []
sort_jobs less (j ∷ jobs) = insert_job less j (sort_jobs less jobs)

abbrev pub tools : JobLibrary ℕ
tools = record {
  parse_schedule = λ _. parsed hourly;
  set_controller_reference = λ e j. ok (record j { owner = some e.uid });
  sort_slice = sort_jobs;
  capacity = λ n. n;
  sha256_hex = λ s. s;
  quote = λ s. s;
  rfc3339 = λ _. "";
  duration_text = λ _. "";
  price_text = λ _. "";
}

abbrev pub no_labels : StringMap
no_labels _ = none

abbrev pub bake : ConcurrencyPolicy → ℤ → ℤ → EnergyAwareCronJob
bake policy window duration = record {
  namespace = "shop";
  name = "bake";
  uid = "1";
  creation_timestamp = midnight - 1800 * second;
  spec = record {
    energy_price_source = "spot";
    strategy = "LowestPrice";
    estimated_duration = duration;
    schedule_window = window;
    schedule = "0 * * * *";
    time_zone = none;
    suspend = none;
    concurrency_policy = policy;
    starting_deadline_seconds = none;
    successful_jobs_history_limit = none;
    failed_jobs_history_limit = none;
    template_labels = no_labels;
    template_annotations = no_labels;
    template_spec = "oven";
  };
  status = record {
    active = [];
    last_schedule_time = none;
    next_cron_window = none;
    next_scheduled_time = none;
    last_successful_time = none;
    conditions = [];
  };
}

-- a minute after midnight
abbrev pub open_at : EnergyAwareCronJob → Bakery
open_at e = record { now = midnight + 60 * second; jobs = []; object = some e }
