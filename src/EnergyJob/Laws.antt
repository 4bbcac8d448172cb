-- ===== src/EnergyJob/Laws.antt =====
-- What the controller relies on of the API, as a store of jobs and of EnergyAwareCronJobs under
-- namespace and name, and triples of a condition, an action and a condition.
use mathlib.Core.List.{Memᴰ}
use kube_greencosts.Prelude.{ℕ, ◌*◌, ◌/◌, String, ◌≡◌, ◌⊎◌, Option, none, some, List}
use kube_greencosts.Cluster.{ok}
use kube_greencosts.EnergyJob.Types.{Job, EnergyAwareCronJob, JobLibrary, JobStore}
use kube_greencosts.Schedule.{second}
use kube_greencosts.EnergyJob.Dispatch.{owner_label}
use kube_greencosts.EnergyJob.Run.{Run, done, failed, panicked, Act, continue, ◌>>=◌}

-- A time in a stored object has whole seconds.
abbrev pub truncated : Option ℕ → Option ℕ
truncated none = none
truncated (some t) = some (t / second * second)

-- No other writer acts during a call. A call that fails may have had its effect.
pub record JobLaws {F World : Type 0} (lib : JobLibrary F) (store : JobStore F World) : Type 0 where
  pub job_at : World → String → String → Option Job
  pub stored : World → String → String → Option EnergyAwareCronJob
  pub clock_same :
      (w : World) → (job_at (store.clock w).1 ≡ job_at w) × (stored (store.clock w).1 ≡ stored w)
  pub get_same :
      (ns name : String) (w : World)
      → (job_at (store.get_cron_job ns name w).1 ≡ job_at w)
        × (stored (store.get_cron_job ns name w).1 ≡ stored w)
  pub got :
      (ns name : String) (w : World) (e : EnergyAwareCronJob)
      → (store.get_cron_job ns name w).0 ≡ ok e
      → (stored w ns name ≡ some e) × (e.namespace ≡ ns) × (e.name ≡ name)
  pub list_same :
      (ns label : String) (w : World)
      → (job_at (store.list_jobs ns label w).1 ≡ job_at w)
        × (stored (store.list_jobs ns label w).1 ≡ stored w)
  pub listed :
      (ns label name : String) (w : World) (l : List Job) (j : Job)
      → (store.list_jobs ns label w).0 ≡ ok l
      → job_at w ns name ≡ some j
      → j.labels owner_label ≡ some label
      → Memᴰ j l
  pub price_same :
      (ns name : String) (w : World)
      → (job_at (store.get_price_source ns name w).1 ≡ job_at w)
        × (stored (store.get_price_source ns name w).1 ≡ stored w)
  pub delete_stored :
      (ns name : String) (w : World) → stored (store.delete_job ns name w).1 ≡ stored w
  pub deleted :
      (ns name : String) (w : World) (ns' name' : String) (j : Job)
      → job_at (store.delete_job ns name w).1 ns' name' ≡ some j
      → job_at w ns' name' ≡ some j
  pub create_stored : (j : Job) (w : World) → stored (store.create_job j w).1 ≡ stored w
  pub created :
      (j : Job) (w : World) (ns' name' : String) (x : Job)
      → job_at (store.create_job j w).1 ns' name' ≡ some x
      → (job_at w ns' name' ≡ some x) ⊎ ((ns' ≡ j.namespace) × (name' ≡ j.name))
  pub patch_jobs :
      (base e : EnergyAwareCronJob) (w : World) → job_at (store.patch_status base e w).1 ≡ job_at w
  pub patched :
      (base e : EnergyAwareCronJob) (w : World) (e' : EnergyAwareCronJob)
      → stored (store.patch_status base e w).1 e.namespace e.name ≡ some e'
      → (stored w e.namespace e.name ≡ some e')
        ⊎ (e'.status.next_scheduled_time ≡ truncated e.status.next_scheduled_time)
  pub owned :
      (e : EnergyAwareCronJob) (j j' : Job)
      → lib.set_controller_reference e j ≡ ok j'
      → (j'.namespace ≡ j.namespace) × (j'.name ≡ j.name)

-- An action from a world with `P` ends with `Q` of its result, and with `I` where it fails.
module _ {World : Type 0} (I : World → Type 0) where
  abbrev pub Ends : {A : Type 0} → (A → World → Type 0) → Run A → World → Type 0
  Ends Q (done a) w = Q a w
  Ends Q (failed e) w = I w
  Ends Q panicked w = I w

  abbrev pub Triple : {A : Type 0} → (World → Type 0) → Act World A → (A → World → Type 0) → Type 0
  Triple P m Q = (w : World) → P w → Ends Q (m w).0 (m w).1

  pub Ends-continue :
      {A B : Type 0} (Q : A → World → Type 0) (R : B → World → Type 0) (f : A → Act World B)
      (r : Run A) (w : World)
      → Ends Q r w
      → ((a : A) → Triple (Q a) (f a) R)
      → Ends R (continue r f w).0 (continue r f w).1
  Ends-continue Q R f (done a) w q rest = rest a w q
  Ends-continue Q R f (failed e) w i rest = i
  Ends-continue Q R f panicked w i rest = i

  pub Triple-bind :
      {A B : Type 0} (P : World → Type 0) (Q : A → World → Type 0) (R : B → World → Type 0)
      (m : Act World A) (f : A → Act World B)
      → Triple P m Q
      → ((a : A) → Triple (Q a) (f a) R)
      → Triple P (m >>= f) R
  Triple-bind P Q R m f first rest w p = Ends-continue Q R f (m w).0 (m w).1 (first w p) rest
