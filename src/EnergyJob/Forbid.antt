-- ===== src/EnergyJob/Forbid.antt =====
-- Under Forbid at most one job of an EnergyAwareCronJob is unfinished: the state that every
-- reconciliation keeps, and what its parts need of it.
pub mod Steps
pub mod Planned
pub mod Tracking
pub mod Promise
use mathlib.Core.List.{Memᴰ}
use kube_greencosts.Prelude.{
  ℕ, ◌*◌, ◌/◌, String, ◌≡◌, refl, sym, ◌∙◌, ap, subst, inl, inr, Option, none, some, List, [],
  arith,
}
use kube_greencosts.Cluster.{Error, Result, ok, err}
use kube_greencosts.EnergyJob.Types.{Job, forbid, EnergyAwareCronJob, JobLibrary, JobStore}
use kube_greencosts.EnergyJob.Naming.{owner_label_value, energy_aware_cron_job_name, unix}
use kube_greencosts.Schedule.{second}
use kube_greencosts.EnergyJob.Sync.{job_finished}
use kube_greencosts.EnergyJob.Dispatch.{owner_label}
use kube_greencosts.EnergyJob.Run.{Run, call, run_of}
use kube_greencosts.EnergyJob.Laws.{JobLaws, truncated, Ends, Triple}

abbrev pub Jobs : Type 0
Jobs = String → String → Option Job

abbrev pub Objects : Type 0
Objects = String → String → Option EnergyAwareCronJob

-- A time and its whole seconds give a job the same name.
job_name-truncated :
    (sha256_hex : String → String) (name : String) (t : ℕ)
    → energy_aware_cron_job_name sha256_hex name (t / second * second)
      ≡ energy_aware_cron_job_name sha256_hex name t
unfolding energy_aware_cron_job_name
job_name-truncated sha256_hex name t = rw whole refl
  where
    whole : t / second * second / second ≡ t / second
    whole = omega arith

module _ {F World : Type 0} (lib : JobLibrary F) (store : JobStore F World) (ns name : String) where
  open lib use {sha256_hex}
  open store use {patch_status}

  abbrev pub job_name : ℕ → String
  job_name t = energy_aware_cron_job_name sha256_hex name t

  -- An unfinished job with the owner label has the name `a`.
  abbrev pub Unfinished : Jobs → String → Type 0
  Unfinished jobs a =
      (j : Job) × (jobs ns a ≡ some j)
      × (job_finished j ≡ none)
      × (j.labels owner_label ≡ some (owner_label_value sha256_hex name))

  -- Every unfinished job has the name of the job at the time.
  abbrev pub Fits : Jobs → Option ℕ → Type 0
  Fits jobs next = (t : ℕ) → next ≡ some t → (a : String) → Unfinished jobs a → a ≡ job_name t

  -- At most one job is unfinished, and while a time is stored, it is the job of that time.
  pub record IsSingle (jobs : Jobs) (objects : Objects) : Type 0 where
    pub one : (a b : String) → Unfinished jobs a → Unfinished jobs b → a ≡ b
    pub pinned :
        (e : EnergyAwareCronJob) → objects ns name ≡ some e → Fits jobs e.status.next_scheduled_time

  Fits-truncated : (jobs : Jobs) (next : Option ℕ) → Fits jobs next → Fits jobs (truncated next)
  Fits-truncated jobs none f t h a u = absurd (cc)
  Fits-truncated jobs (some t0) f t h a u =
      f t0 refl a u
      ∙ sym (job_name-truncated sha256_hex name t0)
      ∙ ap (λ (x : ℕ). job_name x) (same h)
    where
      same : some (t0 / second * second) ≡ some t → t0 / second * second ≡ t
      same p = cc

  module _ (laws : JobLaws lib store) where
    open laws use {job_at, stored}

    abbrev pub Single : World → Type 0
    Single w = IsSingle (job_at w) (stored w)

    -- A status patch keeps the state, if the time in the new status fits.
    pub Single-patch :
        (base e : EnergyAwareCronJob) (w : World)
        → e.namespace ≡ ns
        → e.name ≡ name
        → Single w
        → Fits (job_at w) e.status.next_scheduled_time
        → Single (patch_status base e w).1
    Single-patch base e w in_namespace named s f = record {
      one = rw (laws.patch_jobs base e w) s.one;
      pinned = λ e' h. rw (laws.patch_jobs base e w) (after e' h);
    }
      where
        after :
            (e' : EnergyAwareCronJob)
            → stored (patch_status base e w).1 ns name ≡ some e'
            → Fits (job_at w) e'.status.next_scheduled_time
        after e' h =
            elim (laws.patched base e w e'
              ((λ i. stored (patch_status base e w).1 (in_namespace i) (named i)) ∙ h)) [
                | inl before ↦ s.pinned e' (sym (λ i. stored w (in_namespace i) (named i)) ∙ before)
                | inr new ↦ rw new (Fits-truncated (job_at w) e.status.next_scheduled_time f)
              ]
