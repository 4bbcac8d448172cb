-- ===== src/EnergyJob/Timely.antt =====
-- A reconciliation starts a job only when it is due, and stores only times in the window of an
-- occurrence: the state, and the plan that keeps it.
pub mod Planned
pub mod Promise
use mathlib.Core.List.{Memᴰ}
use kube_greencosts.EnergyJob.Sync.{job_finished}
use kube_greencosts.Prelude.{
  ◌≢◌, ℕ, ◌*◌, ◌/◌, ◌≤◌, String, ◌≡◌, refl, sym, ◌∙◌, ap, subst, ◌⊎◌, inl, inr, true, false, Option,
  none, some, List, leb, leb→le,
}
use kube_greencosts.Cluster.{Result, ok, err}
use kube_greencosts.Price.{Float, PricePoint}
use kube_greencosts.EnergyJob.Types.{
  Job, forbid, CronJobStatus, EnergyAwareCronJob, JobLibrary, JobStore,
}
use kube_greencosts.EnergyJob.Run.{run_of}
use kube_greencosts.EnergyJob.Naming.{energy_aware_cron_job_name}
use kube_greencosts.Schedule.{second}
use kube_greencosts.EnergyJob.Dispatch.{build_job, with_status}
use kube_greencosts.EnergyJob.Reconcile.{is_suspended}
use kube_greencosts.EnergyJob.Laws.{JobLaws, truncated, Ends, Triple}
use kube_greencosts.EnergyJob.Rules.{IsOpen, IsChosen, Rules}
use kube_greencosts.EnergyJob.Rules.Dispatching.{DispatchRules, Triple-dispatch}
use kube_greencosts.EnergyJob.Rules.Whole.{listing, synced, after_tracking, Plan}
use kube_greencosts.EnergyJob.Forbid.{Jobs, Objects}
use kube_greencosts.EnergyJob.Forbid.Steps.{kept}

module _ (float : Float) {World : Type 0} (lib : JobLibrary float.F)
    (store : JobStore float.F World) (ns name : String) (laws : JobLaws lib store) where
  open float use {F}
  open laws use {job_at, stored}

  module _ (w0 : World) where
    -- The object's jobs are listed right after the object is read.
    abbrev pub IsListed : EnergyAwareCronJob → List Job → Type 0
    IsListed base l = (listing float lib store base (store.get_cron_job ns name w0).1).0 ≡ ok l

    -- The state in which the clock is read that decides: the jobs have been tracked.
    abbrev pub tracked_world : EnergyAwareCronJob → World
    tracked_world base = after_tracking float lib store base (store.get_cron_job ns name w0).1

    -- what that clock shows
    abbrev pub shown : EnergyAwareCronJob → ℕ
    shown base = (store.clock (tracked_world base)).0

    -- Why a job is started for the time `t`: the time was stored and has come, or now is `t`, an
    -- occurrence of the schedule is due, and under Forbid all the jobs that were listed have finished.
    pub data Cause (base : EnergyAwareCronJob) (t : ℕ) : Type 0 where
      stored_time :
          is_suspended base.spec.suspend ≡ false
          → base.status.next_scheduled_time ≡ some t
          → t ≤ shown base
          → Cause base t
      occurrence :
          (l : List Job) (at : ℕ)
          → IsListed base l
          → IsOpen float lib store (tracked_world base) (synced float lib store base l) at
          → (base.spec.concurrency_policy ≡ forbid → (j : Job) → Memᴰ j l → job_finished j ≢ none)
          → t ≡ shown base
          → Cause base t

    -- A job of this name is started.
    pub record IsStarted (ns' a : String) : Type 0 where
      pub base : EnergyAwareCronJob
      pub read : stored w0 ns name ≡ some base
      pub same_namespace : ns' ≡ ns
      pub time : ℕ
      pub same_name : a ≡ energy_aware_cron_job_name lib.sha256_hex name time
      pub cause : Cause base time

    -- A time that was not stored before.
    pub record IsPlanned (t' : ℕ) : Type 0 where
      pub base : EnergyAwareCronJob
      pub read : stored w0 ns name ≡ some base
      pub jobs : List Job
      pub listed : IsListed base jobs
      pub occurrence : ℕ
      pub point : PricePoint F
      pub chosen :
          IsChosen float lib store
            (tracked_world base)
            (synced float lib store base jobs)
            occurrence
            point
      pub same_time : t' ≡ point.at / second * second

    abbrev pub WasStored : ℕ → Type 0
    WasStored t' =
        (e : EnergyAwareCronJob) × (stored w0 ns name ≡ some e)
        × ((e.status.next_scheduled_time ≡ some t')
            ⊎ (truncated e.status.next_scheduled_time ≡ some t'))

    pub record IsTimely (jobs : Jobs) (objects : Objects) : Type 0 where
      pub started :
          (ns' a : String) (j : Job)
          → jobs ns' a ≡ some j
          → (job_at w0 ns' a ≡ some j) ⊎ IsStarted ns' a
      pub planned :
          (e' : EnergyAwareCronJob) (t' : ℕ)
          → objects ns name ≡ some e'
          → e'.status.next_scheduled_time ≡ some t'
          → WasStored t' ⊎ IsPlanned t'

    abbrev pub Timely : World → Type 0
    Timely w = IsTimely (job_at w) (stored w)

    pub Timely-start : Timely w0
    Timely-start = record {
      started = λ ns' a j h. inl h;
      planned = λ e' t' h g. inl (e', h, inl g);
    }

    -- A status patch, by a status whose time was stored or is planned.
    pub Timely-patch :
        (base e : EnergyAwareCronJob) (w : World)
        → e.namespace ≡ ns
        → e.name ≡ name
        → Timely w
        → ((t' : ℕ)
            → truncated e.status.next_scheduled_time ≡ some t'
            → WasStored t' ⊎ IsPlanned t')
        → Timely (store.patch_status base e w).1
    Timely-patch base e w in_namespace named s new = record {
      started = rw (laws.patch_jobs base e w) s.started;
      planned = λ e' t' h g.
          elim (laws.patched base e w e'
            ((λ i. stored (store.patch_status base e w).1 (in_namespace i) (named i)) ∙ h)) [
              | inl before ↦
                  s.planned e' t' (sym (λ i. stored w (in_namespace i) (named i)) ∙ before) g
              | inr written ↦ new t' (sym written ∙ g)
            ];
    }

    pub Timely-delete :
        (ns' name' : String) (w : World) → Timely w → Timely (store.delete_job ns' name' w).1
    Timely-delete ns' name' w s = record {
      started = λ x a j h. s.started x a j (laws.deleted ns' name' w x a j h);
      planned = rw (laws.delete_stored ns' name' w) s.planned;
    }
