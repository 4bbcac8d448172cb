-- ===== src/EnergyJob/Timely/Planned.antt =====
-- The plan by which a reconciliation keeps to its due times.
use mathlib.Core.List.{Memᴰ}
use kube_greencosts.EnergyJob.Sync.{job_finished}
use kube_greencosts.Prelude.{
  ◌≢◌, refl, ℕ, ◌*◌, ◌/◌, String, ◌≡◌, sym, ◌∙◌, ap, ◌⊎◌, inl, inr, Option, none, some, List,
  leb→le,
}
use kube_greencosts.Cluster.{Result, ok, err}
use kube_greencosts.Price.{Float, PricePoint}
use kube_greencosts.EnergyJob.Types.{
  Job, forbid, CronJobStatus, EnergyAwareCronJob, JobLibrary, JobStore,
}
use kube_greencosts.EnergyJob.Run.{run_of}
use kube_greencosts.EnergyJob.Naming.{energy_aware_cron_job_name}
use kube_greencosts.Schedule.{second}
use kube_greencosts.EnergyJob.Dispatch.{build_job, with_status}
use kube_greencosts.EnergyJob.Laws.{JobLaws, truncated, Ends}
use kube_greencosts.EnergyJob.Rules.{IsOpen, IsChosen, Rules}
use kube_greencosts.EnergyJob.Rules.Dispatching.{DispatchRules, Triple-dispatch}
use kube_greencosts.EnergyJob.Rules.Whole.{listing, synced, Plan}
use kube_greencosts.EnergyJob.Forbid.Steps.{kept, not_forbidden}
use kube_greencosts.EnergyJob.Forbid.Tracking.{track-idle}
use kube_greencosts.EnergyJob.Timely.{
  Cause, IsListed, tracked_world, stored_time, occurrence, IsPlanned, WasStored, IsTimely, Timely,
  Timely-patch, Timely-delete,
}

module _ (float : Float) {World : Type 0} (lib : JobLibrary float.F)
    (store : JobStore float.F World) (ns name : String) (laws : JobLaws lib store) where
  open float use {F}
  open laws use {job_at, stored}

  module _ (w0 : World) where
    abbrev TimelyIn : World → Type 0
    TimelyIn = Timely float lib store ns name laws w0

    module _ (base : EnergyAwareCronJob) (in_namespace : base.namespace ≡ ns)
        (named : base.name ≡ name) (read : stored w0 ns name ≡ some base) (l : List Job)
        (listed : IsListed float lib store ns name laws w0 base l) where
      abbrev e : EnergyAwareCronJob
      e = synced float lib store base l

      Timely-create :
          (t : ℕ) (job : Job) (w : World)
          → Cause float lib store ns name laws w0 base t
          → lib.set_controller_reference e (build_job lib.sha256_hex e t) ≡ ok job
          → TimelyIn w
          → TimelyIn (store.create_job job w).1
      Timely-create t job w c h s =
          let (in_ns, with_name) = laws.owned e (build_job lib.sha256_hex e t) job h in
          record {
            started = λ ns' a j g. elim (laws.created job w ns' a j g) [
              | inl old ↦ s.started ns' a j old
              | inr new ↦ inr (record {
                base = base;
                read = read;
                same_namespace = new.0 ∙ in_ns ∙ in_namespace;
                time = t;
                same_name =
                    new.1
                    ∙ with_name
                    ∙ ap (λ (n : String). energy_aware_cron_job_name lib.sha256_hex n t) named;
                cause = c;
              })
            ];
            planned = rw (laws.create_stored job w) s.planned;
          }

      unset_time :
          (s : CronJobStatus) (t' : ℕ)
          → s.next_scheduled_time ≡ none
          → truncated s.next_scheduled_time ≡ some t'
          → WasStored float lib store ns name laws w0 t'
            ⊎ IsPlanned float lib store ns name laws w0 t'
      unset_time s t' h g =
          let clash = sym (ap (λ (o : Option ℕ). truncated o) h) ∙ g in absurd (cc)

      starts :
          (t : ℕ)
          → Cause float lib store ns name laws w0 base t
          → DispatchRules lib store base e t TimelyIn TimelyIn TimelyIn
      starts t c = record {
        weaken_before = λ w s. s;
        weaken = λ w s. s;
        deleted = Timely-delete float lib store ns name laws w0;
        created = λ job w h s. Timely-create t job w c h s;
        clock_keeps = λ w s.
            kept float lib store ns name laws (IsTimely float lib store ns name laws w0) w _
              (laws.clock_same w) s;
        patched = λ s w h p.
            Timely-patch float lib store ns name laws w0 base (with_status e s) w in_namespace named
              p (λ t' g. unset_time s t' h g);
      }

      abbrev u : World
      u = tracked_world float lib store ns name laws w0 base

      -- under Forbid, an occurrence that is open finds all the jobs finished
      idle :
          (at : ℕ)
          → IsOpen float lib store u e at
          → base.spec.concurrency_policy ≡ forbid
          → (j : Job) → Memᴰ j l
          → job_finished j ≢ none
      idle at o policy j m =
          track-idle l base.status.last_successful_time j m
            (not_forbidden base.spec.concurrency_policy e.status.active policy o.free)

      chosen_time :
          (s : CronJobStatus) (t : ℕ) (p : PricePoint F) (t' : ℕ)
          → IsChosen float lib store u e t p
          → s.next_scheduled_time ≡ some p.at
          → truncated s.next_scheduled_time ≡ some t'
          → IsPlanned float lib store ns name laws w0 t'
      chosen_time s t p t' c h g =
          let whole : some (p.at / second * second) ≡ some t' =
            sym (ap (λ (o : Option ℕ). truncated o) h) ∙ g in
          record {
            base = base;
            read = read;
            jobs = l;
            listed = listed;
            occurrence = t;
            point = p;
            chosen = c;
            same_time = cc;
          }

      Timely-rules : Rules float lib store u base e TimelyIn TimelyIn
      Timely-rules = record {
        weaken = λ w s. s;
        clock_keeps = λ w s.
            kept float lib store ns name laws (IsTimely float lib store ns name laws w0) w _
              (laws.clock_same w) s;
        clock_keeps_after = λ w s.
            kept float lib store ns name laws (IsTimely float lib store ns name laws w0) w _
              (laws.clock_same w) s;
        prices_keep = λ ns' name' w s.
            kept float lib store ns name laws (IsTimely float lib store ns name laws w0) w _
              (laws.price_same ns' name' w) s;
        same_time = λ s w h p.
            Timely-patch float lib store ns name laws w0 base (with_status e s) w in_namespace named
              p (λ t' g. inl (base, read, inr (sym (ap (λ (o : Option ℕ). truncated o) h) ∙ g)));
        no_time = λ s w h p.
            Timely-patch float lib store ns name laws w0 base (with_status e s) w in_namespace named
              p (λ t' g. unset_time s t' h g);
        new_time = λ s t p w c h q.
            Timely-patch float lib store ns name laws w0 base (with_status e s) w in_namespace named
              q (λ t' g. inr (chosen_time s t p t' c h g));
        dispatch_stored = λ t awake due h.
            Triple-dispatch lib store base e t TimelyIn TimelyIn TimelyIn
              (starts t (stored_time awake h (leb→le t (store.clock u).0 due)));
        dispatch_now = λ t o.
            Triple-dispatch lib store base e (store.clock u).0 TimelyIn TimelyIn TimelyIn
              (starts (store.clock u).0 (occurrence l t listed o (idle t o) refl));
      }

    Ends-listed :
        (base : EnergyAwareCronJob) (w : World) (r : Result (List Job))
        → TimelyIn w
        → Ends TimelyIn (λ _. TimelyIn) (run_of r) (listing float lib store base w).1
    Ends-listed base w (ok l) s =
        kept float lib store ns name laws (IsTimely float lib store ns name laws w0) w _
          (laws.list_same _ _ w) s
    Ends-listed base w (err x) s =
        kept float lib store ns name laws (IsTimely float lib store ns name laws w0) w _
          (laws.list_same _ _ w) s

    pub Timely-plan :
        (base : EnergyAwareCronJob)
        → base.namespace ≡ ns
        → base.name ≡ name
        → stored w0 ns name ≡ some base
        → TimelyIn (store.get_cron_job ns name w0).1
        → Plan float lib store base (store.get_cron_job ns name w0).1 TimelyIn
    Timely-plan base in_namespace named read s = record {
      P = λ _. TimelyIn;
      listed = Ends-listed base (store.get_cron_job ns name w0).1 _ s;
      deleted = λ _. Timely-delete float lib store ns name laws w0;
      rules = λ l listed. Timely-rules base in_namespace named read l listed;
    }
