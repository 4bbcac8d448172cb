-- ===== src/EnergyJob/Timely/Promise.antt =====
-- A reconciliation starts a job only when it is due, and stores only times in the window of an
-- occurrence.
use kube_greencosts.Prelude.{
  ℕ, suc, ◌+◌, ◌*◌, ◌/◌, ◌≤◌, ◌<◌, String, ◌≡◌, sym, ◌∙◌, ap, subst, inl, inr, false, Option, none,
  some, arith, ltb, leb, List,
}
use kube_greencosts.Prelude.Int.{ℤ, pos}
use kube_greencosts.Price.{Float, PricePoint, filter_prices_in_window, select_price_point, selected}
use kube_greencosts.Price.Window.{filtered-Mem, selected_ends_before}
use kube_greencosts.Schedule.{next_schedule_time}
use kube_greencosts.EnergyJob.Types.{Job, EnergyAwareCronJob, JobLibrary, JobStore, parsed}
use kube_greencosts.Schedule.{second}
use kube_greencosts.EnergyJob.Optimal.{added}
use kube_greencosts.EnergyJob.Reconcile.{schedule_text, last_run_of, reconcile}
use kube_greencosts.EnergyJob.Laws.{JobLaws, truncated}
use kube_greencosts.Cluster.{ok}
use kube_greencosts.Price.Fits.{selected_fits}
use mathlib.Core.List.{Memᴰ}
use kube_greencosts.EnergyJob.Rules.Whole.{reconcile_keeps}
use kube_greencosts.EnergyJob.Forbid.Steps.{kept}
use kube_greencosts.EnergyJob.Timely.Planned.{Timely-plan}
use kube_greencosts.EnergyJob.Timely.{
  tracked_world, IsStarted, IsPlanned, WasStored, IsTimely, Timely, Timely-start,
}

module _ (float : Float) {World : Type 0} (lib : JobLibrary float.F)
    (store : JobStore float.F World) (ns name : String) (laws : JobLaws lib store) where
  open laws use {job_at, stored}

  -- The state in which the clock is read that decides, what it shows, and the state after it.
  abbrev pub observed : World → EnergyAwareCronJob → World
  observed w base = tracked_world float lib store ns name laws w base

  abbrev pub now : World → EnergyAwareCronJob → ℕ
  now w base = (store.clock (observed w base)).0

  abbrev pub after_clock : World → EnergyAwareCronJob → World
  after_clock w base = (store.clock (observed w base)).1

  reconcile-Timely :
      (w : World) → Timely float lib store ns name laws w (reconcile float lib store ns name w).1
  reconcile-Timely w =
      let got =
        kept float lib store ns name laws (IsTimely float lib store ns name laws w) w _
          (laws.get_same ns name w) (Timely-start float lib store ns name laws w) in
      reconcile_keeps float lib store ns name w (Timely float lib store ns name laws w) got
        (λ base h.
          let (there, in_namespace, named) = laws.got ns name w base h in
          Timely-plan float lib store ns name laws w base in_namespace named there got)

  -- A job that a reconciliation creates stands in the namespace of the EnergyAwareCronJob, under the
  -- name that its name and a time give. The EnergyAwareCronJob is not suspended, and, by the clock as it
  -- is read once the jobs were tracked, either that time was stored and has come; or no time was
  -- stored, the time is now, an occurrence that the schedule gives after the last run is not after
  -- now, and under Forbid all the jobs that were listed right after the object was read have finished.
  pub starts_on_time :
      (w : World) (ns' a : String) (j : Job)
      → job_at w ns' a ≡ none
      → job_at (reconcile float lib store ns name w).1 ns' a ≡ some j
      → IsStarted float lib store ns name laws w ns' a
  starts_on_time w ns' a j absent there = elim ((reconcile-Timely w).started ns' a j there) [
    | inl before ↦ let clash = sym before ∙ absent in absurd (cc)
    | inr started ↦ started
  ]

  -- A whole second that a listed price point later than now falls in, which the strategy selects and
  -- from which the duration ends in the window of an occurrence of the schedule that is due. Now is
  -- what the clock shows once the jobs were tracked, and the prices are those read right after it.
  pub record IsInWindow (w : World) (base : EnergyAwareCronJob) (duration t' : ℕ) : Type 0 where
    pub schedule : ℕ → ℕ
    pub known : lib.parse_schedule (schedule_text base.spec) ≡ parsed schedule
    pub occurrence : ℕ
    pub occurs :
        next_schedule_time schedule
          (last_run_of base)
          (now w base)
          base.spec.starting_deadline_seconds
        ≡ some occurrence
    pub due : occurrence ≤ now w base
    pub prices : List (PricePoint float.F)
    pub read :
        (store.get_price_source base.namespace base.spec.energy_price_source (after_clock w base)).0
        ≡ ok prices
    pub point : PricePoint float.F
    pub listed : Memᴰ point prices
    pub best :
        select_price_point float
          (filter_prices_in_window float prices occurrence
            (added occurrence base.spec.schedule_window))
          base.spec.strategy
          (pos duration)
          (added occurrence base.spec.schedule_window)
        ≡ selected point
    pub later : now w base < point.at
    pub not_before : occurrence ≤ point.at
    pub fits : point.at + duration < added occurrence base.spec.schedule_window
    pub same_time : t' ≡ point.at / second * second

  IsPlanned-IsInWindow :
      (w : World) (base : EnergyAwareCronJob) (n t' : ℕ)
      → stored w ns name ≡ some base
      → base.spec.estimated_duration ≡ pos (suc n)
      → IsPlanned float lib store ns name laws w t'
      → IsInWindow w base (suc n) t'
  IsPlanned-IsInWindow w base n t' there duration p =
      subst (λ (b : EnergyAwareCronJob). IsInWindow w b (suc n) t')
        (same p.base (sym p.read ∙ there))
        (record {
          schedule = p.chosen.open_at.schedule;
          known = p.chosen.open_at.known;
          occurrence = p.occurrence;
          occurs = p.chosen.open_at.occurs;
          due = not_below (now w p.base) p.occurrence p.chosen.open_at.due;
          prices = p.chosen.prices;
          read = p.chosen.read;
          point = p.point;
          listed =
              filtered-Mem float p.chosen.prices p.occurrence
                (added p.occurrence p.base.spec.schedule_window) p.point
                (selected_fits float _ p.base.spec.strategy n _ p.point chosen).0;
          best = chosen;
          later = above p.point.at (now w p.base) p.chosen.later;
          not_before = bounds.0;
          fits = bounds.1;
          same_time = p.same_time;
        })
    where
      same : (b : EnergyAwareCronJob) → some b ≡ some base → b ≡ base
      same b h = cc

      not_below : (x y : ℕ) → ltb x y ≡ false → y ≤ x
      not_below x y h = ground arith

      above : (x y : ℕ) → leb x y ≡ false → y < x
      above x y h = ground arith

      positive : p.base.spec.estimated_duration ≡ pos (suc n)
      positive =
          ap (λ (b : EnergyAwareCronJob). b.spec.estimated_duration)
            (same p.base (sym p.read ∙ there))
          ∙ duration

      window_end : ℕ
      window_end = added p.occurrence p.base.spec.schedule_window

      window : List (PricePoint float.F)
      window = filter_prices_in_window float p.chosen.prices p.occurrence window_end

      chosen :
          select_price_point float window p.base.spec.strategy (pos (suc n)) window_end
          ≡ selected p.point
      chosen =
          sym (
            ap (λ (d : ℤ). select_price_point float window p.base.spec.strategy d window_end)
              positive)
          ∙ p.chosen.best

      bounds : (p.occurrence ≤ p.point.at) × (p.point.at + suc n < window_end)
      bounds =
          selected_ends_before float p.chosen.prices p.base.spec.strategy n p.occurrence window_end
            p.point chosen

  -- Where no time was stored and the estimated duration is positive, a time that is stored after a
  -- reconciliation is that, cut to whole seconds, of a price point that the strategy selects among the
  -- prices read: by the clock as it is read once the jobs were tracked, the point is later than now
  -- and an occurrence that the schedule gives after the last run is due; and from the point on, which
  -- is not before the occurrence, the job ends before the occurrence's window does.
  pub stored-IsInWindow :
      (w : World) (base e' : EnergyAwareCronJob) (n t' : ℕ)
      → stored w ns name ≡ some base
      → base.status.next_scheduled_time ≡ none
      → base.spec.estimated_duration ≡ pos (suc n)
      → stored (reconcile float lib store ns name w).1 ns name ≡ some e'
      → e'.status.next_scheduled_time ≡ some t'
      → IsInWindow w base (suc n) t'
  stored-IsInWindow w base e' n t' there unset duration after time =
      elim ((reconcile-Timely w).planned e' t' after time) [
        | inl old ↦ absurd (never old)
        | inr planned ↦ IsPlanned-IsInWindow w base n t' there duration planned
      ]
    where
      never : WasStored float lib store ns name laws w t' → ⊥
      never (e, read, inl h) =
          let object : e ≡ base = let same : some e ≡ some base = sym read ∙ there in cc in
          let clash : some t' ≡ none =
            sym h ∙ ap (λ (x : EnergyAwareCronJob). x.status.next_scheduled_time) object ∙ unset in
          absurd (cc)
      never (e, read, inr h) =
          let object : e ≡ base = let same : some e ≡ some base = sym read ∙ there in cc in
          let clash : some t' ≡ none =
            sym h
            ∙ ap (λ (x : EnergyAwareCronJob). truncated x.status.next_scheduled_time) object
            ∙ ap (λ (o : Option ℕ). truncated o) unset in
          absurd (cc)
