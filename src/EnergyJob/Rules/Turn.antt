-- ===== src/EnergyJob/Rules/Turn.antt =====
-- The rules are enough for what a reconciliation does after the tracking of jobs.
use kube_greencosts.Prelude.{
  ℕ, String, ◌≡◌, refl, ap, inl, inr, false, Bool-cases, Option, none, some, List, [], ◌∷◌, leb,
  ltb,
}
use kube_greencosts.Cluster.{
  Result, ok, err, not_found, already_exists, api_failed, encoding_failed,
}
use kube_greencosts.Price.{
  Float, PricePoint, Selected, selected, failed, filter_prices_in_window, select_price_point,
}
use kube_greencosts.Schedule.{next_schedule_time}
use kube_greencosts.EnergyJob.Types.{
  CronJobStatus, EnergyAwareCronJob, Parsed, parsed, unparsed, JobLibrary, JobStore,
}
use kube_greencosts.EnergyJob.Run.{Act, Requeue, pure, ◌>>=◌, call, reading, run_of}
use kube_greencosts.EnergyJob.Dispatch.{retry_short, with_status, failed_status, fail_with}
use kube_greencosts.EnergyJob.Optimal.{
  added, requeue_until, select_message, scheduled_status, schedule_at, at_selected, in_window,
  with_prices, fetch_prices,
}
use kube_greencosts.EnergyJob.Reconcile.{
  schedule_text, is_suspended, last_run_of, is_forbidden, is_zero_duration, nothing_more,
  requeue_stored, wait_stored, when_due, at_occurrence, too_many_missed, at_next, by_schedule,
  by_stored, after_sync,
}
use kube_greencosts.EnergyJob.Laws.{Ends, Triple, Triple-bind}
use kube_greencosts.EnergyJob.Rules.{IsOpen, IsChosen, Rules}

module _ (float : Float) {World : Type 0} (lib : JobLibrary float.F)
    (store : JobStore float.F World) where
  open float use {F}

  module _ (u : World) (base e : EnergyAwareCronJob) (I K : World → Type 0)
      (rules : Rules float lib store u base e I K) where
    abbrev now : ℕ
    now = (store.clock u).0

    abbrev v : World
    v = (store.clock u).1

    abbrev Keeps : (World → Type 0) → Act World Requeue → Type 0
    Keeps P m = Triple I P m (λ _. I)

    Ends-patch : {A : Type 0} (r : Result A) (w : World) → I w → Ends I (λ _. I) (run_of r) w
    Ends-patch (ok a) w i = i
    Ends-patch (err x) w i = i

    -- A patch, after which the rest needs no more than `I`.
    patch_then :
        (s : CronJobStatus) (f : EnergyAwareCronJob → Act World Requeue)
        → ((w : World) → K w → I (store.patch_status base (with_status e s) w).1)
        → ((a : EnergyAwareCronJob) → Keeps I (f a))
        → Keeps K (call (store.patch_status base (with_status e s)) >>= f)
    patch_then s f keep rest =
        Triple-bind I K (λ _. I) (λ _. I) (call (store.patch_status base (with_status e s))) f
          (λ w k. Ends-patch (store.patch_status base (with_status e s) w).0 _ (keep w k)) rest

    read_then :
        (f : ℕ → Act World Requeue)
        → ((t : ℕ) → Keeps K (f t))
        → Keeps K (reading store.clock >>= f)
    read_then f rest w k = rest (store.clock w).0 (store.clock w).1 (rules.clock_keeps w k)

    requeued : (t : ℕ) → Keeps I (requeue_until float lib store t)
    requeued t w i = rules.clock_keeps_after w i

    failing : (message : String) → Keeps K (fail_with lib store base e message)
    unfolding fail_with
    failing message = read_then _ (λ transition.
        patch_then (failed_status lib store e.status message transition)
          (λ _. pure (record { requeue = false; requeue_after = retry_short }))
          (λ w k. rules.same_time _ w refl k) (λ _ w i. i))

    scheduling :
        (t : ℕ) (p : PricePoint F)
        → IsChosen float lib store u e t p
        → Keeps K (schedule_at float lib store base e t p)
    unfolding schedule_at
    scheduling t p c = read_then _ (λ transition.
        patch_then (scheduled_status float lib store e.status p t transition)
          (λ _. requeue_until float lib store p.at) (λ w k. rules.new_time _ t p w c refl k)
          (λ _. requeued p.at))

    -- from the state after the clock was read
    abbrev KeepsHere : Act World Requeue → Type 0
    KeepsHere m = K v → Ends I (λ _. I) (m v).0 (m v).1

    module _ (t : ℕ) (o : IsOpen float lib store u e t) where
      abbrev IsRead : List (PricePoint F) → Type 0
      IsRead prices =
          (store.get_price_source e.namespace e.spec.energy_price_source v).0 ≡ ok prices

      abbrev window_of : List (PricePoint F) → List (PricePoint F)
      window_of prices = filter_prices_in_window float prices t (added t e.spec.schedule_window)

      selecting :
          (prices : List (PricePoint F)) (s : Selected F)
          → IsRead prices
          → select_price_point float
              (filter_prices_in_window float prices t (added t e.spec.schedule_window))
              e.spec.strategy
              e.spec.estimated_duration
              (added t e.spec.schedule_window)
            ≡ s
          → Keeps K (at_selected float lib store base e now t s)
      selecting prices (failed x) r h = failing (select_message float lib store e x)
      selecting prices (selected p) r h = elim (Bool-cases (leb p.at now)) [
        | inl past ↦ rw past (rules.dispatch_now t o)
        | inr later ↦ rw later (
            scheduling t p
              (record { open_at = o; later = later; prices = prices; read = r; best = h }))
      ]

      windowed :
          (prices l : List (PricePoint F))
          → IsRead prices
          → window_of prices ≡ l
          → Keeps K (in_window float lib store base e now t l)
      unfolding in_window
      windowed prices [] r h =
          patch_then e.status (λ _. pure (record { requeue = false; requeue_after = retry_short }))
            (λ w k. rules.same_time e.status w refl k) (λ _ w i. i)
      windowed prices (p ∷ ps) r h = selecting prices _ r (
          ap
            (λ (l : List (PricePoint F)).
              select_price_point float l e.spec.strategy e.spec.estimated_duration
                (added t e.spec.schedule_window))
            h)

      priced :
          (r : Result (List (PricePoint F)))
          → (store.get_price_source e.namespace e.spec.energy_price_source v).0 ≡ r
          → Keeps K (with_prices float lib store base e now t r)
      priced (ok prices) h = windowed prices _ h refl
      priced (err not_found) h = failing _
      priced (err already_exists) h = λ w k. rules.weaken w k
      priced (err api_failed) h = λ w k. rules.weaken w k
      priced (err encoding_failed) h = λ w k. rules.weaken w k

      fetching : KeepsHere (fetch_prices float lib store base e now t)
      fetching k =
          priced _ refl (store.get_price_source e.namespace e.spec.energy_price_source v).1
            (rules.prices_keep e.namespace e.spec.energy_price_source v k)

    module _ (awake : is_suspended e.spec.suspend ≡ false) where
      module _ (unset : e.status.next_scheduled_time ≡ none) (schedule : ℕ → ℕ)
          (known : lib.parse_schedule (schedule_text e.spec) ≡ parsed schedule) where
        when_open :
            (t : ℕ)
            → next_schedule_time schedule (last_run_of e) now e.spec.starting_deadline_seconds
              ≡ some t
            → ltb now t ≡ false
            → KeepsHere (when_due float lib store base e now t)
        unfolding when_due
        when_open t occurs due =
            elim (Bool-cases (is_forbidden e.spec.concurrency_policy e.status.active)) [
              | inl busy ↦ rw busy (
                  patch_then (record e.status { last_schedule_time = some now })
                    (λ _. pure nothing_more) (λ w k. rules.same_time _ w refl k) (λ _ w i. i) v)
              | inr free ↦
                  let o : IsOpen float lib store u e t = record {
                    awake = awake;
                    unset = unset;
                    free = free;
                    due = due;
                    schedule = schedule;
                    known = known;
                    occurs = occurs;
                  } in
                  rw free (elim (Bool-cases (is_zero_duration e.spec.schedule_window)) [
                    | inl immediate ↦ rw immediate (rules.dispatch_now t o v)
                    | inr wide ↦ rw wide (fetching t o)
                  ])
            ]

        occurring :
            (o : Option ℕ)
            → next_schedule_time schedule (last_run_of e) now e.spec.starting_deadline_seconds ≡ o
            → KeepsHere (at_next float lib store base e now o)
        unfolding at_occurrence
        occurring none h = failing too_many_missed v
        occurring (some t) h = elim (Bool-cases (ltb now t)) [
          | inl early ↦ rw early (
              patch_then (record e.status { next_cron_window = some t })
                (λ _. requeue_until float lib store t) (λ w k. rules.same_time _ w refl k)
                (λ _. requeued t) v)
          | inr due ↦ rw due (when_open t h due)
        ]

      parsing :
          (p : Parsed)
          → e.status.next_scheduled_time ≡ none
          → lib.parse_schedule (schedule_text e.spec) ≡ p
          → KeepsHere (by_schedule float lib store base e now p)
      parsing (unparsed x) unset h = failing _ v
      parsing (parsed schedule) unset h = occurring unset schedule h _ refl

      waiting : Keeps K (wait_stored float lib store base e)
      unfolding wait_stored
      waiting =
          patch_then e.status (λ x. requeue_stored float lib store x.status.next_scheduled_time)
            (λ w k. rules.same_time e.status w refl k) (λ x. rest x.status.next_scheduled_time)
        where
          rest : (o : Option ℕ) → Keeps I (requeue_stored float lib store o)
          rest none = λ w i. i
          rest (some t) = requeued t

      storing :
          (o : Option ℕ)
          → e.status.next_scheduled_time ≡ o
          → KeepsHere (by_stored float lib store base e now o)
      storing none h = parsing _ h refl
      storing (some t) h = elim (Bool-cases (leb t now)) [
        | inl due ↦ rw due (rules.dispatch_stored t awake due h v)
        | inr early ↦ rw early (waiting v)
      ]

    pub Ends-after_sync :
        K u
        → Ends I
            (λ _. I)
            (after_sync float lib store base e u).0
            (after_sync float lib store base e u).1
    unfolding after_sync
    Ends-after_sync = elim (Bool-cases (is_suspended e.spec.suspend)) [
      | inl suspended ↦ rw suspended (
          patch_then (record e.status { next_scheduled_time = none }) (λ _. pure nothing_more)
            (λ w k. rules.no_time _ w refl k) (λ _ w i. i) u)
      | inr awake ↦ rw awake (λ k. storing awake _ refl (rules.clock_keeps u k))
    ]
