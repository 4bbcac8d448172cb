-- ===== src/JobWebhook/Laws.antt =====
-- What an admitted EnergyAwareCronJob keeps to.
use kube_greencosts.Prelude.{
  ℕ, zero, suc, ◌+◌, ◌-◌, ◌≤◌, ◌<◌, ◌≡◌, refl, sym, ◌∙◌, ap, inl, inr, false, Bool-cases, none,
  String, ◌==◌, arith,
}
use kube_greencosts.Prelude.Int.{ℤ, pos, ltℤ, ◌≤ℤ◌}
use kube_greencosts.Schedule.Laws.{occurrence}
use kube_greencosts.EnergyJob.Types.{CronJobSpec, Parsed, parsed, unparsed}
use kube_greencosts.EnergyJob.Optimal.{duration_between}
use kube_greencosts.EnergyJob.Reconcile.{schedule_text, is_zero_duration}
use kube_greencosts.JobWebhook.{
  samples, reference, max_duration, lesser, least_gap, minimum_cron_interval, check_schedule,
  validate_window, validate_spec,
}

not_less : (a b : ℤ) → ltℤ a b ≡ false → b ≤ℤ a
not_less a b h = ground arith

lesser_left : (d least : ℤ) → lesser d least ≤ℤ d
lesser_left d least = ground arith

lesser_right : (d least : ℤ) → lesser d least ≤ℤ least
lesser_right d least = ground arith

least_gap-le :
    (next : ℕ → ℕ) (turns prev : ℕ) (least : ℤ) → least_gap next turns prev least ≤ℤ least
unfolding least_gap
least_gap-le next zero prev least = omega arith
least_gap-le next (suc turns) prev least =
    let d = duration_between (next prev) prev in
    omega (arith, least_gap-le next turns (next prev) (lesser d least), lesser_right d least)

-- Every gap between occurrences that is sampled is at least the interval.
least_gap-le_gap :
    (next : ℕ → ℕ) (turns prev i : ℕ) (least : ℤ)
    → i < turns
    → least_gap next turns prev least
      ≤ℤ duration_between (occurrence next prev (suc i)) (occurrence next prev i)
unfolding least_gap
least_gap-le_gap next zero prev i least h = absurd (omega arith)
least_gap-le_gap next (suc turns) prev zero least h =
    let d = duration_between (next prev) prev in
    omega (arith, least_gap-le next turns (next prev) (lesser d least), lesser_left d least)
least_gap-le_gap next (suc turns) prev (suc i) least h =
    least_gap-le_gap next turns (next prev) i _ (omega arith)

module _ (parse_schedule : String → Parsed) (spec : CronJobSpec) (window : ℕ) where
  -- The estimated duration fits the window, and in the 1000 occurrences of the schedule after the
  -- reference each window ends before or with the next occurrence.
  pub record IsApart : Type 0 where
    pub fits : spec.estimated_duration ≤ℤ pos window
    pub schedule : ℕ → ℕ
    pub known : parse_schedule (schedule_text spec) ≡ parsed schedule
    pub apart :
        (i : ℕ)
        → suc i < samples
        → occurrence schedule (schedule reference) i + window
          ≤ occurrence schedule (schedule reference) (suc i)

  gap_holds :
      (a b : ℕ) (least : ℤ)
      → 0 < window
      → pos window ≤ℤ least
      → least ≤ℤ duration_between b a
      → a + window ≤ b
  gap_holds a b least positive h g = ground (arith, positive, h, g)

  spaced :
      (next : ℕ → ℕ)
      → 0 < window
      → pos window ≤ℤ minimum_cron_interval next
      → (i : ℕ) → suc i < samples
      → occurrence next (next reference) i + window ≤ occurrence next (next reference) (suc i)
  spaced next positive h i below =
      gap_holds _ _ (minimum_cron_interval next) positive h
        (least_gap-le_gap next (samples - 1) (next reference) i max_duration (omega (arith, below)))

  scheduled :
      (p : Parsed)
      → parse_schedule (schedule_text spec) ≡ p
      → 0 < window
      → spec.estimated_duration ≤ℤ pos window
      → check_schedule p (pos window) ≡ none
      → IsApart
  scheduled (unparsed e) known positive fits = λ h. absurd (cc)
  scheduled (parsed next) known positive fits =
      elim (Bool-cases (ltℤ (minimum_cron_interval next) (pos window))) [
        | inl over ↦ rw over (λ h. absurd (cc))
        | inr within ↦ λ h. record {
          fits = fits;
          schedule = next;
          known = known;
          apart = spaced next positive (not_less (minimum_cron_interval next) (pos window) within);
        }
      ]

  validated : 0 < window → validate_window parse_schedule spec (pos window) ≡ none → IsApart
  validated positive = elim (Bool-cases (ltℤ (pos window) spec.estimated_duration)) [
    | inl long ↦ rw long (λ h. absurd (cc))
    | inr fits ↦
        rw (fits, not_zero)
          (elim (Bool-cases (spec.schedule == "")) [
            | inl empty ↦ rw empty (λ h. absurd (cc))
            | inr there ↦
                rw there
                  (scheduled _ refl positive (not_less (pos window) spec.estimated_duration fits))
          ])
  ]
    where
      not_zero : is_zero_duration (pos window) ≡ false
      not_zero = ground (arith, positive)

  -- An EnergyAwareCronJob with a positive schedule window that is admitted has an estimated duration of
  -- at most that window, and a schedule that parses, of which no window of the first 999 occurrences
  -- after the reference reaches past the next occurrence.
  pub admitted_windows_apart :
      spec.schedule_window ≡ pos window
      → 0 < window
      → validate_spec parse_schedule spec ≡ none
      → IsApart
  unfolding validate_spec
  admitted_windows_apart same positive h =
      validated positive (sym (ap (λ (z : ℤ). validate_window parse_schedule spec z) same) ∙ h)
