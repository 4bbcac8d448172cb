-- ===== src/Schedule.antt =====
-- The next occurrence of a schedule, past those that were missed
-- (internal/controller/energyawarecronjob_controller.go).
pub mod Laws
use kube_greencosts.Prelude.{
  ℕ, zero, suc, ◌+◌, ◌-◌, ◌*◌, ◌^◌, ◌≡◌, refl, Bool, true, false, Option, none, some, if◌then◌else◌,
}
use kube_greencosts.Prelude.Int.{ℤ, pos, negsuc, pos_part, neg_part, sub_ℕ, ltℤ, wrap64}

abbrev negated : ℤ → ℤ
negated (pos zero) = pos 0
negated (pos (suc n)) = negsuc n
negated (negsuc n) = pos (suc n)

-- a second, in nanoseconds
abbrev pub second : ℕ
second = 1000000000

abbrev in_seconds : ℤ → ℤ
in_seconds n = sub_ℕ (pos_part n * second) (neg_part n * second)

-- `now.Add(-time.Duration(seconds) * time.Second)`, whose product wraps at 64 bits
unfoldable pub deadline_of : ℕ → ℤ → ℤ
deadline_of now seconds =
    let offset = wrap64 (in_seconds (negated seconds)) in
    sub_ℕ (now + pos_part offset) (neg_part offset)

abbrev pub missed_limit : ℕ
missed_limit = 100

-- What the code takes of `cron.Schedule` is the occurrence after an instant.
module _ (next : ℕ → ℕ) where
  -- The loop, with the turns that are left: `none` is the error of too many missed occurrences.
  unfoldable pub skip_missed : ℤ → ℕ → ℕ → Option ℕ
  skip_missed deadline zero t = if ltℤ (pos t) deadline then none else some t
  skip_missed deadline (suc left) t =
      let rest = skip_missed deadline left (next t) in if ltℤ (pos t) deadline then rest else some t

  abbrev pub next_schedule_time : ℕ → ℕ → Option ℤ → Option ℕ
  next_schedule_time last_run now none = some (next last_run)
  next_schedule_time last_run now (some seconds) =
      skip_missed (deadline_of now seconds) missed_limit (next last_run)

-- A deadline of three centuries lies after `now`, by the wrap.
deadline_wraps : ltℤ (pos 5000000000) (deadline_of 5000000000 (pos 9223372037)) ≡ true
unfolding deadline_of wrap64
deadline_wraps = refl
