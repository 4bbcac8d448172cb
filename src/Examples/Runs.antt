-- ===== src/Examples/Runs.antt =====
-- The next run of a schedule that fires every ten nanoseconds.
use kube_greencosts.Prelude.{ℕ, ◌+◌, ◌*◌, ◌/◌, ◌≡◌, refl, none, some}
use kube_greencosts.Prelude.Int.{pos, wrap64, signed64}
use kube_greencosts.Schedule.{deadline_of, missed_limit, skip_missed, next_schedule_time}
use kube_greencosts.Schedule.Laws.{IsFirst, next_schedule_time-IsFirst}

abbrev every_ten : ℕ → ℕ
every_ten t = (t / 10 + 1) * 10

finds : next_schedule_time every_ten 3000000000 3000000045 (some (pos 0)) ≡ some 3000000050
unfolding deadline_of wrap64 signed64 skip_missed
finds = refl

next_schedule_time-IsFirst_example :
    IsFirst every_ten (deadline_of 3000000045 (pos 0)) 3000000010 missed_limit 3000000050
next_schedule_time-IsFirst_example =
    next_schedule_time-IsFirst every_ten 3000000000 3000000045 (pos 0) 3000000050 finds

misses : next_schedule_time every_ten 0 3000000045 (some (pos 0)) ≡ none
unfolding deadline_of wrap64 signed64 skip_missed
misses = refl
