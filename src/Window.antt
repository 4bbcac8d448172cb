-- ===== src/Window.antt =====
-- Availability windows: whether one is open, and when the next begins
-- (internal/controller/hibernatepolicy_controller.go, helpers.go).
pub mod Laws
pub mod First
pub mod Next
use kube_greencosts.Prelude.{
  ℕ, zero, suc, ◌+◌, ◌<◌, String, Bool, true, false, not, ◌&&◌, ◌||◌, Option, none, some, List, [],
  ◌∷◌, ltb, leb, nat_eq, ◌==◌, if◌then◌else◌,
}

-- `time.Weekday`
pub data Weekday : Type 0 where
  sunday monday tuesday wednesday thursday friday saturday : Weekday

-- `AvailabilityWindow`
pub record AvailabilityWindow : Type 0 where
  pub weekdays : List String
  pub from : String
  pub until : String
  pub timezone : String

-- The year, the month and the day of the month.
pub record Date : Type 0 where
  pub year : ℕ
  pub month : ℕ
  pub day : ℕ

-- What the code takes from Go's package `time`. An instant counts nanoseconds from the zero `Time`.
pub record Calendar : Type 1 where
  pub Location : Type 0
  pub load_location : String → Option Location
  pub weekday : Location → ℕ → Weekday
  pub date : Location → ℕ → Date
  -- `t.AddDate(0, 0, n)`
  pub add_days : Location → ℕ → ℕ → ℕ
  -- `ParseInLocation("15:04", s, loc)`, of which only the hour and the minute are read
  pub parse_clock : Location → String → Option (ℕ × ℕ)
  -- `time.Date(year, month, day, hour, minute, 0, 0, loc)`
  pub at_clock : Location → Date → ℕ → ℕ → ℕ

abbrev pub is_zero_time : ℕ → Bool
is_zero_time t = nat_eq t 0

-- `weekdayFromSpec`
unfoldable pub weekday_from_spec : String → Weekday
weekday_from_spec w =
    if w == "Mon"
    then monday
    else if w == "Tue"
    then tuesday
    else if w == "Wed"
    then wednesday
    else if w == "Thu"
    then thursday
    else if w == "Fri"
    then friday
    else if w == "Sat"
    then saturday
    else sunday

abbrev pub day_number : Weekday → ℕ
day_number sunday = 0
day_number monday = 1
day_number tuesday = 2
day_number wednesday = 3
day_number thursday = 4
day_number friday = 5
day_number saturday = 6

-- `containsWeekday`
unfoldable pub contains_weekday : List String → Weekday → Bool
contains_weekday [] wd = false
contains_weekday (w ∷ ws) wd =
    if nat_eq (day_number (weekday_from_spec w)) (day_number wd)
    then true
    else contains_weekday ws wd

module _ (c : Calendar) where
  open c use {Location, load_location, weekday, date, add_days, parse_clock, at_clock}

  abbrev placed : Location → ℕ → Option (ℕ × ℕ) → Option ℕ
  placed loc day none = none
  placed loc day (some (hour, minute)) = some (at_clock loc (date loc day) hour minute)

  -- `parseHHMM`
  abbrev pub parse_hhmm : String → ℕ → Location → Option ℕ
  parse_hhmm hhmm day loc = placed loc day (parse_clock loc hhmm)

  -- `!local.Before(from) && local.Before(until)`
  abbrev between : ℕ → Option ℕ → Option ℕ → Option ℕ
  between now none until = none
  between now (some from) none = none
  between now (some from) (some until) = if leb from now && ltb now until then some until else none

  abbrev pub end_in : AvailabilityWindow → ℕ → Option Location → Option ℕ
  end_in w now none = none
  end_in w now (some loc) =
      if contains_weekday w.weekdays (weekday loc now)
      then between now (parse_hhmm w.from now loc) (parse_hhmm w.until now loc)
      else none

  -- One round of the loop of `isInAvailabilityWindow`: the end of the window, where it is open.
  abbrev pub open_until : AvailabilityWindow → ℕ → Option ℕ
  open_until w now = end_in w now (load_location w.timezone)

  unfoldable pub is_in_availability_window : List AvailabilityWindow → ℕ → Bool × ℕ
  is_in_availability_window [] now = (false, 0)
  is_in_availability_window (w ∷ ws) now = elim (open_until w now) [
    | none ↦ is_in_availability_window ws now
    | some until ↦ (true, until)
  ]

  abbrev start_if : ℕ → Bool → Option ℕ → Option ℕ
  start_if now false from = none
  start_if now true none = none
  start_if now true (some from) = if ltb now from then some from else none

  -- One round of the inner loop: the start of the window on the day so many days ahead, where the
  -- window has that day and the start is after `now`.
  abbrev pub start_on : AvailabilityWindow → Location → ℕ → ℕ → Option ℕ
  start_on w loc now days_ahead =
      let candidate = add_days loc now days_ahead in
      start_if now (contains_weekday w.weekdays (weekday loc candidate))
        (parse_hhmm w.from candidate loc)

  -- The inner loop, with the rounds that are left.
  unfoldable pub start_within : AvailabilityWindow → Location → ℕ → ℕ → ℕ → Option ℕ
  start_within w loc now days_ahead zero = none
  start_within w loc now days_ahead (suc left) =
      let rest = start_within w loc now (suc days_ahead) left in
      elim (start_on w loc now days_ahead) [ none ↦ rest | some from ↦ some from ]

  abbrev pub next_in : AvailabilityWindow → ℕ → Option Location → Option ℕ
  next_in w now none = none
  next_in w now (some loc) = start_within w loc now 0 8

  abbrev pub next_start : AvailabilityWindow → ℕ → Option ℕ
  next_start w now = next_in w now (load_location w.timezone)

  abbrev pub earlier : ℕ → Option ℕ → ℕ
  earlier earliest none = earliest
  earlier earliest (some from) =
      if is_zero_time earliest || ltb from earliest then from else earliest

  -- The outer loop.
  unfoldable pub earliest_start : List AvailabilityWindow → ℕ → ℕ → ℕ
  earliest_start [] now earliest = earliest
  earliest_start (w ∷ ws) now earliest = earliest_start ws now (earlier earliest (next_start w now))

  abbrev pub next_availability_window_start : List AvailabilityWindow → ℕ → ℕ
  next_availability_window_start windows now = earliest_start windows now 0
