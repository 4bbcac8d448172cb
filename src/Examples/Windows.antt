-- ===== src/Examples/Windows.antt =====
-- Availability windows in a calendar of one time zone.
use mathlib.Core.List.{Memᴰ}
use kube_greencosts.Prelude.{
  ℕ, zero, suc, ◌+◌, ◌*◌, ◌/◌, ◌%◌, ◌≤◌, ◌<◌, ◌≡◌, ◌↔◌, refl, ◌⊎◌, true, none, some, [], ◌∷◌, ◌==◌,
  if◌then◌else◌,
}
use kube_greencosts.Window.{
  Weekday, sunday, monday, tuesday, wednesday, thursday, friday, saturday, AvailabilityWindow,
  Calendar, is_in_availability_window, next_availability_window_start,
}
use kube_greencosts.Window.{parse_hhmm}
use kube_greencosts.Webhook.{validate_from, validate_availability_windows}
use kube_greencosts.Webhook.Laws.{
  IsValid, validate_availability_windows-IsValid, admitted_never_skipped,
}
use kube_greencosts.Prelude.{◌||◌, All}
use kube_greencosts.Window.Laws.{IsOpen, is_in_availability_window-IsOpen, end-IsOpen}
use kube_greencosts.Window.First.{IsStart, IsFirstStart}
use kube_greencosts.Window.Next.{next_is_least}
use kube_greencosts.Window.{contains_weekday, weekday_from_spec}

abbrev day_length : ℕ
day_length = 86400000000000

abbrev nth_weekday : ℕ → Weekday
nth_weekday zero = sunday
nth_weekday (suc zero) = monday
nth_weekday (suc (suc zero)) = tuesday
nth_weekday (suc (suc (suc zero))) = wednesday
nth_weekday (suc (suc (suc (suc zero)))) = thursday
nth_weekday (suc (suc (suc (suc (suc zero))))) = friday
nth_weekday _ = saturday

-- Days from the zero time, which is a Monday, in one time zone.
abbrev pub days : Calendar
days = record {
  Location = Unit;
  load_location = λ s. if s == "" || s == "UTC" then some tt else none;
  weekday = λ loc t. nth_weekday ((t / day_length + 1) % 7);
  date = λ loc t. record { year = 1; month = 1; day = t / day_length };
  add_days = λ loc t n. t + n * day_length;
  parse_clock =
      λ loc s. if s == "08:00" then some (8, 0) else if s == "18:00" then some (18, 0) else none;
  at_clock = λ loc d hour minute. d.day * day_length + (hour * 60 + minute) * 60000000000;
}

abbrev pub office : AvailabilityWindow
office = record { weekdays = "Mon" ∷ []; from = "08:00"; until = "18:00"; timezone = "UTC" }

-- noon of the first day
abbrev pub noon : ℕ
noon = 43200000000000

-- the evening of that day
abbrev pub evening : ℕ
evening = 72000000000000

is_open_at_noon : (is_in_availability_window days (office ∷ []) noon).0 ≡ true
unfolding is_in_availability_window contains_weekday weekday_from_spec
is_open_at_noon = refl

is_in_availability_window-IsOpen_example :
    ((is_in_availability_window days (office ∷ []) noon).0 ≡ true)
    ↔ ((w : AvailabilityWindow) × (until : ℕ) × Memᴰ w (office ∷ []) × IsOpen days w noon until)
is_in_availability_window-IsOpen_example = is_in_availability_window-IsOpen days (office ∷ []) noon

end-IsOpen_example :
    (noon < (is_in_availability_window days (office ∷ []) noon).1)
    × ((w : AvailabilityWindow) × Memᴰ w (office ∷ [])
        × IsOpen days w noon (is_in_availability_window days (office ∷ []) noon).1)
end-IsOpen_example = end-IsOpen days (office ∷ []) noon is_open_at_noon

next_is_least_example :
    let next = next_availability_window_start days (office ∷ []) noon in
    ((next ≡ 0)
      × ((w : AvailabilityWindow) (day s : ℕ)
          → Memᴰ w (office ∷ [])
          → day ≤ 7
          → IsStart days w noon day s
          → ⊥))
    ⊎ ((noon < next)
        × ((w : AvailabilityWindow) × Memᴰ w (office ∷ []) × IsFirstStart days w noon next)
        × ((w : AvailabilityWindow) (s : ℕ)
            → Memᴰ w (office ∷ [])
            → IsFirstStart days w noon s
            → next ≤ s))
next_is_least_example = next_is_least days (office ∷ []) noon

office_admitted : validate_availability_windows days (office ∷ []) ≡ none
unfolding validate_from
office_admitted = refl

validate_availability_windows-IsValid_example :
    (validate_availability_windows days (office ∷ []) ≡ none) ↔ All (IsValid days) (office ∷ [])
validate_availability_windows-IsValid_example =
    validate_availability_windows-IsValid days (office ∷ [])

admitted_never_skipped_example :
    (loc : Unit {0}) × (days.load_location "UTC" ≡ some loc)
    × ((from : ℕ) × (parse_hhmm days "08:00" noon loc ≡ some from))
    × ((until : ℕ) × (parse_hhmm days "18:00" noon loc ≡ some until))
admitted_never_skipped_example =
    admitted_never_skipped days (office ∷ []) office noon refl office_admitted (Memᴰ.head refl)
