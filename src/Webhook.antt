-- ===== src/Webhook.antt =====
-- The admission of hibernate policies: the check of their availability windows
-- (internal/webhook/hibernatepolicy_webhook.go).
pub mod Laws
use kube_greencosts.Prelude.{
  ℕ, suc, ◌+◌, ◌*◌, String, Bool, true, false, Option, none, some, List, [], ◌∷◌, ltb, ◌==◌,
  if◌then◌else◌,
}
use kube_greencosts.Window.{AvailabilityWindow, Calendar}

-- The four errors, each with the index of its window.
pub data WindowError : Type 0 where
  invalid_timezone invalid_from invalid_until not_before : ℕ → WindowError

abbrev default_timezone : String
default_timezone = "UTC"

abbrev pub timezone_of : AvailabilityWindow → String
timezone_of w = if w.timezone == "" then default_timezone else w.timezone

-- Two times that `parseWindowTime` gives are of one day, so their order is that of the minutes.
abbrev pub minutes : ℕ × ℕ → ℕ
minutes (hour, minute) = hour * 60 + minute

module _ (c : Calendar) where
  open c use {Location, load_location, parse_clock}

  abbrev pub check_order : ℕ → ℕ × ℕ → ℕ × ℕ → Option WindowError
  check_order i from until =
      if ltb (minutes from) (minutes until) then none else some (not_before i)

  abbrev pub check_times : ℕ → Option (ℕ × ℕ) → Option (ℕ × ℕ) → Option WindowError
  check_times i none until = some (invalid_from i)
  check_times i (some from) none = some (invalid_until i)
  check_times i (some from) (some until) = check_order i from until

  abbrev pub check_at : ℕ → AvailabilityWindow → Option Location → Option WindowError
  check_at i w none = some (invalid_timezone i)
  check_at i w (some loc) = check_times i (parse_clock loc w.from) (parse_clock loc w.until)

  -- one turn of the loop
  abbrev pub check_window : ℕ → AvailabilityWindow → Option WindowError
  check_window i w = check_at i w (load_location (timezone_of w))

  -- The loop from an index on: the first error, or none.
  unfoldable pub validate_from : ℕ → List AvailabilityWindow → Option WindowError
  validate_from i [] = none
  validate_from i (w ∷ ws) = elim (check_window i w) [
    | none ↦ validate_from (suc i) ws
    | some e ↦ some e
  ]

  abbrev pub validate_availability_windows : List AvailabilityWindow → Option WindowError
  validate_availability_windows windows = validate_from 0 windows
