-- ===== src/Webhook/Laws.antt =====
-- What an admitted policy's windows are.
use mathlib.Core.List.{Memᴰ}
use kube_greencosts.Prelude.{
  ℕ, suc, ◌<◌, ◌≡◌, ◌↔◌, refl, ◌∙◌, ap, inl, inr, true, Bool-cases, Option-cases, Option, none,
  some, List, [], ◌∷◌, All, arith, eq_iff, ltb, ltb→lt, ◌==◌,
}
use kube_greencosts.Hibernate.Run.{All-mem}
use kube_greencosts.Window.{AvailabilityWindow, Calendar, parse_hhmm}
use kube_greencosts.Webhook.{
  timezone_of, minutes, check_order, check_times, check_at, check_window, validate_from,
  validate_availability_windows,
}

module _ (c : Calendar) where
  open c use {Location, load_location, parse_clock, date, at_clock}

  -- The time zone is known, both times are read, and the first is before the second.
  pub record IsValid (w : AvailabilityWindow) : Type 0 where
    pub loc : Location
    pub from : ℕ × ℕ
    pub until : ℕ × ℕ
    pub loaded : load_location (timezone_of w) ≡ some loc
    pub from_read : parse_clock loc w.from ≡ some from
    pub until_read : parse_clock loc w.until ≡ some until
    pub ordered : minutes from < minutes until

  order_valid :
      (i : ℕ) (from until : ℕ × ℕ)
      → check_order c i from until ≡ none
      → minutes from < minutes until
  order_valid i from until = elim (Bool-cases (ltb (minutes from) (minutes until))) [
    | inl yes_before ↦ λ _. ltb→lt _ _ yes_before
    | inr late ↦ rw late (λ h. absurd (cc))
  ]

  times_valid :
      (i : ℕ) (a b : Option (ℕ × ℕ))
      → check_times c i a b ≡ none
      → (from : ℕ × ℕ) × (until : ℕ × ℕ) × (a ≡ some from)
        × (b ≡ some until)
        × (minutes from < minutes until)
  times_valid i none b h = absurd (cc)
  times_valid i (some from) none h = absurd (cc)
  times_valid i (some from) (some until) h = (from, until, refl, refl, order_valid i from until h)

  check_at-IsValid :
      (i : ℕ) (w : AvailabilityWindow) (l : Option Location)
      → load_location (timezone_of w) ≡ l
      → check_at c i w l ≡ none
      → IsValid w
  check_at-IsValid i w none e h = absurd (cc)
  check_at-IsValid i w (some loc) e h =
      let (from, until, a, b, before) = times_valid i _ _ h in
      record {
        loc = loc;
        from = from;
        until = until;
        loaded = e;
        from_read = a;
        until_read = b;
        ordered = before;
      }

  lt→ltb : (a b : ℕ) → a < b → ltb a b ≡ true
  lt→ltb a b h = ground arith

  IsValid-check_window : (i : ℕ) (w : AvailabilityWindow) → IsValid w → check_window c i w ≡ none
  IsValid-check_window i w v =
      rw (v.loaded, v.from_read, v.until_read, lt→ltb (minutes v.from) (minutes v.until) v.ordered)
        refl

  validate_from-IsValid :
      (i : ℕ) (ws : List AvailabilityWindow) → validate_from c i ws ≡ none → All IsValid ws
  unfolding validate_from
  validate_from-IsValid i [] = λ _. tt
  validate_from-IsValid i (w ∷ ws) = elim (Option-cases (check_window c i w)) [
    | inl fine ↦
        rw (fine, validate_from)
          (λ h. (check_at-IsValid i w _ refl fine, validate_from-IsValid (suc i) ws h))
    | inr (e, bad) ↦ rw (bad, validate_from) (λ h. absurd (cc))
  ]

  IsValid-validate_from :
      (i : ℕ) (ws : List AvailabilityWindow) → All IsValid ws → validate_from c i ws ≡ none
  unfolding validate_from
  IsValid-validate_from i [] _ = refl
  IsValid-validate_from i (w ∷ ws) (v, vs) =
      rw (IsValid-check_window i w v, validate_from) (IsValid-validate_from (suc i) ws vs)

  -- The windows of a policy are admitted exactly when each has a known time zone, and times that are
  -- read, of which the first is before the second.
  pub validate_availability_windows-IsValid :
      (ws : List AvailabilityWindow) → (validate_availability_windows c ws ≡ none) ↔ All IsValid ws
  validate_availability_windows-IsValid ws =
      (validate_from-IsValid 0 ws, IsValid-validate_from 0 ws)

  same_zone :
      load_location "" ≡ load_location "UTC"
      → (w : AvailabilityWindow) (loc : Location) → load_location (timezone_of w) ≡ some loc
      → load_location w.timezone ≡ some loc
  same_zone utc w loc = elim (Bool-cases (w.timezone == "")) [
    | inl blank ↦ rw blank (λ e. ap load_location ((eq_iff w.timezone "").0 blank) ∙ utc ∙ e)
    | inr named ↦ rw named (λ e. e)
  ]

  -- The controllers skip none of the windows that are admitted: at any instant the time zone of each
  -- is found, and both its times of that day are. Go's `LoadLocation` reads the empty name as UTC.
  pub admitted_never_skipped :
      (ws : List AvailabilityWindow) (w : AvailabilityWindow) (now : ℕ)
      → load_location "" ≡ load_location "UTC"
      → validate_availability_windows c ws ≡ none
      → Memᴰ w ws
      → (loc : Location) × (load_location w.timezone ≡ some loc)
        × ((from : ℕ) × (parse_hhmm c w.from now loc ≡ some from))
        × ((until : ℕ) × (parse_hhmm c w.until now loc ≡ some until))
  admitted_never_skipped ws w now utc admitted m =
      let v = All-mem IsValid ws (validate_from-IsValid 0 ws admitted) m in
      (
        v.loc,
        same_zone utc w v.loc v.loaded,
        (at_clock v.loc (date v.loc now) v.from.0 v.from.1, rw v.from_read refl),
        (at_clock v.loc (date v.loc now) v.until.0 v.until.1, rw v.until_read refl),
      )
