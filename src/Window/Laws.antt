-- ===== src/Window/Laws.antt =====
-- Open windows, against their description.
use mathlib.Core.List.{Memᴰ}
use mathlib.Core.List.Memᴰ
use kube_greencosts.Prelude.{
  ℕ, ◌≤◌, ◌<◌, ◌≡◌, ◌↔◌, refl, sym, ◌∙◌, ap, inl, inr, Bool, true, Bool-cases, Option-cases, Option,
  none, some, List, [], ◌∷◌, arith,
}
use kube_greencosts.Window.{
  AvailabilityWindow, Calendar, contains_weekday, parse_hhmm, between, end_in, open_until,
  is_in_availability_window,
}

module _ (c : Calendar) where
  open c use {Location, load_location, weekday, add_days}

  -- The window has today's weekday in its time zone, and the instant lies from its start to before its
  -- end of that day.
  pub record IsOpen (w : AvailabilityWindow) (now until : ℕ) : Type 0 where
    pub loc : Location
    pub from : ℕ
    pub loaded : load_location w.timezone ≡ some loc
    pub listed : contains_weekday w.weekdays (weekday loc now) ≡ true
    pub starts : parse_hhmm c w.from now loc ≡ some from
    pub ends : parse_hhmm c w.until now loc ≡ some until
    pub not_before : from ≤ now
    pub not_after : now < until

  between_both :
      (now from u until : ℕ)
      → between c now (some from) (some u) ≡ some until
      → (u ≡ until) × (from ≤ now) × (now < until)
  between_both now from u until h = ground arith

  between-some :
      (now : ℕ) (a b : Option ℕ) (until : ℕ)
      → between c now a b ≡ some until
      → (from : ℕ) × (a ≡ some from) × (b ≡ some until) × (from ≤ now) × (now < until)
  between-some now none b until h = absurd (cc)
  between-some now (some from) none until h = absurd (cc)
  between-some now (some from) (some u) until h =
      let (same, a, b) = between_both now from u until h in (from, refl, ap some same, a, b)

  between_of :
      (now from until : ℕ)
      → from ≤ now
      → now < until
      → between c now (some from) (some until) ≡ some until
  between_of now from until a b = ground arith

  open_until-IsOpen :
      (w : AvailabilityWindow) (now until : ℕ)
      → (open_until c w now ≡ some until) ↔ IsOpen w now until
  open_until-IsOpen w now until = (to (load_location w.timezone) refl, from_open)
    where
      to :
          (l : Option Location)
          → load_location w.timezone ≡ l
          → end_in c w now l ≡ some until
          → IsOpen w now until
      to none e = λ h. absurd (cc)
      to (some loc) e = elim (Bool-cases (contains_weekday w.weekdays (weekday loc now))) [
        | inl day ↦ rw day (λ h.
            let (from, a, b, not_before, not_after) = between-some now _ _ until h in
            record {
              loc = loc;
              from = from;
              loaded = e;
              listed = day;
              starts = a;
              ends = b;
              not_before = not_before;
              not_after = not_after;
            })
        | inr other ↦ rw other (λ h. absurd (cc))
      ]

      from_open : IsOpen w now until → open_until c w now ≡ some until
      from_open o =
          rw (o.loaded, o.listed, o.starts, o.ends)
            (between_of now o.from until o.not_before o.not_after)

  -- The answer is the end of the first open window.
  found-IsOpen :
      (ws : List AvailabilityWindow) (now until : ℕ)
      → is_in_availability_window c ws now ≡ (true, until)
      → (w : AvailabilityWindow) × Memᴰ w ws × IsOpen w now until
  unfolding is_in_availability_window
  found-IsOpen [] now until = λ h. absurd (cc)
  found-IsOpen (w ∷ ws) now until = elim (Option-cases (open_until c w now)) [
    | inl shut ↦
        rw (shut, is_in_availability_window)
          (λ h. let (x, m, o) = found-IsOpen ws now until h in (x, Memᴰ.tail m, o))
    | inr (u, open_now) ↦
        rw (open_now, is_in_availability_window)
          (λ h. (
            w,
            Memᴰ.head refl,
            (open_until-IsOpen w now until).0 (open_now ∙ ap some (ap (λ (p : Bool × ℕ). p.1) h)),
          ))
  ]

  open_found :
      (ws : List AvailabilityWindow) (w : AvailabilityWindow) (now until : ℕ)
      → Memᴰ w ws
      → IsOpen w now until
      → (is_in_availability_window c ws now).0 ≡ true
  unfolding is_in_availability_window
  open_found [] w now until m o = absurd (Memᴰ.not-nil m)
  open_found (x ∷ xs) w now until m o = elim (Option-cases (open_until c x now)) [
    | inl shut ↦
        rw (shut, is_in_availability_window)
          (elim m [
            | Memᴰ.head e ↦
                let clash =
                  sym shut
                  ∙ ap (λ (y : AvailabilityWindow). open_until c y now) (sym e)
                  ∙ (open_until-IsOpen w now until).1 o in
                absurd (cc)
            | Memᴰ.tail rest ↦ open_found xs w now until rest o
          ])
    | inr (u, open_now) ↦ rw (open_now, is_in_availability_window) refl
  ]

  -- Some availability window is open, by the description of `IsOpen`, exactly when the code finds one.
  pub is_in_availability_window-IsOpen :
      (ws : List AvailabilityWindow) (now : ℕ)
      → ((is_in_availability_window c ws now).0 ≡ true)
        ↔ ((w : AvailabilityWindow) × (until : ℕ) × Memᴰ w ws × IsOpen w now until)
  is_in_availability_window-IsOpen ws now = (
    (λ h.
        let (w, m, o) =
          found-IsOpen ws now _ (λ i. (h i, (is_in_availability_window c ws now).1)) in
        (w, _, m, o)),
    λ (w, until, m, o). open_found ws w now until m o,
  )

  -- The end that the code gives with an open window is the end of one of the windows that are open,
  -- and lies after `now`.
  pub end-IsOpen :
      (ws : List AvailabilityWindow) (now : ℕ)
      → (is_in_availability_window c ws now).0 ≡ true
      → (now < (is_in_availability_window c ws now).1)
        × ((w : AvailabilityWindow) × Memᴰ w ws
            × IsOpen w now (is_in_availability_window c ws now).1)
  end-IsOpen ws now h =
      let (w, m, o) = found-IsOpen ws now _ (λ i. (h i, (is_in_availability_window c ws now).1)) in
      (o.not_after, (w, m, o))
