-- ===== src/Window/First.antt =====
-- The first start of a window in the coming week, against its description.
use kube_greencosts.Prelude.{
  ℕ, zero, suc, ◌+◌, ◌≤◌, ◌<◌, ◌≡◌, refl, sym, ◌∙◌, ap, subst, ◌⊎◌, inl, inr, true, Bool-cases,
  Option-cases, Option, none, some, arith, ltb, ltb→lt,
}
use kube_greencosts.Window.{
  AvailabilityWindow, Calendar, contains_weekday, parse_hhmm, start_if, start_on, start_within,
  next_in, next_start,
}

module _ (c : Calendar) where
  open c use {Location, load_location, weekday, add_days}

  -- In the window's time zone, the day so many days ahead is one of its weekdays, and its start on that
  -- day is the instant, which lies after `now`.
  pub record IsStart (w : AvailabilityWindow) (now days_ahead s : ℕ) : Type 0 where
    pub loc : Location
    pub loaded : load_location w.timezone ≡ some loc
    pub listed : contains_weekday w.weekdays (weekday loc (add_days loc now days_ahead)) ≡ true
    pub starts : parse_hhmm c w.from (add_days loc now days_ahead) loc ≡ some s
    pub later : now < s

  -- The start on the first day that has one, of today and the seven days after it.
  pub record IsFirstStart (w : AvailabilityWindow) (now s : ℕ) : Type 0 where
    pub day : ℕ
    pub in_week : day ≤ 7
    pub start : IsStart w now day s
    pub first : (earlier s' : ℕ) → earlier < day → IsStart w now earlier s' → ⊥

  module _ (w : AvailabilityWindow) (now : ℕ) (loc : Location)
      (loaded : load_location w.timezone ≡ some loc) where
    start_if-later :
        (from : Option ℕ) (s : ℕ) → start_if c now true from ≡ some s → (from ≡ some s) × (now < s)
    start_if-later none s = λ h. absurd (cc)
    start_if-later (some from) s = elim (Bool-cases (ltb now from)) [
      | inl later ↦ rw later (λ h.
          let same : from ≡ s = cc in (h, subst (λ (x : ℕ). now < x) same (ltb→lt now from later)))
      | inr not_later ↦ rw not_later (λ h. absurd (cc))
    ]

    start_on-IsStart :
        (days_ahead s : ℕ) → start_on c w loc now days_ahead ≡ some s → IsStart w now days_ahead s
    start_on-IsStart days_ahead s =
        elim (Bool-cases
          (contains_weekday w.weekdays (weekday loc (add_days loc now days_ahead)))) [
            | inl day ↦ rw day (λ h.
                let (starts, later) = start_if-later _ s h in
                record { loc = loc; loaded = loaded; listed = day; starts = starts; later = later })
            | inr other ↦ rw other (λ h. absurd (cc))
          ]

    same_place : (l : Location) → load_location w.timezone ≡ some l → l ≡ loc
    same_place l e = let same : some l ≡ some loc = sym e ∙ loaded in cc

    started : (from : ℕ) → now < from → start_if c now true (some from) ≡ some from
    started from h = ground (arith, h)

    IsStart-start_on :
        (days_ahead s : ℕ) → IsStart w now days_ahead s → start_on c w loc now days_ahead ≡ some s
    IsStart-start_on days_ahead s d =
        (λ i. start_on c w (sym (same_place d.loc d.loaded) i) now days_ahead)
        ∙ rw (d.listed, d.starts) (started s d.later)

    same_start :
        (days_ahead s s' : ℕ) → IsStart w now days_ahead s → IsStart w now days_ahead s' → s ≡ s'
    same_start days_ahead s s' a b =
        let same : some s ≡ some s' =
          sym (IsStart-start_on days_ahead s a) ∙ IsStart-start_on days_ahead s' b in
        cc

    -- The loop gives the start on the first day from where it begins on, or finds none.
    abbrev IsFirstFrom : ℕ → ℕ → Option ℕ → Type 0
    IsFirstFrom ahead left none =
        (day s : ℕ) → ahead ≤ day → day < ahead + left → IsStart w now day s → ⊥
    IsFirstFrom ahead left (some s) =
        (day : ℕ) × (ahead ≤ day)
        × (day < ahead + left)
        × IsStart w now day s
        × ((earlier s' : ℕ) → ahead ≤ earlier → earlier < day → IsStart w now earlier s' → ⊥)

    day_cases : (ahead day : ℕ) → ahead ≤ day → (ahead ≡ day) ⊎ (suc ahead ≤ day)
    day_cases ahead day h = ground (arith, h)

    -- a day without a start
    no_start :
        (ahead : ℕ)
        → start_on c w loc now ahead ≡ none
        → (day s : ℕ) → ahead ≡ day
        → IsStart w now day s
        → ⊥
    no_start ahead skip day s same d =
        let clash : none ≡ some s =
          sym skip ∙ IsStart-start_on ahead s (subst (λ (x : ℕ). IsStart w now x s) (sym same) d) in
        absurd (cc)

    later_first :
        (ahead left : ℕ) (r : Option ℕ)
        → start_on c w loc now ahead ≡ none
        → IsFirstFrom (suc ahead) left r
        → IsFirstFrom ahead (suc left) r
    later_first ahead left none skip f = λ day s a b d. elim (day_cases ahead day a) [
      | inl here ↦ no_start ahead skip day s here d
      | inr after ↦ f day s after (omega (arith, b)) d
    ]
    later_first ahead left (some s) skip (day, a, b, d, first) = (
      day,
      omega (arith, a),
      omega (arith, b),
      d,
      λ earlier s' from before d'. elim (day_cases ahead earlier from) [
        | inl here ↦ no_start ahead skip earlier s' here d'
        | inr after ↦ first earlier s' after before d'
      ],
    )

    start_within-IsFirstFrom :
        (ahead left : ℕ) → IsFirstFrom ahead left (start_within c w loc now ahead left)
    unfolding start_within
    start_within-IsFirstFrom ahead zero = λ day s a b d. absurd (omega (arith, a, b))
    start_within-IsFirstFrom ahead (suc left) = elim (Option-cases (start_on c w loc now ahead)) [
      | inl skip ↦
          rw (skip, start_within)
            (later_first ahead left _ skip (start_within-IsFirstFrom (suc ahead) left))
      | inr (s, found) ↦
          rw (found, start_within)
            (
              ahead,
              omega arith,
              omega arith,
              start_on-IsStart ahead s found,
              λ earlier s' from before d'. absurd (omega (arith, from, before)),
            )
    ]

  -- `next_start` finds no start in the coming week only if there is none.
  pub next_start-none :
      (w : AvailabilityWindow) (now : ℕ)
      → next_start c w now ≡ none
      → (day s : ℕ) → day ≤ 7
      → IsStart w now day s
      → ⊥
  next_start-none w now h day s in_week d =
      subst (λ (o : Option ℕ). IsFirstFrom w now d.loc d.loaded 0 8 o) (at_place d.loc d.loaded ∙ h)
        (start_within-IsFirstFrom w now d.loc d.loaded 0 8) day s (omega arith)
        (omega (arith, in_week)) d
    where
      at_place :
          (loc : Location)
          → load_location w.timezone ≡ some loc
          → start_within c w loc now 0 8 ≡ next_start c w now
      at_place loc e = rw e refl

  pub next_start-IsFirstStart :
      (w : AvailabilityWindow) (now s : ℕ) → next_start c w now ≡ some s → IsFirstStart w now s
  next_start-IsFirstStart w now s h = in_place (load_location w.timezone) refl h
    where
      in_place :
          (l : Option Location)
          → load_location w.timezone ≡ l
          → next_in c w now l ≡ some s
          → IsFirstStart w now s
      in_place none e g = absurd (cc)
      in_place (some loc) e g =
          let (day, a, b, d, first) =
            subst (λ (o : Option ℕ). IsFirstFrom w now loc e 0 8 o) g
              (start_within-IsFirstFrom w now loc e 0 8) in
          record {
            day = day;
            in_week = omega (arith, b);
            start = d;
            first = λ earlier s' before d'. first earlier s' (omega arith) before d';
          }

  -- A first start is the one that `next_start` finds.
  pub IsFirstStart-next_start :
      (w : AvailabilityWindow) (now s : ℕ) → IsFirstStart w now s → next_start c w now ≡ some s
  IsFirstStart-next_start w now s f = elim (Option-cases (next_start c w now)) [
    | inl missed ↦ absurd (next_start-none w now missed f.day s f.in_week f.start)
    | inr (s', found) ↦
        found ∙ ap some (unique s' (next_start-IsFirstStart w now s' found) (three _ _))
  ]
    where
      three : (a b : ℕ) → (a < b) ⊎ ((a ≡ b) ⊎ (b < a))
      three a b = ground arith

      unique :
          (s' : ℕ) (g : IsFirstStart w now s')
          → (f.day < g.day) ⊎ ((f.day ≡ g.day) ⊎ (g.day < f.day))
          → s' ≡ s
      unique s' g (inl before) = absurd (g.first f.day s before f.start)
      unique s' g (inr (inr after)) = absurd (f.first g.day s' after g.start)
      unique s' g (inr (inl same)) =
          same_start w now f.start.loc f.start.loaded f.day s' s
            (subst (λ (x : ℕ). IsStart w now x s') (sym same) g.start) f.start
