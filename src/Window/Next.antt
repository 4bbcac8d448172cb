-- ===== src/Window/Next.antt =====
-- The next start of a window is the least of the windows' first starts (nextAvailabilityWindowStart).
use mathlib.Core.List.{Memᴰ}
use mathlib.Core.List.Memᴰ
use kube_greencosts.Prelude.{
  ℕ, zero, suc, ◌≤◌, ◌<◌, ◌≡◌, ◌≢◌, refl, sym, ◌∙◌, ap, subst, ◌⊎◌, inl, inr, Bool, true, false,
  Option-cases, Option, none, some, List, [], ◌∷◌, arith,
}
use kube_greencosts.Window.{
  AvailabilityWindow, Calendar, start_if, start_on, start_within, next_in, next_start, earlier,
  earliest_start, next_availability_window_start,
}
use kube_greencosts.Window.First.{
  IsStart, IsFirstStart, next_start-none, next_start-IsFirstStart, IsFirstStart-next_start,
}

module _ (c : Calendar) where
  open c use {Location}

  -- A start lies after `now`.
  start_if-after :
      (now : ℕ) (b : Bool) (from : Option ℕ) (s : ℕ) → start_if c now b from ≡ some s → now < s
  start_if-after now false from s h = absurd (cc)
  start_if-after now true none s h = absurd (cc)
  start_if-after now true (some from) s h = ground arith

  start_within-after :
      (w : AvailabilityWindow) (loc : Location) (now ahead left s : ℕ)
      → start_within c w loc now ahead left ≡ some s
      → now < s
  unfolding start_within
  start_within-after w loc now ahead zero s = λ h. absurd (cc)
  start_within-after w loc now ahead (suc left) s =
      elim (Option-cases (start_on c w loc now ahead)) [
        | inl skip ↦ rw (skip, start_within) (start_within-after w loc now (suc ahead) left s)
        | inr (from, found) ↦ rw (found, start_within) (λ h. start_if-after now _ _ s (found ∙ h))
      ]

  next_in-after :
      (w : AvailabilityWindow) (now : ℕ) (l : Option Location) (s : ℕ)
      → next_in c w now l ≡ some s
      → now < s
  next_in-after w now none s h = absurd (cc)
  next_in-after w now (some loc) s h = start_within-after w loc now 0 8 s h

  -- A list of windows, an earliest start so far, and the answer.
  pub record IsLeast (ws : List AvailabilityWindow) (now e t : ℕ) : Type 0 where
    pub one : (t ≡ e) ⊎ ((w : AvailabilityWindow) × Memᴰ w ws × (next_start c w now ≡ some t))
    pub below : (e ≡ 0) ⊎ ((t ≤ e) × (t ≢ 0))
    pub least :
        (w : AvailabilityWindow) (s : ℕ)
        → Memᴰ w ws
        → next_start c w now ≡ some s
        → (t ≤ s) × (t ≢ 0)

  earlier_cases :
      (e from : ℕ)
      → ((earlier c e (some from) ≡ from) × ((e ≡ 0) ⊎ (from < e)))
        ⊎ ((earlier c e (some from) ≡ e) × (e ≢ 0) × (e ≤ from))
  earlier_cases e from = ground arith

  same_start : {a b : ℕ} → some a ≡ some b → a ≡ b
  same_start h = cc

  -- the earliest start so far, with one more that is not zero
  earlier_lem :
      (e from t : ℕ)
      → 0 < from
      → (earlier c e (some from) ≡ 0) ⊎ ((t ≤ earlier c e (some from)) × (t ≢ 0))
      → (t ≤ from) × (t ≢ 0) × ((e ≡ 0) ⊎ ((t ≤ e) × (t ≢ 0)))
  earlier_lem e from t h below = ground arith

  IsLeast-cons :
      (x : AvailabilityWindow) (xs : List AvailabilityWindow) (now e t : ℕ) (next : Option ℕ)
      → next_start c x now ≡ next
      → IsLeast xs now (earlier c e next) t
      → IsLeast (x ∷ xs) now e t
  IsLeast-cons x xs now e t none h r = record {
    one = elim r.one [ inl same ↦ inl same | inr (w, m, f) ↦ inr (w, Memᴰ.tail m, f) ];
    below = r.below;
    least = λ w s m f. elim m [
      | Memᴰ.head same ↦
          let clash = sym h ∙ ap (λ (y : AvailabilityWindow). next_start c y now) (sym same) ∙ f in
          absurd (cc)
      | Memᴰ.tail rest ↦ r.least w s rest f
    ];
  }
  IsLeast-cons x xs now e t (some from) h r =
      let after = next_in-after x now _ from h in
      let (least, not_zero, below) = earlier_lem e from t (omega (arith, after)) r.below in
      record {
        one = elim r.one [
          | inl same ↦ elim (earlier_cases e from) [
            | inl (new, _) ↦ inr (x, Memᴰ.head refl, h ∙ ap some (sym (same ∙ new)))
            | inr (old, _, _) ↦ inl (same ∙ old)
          ]
          | inr (w, m, f) ↦ inr (w, Memᴰ.tail m, f)
        ];
        below = below;
        least = λ w s m f. elim m [
          | Memᴰ.head same ↦ (
            subst (λ (v : ℕ). t ≤ v)
                (same_start
                  (sym h ∙ ap (λ (y : AvailabilityWindow). next_start c y now) (sym same) ∙ f))
                least,
            not_zero,
          )
          | Memᴰ.tail rest ↦ r.least w s rest f
        ];
      }

  IsLeast-earliest_start :
      (ws : List AvailabilityWindow) (now e : ℕ) → IsLeast ws now e (earliest_start c ws now e)
  unfolding earliest_start
  IsLeast-earliest_start [] now e = record {
    one = inl refl;
    below = ground arith;
    least = λ w s m. absurd (Memᴰ.not-nil m);
  }
  IsLeast-earliest_start (x ∷ xs) now e =
      IsLeast-cons x xs now e _ _ refl
        (IsLeast-earliest_start xs now (earlier c e (next_start c x now)))

  -- The next start is zero, and no window has a start after `now` on any day from today to a week ahead;
  -- or it lies after `now`, is the first start of one of the windows in these days, and is no later than
  -- the first start of any other.
  pub next_is_least :
      (ws : List AvailabilityWindow) (now : ℕ)
      → let next = next_availability_window_start c ws now in
        ((next ≡ 0)
          × ((w : AvailabilityWindow) (day s : ℕ)
              → Memᴰ w ws
              → day ≤ 7
              → IsStart c w now day s
              → ⊥))
        ⊎ ((now < next)
            × ((w : AvailabilityWindow) × Memᴰ w ws × IsFirstStart c w now next)
            × ((w : AvailabilityWindow) (s : ℕ) → Memᴰ w ws → IsFirstStart c w now s → next ≤ s))
  next_is_least ws now = elim r.one [
    | inl unset ↦ inl (
      unset,
      λ w day s m. elim (Option-cases (next_start c w now)) [
        | inl skip ↦ next_start-none c w now skip day s
        | inr (s', found) ↦ absurd ((r.least w s' m found).1 unset)
      ],
    )
    | inr (w, m, found) ↦ inr (
      next_in-after w now _ _ found,
      (w, m, next_start-IsFirstStart c w now _ found),
      λ x s n f. (r.least x s n (IsFirstStart-next_start c x now s f)).0,
    )
  ]
    where
      r : IsLeast ws now 0 (next_availability_window_start c ws now)
      r = IsLeast-earliest_start ws now 0
