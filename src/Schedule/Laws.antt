-- ===== src/Schedule/Laws.antt =====
-- The occurrence that is chosen is the first that is not past the deadline.
use kube_greencosts.Prelude.{
  ℕ, zero, suc, ◌≤◌, ◌<◌, ◌≡◌, sym, ◌∙◌, ap, inl, inr, true, false, Bool-cases, none, some, arith,
}
use kube_greencosts.Prelude.Int.{ℤ, pos, ltℤ}
use kube_greencosts.Schedule.{deadline_of, missed_limit, skip_missed, next_schedule_time}

module _ (next : ℕ → ℕ) where
  -- The occurrences from an instant on.
  abbrev pub occurrence : ℕ → ℕ → ℕ
  occurrence t zero = t
  occurrence t (suc i) = occurrence (next t) i

  -- The first of the occurrences from `t` on, of so many, that is not past the deadline.
  pub record IsFirst (deadline : ℤ) (t turns found : ℕ) : Type 0 where
    pub index : ℕ
    pub in_turns : index ≤ turns
    pub reached : found ≡ occurrence t index
    pub not_past : ltℤ (pos found) deadline ≡ false
    pub past : (i : ℕ) → i < index → ltℤ (pos (occurrence t i)) deadline ≡ true

  IsFirst-now :
      (deadline : ℤ) (t turns found : ℕ)
      → ltℤ (pos t) deadline ≡ false
      → t ≡ found
      → IsFirst deadline t turns found
  IsFirst-now deadline t turns found h e = record {
    index = 0;
    in_turns = omega arith;
    reached = sym e;
    not_past = sym (ap (λ (x : ℕ). ltℤ (pos x) deadline) e) ∙ h;
    past = λ i below. absurd (omega (arith, below));
  }

  past-cons :
      (deadline : ℤ) (t index : ℕ)
      → ltℤ (pos t) deadline ≡ true
      → ((i : ℕ) → i < index → ltℤ (pos (occurrence (next t) i)) deadline ≡ true)
      → (i : ℕ) → i < suc index
      → ltℤ (pos (occurrence t i)) deadline ≡ true
  past-cons deadline t index h rest zero below = h
  past-cons deadline t index h rest (suc i) below = rest i (omega (arith, below))

  IsFirst-later :
      (deadline : ℤ) (t turns found : ℕ)
      → ltℤ (pos t) deadline ≡ true
      → IsFirst deadline (next t) turns found
      → IsFirst deadline t (suc turns) found
  IsFirst-later deadline t turns found h f = record {
    index = suc f.index;
    in_turns = let b = f.in_turns in omega (arith, b);
    reached = f.reached;
    not_past = f.not_past;
    past = past-cons deadline t f.index h f.past;
  }

  same : {a b : ℕ} → some a ≡ some b → a ≡ b
  same h = cc

  skip_missed-IsFirst :
      (deadline : ℤ) (turns t found : ℕ)
      → skip_missed next deadline turns t ≡ some found
      → IsFirst deadline t turns found
  unfolding skip_missed
  skip_missed-IsFirst deadline zero t found = elim (Bool-cases (ltℤ (pos t) deadline)) [
    | inl past ↦ rw (past, skip_missed) (λ h. absurd (cc))
    | inr here ↦ rw (here, skip_missed) (λ h. IsFirst-now deadline t zero found here (same h))
  ]
  skip_missed-IsFirst deadline (suc turns) t found = elim (Bool-cases (ltℤ (pos t) deadline)) [
    | inl past ↦
        rw (past, skip_missed)
          (λ h.
            IsFirst-later deadline t turns found past
              (skip_missed-IsFirst deadline turns (next t) found h))
    | inr here ↦
        rw (here, skip_missed) (λ h. IsFirst-now deadline t (suc turns) found here (same h))
  ]

  skip_missed-none :
      (deadline : ℤ) (turns t : ℕ)
      → skip_missed next deadline turns t ≡ none
      → (i : ℕ) → i ≤ turns
      → ltℤ (pos (occurrence t i)) deadline ≡ true
  unfolding skip_missed
  skip_missed-none deadline zero t = elim (Bool-cases (ltℤ (pos t) deadline)) [
    | inl past ↦ λ _ i below.
        past-cons deadline t zero past (λ j b. absurd (omega (arith, b))) i (omega (arith, below))
    | inr here ↦ rw (here, skip_missed) (λ h. absurd (cc))
  ]
  skip_missed-none deadline (suc turns) t = elim (Bool-cases (ltℤ (pos t) deadline)) [
    | inl past ↦
        rw (past, skip_missed)
          (λ h i below.
            past-cons deadline t (suc turns) past
              (λ j b. skip_missed-none deadline turns (next t) h j (omega (arith, b))) i
              (omega (arith, below)))
    | inr here ↦ rw (here, skip_missed) (λ h. absurd (cc))
  ]

  -- With a starting deadline, the time that is given is the first occurrence after the last run that
  -- is not before the deadline, and it is one of the first 101 occurrences.
  pub next_schedule_time-IsFirst :
      (last_run now : ℕ) (seconds : ℤ) (found : ℕ)
      → next_schedule_time next last_run now (some seconds) ≡ some found
      → IsFirst (deadline_of now seconds) (next last_run) missed_limit found
  next_schedule_time-IsFirst last_run now seconds found e =
      skip_missed-IsFirst _ missed_limit _ found e

  -- With a starting deadline, the error of too many missed occurrences is given only where the first
  -- 101 occurrences after the last run are all before the deadline.
  pub next_schedule_time-none :
      (last_run now : ℕ) (seconds : ℤ) (i : ℕ)
      → next_schedule_time next last_run now (some seconds) ≡ none
      → i ≤ missed_limit
      → ltℤ (pos (occurrence (next last_run) i)) (deadline_of now seconds) ≡ true
  next_schedule_time-none last_run now seconds i e below =
      skip_missed-none _ missed_limit _ e i below
