-- ===== src/PriceSource/Metrics/Latest.antt =====
-- The current price is that of the latest point that is not after now.
use mathlib.Core.List.{Memᴰ}
use kube_greencosts.Prelude.{
  ℕ, ◌≤◌, ◌<◌, ◌≡◌, refl, subst, inl, inr, false, Bool-cases, Option, none, some, List, [], ◌∷◌,
  All, ltb, ltb→lt, arith,
}
use kube_greencosts.Price.{PricePoint}
use kube_greencosts.Price.Order.{IsChronological}
use kube_greencosts.PriceSource.Metrics.{current_from, current_price_point}

not_after : (x y : ℕ) → ltb x y ≡ false → y ≤ x
not_after x y h = ground arith

module _ {F : Type 0} where
  -- `p` is one of the points, not after now, and no point that is not after now is later.
  pub record IsLatest (prices : List (PricePoint F)) (now : ℕ) (p : PricePoint F) : Type 0 where
    pub listed : Memᴰ p prices
    pub started : p.at ≤ now
    pub latest : All (λ (q : PricePoint F). q.at ≤ now → q.at ≤ p.at) prices

  -- what the loop gives from a list on
  abbrev Answers : List (PricePoint F) → ℕ → Option (PricePoint F) → Option (PricePoint F) → Type 0
  Answers prices now none none = All (λ (q : PricePoint F). now < q.at) prices
  Answers prices now none (some p) = IsLatest prices now p
  Answers prices now (some s) none = ⊥
  Answers prices now (some s) (some p) = IsLatest (s ∷ prices) now p

  all_later :
      (now : ℕ) (p : PricePoint F) (ps : List (PricePoint F))
      → now < p.at
      → All (λ (q : PricePoint F). p.at ≤ q.at) ps
      → All (λ (q : PricePoint F). now < q.at) ps
  all_later now p [] h a = tt
  all_later now p (q ∷ ps) h (b, a) = (omega (arith, h, b), all_later now p ps h a)

  none_later :
      (now : ℕ) (s : PricePoint F) (ps : List (PricePoint F))
      → All (λ (q : PricePoint F). now < q.at) ps
      → All (λ (q : PricePoint F). q.at ≤ now → q.at ≤ s.at) ps
  none_later now s [] a = tt
  none_later now s (q ∷ ps) (b, a) = (λ h. absurd (omega (arith, h, b)), none_later now s ps a)

  stopped :
      (now : ℕ) (ps : List (PricePoint F)) (so_far : Option (PricePoint F))
      → All (λ (q : PricePoint F). now < q.at) ps
      → ((s : PricePoint F) → so_far ≡ some s → s.at ≤ now)
      → Answers ps now so_far so_far
  stopped now ps none a h = a
  stopped now ps (some s) a h = record {
    listed = Memᴰ.head refl;
    started = h s refl;
    latest = (λ _. omega arith, none_later now s ps a);
  }

  moved :
      (now : ℕ) (p : PricePoint F) (ps : List (PricePoint F)) (so_far r : Option (PricePoint F))
      → p.at ≤ now
      → ((s : PricePoint F) → so_far ≡ some s → s.at ≤ p.at)
      → Answers ps now (some p) r
      → Answers (p ∷ ps) now so_far r
  moved now p ps none none below h a = absurd a
  moved now p ps (some s) none below h a = a
  moved now p ps none (some x) below h a = a
  moved now p ps (some s) (some x) below h a = record {
    listed = Memᴰ.tail a.listed;
    started = a.started;
    latest = (λ _. omega (arith, h s refl, a.latest.0 below), a.latest);
  }

  same : {a b : PricePoint F} → some a ≡ some b → a ≡ b
  same h = cc

  current_from-Answers :
      (prices : List (PricePoint F)) (now : ℕ) (so_far : Option (PricePoint F))
      → IsChronological prices
      → ((s : PricePoint F)
          → so_far ≡ some s
          → (s.at ≤ now) × All (λ (q : PricePoint F). s.at ≤ q.at) prices)
      → Answers prices now so_far (current_from prices now so_far)
  unfolding current_from
  current_from-Answers [] now so_far c h = stopped now [] so_far tt (λ s e. (h s e).0)
  current_from-Answers (p ∷ ps) now so_far c h = elim (Bool-cases (ltb now p.at)) [
    | inl later ↦ rw later (
        stopped now (p ∷ ps) so_far
          (ltb→lt now p.at later, all_later now p ps (ltb→lt now p.at later) c.0)
          (λ s e. (h s e).0))
    | inr now_or_before ↦
        let below = not_after now p.at now_or_before in
        rw now_or_before (
          moved now p ps so_far _ below (λ s e. (h s e).1.0)
            (current_from-Answers ps now (some p) c.1 (λ s e.
              subst
                (λ (x : PricePoint F). (x.at ≤ now) × All (λ (q : PricePoint F). x.at ≤ q.at) ps)
                (same e) (below, c.0))))
  ]

  -- what the answer is for a list
  abbrev pub IsCurrent : List (PricePoint F) → ℕ → Option (PricePoint F) → Type 0
  IsCurrent prices now none = All (λ (q : PricePoint F). now < q.at) prices
  IsCurrent prices now (some p) = IsLatest prices now p

  Answers-IsCurrent :
      (prices : List (PricePoint F)) (now : ℕ) (r : Option (PricePoint F))
      → Answers prices now none r
      → IsCurrent prices now r
  Answers-IsCurrent prices now none a = a
  Answers-IsCurrent prices now (some p) a = a

  -- For price points in chronological order, the current price point is one of them, is not after now,
  -- and is not earlier than any other that is not after now; and there is none only where all the
  -- points are after now.
  pub current_price_point-IsCurrent :
      (prices : List (PricePoint F)) (now : ℕ)
      → IsChronological prices
      → IsCurrent prices now (current_price_point prices now)
  current_price_point-IsCurrent prices now c =
      Answers-IsCurrent prices now _ (current_from-Answers prices now none c (λ s e. absurd (cc)))
