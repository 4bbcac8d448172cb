-- ===== src/Price/Fits.antt =====
-- Where the price point that is selected lies, and what the price points after it cover.
use mathlib.Core.List.{Memᴰ}
use mathlib.Core.List.Memᴰ
use kube_greencosts.Prelude.{
  ℕ, suc, ◌+◌, ◌-◌, ◌≤◌, ◌<◌, String, ◌≡◌, refl, sym, ap, subst, ◌⊎◌, inl, inr, true, false,
  Bool-cases, Option, none, some, List, [], ◌∷◌, arith, ltb, leb, ltb→lt,
}
use kube_greencosts.Prelude.Int.{ℤ, pos}
use kube_greencosts.Price.{
  Float, Strategy, PricePoint, selected, strategy_of, clipped, score_loop, price_point_score,
  is_better, chosen, select_loop, answer_of, select_by, select_price_point,
}
use kube_greencosts.Price.Laws.{scores, with_score, answered}

module _ (float : Float) where
  open float use {F}

  -- an interval that ends the estimated duration ends with a price point after it
  last_interval :
      (next start duration covered : ℕ)
      → covered < duration
      → leb (clipped float next (start + duration)) (start + covered) ≡ false
      → ltb (covered + (clipped float next (start + duration) - (start + covered))) duration ≡ false
      → start + duration ≤ next
  last_interval next start duration covered a b c = ground arith

  score_loop-covers :
      (p : PricePoint F) (ps : List (PricePoint F)) (start duration : ℕ) (weighted : F)
      (covered : ℕ) (s : F)
      → ltb covered duration ≡ true
      → score_loop float (p ∷ ps) start duration weighted covered ≡ some s
      → (q : PricePoint F) × Memᴰ q ps × (start + duration ≤ q.at)
  unfolding score_loop
  score_loop-covers p [] start duration weighted covered s below =
      rw (below, score_loop) (λ h. absurd (cc))
  score_loop-covers p (q ∷ qs) start duration weighted covered s below =
      rw (below, score_loop)
        (elim (Bool-cases (ltb (start + covered) p.at)) [
          | inl gap ↦ rw gap (λ h. absurd (cc))
          | inr no_gap ↦
              rw no_gap
                (elim (Bool-cases (leb (clipped float q.at (start + duration)) (start + covered))) [
                  | inl empty ↦ rw empty (λ h. absurd (cc))
                  | inr some_span ↦ rw some_span (λ h.
                      elim (Bool-cases (
                        ltb (covered + (clipped float q.at (start + duration) - (start + covered)))
                          duration)) [
                            | inl more ↦
                                let (x, m, e) =
                                  score_loop-covers q qs start duration _ _ s more h in
                                (x, Memᴰ.tail m, e)
                            | inr ended ↦ (
                              q,
                              Memᴰ.head refl,
                              last_interval q.at start duration covered
                                  (ltb→lt covered duration below) some_span ended,
                            )
                          ])
                ])
        ])

  score-covers :
      (p : PricePoint F) (ps : List (PricePoint F)) (n window_end : ℕ) (s : F)
      → price_point_score float p ps (pos (suc n)) window_end ≡ some s
      → (p.at + suc n ≤ window_end) × ((q : PricePoint F) × Memᴰ q ps × (p.at + suc n ≤ q.at))
  score-covers p ps n window_end s = elim (Bool-cases (ltb window_end (p.at + suc n))) [
    | inl late ↦ rw late (λ h. absurd (cc))
    | inr in_time ↦ rw in_time (λ h. (
      not_late window_end (p.at + suc n) in_time,
      score_loop-covers p ps p.at (suc n) _ 0 s (positive n) h,
    ))
  ]
    where
      not_late : (a b : ℕ) → ltb a b ≡ false → b ≤ a
      not_late a b h = ground arith

      positive : (m : ℕ) → ltb 0 (suc m) ≡ true
      positive m = ground arith

  -- A scored point is a point of the list, scored on the points after it.
  abbrev Covers : List (PricePoint F) → PricePoint F → ℕ → ℕ → Type 0
  Covers prices p n window_end =
      Memᴰ p prices
      × (p.at + suc n ≤ window_end)
      × ((q : PricePoint F) × Memᴰ q prices × (p.at + suc n ≤ q.at))

  inj : {a b : PricePoint F × F} → some a ≡ some b → a ≡ b
  inj h = cc

  Covers-tail :
      (x p : PricePoint F) (prices : List (PricePoint F)) (n window_end : ℕ)
      → Covers prices p n window_end
      → Covers (x ∷ prices) p n window_end
  Covers-tail x p prices n window_end (m, fits, (q, there, covers)) =
      (Memᴰ.tail m, fits, (q, Memᴰ.tail there, covers))

  Covers-first :
      (x : PricePoint F) (xs : List (PricePoint F)) (n window_end : ℕ) (score : F)
      → price_point_score float x xs (pos (suc n)) window_end ≡ some score
      → Covers (x ∷ xs) x n window_end
  Covers-first x xs n window_end score e =
      let (fits, (q, m, covers)) = score-covers x xs n window_end score e in
      (Memᴰ.head refl, fits, (q, Memᴰ.tail m, covers))

  Covers-cons :
      (x : PricePoint F) (xs : List (PricePoint F)) (n window_end : ℕ) (p : PricePoint F) (s : F)
      (o : Option F)
      → price_point_score float x xs (pos (suc n)) window_end ≡ o
      → (Memᴰ (p, s) (scores float xs (pos (suc n)) window_end) → Covers xs p n window_end)
      → Memᴰ (p, s) (with_score float x o (scores float xs (pos (suc n)) window_end))
      → Covers (x ∷ xs) p n window_end
  Covers-cons x xs n window_end p s none e rest m = Covers-tail x p xs n window_end (rest m)
  Covers-cons x xs n window_end p s (some score) e rest m = elim m [
    | Memᴰ.head same ↦
        subst (λ (y : PricePoint F). Covers (x ∷ xs) y n window_end)
          (sym (ap (λ (r : PricePoint F × F). r.0) same)) (Covers-first x xs n window_end score e)
    | Memᴰ.tail later ↦ Covers-tail x p xs n window_end (rest later)
  ]

  scores-Covers :
      (prices : List (PricePoint F)) (n window_end : ℕ) (p : PricePoint F) (s : F)
      → Memᴰ (p, s) (scores float prices (pos (suc n)) window_end)
      → Covers prices p n window_end
  scores-Covers [] n window_end p s m = absurd (Memᴰ.not-nil m)
  scores-Covers (x ∷ xs) n window_end p s m =
      Covers-cons x xs n window_end p s _ refl (scores-Covers xs n window_end p s) m

  module _ (strategy : Strategy) (duration : ℤ) (window_end : ℕ) where
    chosen-from :
        (p : PricePoint F) (score : Option F) (listed : List (PricePoint F × F))
        (so_far : Option (PricePoint F × F)) (q : PricePoint F × F)
        → Memᴰ q listed ⊎ (chosen float strategy p score so_far ≡ some q)
        → Memᴰ q (with_score float p score listed) ⊎ (so_far ≡ some q)
    chosen-from p none listed so_far q h = h
    chosen-from p (some score) listed so_far q (inl m) = inl (Memᴰ.tail m)
    chosen-from p (some score) listed none q (inr e) = inl (Memᴰ.head (sym (inj e)))
    chosen-from p (some score) listed (some r) q (inr e) =
        elim (Bool-cases (is_better float strategy score r.1)) [
          | inl better ↦ inl (Memᴰ.head (sym (inj (rw better at e))))
          | inr worse ↦ inr (rw worse at e)
        ]

    select_loop-from :
        (ps : List (PricePoint F)) (so_far : Option (PricePoint F × F)) (q : PricePoint F × F)
        → select_loop float strategy duration window_end ps so_far ≡ some q
        → Memᴰ q (scores float ps duration window_end) ⊎ (so_far ≡ some q)
    unfolding select_loop
    select_loop-from [] so_far q e = inr e
    select_loop-from (p ∷ ps) so_far q e = chosen-from p _ _ so_far q (select_loop-from ps _ q e)

    select_loop-scored :
        (prices : List (PricePoint F)) (p : PricePoint F)
        → answer_of float (select_loop float strategy duration window_end prices none) ≡ selected p
        → (score : F) × Memᴰ (p, score) (scores float prices duration window_end)
    select_loop-scored prices p e =
        let (score, loop) = answered float _ p e in
        (
          score,
          elim (select_loop-from prices none (p, score) loop) [
            | inl listed ↦ listed
            | inr before ↦ absurd (cc)
          ],
        )

  select_by-scored :
      (o : Option Strategy) (prices : List (PricePoint F)) (duration : ℤ) (window_end : ℕ)
      (p : PricePoint F)
      → select_by float o prices duration window_end ≡ selected p
      → (score : F) × Memᴰ (p, score) (scores float prices duration window_end)
  select_by-scored none prices duration window_end p e = absurd (cc)
  select_by-scored (some strategy) prices duration window_end p e =
      select_loop-scored strategy duration window_end prices p e

  -- For a positive estimated duration, a price point that is selected is one of those given, the
  -- duration from it on ends by the end of the window, and one of the price points given lies at or
  -- after that end.
  pub selected_fits :
      (prices : List (PricePoint F)) (text : String) (n window_end : ℕ) (p : PricePoint F)
      → select_price_point float prices text (pos (suc n)) window_end ≡ selected p
      → Memᴰ p prices
        × (p.at + suc n ≤ window_end)
        × ((q : PricePoint F) × Memᴰ q prices × (p.at + suc n ≤ q.at))
  unfolding select_price_point
  selected_fits [] text n window_end p e = absurd (cc)
  selected_fits (x ∷ xs) text n window_end p e =
      let (score, m) = select_by-scored (strategy_of text) (x ∷ xs) (pos (suc n)) window_end p e in
      scores-Covers (x ∷ xs) n window_end p score m
