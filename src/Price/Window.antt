-- ===== src/Price/Window.antt =====
-- The choice among the price points of a window.
use mathlib.Core.List.{Memᴰ}
use mathlib.Core.List.Memᴰ
use kube_greencosts.Prelude.{
  ℕ, suc, ◌+◌, ◌≤◌, ◌<◌, String, ◌≡◌, sym, subst, inl, inr, true, ◌&&◌, Bool-cases, List, [], ◌∷◌,
  arith, ltb, leb,
}
use kube_greencosts.Prelude.Int.{pos}
use kube_greencosts.Price.{Float, PricePoint, selected, filter_prices_in_window, select_price_point}
use kube_greencosts.Price.Fits.{selected_fits}

module _ (float : Float) where
  open float use {F}

  filtered :
      (ps : List (PricePoint F)) (earliest latest : ℕ) (q : PricePoint F)
      → Memᴰ q (filter_prices_in_window float ps earliest latest)
      → (earliest ≤ q.at) × (q.at < latest)
  unfolding filter_prices_in_window
  filtered [] earliest latest q = λ m. absurd (Memᴰ.not-nil m)
  filtered (x ∷ xs) earliest latest q = elim (Bool-cases (leb earliest x.at && ltb x.at latest)) [
    | inl inside ↦
        rw (inside, filter_prices_in_window)
          (λ m. elim m [
            | Memᴰ.head e ↦
                subst (λ (y : PricePoint F). (earliest ≤ y.at) × (y.at < latest)) (sym e)
                  (bounds x.at inside)
            | Memᴰ.tail rest ↦ filtered xs earliest latest q rest
          ])
    | inr outside ↦ rw (outside, filter_prices_in_window) (filtered xs earliest latest q)
  ]
    where
      bounds : (t : ℕ) → leb earliest t && ltb t latest ≡ true → (earliest ≤ t) × (t < latest)
      bounds t h = ground arith

  -- A point of the window is one of those given.
  pub filtered-Mem :
      (ps : List (PricePoint F)) (earliest latest : ℕ) (q : PricePoint F)
      → Memᴰ q (filter_prices_in_window float ps earliest latest)
      → Memᴰ q ps
  unfolding filter_prices_in_window
  filtered-Mem [] earliest latest q = λ m. m
  filtered-Mem (x ∷ xs) earliest latest q =
      elim (Bool-cases (leb earliest x.at && ltb x.at latest)) [
        | inl inside ↦
            rw (inside, filter_prices_in_window)
              (λ m. elim m [
                | Memᴰ.head e ↦ Memᴰ.head e
                | Memᴰ.tail rest ↦ Memᴰ.tail (filtered-Mem xs earliest latest q rest)
              ])
        | inr outside ↦
            rw (outside, filter_prices_in_window)
              (λ m. Memᴰ.tail (filtered-Mem xs earliest latest q m))
      ]

  -- From the price points of a window, for a positive estimated duration, the one that is selected is
  -- not before the window, and the duration from it on ends before the window ends: a job that would
  -- end with the window is never selected.
  pub selected_ends_before :
      (prices : List (PricePoint F)) (text : String) (n earliest latest : ℕ) (p : PricePoint F)
      → select_price_point float
          (filter_prices_in_window float prices earliest latest)
          text
          (pos (suc n))
          latest
        ≡ selected p
      → (earliest ≤ p.at) × (p.at + suc n < latest)
  selected_ends_before prices text n earliest latest p e =
      let (m, _, (q, there, covers)) =
        selected_fits float (filter_prices_in_window float prices earliest latest) text n latest p
          e in
      let (not_before, _) = filtered prices earliest latest p m in
      let (_, inside) = filtered prices earliest latest q there in
      (not_before, omega (arith, covers, inside))
