-- ===== src/Price.antt =====
-- The choice of the price point at which an energy-aware job starts
-- (internal/controller/energyawarecronjob_controller.go).
pub mod Laws
pub mod Fits
pub mod Window
pub mod Order
use kube_greencosts.Prelude.{
  ℕ, zero, suc, ◌+◌, ◌-◌, String, Bool, true, false, ◌&&◌, ◌||◌, Option, none, some, List, [], ◌∷◌,
  ltb, leb, nat_eq, ◌==◌, if◌then◌else◌,
}
use kube_greencosts.Prelude.Int.{ℤ, pos, negsuc}

-- Go's `float64`: the operations that the code uses, and the order `<`, which no NaN is in.
pub record Float : Type 1 where
  pub F : Type 0
  pub zero_float : F
  pub add : F → F → F
  pub mul : F → F → F
  pub div : F → F → F
  pub of_duration : ℕ → F
  pub lt : F → F → Bool

-- The three errors of `selectPricePoint`.
pub data SelectError : Type 0 where
  no_prices unsupported_strategy no_fit : SelectError

pub data Strategy : Type 0 where
  lowest_price highest_price : Strategy

pub record PricePoint (F : Type 0) : Type 0 where
  -- in nanoseconds
  pub at : ℕ
  pub eur_per_mwh : F

pub data Selected (F : Type 0) : Type 0 where
  selected : PricePoint F → Selected F
  failed : SelectError → Selected F

-- the empty text is the default
abbrev pub strategy_of : String → Option Strategy
strategy_of s =
    if s == ""
    then some lowest_price
    else if s == "LowestPrice"
    then some lowest_price
    else if s == "HighestPrice"
    then some highest_price
    else none

module _ (float : Float) where
  open float use {F, zero_float, add, mul, div, of_duration, lt}

  -- `filterPricesInWindow`
  unfoldable pub filter_prices_in_window : List (PricePoint F) → ℕ → ℕ → List (PricePoint F)
  filter_prices_in_window [] earliest latest = []
  filter_prices_in_window (p ∷ ps) earliest latest =
      let rest = filter_prices_in_window ps earliest latest in
      if leb earliest p.at && ltb p.at latest then p ∷ rest else rest

  -- `intervalEnd`
  abbrev pub clipped : ℕ → ℕ → ℕ
  clipped next end = if ltb end next then end else next

  -- what follows the loop
  abbrev pub averaged : ℕ → F → ℕ → Option F
  averaged duration weighted covered =
      if nat_eq covered duration then some (div weighted (of_duration duration)) else none

  -- The loop of `pricePointScore` over the price points from its index on.
  unfoldable pub score_loop : List (PricePoint F) → ℕ → ℕ → F → ℕ → Option F
  score_loop [] start duration weighted covered = averaged duration weighted covered
  score_loop (p ∷ []) start duration weighted covered =
      if ltb covered duration then none else averaged duration weighted covered
  score_loop (p ∷ q ∷ qs) start duration weighted covered =
      let interval_end = clipped q.at (start + duration) in
      let span = interval_end - (start + covered) in
      let rest =
        score_loop (q ∷ qs) start duration (add weighted (mul p.eur_per_mwh (of_duration span)))
          (covered + span) in
      if ltb covered duration
      then if ltb (start + covered) p.at
        then none
        else if leb interval_end (start + covered)
        then none
        else rest
      else averaged duration weighted covered

  -- `pricePointScore`: the score of the first point of the list that is left
  abbrev pub price_point_score : PricePoint F → List (PricePoint F) → ℤ → ℕ → Option F
  price_point_score p ps (negsuc _) window_end =
      if ltb window_end p.at then none else some p.eur_per_mwh
  price_point_score p ps (pos zero) window_end =
      if ltb window_end p.at then none else some p.eur_per_mwh
  price_point_score p ps (pos (suc n)) window_end =
      if ltb window_end (p.at + suc n) then none else score_loop (p ∷ ps) p.at (suc n) zero_float 0

  abbrev pub is_better : Strategy → F → F → Bool
  is_better lowest_price score selected_score = lt score selected_score
  is_better highest_price score selected_score = lt selected_score score

  -- one turn of the loop: the point that is selected so far, and its score
  abbrev pub chosen :
      Strategy → PricePoint F → Option F → Option (PricePoint F × F) → Option (PricePoint F × F)
  chosen strategy p none so_far = so_far
  chosen strategy p (some score) none = some (p, score)
  chosen strategy p (some score) (some (q, selected_score)) =
      if is_better strategy score selected_score then some (p, score) else some (q, selected_score)

  unfoldable pub select_loop :
      Strategy → ℤ → ℕ → List (PricePoint F) → Option (PricePoint F × F) → Option (PricePoint F × F)
  select_loop strategy duration window_end [] so_far = so_far
  select_loop strategy duration window_end (p ∷ ps) so_far =
      select_loop strategy duration window_end ps
        (chosen strategy p (price_point_score p ps duration window_end) so_far)

  abbrev pub answer_of : Option (PricePoint F × F) → Selected F
  answer_of none = failed no_fit
  answer_of (some (p, score)) = selected p

  abbrev pub select_by : Option Strategy → List (PricePoint F) → ℤ → ℕ → Selected F
  select_by none prices duration window_end = failed unsupported_strategy
  select_by (some strategy) prices duration window_end =
      answer_of (select_loop strategy duration window_end prices none)

  unfoldable pub select_price_point : List (PricePoint F) → String → ℤ → ℕ → Selected F
  select_price_point [] strategy duration window_end = failed no_prices
  select_price_point (p ∷ ps) strategy duration window_end =
      select_by (strategy_of strategy) (p ∷ ps) duration window_end
