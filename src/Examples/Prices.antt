-- ===== src/Examples/Prices.antt =====
-- The choice of a price point among a few.
use mathlib.Core.List.{Memᴰ}
use kube_greencosts.Prelude.{
  ℕ, ◌+◌, ◌*◌, ◌/◌, ◌≤◌, ◌<◌, ◌≡◌, refl, true, false, List, [], ◌∷◌, All, arith, ltb,
}
use kube_greencosts.Prelude.Int.{pos}
use kube_greencosts.Price.{
  Float, lowest_price, PricePoint, selected, filter_prices_in_window, score_loop, is_better,
  select_loop, select_price_point,
}
use kube_greencosts.Price.Laws.{FloatOrder, scores, selected_is_best}
use kube_greencosts.Price.Fits.{selected_fits}
use kube_greencosts.Price.Window.{selected_ends_before}

-- Whole numbers in the place of floating-point ones.
abbrev pub whole : Float
whole = record {
  F = ℕ;
  zero_float = 0;
  add = λ a b. a + b;
  mul = λ a b. a * b;
  div = λ a b. a / b;
  of_duration = λ n. n;
  lt = ltb;
}

asymmetric_ltb : (a b : ℕ) → ltb a b ≡ true → ltb b a ≡ false
asymmetric_ltb a b h = ground arith

transitive_ltb : (a b c : ℕ) → ltb a b ≡ false → ltb b c ≡ false → ltb a c ≡ false
transitive_ltb a b c h g = ground arith

abbrev whole-FloatOrder : FloatOrder whole
whole-FloatOrder = record {
  IsNumber = λ _. Unit;
  asymmetric = asymmetric_ltb;
  transitive = λ a b c _ _ _. transitive_ltb a b c;
}

abbrev pub point : ℕ → ℕ → PricePoint ℕ
point at price = record { at = at; eur_per_mwh = price }

abbrev prices : List (PricePoint ℕ)
prices = point 0 30 ∷ point 10 10 ∷ point 20 20 ∷ point 30 5 ∷ []

selects :
    select_price_point whole (filter_prices_in_window whole prices 0 30) "LowestPrice" (pos 10) 30
    ≡ selected (point 10 10)
unfolding select_price_point filter_prices_in_window select_loop score_loop
selects = refl

selects_all : select_price_point whole prices "" (pos 10) 40 ≡ selected (point 10 10)
unfolding select_price_point select_loop score_loop
selects_all = refl

all_numbers :
    All (λ (r : PricePoint ℕ × ℕ). whole-FloatOrder.IsNumber r.1) (scores whole prices (pos 10) 40)
unfolding score_loop
all_numbers = (tt, (tt, (tt, tt)))

selected_is_best_example :
    (score : ℕ) × Memᴰ (point 10 10, score) (scores whole prices (pos 10) 40)
    × All
        (λ (r : PricePoint ℕ × ℕ). is_better whole lowest_price r.1 score ≡ false)
        (scores whole prices (pos 10) 40)
selected_is_best_example =
    selected_is_best whole whole-FloatOrder lowest_price prices "" (pos 10) 40 (point 10 10) refl
      all_numbers selects_all

selected_fits_example :
    Memᴰ (point 10 10) prices × (20 ≤ 40) × ((q : PricePoint ℕ) × Memᴰ q prices × (20 ≤ q.at))
selected_fits_example = selected_fits whole prices "" 9 40 (point 10 10) selects_all

selected_ends_before_example : (0 ≤ 10) × (20 < 30)
selected_ends_before_example =
    selected_ends_before whole prices "LowestPrice" 9 0 30 (point 10 10) selects
