-- ===== src/Price/Order.antt =====
-- Price points in the order of their times.
use kube_greencosts.Prelude.{◌≤◌, List, [], ◌∷◌, All}
use kube_greencosts.Price.{PricePoint}

module _ {F : Type 0} where
  -- Every point is not before the ones ahead of it.
  abbrev pub IsChronological : List (PricePoint F) → Type 0
  IsChronological [] = Unit
  IsChronological (p ∷ ps) = All (λ (q : PricePoint F). p.at ≤ q.at) ps × IsChronological ps
