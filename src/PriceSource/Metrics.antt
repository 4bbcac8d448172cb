-- ===== src/PriceSource/Metrics.antt =====
-- The metrics of EnergyPriceSources (internal/controller/energypricesource_metrics.go).
pub mod Latest
use kube_greencosts.Prelude.{
  ℕ, ◌+◌, ◌/◌, String, Bool, true, false, Option, none, some, List, [], ◌∷◌, ◌++◌, length, ltb,
  if◌then◌else◌,
}
use kube_greencosts.Prelude.Int.{ℤ}
use kube_greencosts.Cluster.{Error, Result, ok, err}
use kube_greencosts.Price.{PricePoint}
use kube_greencosts.EnergyJob.Naming.{unix}
use kube_greencosts.PriceSource.{EnergyPriceSource}

-- The loop of `currentPricePoint`, with the point that is current so far.
unfoldable pub current_from :
    {F : Type 0} → List (PricePoint F) → ℕ → Option (PricePoint F) → Option (PricePoint F)
current_from [] now so_far = so_far
current_from (p ∷ ps) now so_far =
    let rest = current_from ps now (some p) in if ltb now p.at then so_far else rest

-- `currentPricePoint`
abbrev pub current_price_point : {F : Type 0} → List (PricePoint F) → ℕ → Option (PricePoint F)
current_price_point prices now = current_from prices now none

-- the values of the labels
pub record Labels : Type 0 where
  pub namespace : String
  pub name : String
  pub provider : String
  pub bidding_zone : String

-- The series that are sent: of one source, or the error of the listing.
pub data Metric (F : Type 0) : Type 0 where
  info : Labels → Metric F
  price_points : Labels → ℕ → Metric F
  last_updated : Labels → ℤ → Metric F
  current_price : Labels → F → Metric F
  invalid : Error → Metric F

abbrev pub labels_of : {F : Type 0} → EnergyPriceSource F → Labels
labels_of eps = record {
  namespace = eps.namespace;
  name = eps.name;
  provider = eps.spec.provider;
  bidding_zone = eps.spec.bidding_zone;
}

abbrev pub updated_series : {F : Type 0} → Labels → Option ℕ → List (Metric F)
updated_series labels none = []
updated_series labels (some t) = last_updated labels (unix t) ∷ []

abbrev pub price_series : {F : Type 0} → Labels → Option (PricePoint F) → List (Metric F)
price_series labels none = []
price_series labels (some p) = current_price labels p.eur_per_mwh ∷ []

abbrev pub source_series : {F : Type 0} → EnergyPriceSource F → ℕ → List (Metric F)
source_series eps now =
    info (labels_of eps)
    ∷ price_points (labels_of eps) (length eps.prices)
    ∷ (updated_series (labels_of eps) eps.last_updated
        ++ price_series (labels_of eps) (current_price_point eps.prices now))

unfoldable pub all_series : {F : Type 0} → List (EnergyPriceSource F) → ℕ → List (Metric F)
all_series [] now = []
all_series (eps ∷ sources) now = source_series eps now ++ all_series sources now

module _ {F World : Type 0} (list_sources : World → Result (List (EnergyPriceSource F)) × World)
    (clock : World → ℕ × World) where
  abbrev pub collected : Result (List (EnergyPriceSource F)) → World → List (Metric F) × World
  collected (err e) w = (invalid e ∷ [], w)
  collected (ok sources) w = let (now, w1) = clock w in (all_series sources now, w1)

  -- `Collect`, with a reader that is not nil
  unfoldable pub collect : World → List (Metric F) × World
  collect w = collected (list_sources w).0 (list_sources w).1
