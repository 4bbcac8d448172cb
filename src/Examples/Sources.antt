-- ===== src/Examples/Sources.antt =====
-- The price source of the desk, refreshed.
use kube_greencosts.Prelude.{ℕ, ◌+◌, ◌*◌, ◌≡◌, refl, none, some, List, [], ◌∷◌, arith}
use kube_greencosts.Prelude.Int.{pos}
use kube_greencosts.Strconv.{itoa}
use kube_greencosts.Price.{PricePoint}
use kube_greencosts.Price.Order.{IsChronological}
use kube_greencosts.Provider.{fetched}
use kube_greencosts.Provider.Order.{custom_sorts, fetched_in_order}
use kube_greencosts.Provider.Custom.{convert_each, convert_intervals, fetch_custom}
use kube_greencosts.Provider.Registry.{
  custom_provider, ProviderSpec, registered, get_provider, fetch_prices,
}
use kube_greencosts.PriceSource.{
  EnergyPriceSource, token, resolve_token, set_error_condition, updated, refresh, at_fire,
  past_cache, reconcile_source,
}
use kube_greencosts.PriceSource.Laws.{IsSound, whole_seconds}
use kube_greencosts.EnergyJob.Run.{Requeue, done}
use kube_greencosts.PriceSource.Stored.{first_prices_stored}
use kube_greencosts.PriceSource.Sound.{prices_kept_or_fetched}
use kube_greencosts.PriceSource.Metrics.{current_from, current_price_point}
use kube_greencosts.PriceSource.Metrics.Latest.{IsCurrent, current_price_point-IsCurrent}
use kube_greencosts.Examples.Bakery.{hourly, hour, midnight}
use kube_greencosts.Examples.Prices.{point}
use kube_greencosts.Examples.Desk.{
  Desk, net, desk, desk-SourceLaws, desk-PatchLaws, sort_points-IsChronological,
}

abbrev of_desk : ProviderSpec
of_desk = record {
  provider = "customProvider";
  bidding_zone = "NL";
  custom_provider_config = some (record { url = "https://prices"; secret_ref = none });
  entsoe_config = none;
  enever_config = none;
}

abbrev empty : EnergyPriceSource ℕ
empty = record {
  namespace = "shop";
  name = "spot";
  spec = of_desk;
  refresh_schedule = "0 * * * *";
  cache_ttl = pos hour;
  last_updated = none;
  prices = [];
  conditions = [];
}

abbrev opened : Desk
opened = record { now = midnight; source = some empty }

-- the desk after a reconciliation
abbrev run : Desk → Desk
run w = (reconcile_source net desk (registered net.to_upper) "shop" "spot" w).1

abbrev night : List (PricePoint ℕ)
night = point (midnight + hour) 10 ∷ point (midnight + 2 * hour) 20 ∷ []

fetched_night :
    (e : EnergyPriceSource ℕ) × (desk-SourceLaws.stored (run opened) "shop" "spot" ≡ some e)
    × (e.prices ≡ night)
unfolding resolve_token set_error_condition updated refresh at_fire past_cache reconcile_source
    registered get_provider fetch_prices fetch_custom convert_each convert_intervals itoa
fetched_night = (_, refl, refl)

prices_kept_or_fetched_example :
    IsSound net desk (registered net.to_upper) "shop" "spot" desk-SourceLaws empty fetched_night.0
prices_kept_or_fetched_example =
    prices_kept_or_fetched net desk (registered net.to_upper) "shop" "spot" desk-SourceLaws opened
      empty fetched_night.0 refl fetched_night.1

night_given :
    (fetch_prices net (custom_provider "https://prices" "") "NL" midnight opened).0 ≡ fetched night
unfolding fetch_prices fetch_custom convert_each convert_intervals
night_given = refl

succeeded :
    (r : Requeue) × ((reconcile_source net desk (registered net.to_upper) "shop" "spot" opened).0
      ≡ done r)
unfolding resolve_token set_error_condition updated refresh at_fire past_cache reconcile_source
    registered get_provider fetch_prices fetch_custom convert_each convert_intervals itoa
succeeded = (_, refl)

token_read : (resolve_token net desk (registered net.to_upper) empty opened).0 ≡ token ""
unfolding resolve_token
token_read = refl

provider_made :
    get_provider (registered net.to_upper) "customProvider" of_desk ""
    ≡ fetched (custom_provider "https://prices" "")
unfolding get_provider registered
provider_made = refl

given_in_turn :
    (let w = (resolve_token net desk (registered net.to_upper) empty opened).1 in
      (fetch_prices net (custom_provider "https://prices" "") "NL" w.now w).0)
    ≡ fetched night
unfolding resolve_token fetch_prices fetch_custom convert_each convert_intervals
given_in_turn = refl

first_prices_stored_example :
    (e' : EnergyPriceSource ℕ) × (desk-SourceLaws.stored (run opened) "shop" "spot" ≡ some e')
    × (e'.prices ≡ whole_seconds night)
first_prices_stored_example =
    first_prices_stored net desk (registered net.to_upper) desk-SourceLaws desk-PatchLaws empty
      "shop" "spot" opened hourly "" (custom_provider "https://prices" "") night succeeded.0 refl
      refl refl refl token_read provider_made given_in_turn succeeded.1

night-IsChronological : IsChronological night
night-IsChronological = ((omega arith, tt), (tt, tt))

fetched_in_order_example : IsChronological night
fetched_in_order_example =
    fetched_in_order net sort_points-IsChronological (custom_provider "https://prices" "") "NL"
      midnight opened night (custom_sorts "https://prices" "") night_given

-- The first price holds half an hour after it starts.
current_now :
    current_price_point night (midnight + 5400000000000) ≡ some (point (midnight + hour) 10)
unfolding current_from
current_now = refl

current_price_point-IsCurrent_example :
    IsCurrent night midnight (current_price_point night midnight)
current_price_point-IsCurrent_example =
    current_price_point-IsCurrent night midnight night-IsChronological
