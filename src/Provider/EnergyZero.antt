-- ===== src/Provider/EnergyZero.antt =====
-- The provider "energyzero" (internal/providers/energyzero/provider.go).
use kube_greencosts.Prelude.{
  ℕ, String, Option, none, some, List, [], ◌∷◌, nat_eq, ◌==◌, if◌then◌else◌,
}
use kube_greencosts.Price.{PricePoint}
use kube_greencosts.Provider.Http.{read_limited_body}
use kube_greencosts.Provider.{
  bad_time, bad_price, not_finite, wrong_interval, no_base_prices, http_status, request_failed,
  unreadable_body, undecodable, Fetched, fetched, refused, ◌>>=◌, or_refuse, Request, Response,
  PriceItem, Network,
}
use kube_greencosts.Provider.Custom.{is_before}

-- 4 MiB
abbrev pub max_body_bytes : ℕ
max_body_bytes = 4194304

module _ {F World : Type 0} (net : Network F World) where
  open net use {
    http_get, decode_energyzero, parse_rfc3339, format_date, parse_float, is_finite, times_thousand,
    sort_points,
  }

  abbrev pub finite : F → Fetched F
  finite price = if is_finite price then fetched price else refused not_finite

  -- the loop of `parseResponse`
  unfoldable pub convert_items : List PriceItem → Fetched (List (PricePoint F))
  convert_items [] = fetched []
  convert_items (item ∷ items) = do
    start ← or_refuse bad_time (parse_rfc3339 item.start)
    parsed ← or_refuse bad_price (parse_float item.value)
    eur_per_kwh ← finite parsed
    rest ← convert_items items
    fetched (record { at = start; eur_per_mwh = times_thousand eur_per_kwh } ∷ rest)

  abbrev pub convert_base : List PriceItem → Fetched (List (PricePoint F))
  convert_base [] = refused no_base_prices
  convert_base (item ∷ items) = do
    points ← convert_items (item ∷ items)
    fetched (sort_points is_before points)

  -- `parseResponse`
  unfoldable pub parse_response : String → Fetched (List (PricePoint F))
  parse_response body = do
    ar ← or_refuse undecodable (decode_energyzero body)
    if ar.interval == "RESPONSE_INTERVAL_QUARTER"
        then convert_base ar.base
        else refused wrong_interval

  abbrev pub energyzero_answer : Option Response → Fetched (List (PricePoint F))
  energyzero_answer none = refused request_failed
  energyzero_answer (some resp) = do
    body ← or_refuse unreadable_body (read_limited_body resp.body max_body_bytes)
    if nat_eq resp.status 200 then parse_response body else refused (http_status resp.status)

  -- `newRequest`
  abbrev pub energyzero_request : ℕ → Request
  energyzero_request date = record {
    url = "https://public.api.energyzero.nl/public/v1/prices";
    query =
        ("date", format_date "02-01-2006" date)
        ∷ ("interval", "INTERVAL_QUARTER")
        ∷ ("energyType", "ENERGY_TYPE_ELECTRICITY")
        ∷ [];
    headers = ("Accept", "application/json") ∷ [];
  }

  -- `FetchPrices`
  unfoldable pub fetch_energyzero : ℕ → World → Fetched (List (PricePoint F)) × World
  fetch_energyzero date w =
      let r = http_get (energyzero_request date) w in (energyzero_answer r.0, r.1)
