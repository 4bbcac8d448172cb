-- ===== src/Provider/Enever.antt =====
-- The provider "enever" (internal/providers/enever/provider.go).
use Prim.Native.String
use kube_greencosts.Prelude.{
  ℕ, String, Option, none, some, List, [], ◌∷◌, ◌++◌, StringMap, nat_eq, ◌==◌, if◌then◌else◌,
}
use kube_greencosts.Price.{PricePoint}
use kube_greencosts.Provider.Http.{read_limited_body}
use kube_greencosts.Provider.{
  bad_time, bad_price, missing_field, http_status, api_error, request_failed, unreadable_body,
  undecodable, Fetched, fetched, refused, ◌>>=◌, or_refuse, Request, Response, EneverResponse,
  Network,
}

-- `knownSuppliers`
abbrev pub known_suppliers : List String
known_suppliers =
    "ANWB" ∷ "BE" ∷ "CB" ∷ "ED" ∷ "EE" ∷ "EG" ∷ "EN" ∷ "ES" ∷ "EVO" ∷ "EZ" ∷ "FR" ∷ "GSL" ∷ "HE"
    ∷ "IN" ∷ "MDE" ∷ "NE" ∷ "PE" ∷ "QU" ∷ "SS" ∷ "TI" ∷ "VDB" ∷ "VF" ∷ "VON" ∷ "WE" ∷ "ZP" ∷ []

abbrev pub price_field : String
price_field = "prijs"

-- 1 MiB
abbrev pub max_body_bytes : ℕ
max_body_bytes = 1048576

-- the key of the price, by the supplier
abbrev pub price_key : String → String
price_key supplier = if supplier == "" then price_field else String.◌++◌ price_field supplier

module _ {F World : Type 0} (net : Network F World) where
  open net use {http_get, decode_enever, parse_rfc3339, parse_float, times_thousand}

  -- `convertData`
  unfoldable pub convert_data : String → List StringMap → Fetched (List (PricePoint F))
  convert_data key [] = fetched []
  convert_data key (item ∷ items) = do
    datum ← or_refuse missing_field (item "datum")
    start ← or_refuse bad_time (parse_rfc3339 datum)
    price ← or_refuse missing_field (item key)
    eur_per_kwh ← or_refuse bad_price (parse_float price)
    rest ← convert_data key items
    fetched (record { at = start; eur_per_mwh = times_thousand eur_per_kwh } ∷ rest)

  abbrev pub enever_data : String → EneverResponse → Fetched (List (PricePoint F))
  enever_data supplier ar =
      if ar.status == "true"
      then convert_data (price_key supplier) ar.items
      else refused (api_error ar.status)

  abbrev pub enever_answer : String → Option Response → Fetched (List (PricePoint F))
  enever_answer supplier none = refused request_failed
  enever_answer supplier (some resp) =
      if nat_eq resp.status 200
      then (do
        body ← or_refuse unreadable_body (read_limited_body resp.body max_body_bytes)
        ar ← or_refuse undecodable (decode_enever body)
        enever_data supplier ar)
      else refused (http_status resp.status)

  -- the token stands in the URL
  abbrev pub enever_request : String → String → Request
  enever_request token which_day = record {
    url =
        String.◌++◌ "https://enever.nl/apiv3/stroomprijs_"
          (String.◌++◌ which_day (String.◌++◌ ".php?token=" (String.◌++◌ token "&resolution=15")));
    query = [];
    headers = [];
  }

  -- `fetchDay`
  unfoldable pub fetch_day :
      String → String → String → World → Fetched (List (PricePoint F)) × World
  fetch_day token supplier which_day w =
      let r = http_get (enever_request token which_day) w in (enever_answer supplier r.0, r.1)

  -- tomorrow's prices, or none where they are not there yet
  abbrev pub or_no_prices : Fetched (List (PricePoint F)) → List (PricePoint F)
  or_no_prices (fetched prices) = prices
  or_no_prices (refused e) = []

  abbrev pub with_tomorrow :
      String
      → String
      → Fetched (List (PricePoint F))
      → World
      → Fetched (List (PricePoint F)) × World
  with_tomorrow token supplier (refused e) w = (refused e, w)
  with_tomorrow token supplier (fetched today) w =
      let r = fetch_day token supplier "morgen" w in (fetched (today ++ or_no_prices r.0), r.1)

  -- `FetchPrices`
  unfoldable pub fetch_enever : String → String → World → Fetched (List (PricePoint F)) × World
  fetch_enever token supplier w =
      let r = fetch_day token supplier "vandaag" w in with_tomorrow token supplier r.0 r.1
