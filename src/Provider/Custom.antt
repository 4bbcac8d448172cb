-- ===== src/Provider/Custom.antt =====
-- The provider "customProvider" (internal/providers/custom/provider.go).
use Prim.Native.String
use kube_greencosts.Prelude.{
  ℕ, String, Bool, Option, none, some, List, [], ◌∷◌, ltb, nat_eq, ◌==◌, if◌then◌else◌,
}
use kube_greencosts.Price.{PricePoint}
use kube_greencosts.Provider.Http.{read_limited_body}
use kube_greencosts.Provider.{
  bad_time, http_status, request_failed, unreadable_body, undecodable, Fetched, fetched, refused,
  ◌>>=◌, or_refuse, Request, Response, RawInterval, Network,
}

-- 1 MiB
abbrev pub max_body_bytes : ℕ
max_body_bytes = 1048576

abbrev pub is_before : {F : Type 0} → PricePoint F → PricePoint F → Bool
is_before a b = ltb a.at b.at

abbrev pub bearer : String → List (String × String)
bearer token = if token == "" then [] else ("Authorization", String.◌++◌ "Bearer " token) ∷ []

module _ {F World : Type 0} (net : Network F World) where
  open net use {http_get, decode_intervals, parse_rfc3339, format_date, sort_points}

  -- the loop of `convertIntervals`
  unfoldable pub convert_each : List (RawInterval F) → Fetched (List (PricePoint F))
  convert_each [] = fetched []
  convert_each (r ∷ rs) = do
    start ← or_refuse bad_time (parse_rfc3339 r.start)
    rest ← convert_each rs
    fetched (record { at = start; eur_per_mwh = r.eur_per_mwh } ∷ rest)

  -- `convertIntervals`
  unfoldable pub convert_intervals : List (RawInterval F) → Fetched (List (PricePoint F))
  convert_intervals raw = do intervals ← convert_each raw; fetched (sort_points is_before intervals)

  abbrev pub custom_answer : Option Response → Fetched (List (PricePoint F))
  custom_answer none = refused request_failed
  custom_answer (some resp) =
      if nat_eq resp.status 200
      then (do
        body ← or_refuse unreadable_body (read_limited_body resp.body max_body_bytes)
        raw ← or_refuse undecodable (decode_intervals body)
        convert_intervals raw)
      else refused (http_status resp.status)

  abbrev pub custom_request : String → String → String → ℕ → Request
  custom_request url token bidding_zone date = record {
    url = url;
    query = ("biddingZone", bidding_zone) ∷ ("date", format_date "2006-01-02" date) ∷ [];
    headers = bearer token;
  }

  -- `FetchPrices`
  unfoldable pub fetch_custom :
      String → String → String → ℕ → World → Fetched (List (PricePoint F)) × World
  fetch_custom url token bidding_zone date w =
      let r = http_get (custom_request url token bidding_zone date) w in (custom_answer r.0, r.1)
