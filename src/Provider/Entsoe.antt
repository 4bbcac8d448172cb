-- ===== src/Provider/Entsoe.antt =====
-- The provider "entsoe" (internal/providers/entsoe/provider.go).
use Prim.Native.String
use kube_greencosts.Prelude.{
  ℕ, zero, suc, ◌+◌, ◌-◌, ◌*◌, ◌/◌, String, Option, none, some, List, [], ◌∷◌, ◌++◌, nat_eq, ◌==◌,
  if◌then◌else◌,
}
use kube_greencosts.Prelude.Int.{ℤ, pos, negsuc}
use kube_greencosts.Price.{PricePoint}
use kube_greencosts.Provider.Http.{read_limited_body}
use kube_greencosts.Provider.{
  bad_time, http_status, api_error, request_failed, unreadable_body, undecodable,
  unknown_resolution, Fetched, fetched, refused, ◌>>=◌, or_refuse, Request, Response, EntsoePoint,
  EntsoePeriod, Network,
}

-- `AreaCodes`
abbrev pub area_codes : List (String × String)
area_codes =
    ("NL", "10YNL----------L")
    ∷ ("BE", "10YBE----------2")
    ∷ ("DE", "10Y1001A1001A83F")
    ∷ ("DE-LU", "10Y1001A1001A82H")
    ∷ ("FR", "10YFR-RTE------C")
    ∷ ("DK1", "10YDK-1--------W")
    ∷ ("DK2", "10YDK-2--------M")
    ∷ ("NO1", "10YNO-1--------2")
    ∷ ("NO2", "10YNO-2--------T")
    ∷ ("NO3", "10YNO-3--------J")
    ∷ ("NO4", "10YNO-4--------9")
    ∷ ("NO5", "10Y1001A1001A48H")
    ∷ ("SE1", "10Y1001A1001A44P")
    ∷ ("SE2", "10Y1001A1001A45N")
    ∷ ("SE3", "10Y1001A1001A46L")
    ∷ ("SE4", "10Y1001A1001A47J")
    ∷ ("FI", "10YFI-1--------U")
    ∷ ("AT", "10YAT-APG------L")
    ∷ ("CH", "10YCH-SWISSGRIDZ")
    ∷ ("ES", "10YES-REE------0")
    ∷ ("PT", "10YPT-REN------W")
    ∷ ("CZ", "10YCZ-CEPS-----N")
    ∷ ("PL", "10YPL-AREA-----S")
    ∷ []

abbrev pub base_url : String
base_url = "https://web-api.tp.entsoe.eu/api"

abbrev pub period_layout : String
period_layout = "200601021504"

-- 4 MiB
abbrev pub max_body_bytes : ℕ
max_body_bytes = 4194304

-- a minute, in nanoseconds
abbrev pub minute : ℕ
minute = 60000000000

-- `parseResolution`
unfoldable pub parse_resolution : String → Option ℕ
parse_resolution s =
    if s == "PT15M"
    then some (15 * minute)
    else if s == "PT30M"
    then some (30 * minute)
    else if s == "PT60M"
    then some (60 * minute)
    else if s == "PT1H"
    then some (60 * minute)
    else none

-- `periodStart.Add(time.Duration(position-1) * resolution)`, whose product stays within 64 bits, and
-- which stops at the zero time
unfoldable pub interval_start : ℕ → ℤ → ℕ → ℕ
interval_start start (pos (suc n)) resolution = start + n * resolution
interval_start start (pos zero) resolution = start - resolution
interval_start start (negsuc n) resolution = start - (n + 2) * resolution

-- a day, in nanoseconds
abbrev pub day : ℕ
day = 86400000000000

-- `Truncate(24 * time.Hour)`
abbrev pub day_start : ℕ → ℕ
day_start date = date / day * day

module _ {F World : Type 0} (net : Network F World) where
  open net use {
    http_get, decode_publication, decode_acknowledgement, parse_rfc3339, parse_entsoe_time,
    format_date,
  }

  -- `parseTime`
  abbrev pub first_time : Option ℕ → Option ℕ → Option ℕ
  first_time (some t) other = some t
  first_time none other = other

  unfoldable pub parse_time : String → Option ℕ
  parse_time s = first_time (parse_entsoe_time s) (parse_rfc3339 s)

  -- the points of a period
  unfoldable pub period_points : ℕ → ℕ → List (EntsoePoint F) → List (PricePoint F)
  period_points start resolution [] = []
  period_points start resolution (pt ∷ pts) =
      record { at = interval_start start pt.position resolution; eur_per_mwh = pt.price_amount }
      ∷ period_points start resolution pts

  unfoldable pub convert_period : EntsoePeriod F → Fetched (List (PricePoint F))
  convert_period per = do
    resolution ← or_refuse unknown_resolution (parse_resolution per.resolution)
    start ← or_refuse bad_time (parse_time per.start)
    fetched (period_points start resolution per.points)

  unfoldable pub convert_periods : List (EntsoePeriod F) → Fetched (List (PricePoint F))
  convert_periods [] = fetched []
  convert_periods (per ∷ pers) = do
    points ← convert_period per
    rest ← convert_periods pers
    fetched (points ++ rest)

  unfoldable pub convert_series : List (List (EntsoePeriod F)) → Fetched (List (PricePoint F))
  convert_series [] = fetched []
  convert_series (ts ∷ tss) = do
    points ← convert_periods ts
    rest ← convert_series tss
    fetched (points ++ rest)

  -- `parsePublication`
  unfoldable pub parse_publication : String → Fetched (List (PricePoint F))
  parse_publication body = do
    doc ← or_refuse undecodable (decode_publication body)
    convert_series doc

  -- `parseAcknowledgement`: the empty text stands for no error document
  abbrev pub acknowledged : Option (String × String) → String
  acknowledged none = ""
  acknowledged (some (c, text)) =
      if c == "" then "" else String.◌++◌ "code " (String.◌++◌ c (String.◌++◌ ": " text))

  unfoldable pub parse_acknowledgement : String → String
  parse_acknowledgement body = acknowledged (decode_acknowledgement body)

  -- by the status, after the body is read
  abbrev pub by_status : ℕ → String → Fetched (List (PricePoint F))
  by_status status body =
      if parse_acknowledgement body == ""
      then if nat_eq status 200 then parse_publication body else refused (http_status status)
      else refused (api_error (parse_acknowledgement body))

  abbrev pub entsoe_answer : Option Response → Fetched (List (PricePoint F))
  entsoe_answer none = refused request_failed
  entsoe_answer (some resp) = do
    body ← or_refuse unreadable_body (read_limited_body resp.body max_body_bytes)
    by_status resp.status body

  abbrev pub entsoe_request : String → String → ℕ → Request
  entsoe_request area_code token date = record {
    url = base_url;
    query =
        ("documentType", "A44")
        ∷ ("in_Domain", area_code)
        ∷ ("out_Domain", area_code)
        ∷ ("periodStart", format_date period_layout (day_start date))
        ∷ ("periodEnd", format_date period_layout (day_start date + 2 * day))
        ∷ ("securityToken", token)
        ∷ [];
    headers = [];
  }

  -- `FetchPrices`
  unfoldable pub fetch_entsoe : String → String → ℕ → World → Fetched (List (PricePoint F)) × World
  fetch_entsoe area_code token date w =
      let r = http_get (entsoe_request area_code token date) w in (entsoe_answer r.0, r.1)
