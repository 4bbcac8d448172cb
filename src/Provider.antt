-- ===== src/Provider.antt =====
-- The price providers (internal/providers): how each builds its request, and what it makes of the
-- answer.
pub mod Http
pub mod Custom
pub mod Entsoe
pub mod Enever
pub mod EnergyZero
pub mod Registry
pub mod Order
use kube_greencosts.Prelude.{ℕ, String, ◌≡◌, Bool, Option, none, some, List, StringMap}
use kube_greencosts.Prelude.Int.{ℤ}
use kube_greencosts.Price.{PricePoint}

-- What goes wrong; the texts of these errors are left out.
pub data ProviderError : Type 0 where
  config_required url_empty no_area_code token_empty unknown_supplier unsupported_zone :
      ProviderError
  unexpected_token unknown_provider request_failed unreadable_body undecodable : ProviderError
  http_status : ℕ → ProviderError
  api_error : String → ProviderError
  unknown_resolution bad_time missing_field bad_price not_finite : ProviderError
  wrong_interval no_base_prices : ProviderError

pub data Fetched {ℓ} (A : Type ℓ) : Type ℓ where
  fetched : A → Fetched A
  refused : ProviderError → Fetched A

infixl 5 ◌>>=◌ ◌>>◌
abbrev pub ◌>>=◌ {ℓ κ} : {A : Type ℓ} {B : Type κ} → Fetched A → (A → Fetched B) → Fetched B
fetched a >>= f = f a
refused e >>= f = refused e

abbrev pub ◌>>◌ {ℓ} : {B : Type ℓ} → Fetched (Unit {0}) → Fetched B → Fetched B
m >> k = m >>= λ _. k

-- an answer that the library gives, or the error
abbrev pub or_refuse {ℓ} : {A : Type ℓ} → ProviderError → Option A → Fetched A
or_refuse e none = refused e
or_refuse e (some a) = fetched a

-- A GET request: its URL, the query that is set on it, and its headers.
pub record Request : Type 0 where
  pub url : String
  pub query : List (String × String)
  pub headers : List (String × String)

-- The answer: none where the request cannot be built or the call fails. Of the body, what a reader
-- gives that stops after so many bytes, or none where it fails.
pub record Response : Type 0 where
  pub status : ℕ
  pub body : ℕ → Option String

-- JSON and XML decoded to what the providers read of it.
pub record RawInterval (F : Type 0) : Type 0 where
  pub start : String
  pub eur_per_mwh : F

-- ENTSO-E: a point, and a period with the text of its start and its resolution
pub record EntsoePoint (F : Type 0) : Type 0 where
  pub position : ℤ
  pub price_amount : F

pub record EntsoePeriod (F : Type 0) : Type 0 where
  pub start : String
  pub resolution : String
  pub points : List (EntsoePoint F)

-- enever.nl: items map keys to texts
pub record EneverResponse : Type 0 where
  pub status : String
  pub items : List StringMap

-- EnergyZero
pub record PriceItem : Type 0 where
  pub start : String
  pub value : String

pub record EnergyZeroResponse : Type 0 where
  pub interval : String
  pub base : List PriceItem

-- HTTP, the decoders, `time.Parse`, `time.Format`, `strconv.ParseFloat`, `math.IsNaN` and `IsInf`,
-- the product by 1000, `strings.ToUpper`, and the sorting of points by their times.
pub record Network (F World : Type 0) : Type 0 where
  pub http_get : Request → World → Option Response × World
  pub decode_intervals : String → Option (List (RawInterval F))
  pub decode_publication : String → Option (List (List (EntsoePeriod F)))
  -- the code and the text of the reason
  pub decode_acknowledgement : String → Option (String × String)
  pub decode_enever : String → Option EneverResponse
  pub decode_energyzero : String → Option EnergyZeroResponse
  pub parse_rfc3339 : String → Option ℕ
  pub parse_entsoe_time : String → Option ℕ
  pub format_date : String → ℕ → String
  pub parse_float : String → Option F
  pub is_finite : F → Bool
  pub times_thousand : F → F
  pub to_upper : String → String
  pub sort_points : (PricePoint F → PricePoint F → Bool) → List (PricePoint F) → List (PricePoint F)
