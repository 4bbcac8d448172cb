-- ===== src/Provider/Registry.antt =====
-- The registry of providers (internal/providers/interface.go), their factories, and the registration
-- at start-up (cmd/main.go).
use kube_greencosts.Prelude.{
  ℕ, String, ◌||◌, Option, none, some, List, [], ◌∷◌, ◌==◌, if◌then◌else◌,
}
use kube_greencosts.Price.{PricePoint}
use kube_greencosts.Provider.Http.{has_text}
use kube_greencosts.Provider.{
  config_required, url_empty, no_area_code, token_empty, unknown_supplier, unsupported_zone,
  unexpected_token, unknown_provider, Fetched, fetched, refused, ◌>>=◌, or_refuse, Network,
}
use kube_greencosts.Provider.Custom.{fetch_custom}
use kube_greencosts.Provider.Entsoe.{area_codes, fetch_entsoe}
use kube_greencosts.Provider.Enever.{known_suppliers, fetch_enever}
use kube_greencosts.Provider.EnergyZero.{fetch_energyzero}

-- `corev1.SecretKeySelector`
pub record SecretRef : Type 0 where
  pub name : String
  pub key : String

pub record CustomProviderConfig : Type 0 where
  pub url : String
  pub secret_ref : Option SecretRef

pub record EntsoeConfig : Type 0 where
  pub secret_ref : SecretRef
  pub area_code : String

pub record EneverConfig : Type 0 where
  pub secret_ref : SecretRef
  pub supplier : String

-- `EnergyPriceSourceSpec`, but for the times of its refresh
pub record ProviderSpec : Type 0 where
  pub provider : String
  pub bidding_zone : String
  pub custom_provider_config : Option CustomProviderConfig
  pub entsoe_config : Option EntsoeConfig
  pub enever_config : Option EneverConfig

-- What the factories build.
pub data EnergyProvider : Type 0 where
  custom_provider : String → String → EnergyProvider
  entsoe : String → String → EnergyProvider
  enever : String → String → EnergyProvider
  energyzero : EnergyProvider

abbrev pub Factory : Type 0
Factory = ProviderSpec → String → Fetched EnergyProvider

abbrev pub Factories : Type 0
Factories = String → Option Factory

abbrev pub new_registry : Factories
new_registry name = none

-- `Register`
abbrev pub register : String → Factory → Factories → Factories
register name factory factories j = if name == j then some factory else factories j

abbrev pub make : Option Factory → ProviderSpec → String → Fetched EnergyProvider
make none spec token = refused unknown_provider
make (some factory) spec token = factory spec token

-- `Get`
unfoldable pub get_provider : Factories → String → ProviderSpec → String → Fetched EnergyProvider
get_provider factories name spec token = make (factories name) spec token

abbrev pub custom_by : Option CustomProviderConfig → String → Fetched EnergyProvider
custom_by none token = refused config_required
custom_by (some cfg) token =
    if cfg.url == "" then refused url_empty else fetched (custom_provider cfg.url token)

abbrev pub custom_factory : Factory
custom_factory spec token = custom_by spec.custom_provider_config token

abbrev pub find_code : String → List (String × String) → Option String
find_code zone [] = none
find_code zone ((z, c) ∷ codes) = if z == zone then some c else find_code zone codes

abbrev pub area_code_of : String → String → Option String
area_code_of code zone = if code == "" then find_code zone area_codes else some code

abbrev pub entsoe_by : Option EntsoeConfig → String → String → Fetched EnergyProvider
entsoe_by none zone token = refused config_required
entsoe_by (some cfg) zone token = do
  area_code ← or_refuse no_area_code (area_code_of cfg.area_code zone)
  if token == "" then refused token_empty else fetched (entsoe area_code token)

abbrev pub entsoe_factory : Factory
entsoe_factory spec token = entsoe_by spec.entsoe_config spec.bidding_zone token

abbrev pub enever_by : (String → String) → Option EneverConfig → String → Fetched EnergyProvider
enever_by to_upper none token = refused config_required
enever_by to_upper (some cfg) token =
    let supplier = to_upper cfg.supplier in
    if token == ""
    then refused token_empty
    else if supplier == "" || has_text supplier known_suppliers
    then fetched (enever token (to_upper supplier))
    else refused unknown_supplier

abbrev pub enever_factory : (String → String) → Factory
enever_factory to_upper spec token = enever_by to_upper spec.enever_config token

abbrev pub energyzero_factory : Factory
energyzero_factory spec token =
    if spec.bidding_zone == "NL"
    then if token == "" then fetched energyzero else refused unexpected_token
    else refused unsupported_zone

-- the registry that the operator starts with
unfoldable pub registered : (String → String) → Factories
registered to_upper = register "energyzero" energyzero_factory (
    register "enever" (enever_factory to_upper)
      (register "entsoe" entsoe_factory (register "customProvider" custom_factory new_registry)))

module _ {F World : Type 0} (net : Network F World) where
  -- `FetchPrices` of the provider, for a zone and a date
  unfoldable pub fetch_prices :
      EnergyProvider → String → ℕ → World → Fetched (List (PricePoint F)) × World
  fetch_prices (custom_provider url token) zone date = fetch_custom net url token zone date
  fetch_prices (entsoe area_code token) zone date = fetch_entsoe net area_code token date
  fetch_prices (enever token supplier) zone date = fetch_enever net token supplier
  fetch_prices energyzero zone date = fetch_energyzero net date
