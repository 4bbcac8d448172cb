-- ===== src/PriceSource.antt =====
-- The controller of EnergyPriceSources (internal/controller/energypricesource_controller.go).
pub mod Metrics
pub mod Laws
pub mod Tokens
pub mod Sound
pub mod Stored
use Prim.Native.String
use kube_greencosts.Prelude.{
  ℕ, ◌+◌, ◌-◌, ◌^◌, String, Bool, true, false, ◌&&◌, Option, none, some, List, [], ◌∷◌, StringMap,
  length, ltb, leb, ◌==◌, if◌then◌else◌,
}
use kube_greencosts.Prelude.Int.{ℤ, pos, negsuc, pos_part, neg_part, ltℤ}
use kube_greencosts.Schedule.{second}
use kube_greencosts.Provider.Entsoe.{minute}
use kube_greencosts.Strconv.{itoa}
use kube_greencosts.Cluster.{Error, Result, ok, err, ignore_not_found}
use kube_greencosts.PolicyApi.{Condition}
use kube_greencosts.Policy.{set_condition}
use kube_greencosts.Price.{PricePoint}
use kube_greencosts.Provider.{ProviderError, Fetched, fetched, refused, Network}
use kube_greencosts.Provider.Registry.{
  SecretRef, CustomProviderConfig, EntsoeConfig, EneverConfig, ProviderSpec, EnergyProvider,
  Factories, get_provider, fetch_prices,
}
use kube_greencosts.EnergyJob.Types.{Parsed, parsed, unparsed}
use kube_greencosts.EnergyJob.Run
use kube_greencosts.EnergyJob.Run.{Act, Requeue, pure, ◌>>=◌, call, reading}
use kube_greencosts.EnergyJob.Dispatch.{ready_condition, condition_reason_error}
use kube_greencosts.EnergyJob.Optimal.{added, duration_between}

-- `EnergyPriceSource`
pub record EnergyPriceSource (F : Type 0) : Type 0 where
  pub namespace : String
  pub name : String
  pub spec : ProviderSpec
  pub refresh_schedule : String
  pub cache_ttl : ℤ
  pub last_updated : Option ℕ
  pub prices : List (PricePoint F)
  pub conditions : List Condition

-- What ends a refresh with an error condition.
pub data SourceError : Type 0 where
  invalid_schedule : String → SourceError
  entsoe_config_required enever_config_required : SourceError
  secret_unread : Error → SourceError
  key_missing : SecretRef → SourceError
  provider_unmade : ProviderError → SourceError
  prices_unfetched : ProviderError → SourceError

-- The API, the clock, `cron.ParseStandard`, and the texts of the errors. A secret maps keys to values.
pub record SourceStore (F World : Type 0) : Type 0 where
  pub clock : World → ℕ × World
  pub get_source : String → String → World → Result (EnergyPriceSource F) × World
  pub patch_source :
      EnergyPriceSource F → EnergyPriceSource F → World → Result (EnergyPriceSource F) × World
  pub get_secret : String → String → World → Result StringMap × World
  pub parse_standard : String → Parsed
  pub message : SourceError → String

abbrev pub default_schedule : String
default_schedule = "0 0,6,12,18 * * *"

abbrev pub schedule_or_default : String → String
schedule_or_default s = if s == "" then default_schedule else s

-- five minutes
abbrev pub retry_after_error : ℤ
retry_after_error = pos 300000000000

abbrev pub after : ℤ → Requeue
after d = record { requeue = false; requeue_after = d }

pub data Token : Type 0 where
  token : String → Token
  no_token : SourceError → Token

-- the value under the key of a secret
abbrev pub token_in : SecretRef → Result StringMap → Token
token_in ref (err e) = no_token (secret_unread e)
token_in ref (ok values) = elim (values ref.key) [
  | none ↦ no_token (key_missing ref)
  | some value ↦ token value
]

abbrev pub exceeds_minute : ℤ → Bool
exceeds_minute (pos n) = ltb minute n
exceeds_minute (negsuc n) = false

abbrev pub fetched_message : ℕ → String
fetched_message n = String.◌++◌ "fetched " (String.◌++◌ (itoa (pos n)) " price intervals")

module _ {F World : Type 0} (net : Network F World) (store : SourceStore F World)
    (factories : Factories) where
  open store use {clock, get_source, patch_source, get_secret, parse_standard, message}

  -- `readSecretKey`
  abbrev pub read_secret_key : String → SecretRef → World → Token × World
  read_secret_key ns ref w =
      (token_in ref (get_secret ns ref.name w).0, (get_secret ns ref.name w).1)

  abbrev pub optional_secret : String → Option SecretRef → World → Token × World
  optional_secret ns none w = (token "", w)
  optional_secret ns (some ref) w = read_secret_key ns ref w

  abbrev pub custom_token : String → Option CustomProviderConfig → World → Token × World
  custom_token ns none w = (token "", w)
  custom_token ns (some cfg) w = optional_secret ns cfg.secret_ref w

  abbrev pub entsoe_token : String → Option EntsoeConfig → World → Token × World
  entsoe_token ns none w = (no_token entsoe_config_required, w)
  entsoe_token ns (some cfg) w = read_secret_key ns cfg.secret_ref w

  abbrev pub enever_token : String → Option EneverConfig → World → Token × World
  enever_token ns none w = (no_token enever_config_required, w)
  enever_token ns (some cfg) w = read_secret_key ns cfg.secret_ref w

  -- `resolveToken`
  unfoldable pub resolve_token : EnergyPriceSource F → World → Token × World
  resolve_token eps w =
      if eps.spec.provider == "customProvider"
      then custom_token eps.namespace eps.spec.custom_provider_config w
      else if eps.spec.provider == "entsoe"
      then entsoe_token eps.namespace eps.spec.entsoe_config w
      else if eps.spec.provider == "enever"
      then enever_token eps.namespace eps.spec.enever_config w
      else (token "", w)

  abbrev pub with_error : EnergyPriceSource F → SourceError → ℕ → EnergyPriceSource F
  with_error eps e transition = record eps {
    conditions =
        set_condition eps.conditions
          (ready_condition false condition_reason_error (message e) transition);
  }

  -- `setErrorCondition`
  unfoldable pub set_error_condition : EnergyPriceSource F → SourceError → Act World Requeue
  set_error_condition eps e = do
    transition ← reading clock
    _ ← call (patch_source eps (with_error eps e transition))
    pure (after retry_after_error)

  abbrev pub with_prices : EnergyPriceSource F → List (PricePoint F) → ℕ → EnergyPriceSource F
  with_prices eps prices now = record eps {
    last_updated = some now;
    prices = prices;
    conditions =
        set_condition eps.conditions
          (ready_condition true "PricesFetched" (fetched_message (length prices)) now);
  }

  -- The update of the status with the prices, and the wait for the next refresh.
  unfoldable pub updated :
      (ℕ → ℕ) → EnergyPriceSource F → Fetched (List (PricePoint F)) → Act World Requeue
  updated schedule eps (refused e) = set_error_condition eps (prices_unfetched e)
  updated schedule eps (fetched prices) = do
    now ← reading clock
    _ ← call (patch_source eps (with_prices eps prices now))
    last ← reading clock
    later ← reading clock
    pure (after (duration_between (schedule last) later))

  -- The provider is made and asked for the prices of the day.
  abbrev pub asked : (ℕ → ℕ) → EnergyPriceSource F → Fetched EnergyProvider → Act World Requeue
  asked schedule eps (refused e) w = set_error_condition eps (provider_unmade e) w
  asked schedule eps (fetched provider) w =
      let (date, w1) = clock w in
      let r = fetch_prices net provider eps.spec.bidding_zone date w1 in
      updated schedule eps r.0 r.1

  abbrev pub with_token : (ℕ → ℕ) → EnergyPriceSource F → Token → Act World Requeue
  with_token schedule eps (no_token e) = set_error_condition eps e
  with_token schedule eps (token t) =
      asked schedule eps (get_provider factories eps.spec.provider eps.spec t)

  unfoldable pub refresh : (ℕ → ℕ) → EnergyPriceSource F → Act World Requeue
  refresh schedule eps w = let r = resolve_token eps w in with_token schedule eps r.0 r.1

  -- The wait for a fire of the schedule that is more than a minute away.
  abbrev pub fire_or_wait : (ℕ → ℕ) → EnergyPriceSource F → ℕ → ℕ → Act World Requeue
  fire_or_wait schedule eps next_fire now =
      if exceeds_minute (duration_between next_fire now)
      then (do later ← reading clock; pure (after (duration_between next_fire later)))
      else refresh schedule eps

  unfoldable pub at_fire : (ℕ → ℕ) → EnergyPriceSource F → ℕ → Act World Requeue
  at_fire schedule eps next_fire = do now ← reading clock; fire_or_wait schedule eps next_fire now

  abbrev pub scheduled : EnergyPriceSource F → Parsed → Act World Requeue
  scheduled eps (unparsed e) = set_error_condition eps (invalid_schedule e)
  scheduled eps (parsed schedule) = do
    now ← reading clock
    at_fire schedule eps (schedule (now - second))

  unfoldable pub past_cache : EnergyPriceSource F → Act World Requeue
  past_cache eps = scheduled eps (parse_standard (schedule_or_default eps.refresh_schedule))

  -- The check of the cache, at the time that prices were updated.
  abbrev pub cached_or_past : EnergyPriceSource F → ℕ → ℕ → Act World Requeue
  cached_or_past eps updated now =
      if ltb now (added updated eps.cache_ttl)
      then (do
        later ← reading clock
        pure (after (duration_between (added updated eps.cache_ttl) later)))
      else past_cache eps

  abbrev pub by_cache : EnergyPriceSource F → Option ℕ → Act World Requeue
  by_cache eps none = past_cache eps
  by_cache eps (some updated) = do now ← reading clock; cached_or_past eps updated now

  abbrev pub ignored : Option Error → Act World Requeue
  ignored none w = (Run.done (after (pos 0)), w)
  ignored (some e) w = (Run.failed e, w)

  abbrev pub after_get : Result (EnergyPriceSource F) → Act World Requeue
  after_get (err e) = ignored (ignore_not_found e)
  after_get (ok eps) = by_cache eps eps.last_updated

  -- `Reconcile`
  unfoldable pub reconcile_source : String → String → Act World Requeue
  reconcile_source ns name w = after_get (get_source ns name w).0 (get_source ns name w).1
