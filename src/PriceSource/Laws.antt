-- ===== src/PriceSource/Laws.antt =====
-- What a reconciliation may store: the prices that a provider gave, or those that were there.
use kube_greencosts.Prelude.{
  ℕ, ◌*◌, ◌/◌, String, ◌≡◌, sym, ◌∙◌, ◌⊎◌, inl, inr, Option, some, List, [], ◌∷◌,
}
use kube_greencosts.Cluster.{Result, ok, err}
use kube_greencosts.Price.{PricePoint}
use kube_greencosts.Provider.{Fetched, fetched, refused, Network, Request}
use kube_greencosts.Provider.Registry.{EnergyProvider, Factories, get_provider, fetch_prices}
use kube_greencosts.Provider.Registry.{custom_provider, entsoe, enever, energyzero}
use kube_greencosts.Provider.Custom.{fetch_custom}
use kube_greencosts.Provider.Entsoe.{fetch_entsoe}
use kube_greencosts.Provider.Enever.{fetch_day, with_tomorrow, fetch_enever}
use kube_greencosts.Provider.EnergyZero.{fetch_energyzero}
use kube_greencosts.Schedule.{second}
use kube_greencosts.EnergyJob.Run.{Act, Requeue, pure, ◌>>=◌, call, reading, run_of}
use kube_greencosts.EnergyJob.Laws.{truncated, Ends, Triple, Triple-bind}
use kube_greencosts.PriceSource.{
  EnergyPriceSource, SourceError, SourceStore, after, retry_after_error, with_error,
  set_error_condition,
}

-- Stored times have whole seconds.
abbrev pub whole_seconds : {F : Type 0} → List (PricePoint F) → List (PricePoint F)
whole_seconds [] = []
whole_seconds (p ∷ ps) =
    record { at = p.at / second * second; eur_per_mwh = p.eur_per_mwh } ∷ whole_seconds ps

-- No other writer acts during a call.
pub record SourceLaws {F World : Type 0} (net : Network F World) (store : SourceStore F World)
    : Type 0 where
  pub stored : World → String → String → Option (EnergyPriceSource F)
  pub clock_same : (w : World) → stored (store.clock w).1 ≡ stored w
  pub get_same : (ns name : String) (w : World) → stored (store.get_source ns name w).1 ≡ stored w
  pub got :
      (ns name : String) (w : World) (e : EnergyPriceSource F)
      → (store.get_source ns name w).0 ≡ ok e
      → (stored w ns name ≡ some e) × (e.namespace ≡ ns) × (e.name ≡ name)
  pub secret_same :
      (ns name : String) (w : World) → stored (store.get_secret ns name w).1 ≡ stored w
  pub http_same : (r : Request) (w : World) → stored (net.http_get r w).1 ≡ stored w
  pub patched :
      (base e : EnergyPriceSource F) (w : World) (e' : EnergyPriceSource F)
      → stored (store.patch_source base e w).1 e.namespace e.name ≡ some e'
      → (stored w e.namespace e.name ≡ some e')
        ⊎ ((e'.prices ≡ whole_seconds e.prices) × (e'.last_updated ≡ truncated e.last_updated))

module _ {F World : Type 0} (net : Network F World) (store : SourceStore F World)
    (factories : Factories) (ns name : String) (laws : SourceLaws net store) where
  open laws use {stored}

  -- The stored object has the prices and the time of its last update that it had, also cut to whole
  -- seconds by a status patch; or it has the prices that its provider gave.
  pub data IsSound (base e' : EnergyPriceSource F) : Type 0 where
    unchanged : e' ≡ base → IsSound base e'
    rewritten :
        e'.prices ≡ whole_seconds base.prices
        → e'.last_updated ≡ truncated base.last_updated
        → IsSound base e'
    refreshed :
        (provider : EnergyProvider) (secret : String) (date now : ℕ) (w : World)
        (prices : List (PricePoint F))
        → get_provider factories base.spec.provider base.spec secret ≡ fetched provider
        → (fetch_prices net provider base.spec.bidding_zone date w).0 ≡ fetched prices
        → e'.prices ≡ whole_seconds prices
        → e'.last_updated ≡ truncated (some now)
        → IsSound base e'

  pub fetch_prices-same :
      (provider : EnergyProvider) (zone : String) (date : ℕ) (w : World)
      → stored (fetch_prices net provider zone date w).1 ≡ stored w
  unfolding fetch_prices fetch_custom fetch_entsoe fetch_enever fetch_energyzero fetch_day
  fetch_prices-same (custom_provider url secret) zone date w = laws.http_same _ w
  fetch_prices-same (entsoe area_code secret) zone date w = laws.http_same _ w
  fetch_prices-same (enever secret supplier) zone date w =
      tomorrow_same (fetch_day net secret supplier "vandaag" w).0
    where
      tomorrow_same :
          (r : Fetched (List (PricePoint F)))
          → stored
              (with_tomorrow net secret supplier r (fetch_day net secret supplier "vandaag" w).1).1
            ≡ stored w
      tomorrow_same (fetched today) = laws.http_same _ _ ∙ laws.http_same _ w
      tomorrow_same (refused e) = laws.http_same _ w
  fetch_prices-same energyzero zone date w = laws.http_same _ w

  module _ (base : EnergyPriceSource F) (in_namespace : base.namespace ≡ ns)
      (named : base.name ≡ name) where
    abbrev pub I : World → Type 0
    I w = (e' : EnergyPriceSource F) → stored w ns name ≡ some e' → IsSound base e'

    abbrev pub K : World → Type 0
    K w = stored w ns name ≡ some base

    abbrev pub Keeps : (World → Type 0) → Act World Requeue → Type 0
    Keeps P m = Triple I P m (λ _. I)

    pub weaken : (w : World) → K w → I w
    weaken w k e' h = unchanged (let both : some e' ≡ some base = sym h ∙ k in cc)

    pub K-same : (w w' : World) → stored w' ≡ stored w → K w → K w'
    K-same w w' e k = (λ i. e i ns name) ∙ k

    pub I-same : (w w' : World) → stored w' ≡ stored w → I w → I w'
    I-same w w' e p e' h = p e' (sym (λ i. e i ns name) ∙ h)

    -- A patch by an object whose prices and time are sound.
    I-patch :
        (e : EnergyPriceSource F) (w : World)
        → e.namespace ≡ ns
        → e.name ≡ name
        → ((e' : EnergyPriceSource F)
            → e'.prices ≡ whole_seconds e.prices
            → e'.last_updated ≡ truncated e.last_updated
            → IsSound base e')
        → K w
        → I (store.patch_source base e w).1
    I-patch e w in_ns with_name sound k e' h =
        elim (laws.patched base e w e'
          ((λ i. stored (store.patch_source base e w).1 (in_ns i) (with_name i)) ∙ h)) [
            | inl before ↦ weaken w k e' (sym (λ i. stored w (in_ns i) (with_name i)) ∙ before)
            | inr new ↦ sound e' new.0 new.1
          ]

    Ends-result : {A : Type 0} (r : Result A) (w : World) → I w → Ends I (λ _. I) (run_of r) w
    Ends-result (ok a) w i = i
    Ends-result (err x) w i = i

    pub patch_then :
        (e : EnergyPriceSource F) (f : EnergyPriceSource F → Act World Requeue)
        → e.namespace ≡ ns
        → e.name ≡ name
        → ((e' : EnergyPriceSource F)
            → e'.prices ≡ whole_seconds e.prices
            → e'.last_updated ≡ truncated e.last_updated
            → IsSound base e')
        → ((a : EnergyPriceSource F) → Keeps I (f a))
        → Keeps K (call (store.patch_source base e) >>= f)
    patch_then e f in_ns with_name sound rest =
        Triple-bind I K (λ _. I) (λ _. I) (call (store.patch_source base e)) f
          (λ w k.
            Ends-result (store.patch_source base e w).0 _ (I-patch e w in_ns with_name sound k))
          rest

    pub read_then :
        (f : ℕ → Act World Requeue)
        → ((t : ℕ) → Keeps K (f t))
        → Keeps K (reading store.clock >>= f)
    read_then f rest w k =
        rest (store.clock w).0 (store.clock w).1 (K-same w _ (laws.clock_same w) k)

    pub failing : (x : SourceError) → Keeps K (set_error_condition net store factories base x)
    unfolding set_error_condition
    failing x = read_then _ (λ transition.
        patch_then (with_error net store factories base x transition)
          (λ _. pure (after retry_after_error)) in_namespace named (λ e' p q. rewritten p q)
          (λ _ w i. i))
