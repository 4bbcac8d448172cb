-- ===== src/PriceSource/Stored.antt =====
-- Prices that a provider gives are stored.
use kube_greencosts.Prelude.{
  ℕ, ◌-◌, String, ◌≡◌, refl, sym, ◌∙◌, ap, subst, Bool, false, Option, none, some, List,
  if◌then◌else◌,
}
use kube_greencosts.Cluster.{Result, ok, err}
use kube_greencosts.Price.{PricePoint}
use kube_greencosts.Schedule.{second}
use kube_greencosts.Provider.{Fetched, fetched, Network}
use kube_greencosts.Provider.Registry.{EnergyProvider, Factories, get_provider, fetch_prices}
use kube_greencosts.EnergyJob.Types.{Parsed, parsed}
use kube_greencosts.EnergyJob.Run.{Act, reading, run_of, ◌>>=◌, Run, done, Requeue, continue, pure}
use kube_greencosts.EnergyJob.Optimal.{duration_between}
use kube_greencosts.PriceSource.{
  EnergyPriceSource, SourceStore, after, Token, token, schedule_or_default, exceeds_minute,
  resolve_token, with_token, asked, with_prices, updated, refresh, at_fire, scheduled, past_cache,
  by_cache, after_get, reconcile_source,
}
use kube_greencosts.PriceSource.Laws.{SourceLaws, whole_seconds}

-- A status patch that succeeds stores the prices.
pub record PatchLaws {F World : Type 0} (net : Network F World) (store : SourceStore F World)
    (laws : SourceLaws net store) : Type 0 where
  pub stores :
      (base e a : EnergyPriceSource F) (w : World)
      → (store.patch_source base e w).0 ≡ ok a
      → (e' : EnergyPriceSource F) × (laws.stored (store.patch_source base e w).1 e.namespace e.name
          ≡ some e')
        × (e'.prices ≡ whole_seconds e.prices)

module _ {F World : Type 0} (net : Network F World) (store : SourceStore F World)
    (factories : Factories) (laws : SourceLaws net store) (patches : PatchLaws net store laws)
    (base : EnergyPriceSource F) where
  open laws use {stored}
  open store use {clock, get_source, patch_source, parse_standard}

  abbrev Has : List (PricePoint F) → World → Type 0
  Has prices w =
      (e' : EnergyPriceSource F) × (stored w base.namespace base.name ≡ some e')
      × (e'.prices ≡ whole_seconds prices)

  abbrev Succeeds : Requeue → List (PricePoint F) → Run Requeue × World → Type 0
  Succeeds r prices a = a.0 ≡ done r → Has prices a.1

  Has-clock : (prices : List (PricePoint F)) (w : World) → Has prices w → Has prices (clock w).1
  Has-clock prices w (e', h, p) = (e', (λ i. laws.clock_same w i base.namespace base.name) ∙ h, p)

  abbrev waits : (ℕ → ℕ) → EnergyPriceSource F → Act World Requeue
  waits schedule _ = do
    last ← reading clock
    later ← reading clock
    pure (after (duration_between (schedule last) later))

  after_patch :
      (prices : List (PricePoint F)) (schedule : ℕ → ℕ) (r : Requeue)
      (a : Result (EnergyPriceSource F)) (v : World)
      → ((x : EnergyPriceSource F) → a ≡ ok x → Has prices v)
      → Succeeds r prices (continue (run_of a) (waits schedule) v)
  after_patch prices schedule r (ok x) v has =
      λ h. Has-clock prices (clock v).1 (Has-clock prices v (has x refl))
  after_patch prices schedule r (err e) v has = λ h. absurd (cc)

  update_stores :
      (prices : List (PricePoint F)) (w : World) (schedule : ℕ → ℕ) (r : Requeue)
      → Succeeds r prices (updated net store factories schedule base (fetched prices) w)
  unfolding updated
  update_stores prices w schedule r =
      after_patch prices schedule r (patch_source base e (clock w).1).0 _
        (λ x h. patches.stores base e x (clock w).1 h)
    where
      e : EnergyPriceSource F
      e = with_prices net store factories base prices (clock w).0

  -- A refresh whose token is read, whose provider is made and gives prices, updates with them.
  refresh_updates :
      (schedule : ℕ → ℕ) (w : World) (secret : String) (provider : EnergyProvider)
      (prices : List (PricePoint F))
      → (resolve_token net store factories base w).0 ≡ token secret
      → get_provider factories base.spec.provider base.spec secret ≡ fetched provider
      → (let w1 = (resolve_token net store factories base w).1 in
          (fetch_prices net provider base.spec.bidding_zone (clock w1).0 (clock w1).1).0)
        ≡ fetched prices
      → (w' : World) × (refresh net store factories schedule base w
          ≡ updated net store factories schedule base (fetched prices) w')
  unfolding refresh
  refresh_updates schedule w secret provider prices known made gave = (
    _,
    ap (λ (t : Token). with_token net store factories schedule base t w1) known
        ∙ ap (λ (p : Fetched EnergyProvider). asked net store factories schedule base p w1) made
        ∙ ap
            (λ (r : Fetched (List (PricePoint F))).
              updated net store factories schedule base r
                (fetch_prices net provider base.spec.bidding_zone (clock w1).0 (clock w1).1).1)
            gave,
  )
    where
      w1 : World
      w1 = (resolve_token net store factories base w).1

  -- A source that was never refreshed, and whose schedule fires within a minute, is refreshed.
  first_refreshes :
      (ns name : String) (w : World) (schedule : ℕ → ℕ)
      → (get_source ns name w).0 ≡ ok base
      → base.last_updated ≡ none
      → parse_standard (schedule_or_default base.refresh_schedule) ≡ parsed schedule
      → (let r1 = clock (get_source ns name w).1 in
          exceeds_minute (duration_between (schedule (r1.0 - second)) (clock r1.1).0))
        ≡ false
      → reconcile_source net store factories ns name w
        ≡ refresh net store factories schedule base (clock (clock (get_source ns name w).1).1).1
  unfolding reconcile_source past_cache at_fire
  first_refreshes ns name w schedule read never known near =
      ap (λ (a : Result (EnergyPriceSource F)). after_get net store factories a w1) read
      ∙ ap (λ (o : Option ℕ). by_cache net store factories base o w1) never
      ∙ ap (λ (p : Parsed). scheduled net store factories base p w1) known
      ∙ ap
          (λ (b : Bool).
            (if b
                then (do
                  later ← reading clock
                  pure (after (duration_between (schedule ((clock w1).0 - second)) later)))
                else refresh net store factories schedule base)
              (clock (clock w1).1).1)
          near
    where
      w1 : World
      w1 = (get_source ns name w).1

  -- Where a price source that was never refreshed is read, its schedule parses and fires at most a
  -- minute after the clock's time, its token is read, and its provider is made and gives prices, a
  -- reconciliation that succeeds leaves these prices, with whole seconds, in the stored object.
  pub first_prices_stored :
      (ns name : String) (w : World) (schedule : ℕ → ℕ) (secret : String)
      (provider : EnergyProvider) (prices : List (PricePoint F)) (r : Requeue)
      → (get_source ns name w).0 ≡ ok base
      → base.last_updated ≡ none
      → parse_standard (schedule_or_default base.refresh_schedule) ≡ parsed schedule
      → (let r1 = clock (get_source ns name w).1 in
          exceeds_minute (duration_between (schedule (r1.0 - second)) (clock r1.1).0))
        ≡ false
      → (let w1 = (clock (clock (get_source ns name w).1).1).1 in
          (resolve_token net store factories base w1).0)
        ≡ token secret
      → get_provider factories base.spec.provider base.spec secret ≡ fetched provider
      → (let w1 = (clock (clock (get_source ns name w).1).1).1 in
          let w2 = (resolve_token net store factories base w1).1 in
          (fetch_prices net provider base.spec.bidding_zone (clock w2).0 (clock w2).1).0)
        ≡ fetched prices
      → (reconcile_source net store factories ns name w).0 ≡ done r
      → (e' : EnergyPriceSource F) × (stored
            (reconcile_source net store factories ns name w).1
            base.namespace
            base.name
          ≡ some e')
        × (e'.prices ≡ whole_seconds prices)
  first_prices_stored ns name w schedule secret provider prices r read never known near resolved
        made gave =
      let (w', same) = refresh_updates schedule _ secret provider prices resolved made gave in
      subst (λ (a : Run Requeue × World). Succeeds r prices a)
        (sym (first_refreshes ns name w schedule read never known near ∙ same))
        (update_stores prices w' schedule r)
