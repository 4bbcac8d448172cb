-- ===== src/PriceSource/Sound.antt =====
-- A reconciliation keeps the prices of an EnergyPriceSource, or stores those that its provider gave.
use kube_greencosts.Prelude.{
  ℕ, ◌-◌, String, ◌≡◌, refl, sym, ◌∙◌, subst, inl, inr, Bool-cases, Option, none, some, List, ltb,
}
use kube_greencosts.Cluster.{Error, Result, ok, err, ignore_not_found}
use kube_greencosts.Price.{PricePoint}
use kube_greencosts.Provider.{Fetched, fetched, refused, Network}
use kube_greencosts.Provider.Registry.{EnergyProvider, Factories, get_provider, fetch_prices}
use kube_greencosts.EnergyJob.Types.{Parsed, parsed, unparsed}
use kube_greencosts.Schedule.{second}
use kube_greencosts.EnergyJob.Run.{Run, done, failed, panicked, Act, Requeue, pure, ◌>>=◌, reading}
use kube_greencosts.EnergyJob.Optimal.{duration_between, added}
use kube_greencosts.EnergyJob.Laws.{Ends}
use kube_greencosts.PriceSource.{
  EnergyPriceSource, SourceStore, Token, token, no_token, invalid_schedule, prices_unfetched,
  provider_unmade, exceeds_minute, fire_or_wait, cached_or_past, after, with_prices, updated, asked,
  with_token, refresh, at_fire, scheduled, past_cache, by_cache, ignored, after_get,
  reconcile_source,
}
use kube_greencosts.PriceSource.Tokens.{token_same}
use kube_greencosts.PriceSource.Laws.{
  SourceLaws, IsSound, unchanged, refreshed, fetch_prices-same, I, K, Keeps, weaken, K-same, I-same,
  patch_then, read_then, failing,
}

module _ {F World : Type 0} (net : Network F World) (store : SourceStore F World)
    (factories : Factories) (ns name : String) (laws : SourceLaws net store) where
  open laws use {stored}

  module _ (base : EnergyPriceSource F) (in_namespace : base.namespace ≡ ns)
      (named : base.name ≡ name) where
    abbrev Stays : Act World Requeue → Type 0
    Stays m =
        Keeps net store factories ns name laws base in_namespace named
          (K net store factories ns name laws base in_namespace named) m

    read_twice :
        (w : World)
        → I net store factories ns name laws base in_namespace named w
        → I net store factories ns name laws base in_namespace named
            (store.clock (store.clock w).1).1
    read_twice w i =
        I-same net store factories ns name laws base in_namespace named (store.clock w).1 _
          (laws.clock_same (store.clock w).1)
          (I-same net store factories ns name laws base in_namespace named w _ (laws.clock_same w)
            i)

    refreshing :
        (schedule : ℕ → ℕ) (r : Fetched (List (PricePoint F))) (provider : EnergyProvider)
        (secret : String) (date : ℕ) (v : World)
        → get_provider factories base.spec.provider base.spec secret ≡ fetched provider
        → (fetch_prices net provider base.spec.bidding_zone date v).0 ≡ r
        → Stays (updated net store factories schedule base r)
    unfolding updated
    refreshing schedule (refused e) provider secret date v made got =
        failing net store factories ns name laws base in_namespace named (prices_unfetched e)
    refreshing schedule (fetched prices) provider secret date v made got =
        read_then net store factories ns name laws base in_namespace named _ (λ now.
          patch_then net store factories ns name laws base in_namespace named
            (with_prices net store factories base prices now)
            (λ _. do
              last ← reading store.clock
              later ← reading store.clock
              pure (after (duration_between (schedule last) later)))
            in_namespace named (λ e' p q. refreshed provider secret date now v prices made got p q)
            (λ _ w i. read_twice w i))

    asking :
        (schedule : ℕ → ℕ) (secret : String) (r : Fetched EnergyProvider)
        → get_provider factories base.spec.provider base.spec secret ≡ r
        → Stays (asked net store factories schedule base r)
    asking schedule secret (refused e) h =
        failing net store factories ns name laws base in_namespace named (provider_unmade e)
    asking schedule secret (fetched provider) h = λ w k.
        let (date, w1) = store.clock w in
        refreshing schedule (fetch_prices net provider base.spec.bidding_zone date w1).0 provider
          secret date w1 h refl _
          (K-same net store factories ns name laws base in_namespace named w _
            (fetch_prices-same net store factories ns name laws provider base.spec.bidding_zone date
                w1
              ∙ laws.clock_same w)
            k)

    with_secret :
        (schedule : ℕ → ℕ) (t : Token) → Stays (with_token net store factories schedule base t)
    with_secret schedule (no_token e) =
        failing net store factories ns name laws base in_namespace named e
    with_secret schedule (token t) = asking schedule t _ refl

    at_refresh : (schedule : ℕ → ℕ) → Stays (refresh net store factories schedule base)
    unfolding refresh
    at_refresh schedule w k = with_secret schedule _ _ (
        K-same net store factories ns name laws base in_namespace named w _
          (token_same net store factories laws base w) k)

    near_or_far :
        (schedule : ℕ → ℕ) (next_fire now : ℕ)
        → Stays (fire_or_wait net store factories schedule base next_fire now)
    near_or_far schedule next_fire now =
        elim (Bool-cases (exceeds_minute (duration_between next_fire now))) [
          | inl far ↦ rw far (
              read_then net store factories ns name laws base in_namespace named
                (λ later. pure (after (duration_between next_fire later)))
                (λ later w k. weaken net store factories ns name laws base in_namespace named w k))
          | inr near ↦ rw near (at_refresh schedule)
        ]

    firing :
        (schedule : ℕ → ℕ) (next_fire : ℕ)
        → Stays (at_fire net store factories schedule base next_fire)
    unfolding at_fire
    firing schedule next_fire =
        read_then net store factories ns name laws base in_namespace named
          (fire_or_wait net store factories schedule base next_fire)
          (near_or_far schedule next_fire)

    scheduling : (p : Parsed) → Stays (scheduled net store factories base p)
    scheduling (unparsed e) =
        failing net store factories ns name laws base in_namespace named (invalid_schedule e)
    scheduling (parsed schedule) =
        read_then net store factories ns name laws base in_namespace named
          (λ now. at_fire net store factories schedule base (schedule (now - second)))
          (λ now. firing schedule (schedule (now - second)))

    fresh_or_stale : (t now : ℕ) → Stays (cached_or_past net store factories base t now)
    unfolding past_cache
    fresh_or_stale t now = elim (Bool-cases (ltb now (added t base.cache_ttl))) [
      | inl fresh ↦ rw fresh (
          read_then net store factories ns name laws base in_namespace named
            (λ later. pure (after (duration_between (added t base.cache_ttl) later)))
            (λ later w k. weaken net store factories ns name laws base in_namespace named w k))
      | inr stale ↦ rw stale (scheduling _)
    ]

    caching : (o : Option ℕ) → Stays (by_cache net store factories base o)
    unfolding past_cache
    caching none = scheduling _
    caching (some t) =
        read_then net store factories ns name laws base in_namespace named
          (cached_or_past net store factories base t) (fresh_or_stale t)

    after_cache :
        (w : World)
        → K net store factories ns name laws base in_namespace named w
        → I net store factories ns name laws base in_namespace named
            (by_cache net store factories base base.last_updated w).1
    after_cache w k = every _ _ (caching base.last_updated w k)
      where
        every :
            (r : Run Requeue) (v : World)
            → Ends
                (I net store factories ns name laws base in_namespace named)
                (λ _. I net store factories ns name laws base in_namespace named)
                r
                v
            → I net store factories ns name laws base in_namespace named v
        every (done a) v i = i
        every (failed x) v i = i
        every panicked v i = i

  -- After a reconciliation the stored object has the prices and the time of the last update that it
  -- had, or these cut to whole seconds; or it has the prices that the provider of its specification
  -- gave, made with some token and asked for its bidding zone. So a failure at any stage, from the
  -- schedule to the provider's answer, never loses the prices.
  pub prices_kept_or_fetched :
      (w : World) (base e' : EnergyPriceSource F)
      → stored w ns name ≡ some base
      → stored (reconcile_source net store factories ns name w).1 ns name ≡ some e'
      → IsSound net store factories ns name laws base e'
  unfolding reconcile_source
  prices_kept_or_fetched w base e' there h = answered _ refl h
    where
      w1 : World
      w1 = (store.get_source ns name w).1

      before : stored w1 ns name ≡ some base
      before = (λ i. laws.get_same ns name w i ns name) ∙ there

      same : some e' ≡ some base → e' ≡ base
      same q = cc

      ignored_same :
          (o : Option Error)
          → stored (ignored net store factories o w1).1 ns name ≡ some e'
          → IsSound net store factories ns name laws base e'
      ignored_same none g = unchanged (same (sym g ∙ before))
      ignored_same (some x) g = unchanged (same (sym g ∙ before))

      answered :
          (r : Result (EnergyPriceSource F))
          → (store.get_source ns name w).0 ≡ r
          → stored (after_get net store factories r w1).1 ns name ≡ some e'
          → IsSound net store factories ns name laws base e'
      answered (err x) g q = ignored_same (ignore_not_found x) q
      answered (ok eps) g q =
          let (read, in_namespace, named) = laws.got ns name w eps g in
          let object : eps ≡ base = let both : some eps ≡ some base = sym read ∙ there in cc in
          subst (λ (b : EnergyPriceSource F). IsSound net store factories ns name laws b e') object
            (after_cache eps in_namespace named w1 ((λ i. laws.get_same ns name w i ns name) ∙ read)
              e' q)
