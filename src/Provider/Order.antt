-- ===== src/Provider/Order.antt =====
-- In which order the providers give the price points.
use kube_greencosts.Prelude.{
  ℕ, String, ◌≡◌, refl, inl, inr, Bool-cases, Option, none, some, List, [], ◌∷◌, nat_eq, ◌==◌,
}
use kube_greencosts.Price.{PricePoint}
use kube_greencosts.Price.Order.{IsChronological}
use kube_greencosts.Provider.Http.{read_limited_body}
use kube_greencosts.Provider.{
  ◌>>=◌, Fetched, fetched, refused, or_refuse, undecodable, unreadable_body, Response, RawInterval,
  PriceItem, Network,
}
use kube_greencosts.Provider.Custom.{
  is_before, convert_each, convert_intervals, custom_request, custom_answer, fetch_custom,
}
use kube_greencosts.Provider.Custom
use kube_greencosts.Provider.EnergyZero
use kube_greencosts.Provider.EnergyZero.{
  convert_items, convert_base, parse_response, energyzero_request, energyzero_answer,
  fetch_energyzero,
}
use kube_greencosts.Provider.Registry.{
  EnergyProvider, custom_provider, entsoe, enever, energyzero, fetch_prices,
}

-- A provider that sorts what it converted.
pub data IsSorting : EnergyProvider → Type 0 where
  custom_sorts : (url token : String) → IsSorting (custom_provider url token)
  energyzero_sorts : IsSorting energyzero

module _ {F World : Type 0} (net : Network F World)
    (orders : (l : List (PricePoint F)) → IsChronological (net.sort_points is_before l)) where
  -- An answer that is not an error is in order.
  abbrev InOrder : Fetched (List (PricePoint F)) → Type 0
  InOrder (fetched prices) = IsChronological prices
  InOrder (refused e) = Unit

  -- A step before the points are sorted.
  InOrder-bind :
      {A : Type 0} (m : Fetched A) (f : A → Fetched (List (PricePoint F)))
      → ((a : A) → InOrder (f a))
      → InOrder (m >>= f)
  InOrder-bind (fetched a) f h = h a
  InOrder-bind (refused e) f h = tt

  intervals-InOrder : (raw : List (RawInterval F)) → InOrder (convert_intervals net raw)
  unfolding convert_intervals
  intervals-InOrder raw = InOrder-bind (convert_each net raw) _ orders

  custom-InOrder : (r : Option Response) → InOrder (custom_answer net r)
  custom-InOrder none = tt
  custom-InOrder (some resp) = elim (Bool-cases (nat_eq resp.status 200)) [
    | inl fine ↦ rw fine (
        InOrder-bind (or_refuse unreadable_body (read_limited_body resp.body Custom.max_body_bytes))
          _
          (λ body.
            InOrder-bind (or_refuse undecodable (net.decode_intervals body)) _ intervals-InOrder))
    | inr other ↦ rw other tt
  ]

  base-InOrder : (items : List PriceItem) → InOrder (convert_base net items)
  base-InOrder [] = tt
  base-InOrder (item ∷ items) = InOrder-bind (convert_items net (item ∷ items)) _ orders

  response-InOrder : (body : String) → InOrder (parse_response net body)
  unfolding parse_response
  response-InOrder body = InOrder-bind (or_refuse undecodable (net.decode_energyzero body)) _ (λ ar.
      elim (Bool-cases (ar.interval == "RESPONSE_INTERVAL_QUARTER")) [
        | inl quarter ↦ rw quarter (base-InOrder ar.base)
        | inr other ↦ rw other tt
      ])

  energyzero-InOrder : (r : Option Response) → InOrder (energyzero_answer net r)
  energyzero-InOrder none = tt
  energyzero-InOrder (some resp) =
      InOrder-bind
        (or_refuse unreadable_body (read_limited_body resp.body EnergyZero.max_body_bytes)) _
        (λ body. elim (Bool-cases (nat_eq resp.status 200)) [
          | inl fine ↦ rw fine (response-InOrder body)
          | inr other ↦ rw other tt
        ])

  provider-InOrder :
      (provider : EnergyProvider) (zone : String) (date : ℕ) (w : World)
      → IsSorting provider
      → InOrder (fetch_prices net provider zone date w).0
  unfolding fetch_prices fetch_custom fetch_energyzero
  provider-InOrder (custom_provider url token) zone date w s =
      custom-InOrder (net.http_get (custom_request net url token zone date) w).0
  provider-InOrder energyzero zone date w s =
      energyzero-InOrder (net.http_get (energyzero_request net date) w).0
  provider-InOrder (entsoe area_code token) zone date w s = absurd (sorts s refl)
    where
      sorts : {p : EnergyProvider} → IsSorting p → p ≡ entsoe area_code token → ⊥
      sorts (custom_sorts url token') e = cc
      sorts energyzero_sorts e = cc
  provider-InOrder (enever token supplier) zone date w s = absurd (sorts s refl)
    where
      sorts : {p : EnergyProvider} → IsSorting p → p ≡ enever token supplier → ⊥
      sorts (custom_sorts url token') e = cc
      sorts energyzero_sorts e = cc

  answer-InOrder :
      (r : Fetched (List (PricePoint F))) (prices : List (PricePoint F))
      → r ≡ fetched prices
      → InOrder r
      → IsChronological prices
  answer-InOrder r prices e h = rw e at h

  -- Where the sorting routine orders price points by their times, the prices that the custom provider
  -- or EnergyZero gives are in chronological order, whatever the order of the answer.
  pub fetched_in_order :
      (provider : EnergyProvider) (zone : String) (date : ℕ) (w : World)
      (prices : List (PricePoint F))
      → IsSorting provider
      → (fetch_prices net provider zone date w).0 ≡ fetched prices
      → IsChronological prices
  fetched_in_order provider zone date w prices s e =
      answer-InOrder _ prices e (provider-InOrder provider zone date w s)
