-- ===== src/PriceSource/Tokens.antt =====
-- The reading of a token stores nothing.
use kube_greencosts.Prelude.{◌≡◌, refl, inl, inr, Bool-cases, Option, none, some, ◌==◌}
use kube_greencosts.Provider.{Network}
use kube_greencosts.Provider.Registry.{
  SecretRef, CustomProviderConfig, EntsoeConfig, EneverConfig, Factories,
}
use kube_greencosts.PriceSource.{
  EnergyPriceSource, SourceStore, optional_secret, read_secret_key, custom_token, entsoe_token,
  enever_token, resolve_token,
}
use kube_greencosts.PriceSource.Laws.{SourceLaws}

module _ {F World : Type 0} (net : Network F World) (store : SourceStore F World)
    (factories : Factories) (laws : SourceLaws net store) (base : EnergyPriceSource F) where
  open laws use {stored}

  secret_same :
      (ref : SecretRef) (w : World)
      → stored (read_secret_key net store factories base.namespace ref w).1 ≡ stored w
  secret_same ref w = laws.secret_same base.namespace ref.name w

  custom_same :
      (o : Option CustomProviderConfig) (w : World)
      → stored (custom_token net store factories base.namespace o w).1 ≡ stored w
  custom_same none w = refl
  custom_same (some cfg) w = by_ref cfg.secret_ref
    where
      by_ref :
          (o : Option SecretRef)
          → stored (optional_secret net store factories base.namespace o w).1 ≡ stored w
      by_ref none = refl
      by_ref (some ref) = laws.secret_same base.namespace ref.name w

  entsoe_same :
      (o : Option EntsoeConfig) (w : World)
      → stored (entsoe_token net store factories base.namespace o w).1 ≡ stored w
  entsoe_same none w = refl
  entsoe_same (some cfg) w = secret_same cfg.secret_ref w

  enever_same :
      (o : Option EneverConfig) (w : World)
      → stored (enever_token net store factories base.namespace o w).1 ≡ stored w
  enever_same none w = refl
  enever_same (some cfg) w = secret_same cfg.secret_ref w

  pub token_same : (w : World) → stored (resolve_token net store factories base w).1 ≡ stored w
  unfolding resolve_token
  token_same w = elim (Bool-cases (base.spec.provider == "customProvider")) [
    | inl c ↦ rw c (custom_same base.spec.custom_provider_config w)
    | inr nc ↦ rw nc (elim (Bool-cases (base.spec.provider == "entsoe")) [
      | inl s ↦ rw s (entsoe_same base.spec.entsoe_config w)
      | inr ns' ↦ rw ns' (elim (Bool-cases (base.spec.provider == "enever")) [
        | inl v ↦ rw v (enever_same base.spec.enever_config w)
        | inr nv ↦ rw nv refl
      ])
    ])
  ]
