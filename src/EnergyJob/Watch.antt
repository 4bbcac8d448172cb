-- ===== src/EnergyJob/Watch.antt =====
-- Which EnergyAwareCronJobs an event on an EnergyPriceSource reconciles
-- (energyawarecronjob_controller.go: energyPriceSourceToEACJs).
use mathlib.Core.List.{Memᴰ}
use kube_greencosts.Prelude.{
  String, ◌≡◌, ap, subst, true, inl, inr, Bool-cases, List, [], ◌∷◌, ◌==◌, if◌then◌else◌,
}
use kube_greencosts.Cluster.{Result, ok, err}
use kube_greencosts.EnergyJob.Types.{EnergyAwareCronJob}

-- `ctrl.Request`
pub record Request : Type 0 where
  pub namespace : String
  pub name : String

abbrev pub request_of : EnergyAwareCronJob → Request
request_of eacj = record { namespace = eacj.namespace; name = eacj.name }

-- the loop
unfoldable pub requests_for : String → List EnergyAwareCronJob → List Request
requests_for source [] = []
requests_for source (eacj ∷ items) =
    let rest = requests_for source items in
    if eacj.spec.energy_price_source == source then request_of eacj ∷ rest else rest

abbrev pub requests_of : String → Result (List EnergyAwareCronJob) → List Request
requests_of source (err e) = []
requests_of source (ok items) = requests_for source items

module _ {World : Type 0}
    (list_cron_jobs : String → World → Result (List EnergyAwareCronJob) × World) where
  -- `energyPriceSourceToEACJs`, for the namespace and the name of the EnergyPriceSource
  unfoldable pub energy_price_source_to_eacjs : String → String → World → List Request × World
  energy_price_source_to_eacjs ns source w =
      (requests_of source (list_cron_jobs ns w).0, (list_cron_jobs ns w).1)

-- An EnergyAwareCronJob that names the source is reconciled.
pub requested :
    (source : String) (items : List EnergyAwareCronJob) (eacj : EnergyAwareCronJob)
    → (eacj.spec.energy_price_source == source) ≡ true
    → Memᴰ eacj items
    → Memᴰ (request_of eacj) (requests_for source items)
unfolding requests_for
requested source [] eacj named m = elim m [ ]
requested source (x ∷ items) eacj named (Memᴰ.head e) =
    let here =
      subst (λ (y : EnergyAwareCronJob). (y.spec.energy_price_source == source) ≡ true) e named in
    rw here (Memᴰ.head (ap (λ (y : EnergyAwareCronJob). request_of y) e))
requested source (x ∷ items) eacj named (Memᴰ.tail m) =
    elim (Bool-cases (x.spec.energy_price_source == source)) [
      | inl here ↦ rw here (Memᴰ.tail (requested source items eacj named m))
      | inr other ↦ rw other (requested source items eacj named m)
    ]
