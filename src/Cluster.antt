-- ===== src/Cluster.antt =====
-- The Kubernetes API and the runtime libraries that the controllers call: a parameter of the model.
-- An action passes the state of the world on, and an error comes back beside that state.
pub mod Laws
pub mod Reads
use kube_greencosts.Prelude.{String, Bool, true, false, Option, none, some, List}
use kube_greencosts.Api.{WorkloadType, Workload, Hpa, NodeSelector, Namespace}

-- What the code tells apart in an error: `apierrors.IsNotFound`, `IsAlreadyExists`, any other answer
-- of the API, and a value that could not be encoded. The text that wraps an error is left out.
pub data Error : Type 0 where
  not_found already_exists api_failed encoding_failed : Error

pub data Result {ℓ} (A : Type ℓ) : Type ℓ where
  ok : A → Result A
  err : Error → Result A

-- `client.Client`, `crypto/sha256` in hexadecimal, and `encoding/json` on a node selector. A list
-- takes a namespace, or none for the whole cluster; a patch takes the object before and after.
pub record Cluster : Type 1 where
  pub World : Type 0
  pub list_namespaces : World → Result (List Namespace) × World
  pub list_workloads : WorkloadType → Option String → World → Result (List Workload) × World
  pub get_workload : WorkloadType → String → String → World → Result Workload × World
  pub patch_workload : WorkloadType → Workload → Workload → World → Result (Unit {0}) × World
  pub list_hpas : String → World → Result (List Hpa) × World
  pub patch_hpa : Hpa → Hpa → World → Result (Unit {0}) × World
  pub sha256_hex : String → String
  pub marshal : NodeSelector → Option String
  pub unmarshal : String → Option NodeSelector

abbrev pub Exec {ℓ} : Type 0 → Type ℓ → Type ℓ
Exec W A = W → Result A × W

abbrev pub pure {ℓ} : {W : Type 0} {A : Type ℓ} → A → Exec W A
pure a w = (ok a, w)

abbrev pub continue {ℓ κ} :
    {W : Type 0} {A : Type ℓ} {B : Type κ} → Result A → (A → Exec W B) → Exec W B
continue (ok a) f w = f a w
continue (err e) f w = (err e, w)

infixl 5 ◌>>=◌ ◌>>◌
abbrev pub ◌>>=◌ {ℓ κ} :
    {W : Type 0} {A : Type ℓ} {B : Type κ} → Exec W A → (A → Exec W B) → Exec W B
◌>>=◌ m f w = continue (m w).0 f (m w).1

abbrev pub ◌>>◌ {ℓ} : {W : Type 0} {B : Type ℓ} → Exec W (Unit {0}) → Exec W B → Exec W B
m >> k = m >>= λ _. k

-- the `err` of a Go call whose other result is not used
abbrev pub error_of {ℓ} : {A : Type ℓ} → Result A → Option Error
error_of (ok _) = none
error_of (err e) = some e

-- `client.IgnoreNotFound`
abbrev pub ignore_not_found : Error → Option Error
ignore_not_found not_found = none
ignore_not_found already_exists = some already_exists
ignore_not_found api_failed = some api_failed
ignore_not_found encoding_failed = some encoding_failed
