-- ===== src/EnergyJob/Run.antt =====
-- Actions that may also panic, and the answer of a reconciliation.
use kube_greencosts.Prelude.{Bool}
use kube_greencosts.Prelude.Int.{ℤ}
use kube_greencosts.Cluster.{Error, Result, ok, err}

-- `panicked` is a Go run-time panic.
pub data Run {ℓ} (A : Type ℓ) : Type ℓ where
  done : A → Run A
  failed : Error → Run A
  panicked : Run A

abbrev pub Act {ℓ} : Type 0 → Type ℓ → Type ℓ
Act W A = W → Run A × W

abbrev pub pure {ℓ} : {W : Type 0} {A : Type ℓ} → A → Act W A
pure a w = (done a, w)

abbrev pub continue {ℓ κ} : {W : Type 0} {A : Type ℓ} {B : Type κ} → Run A → (A → Act W B) → Act W B
continue (done a) f w = f a w
continue (failed e) f w = (failed e, w)
continue panicked f w = (panicked, w)

infixl 5 ◌>>=◌ ◌>>◌
abbrev pub ◌>>=◌ {ℓ κ} : {W : Type 0} {A : Type ℓ} {B : Type κ} → Act W A → (A → Act W B) → Act W B
◌>>=◌ m f w = continue (m w).0 f (m w).1

abbrev pub ◌>>◌ {ℓ} : {W : Type 0} {B : Type ℓ} → Act W (Unit {0}) → Act W B → Act W B
m >> k = m >>= λ _. k

abbrev pub run_of {ℓ} : {A : Type ℓ} → Result A → Run A
run_of (ok a) = done a
run_of (err e) = failed e

-- a call that returns an error is left by its caller with that error
abbrev pub call {ℓ} : {W : Type 0} {A : Type ℓ} → (W → Result A × W) → Act W A
call m w = (run_of (m w).0, (m w).1)

abbrev pub reading {ℓ} : {W : Type 0} {A : Type ℓ} → (W → A × W) → Act W A
reading m w = (done (m w).0, (m w).1)

-- `ctrl.Result`
pub record Requeue : Type 0 where
  pub requeue : Bool
  pub requeue_after : ℤ
