-- ===== src/Hibernate/Effect.antt =====
-- The effect of one step of a pass on the store: at most the step's own object changes, from what is
-- held to what the step means to write, and it is written where the step reports no error.
use kube_greencosts.Prelude.{String, ◌≡◌, ◌≢◌, refl, sym, ◌∙◌, ◌⊎◌, inl, inr, Option, none, some}
use kube_greencosts.Api.{WorkloadType, Workload}
use kube_greencosts.Cluster.{Error, Cluster, Result, ok, err, error_of}
use kube_greencosts.Cluster.Laws.{ClusterLaws}

module _ (k : Cluster) (laws : ClusterLaws k) (t : WorkloadType) (ns : String) where
  open k use {World, patch_workload}
  open laws use {workload, patched, patch_atomic, patch_keeps}

  abbrev pub Elsewhere : Workload → WorkloadType → String → String → Type 0
  Elsewhere d u ns' name = (u ≢ t) ⊎ (ns' ≢ ns) ⊎ (name ≢ d.name)

  pub record Effect (d d' : Workload) (e : Option Error) (w w' : World) : Type 0 where
    pub frame :
        (u : WorkloadType) (ns' name : String)
        → Elsewhere d u ns' name
        → workload w' u ns' name ≡ workload w u ns' name
    pub either : (workload w' t ns d.name ≡ some d) ⊎ (workload w' t ns d.name ≡ some d')
    pub done : e ≡ none → workload w' t ns d.name ≡ some d'

  at_key :
      {w w' : World}
      → workload w' ≡ workload w
      → (u : WorkloadType) (ns' name : String) → workload w' u ns' name ≡ workload w u ns' name
  at_key q u ns' name i = q i u ns' name

  -- a step that writes no workload, where none is to be written
  pub Effect-quiet :
      (d : Workload) (e : Option Error) {w w' : World}
      → workload w' ≡ workload w
      → workload w t ns d.name ≡ some d
      → Effect d d e w w'
  Effect-quiet d e q held = record {
    frame = λ u ns' name _. at_key q u ns' name;
    either = inl (at_key q t ns d.name ∙ held);
    done = λ _. at_key q t ns d.name ∙ held;
  }

  -- a step that fails before it writes
  pub Effect-failed :
      (d d' : Workload) (x : Error) {w w' : World}
      → workload w' ≡ workload w
      → workload w t ns d.name ≡ some d
      → Effect d d' (some x) w w'
  Effect-failed d d' x q held = record {
    frame = λ u ns' name _. at_key q u ns' name;
    either = inl (at_key q t ns d.name ∙ held);
    done = λ h. cc;
  }

  -- a step that patches the object, and writes no workload after that
  pub Effect-patch :
      (d d' : Workload) (e : Option Error) {w w' : World}
      → d'.namespace ≡ ns
      → d'.name ≡ d.name
      → workload w t ns d.name ≡ some d
      → workload w' ≡ workload (patch_workload t d d' w).1
      → (e ≡ none → (patch_workload t d d' w).0 ≡ ok tt)
      → Effect d d' e w w'
  Effect-patch d d' e {w} in_ns same held q succeeds = record {
    frame = λ u ns' name other.
        at_key q u ns' name ∙ patch_keeps t d d' w u ns' name (rw (in_ns, same) other);
    either = elim (patch_atomic t d d' w) [
      | inl kept ↦ inl (
          at_key q t ns d.name
          ∙ sym (own_key (workload (patch_workload t d d' w).1 t))
          ∙ kept
          ∙ own_key (workload w t)
          ∙ held)
      | inr stored ↦
          inr
            (at_key q t ns d.name ∙ sym (own_key (workload (patch_workload t d d' w).1 t)) ∙ stored)
    ];
    done = λ h.
        at_key q t ns d.name
        ∙ (sym (own_key (workload (patch_workload t d d' w).1 t)) ∙ patched t d d' w (succeeds h));
  }
    where
      own_key : (f : String → String → Option Workload) → f d'.namespace d'.name ≡ f ns d.name
      own_key f i = f (in_ns i) (same i)

  -- what came before the step wrote no workload
  pub Effect-after :
      (d d' : Workload) (e : Option Error) {w w1 w' : World}
      → workload w1 ≡ workload w
      → (workload w1 t ns d.name ≡ some d → Effect d d' e w1 w')
      → workload w t ns d.name ≡ some d
      → Effect d d' e w w'
  Effect-after d d' e {w1 = w1} {w'} q step held = record {
    frame = λ u ns' name other. later.frame u ns' name other ∙ at_key q u ns' name;
    either = later.either;
    done = later.done;
  }
    where
      later : Effect d d' e w1 w'
      later = step (at_key q t ns d.name ∙ held)

pub ok_of_no_error : (r : Result (Unit {0})) → error_of r ≡ none → r ≡ ok tt
ok_of_no_error (ok _) h = refl
ok_of_no_error (err x) h = cc
