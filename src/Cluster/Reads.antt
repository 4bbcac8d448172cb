-- ===== src/Cluster/Reads.antt =====
-- Actions that only read: what they answer, on a store that they leave as it is.
use mathlib.Core.List.{Memᴰ}
use kube_greencosts.Prelude.{String, ◌≡◌, refl, ◌∙◌, subst, Option, none, some, List, All}
use kube_greencosts.Api.{WorkloadType, Workload, Namespace}
use kube_greencosts.Cluster.{Cluster, Exec, Result, ok, err, pure, continue, ◌>>=◌}
use kube_greencosts.Cluster.Laws.{ClusterLaws}

-- An answer that is not an error has the property.
abbrev pub Holds {ℓ κ} : {A : Type ℓ} → (A → Type κ) → Result A → Type κ
Holds P (ok a) = P a
Holds P (err e) = Unit

module _ (k : Cluster) (laws : ClusterLaws k)
    (view : WorkloadType → String → String → Option Workload)
    (spaces : String → Option Namespace) where
  open k use {World, list_namespaces, list_workloads}
  open laws use {workload, namespace}

  -- The store is the one that was given, and the answer has the property.
  pub record Kept {ℓ κ} {A : Type ℓ} (P : A → Type κ) (r : Result A) (w : World) : Type κ where
    pub same_workloads : workload w ≡ view
    pub same_namespaces : namespace w ≡ spaces
    pub holds : Holds P r

  abbrev pub Yields {ℓ κ} : {A : Type ℓ} → (A → Type κ) → Exec World A → Type κ
  Yields P m = (w : World) → workload w ≡ view → namespace w ≡ spaces → Kept P (m w).0 (m w).1

  pub Yields-pure {ℓ κ} : {A : Type ℓ} (P : A → Type κ) (a : A) → P a → Yields P (pure a)
  Yields-pure P a p w v n = record { same_workloads = v; same_namespaces = n; holds = p }

  module _ {ℓ κ ℓ' κ'} {A : Type ℓ} {B : Type ℓ'} (P : A → Type κ) (Q : B → Type κ')
      (f : A → Exec World B) (rest : (a : A) → P a → Yields Q (f a)) where
    Kept-continue :
        (r : Result A) (w : World) → Kept P r w → Kept Q (continue r f w).0 (continue r f w).1
    Kept-continue (ok a) w h = rest a h.holds w h.same_workloads h.same_namespaces
    Kept-continue (err e) w h = record {
      same_workloads = h.same_workloads;
      same_namespaces = h.same_namespaces;
      holds = tt;
    }

    pub Yields-bind : (m : Exec World A) → Yields P m → Yields Q (m >>= f)
    Yields-bind m first w v n = Kept-continue _ _ (first w v n)

  module _ (t : WorkloadType) where
    abbrev pub HeldIn : String → Workload → Type 0
    HeldIn ns d = (d.namespace ≡ ns) × (view t ns d.name ≡ some d)

    abbrev pub HeldAnywhere : Workload → Type 0
    HeldAnywhere d = view t d.namespace d.name ≡ some d

    Holds-listed :
        (ns : String) (w : World) (r : Result (List Workload))
        → workload w ≡ view
        → (list_workloads t (some ns) w).0 ≡ r
        → Holds (All (HeldIn ns)) r
    Holds-listed ns w (ok l) v e =
        subst
          (λ (f : WorkloadType → String → String → Option Workload).
            All (λ (d : Workload). (d.namespace ≡ ns) × (f t ns d.name ≡ some d)) l)
          v (laws.listed t ns w l e)
    Holds-listed ns w (err x) v e = tt

    pub Yields-list_workloads :
        (ns : String) → Yields (All (HeldIn ns)) (list_workloads t (some ns))
    Yields-list_workloads ns w v n = record {
      same_workloads = laws.list_keeps t (some ns) w ∙ v;
      same_namespaces = laws.list_keeps_namespace t (some ns) w ∙ n;
      holds = Holds-listed ns w _ v refl;
    }

    Holds-everywhere :
        (w : World) (r : Result (List Workload))
        → workload w ≡ view
        → (list_workloads t none w).0 ≡ r
        → Holds (All HeldAnywhere) r
    Holds-everywhere w (ok l) v e =
        subst
          (λ (f : WorkloadType → String → String → Option Workload).
            All (λ (d : Workload). f t d.namespace d.name ≡ some d) l)
          v (laws.listed_everywhere t w l e)
    Holds-everywhere w (err x) v e = tt

    pub Yields-list_everywhere : Yields (All HeldAnywhere) (list_workloads t none)
    Yields-list_everywhere w v n = record {
      same_workloads = laws.list_keeps t none w ∙ v;
      same_namespaces = laws.list_keeps_namespace t none w ∙ n;
      holds = Holds-everywhere w _ v refl;
    }

    -- every object of the kind is in the list
    abbrev pub HasAll : List Workload → Type 0
    HasAll l =
        (ns name : String) (d : Workload)
        → view t ns name ≡ some d
        → (d.namespace ≡ ns) × (d.name ≡ name) × Memᴰ d l

    Holds-all :
        (w : World) (r : Result (List Workload))
        → workload w ≡ view
        → (list_workloads t none w).0 ≡ r
        → Holds HasAll r
    Holds-all w (ok l) v e = λ ns name d there.
        laws.listed_everywhere_all t ns name w l d e ((λ i. v i t ns name) ∙ there)
    Holds-all w (err x) v e = tt

    pub Yields-list_all : Yields HasAll (list_workloads t none)
    Yields-list_all w v n = record {
      same_workloads = laws.list_keeps t none w ∙ v;
      same_namespaces = laws.list_keeps_namespace t none w ∙ n;
      holds = Holds-all w _ v refl;
    }

  abbrev pub HeldNamespace : Namespace → Type 0
  HeldNamespace n = spaces n.name ≡ some n

  Holds-namespaces :
      (w : World) (r : Result (List Namespace))
      → namespace w ≡ spaces
      → (list_namespaces w).0 ≡ r
      → Holds (All HeldNamespace) r
  Holds-namespaces w (ok l) n e =
      subst (λ (f : String → Option Namespace). All (λ (x : Namespace). f x.name ≡ some x) l) n
        (laws.namespaces_listed w l e)
  Holds-namespaces w (err x) n e = tt

  pub Yields-list_namespaces : Yields (All HeldNamespace) list_namespaces
  Yields-list_namespaces w v n = record {
    same_workloads = laws.list_namespaces_keeps w ∙ v;
    same_namespaces = laws.list_namespaces_keeps_namespace w ∙ n;
    holds = Holds-namespaces w _ n refl;
  }
