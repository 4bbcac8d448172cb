-- ===== src/Hibernate/Run.antt =====
-- A run of a loop's steps over the listed workloads, and what it leaves in the store.
use mathlib.Core.Path.{subst}
use mathlib.Core.List.{Memᴰ}
use kube_greencosts.Prelude.{
  String, ◌≡◌, ◌≢◌, refl, sym, ◌∙◌, ◌⊎◌, inl, inr, Option, none, some, List, [], ◌∷◌, All,
}
use kube_greencosts.Api.{WorkloadType, Workload}
use kube_greencosts.Cluster.{Error, Cluster}
use kube_greencosts.Cluster.Laws.{ClusterLaws, Distinct}
use kube_greencosts.Hibernate.Effect.{Effect, Elsewhere}

module _ {ℓ κ} {A : Type ℓ} (P : A → Type κ) where
  pub All-mem : {a : A} (l : List A) → All P l → Memᴰ a l → P a
  All-mem [] h m = elim m [ ]
  All-mem (x ∷ l) h (Memᴰ.head e) = subst P (sym e) h.0
  All-mem (x ∷ l) h (Memᴰ.tail m) = All-mem l h.1 m

module _ (k : Cluster) (laws : ClusterLaws k) (t : WorkloadType) (ns : String)
    (spec : Workload → Workload) where
  open k use {World}
  open laws use {workload}

  abbrev pub Held : World → Workload → Type 0
  Held w d = (d.namespace ≡ ns) × (workload w t ns d.name ≡ some d)

  abbrev pub Step : Workload → Option Error → World → World → Type 0
  Step d e w w' = Held w d → Effect k laws t ns d (spec d) e w w'

  -- the items in turn, up to the first error
  pub data Run : List Workload → Option Error → World → World → Type 0 where
    finished : {w : World} → Run [] none w w
    stopped :
        {d : Workload} {ds : List Workload} {x : Error} {w w' : World}
        → Step d (some x) w w'
        → Run (d ∷ ds) (some x) w w'
    stepped :
        {d : Workload} {ds : List Workload} {e : Option Error} {w w1 w' : World}
        → Step d none w w1
        → Run ds e w1 w'
        → Run (d ∷ ds) e w w'

  Held-step :
      {d d' : Workload} {e : Option Error} {w w' : World}
      → Effect k laws t ns d d' e w w'
      → (ds : List Workload) → All (λ (x : Workload). x.name ≢ d.name) ds
      → All (Held w) ds
      → All (Held w') ds
  Held-step f [] _ _ = tt
  Held-step f (x ∷ ds) (other, others) ((in_ns, held), rest) =
      ((in_ns, f.frame t ns x.name (inr (inr other)) ∙ held), Held-step f ds others rest)

  abbrev pub Outside : List Workload → WorkloadType → String → String → Type 0
  Outside l u ns' name = (u ≢ t) ⊎ (ns' ≢ ns) ⊎ All (λ (x : Workload). x.name ≢ name) l

  Outside-head :
      (d : Workload) (ds : List Workload) (u : WorkloadType) (ns' name : String)
      → Outside (d ∷ ds) u ns' name
      → Elsewhere k laws t ns d u ns' name
  Outside-head d ds u ns' name (inl a) = inl a
  Outside-head d ds u ns' name (inr (inl b)) = inr (inl b)
  Outside-head d ds u ns' name (inr (inr (c, _))) = inr (inr (λ e. c (sym e)))

  Outside-tail :
      (d : Workload) (ds : List Workload) (u : WorkloadType) (ns' name : String)
      → Outside (d ∷ ds) u ns' name
      → Outside ds u ns' name
  Outside-tail d ds u ns' name (inl a) = inl a
  Outside-tail d ds u ns' name (inr (inl b)) = inr (inl b)
  Outside-tail d ds u ns' name (inr (inr (_, c))) = inr (inr c)

  -- An object that is not among the items is left alone.
  pub Run-frame :
      {l : List Workload} {e : Option Error} {w w' : World}
      → Run l e w w'
      → Distinct l
      → All (Held w) l
      → (u : WorkloadType) (ns' name : String) → Outside l u ns' name
      → workload w' u ns' name ≡ workload w u ns' name
  Run-frame finished _ _ u ns' name _ = refl
  Run-frame (stopped {d} {ds} s) _ (h, _) u ns' name other =
      (s h).frame u ns' name (Outside-head d ds u ns' name other)
  Run-frame (stepped {d} {ds} s r) (a, apart) (h, hs) u ns' name other =
      Run-frame r apart (Held-step (s h) ds a hs) u ns' name (Outside-tail d ds u ns' name other)
      ∙ (s h).frame u ns' name (Outside-head d ds u ns' name other)

  abbrev pub Either : World → Workload → Type 0
  Either w d = (workload w t ns d.name ≡ some d) ⊎ (workload w t ns d.name ≡ some (spec d))

  abbrev pub Done : World → Workload → Type 0
  Done w d = workload w t ns d.name ≡ some (spec d)

  untouched : (w : World) (ds : List Workload) → All (Held w) ds → All (Either w) ds
  untouched w [] _ = tt
  untouched w (d ∷ ds) (h, hs) = (inl h.1, untouched w ds hs)

  -- Each item is held as it was listed or as its step writes it.
  pub Run-Either :
      {l : List Workload} {e : Option Error} {w w' : World}
      → Run l e w w'
      → Distinct l
      → All (Held w) l
      → All (Either w') l
  Run-Either finished _ _ = tt
  Run-Either (stopped {d} {ds} s) (a, _) (h, hs) =
      ((s h).either, untouched _ ds (Held-step (s h) ds a hs))
  Run-Either (stepped {d} {ds} {w' = w'} s r) (a, apart) (h, hs) =
      let rest = Held-step (s h) ds a hs in
      (
        inr (Run-frame r apart rest t ns d.name (inr (inr a)) ∙ (s h).done refl),
        Run-Either r apart rest,
      )

  -- Where no step failed, every item is held as its step writes it.
  pub Run-Done :
      {l : List Workload} {e : Option Error} {w w' : World}
      → Run l e w w'
      → e ≡ none
      → Distinct l
      → All (Held w) l
      → All (Done w') l
  Run-Done finished _ _ _ = tt
  Run-Done (stopped s) e _ _ = absurd (cc)
  Run-Done (stepped {d} {ds} s r) e (a, apart) (h, hs) =
      let rest = Held-step (s h) ds a hs in
      (Run-frame r apart rest t ns d.name (inr (inr a)) ∙ (s h).done refl, Run-Done r e apart rest)
