-- ===== src/Policy/Sweep.antt =====
-- A sweep over several kinds of workload in one namespace: passes, one after another.
use mathlib.Core.List.{Memᴰ}
use mathlib.Core.List.Memᴰ
use kube_greencosts.Prelude.{
  ℕ, zero, suc, String, ◌≡◌, ◌≢◌, refl, sym, ◌∙◌, ap, subst, ◌⊎◌, inl, inr, true, ◌&&◌, Bool-cases,
  Option, none, some, List, [], ◌∷◌, All, ◌==◌, eq_iff, eq_refl, nat_eq, arith,
}
use kube_greencosts.Api.{
  WorkloadType, deployment, stateful_set, daemon_set, replica_set, unknown, Workload,
}
use kube_greencosts.Cluster.{Error, Cluster}
use kube_greencosts.Cluster.Laws.{ClusterLaws}
use kube_greencosts.Hibernate.Pass.{Pass}
use kube_greencosts.Policy.{cons_error}

-- A kind as a number and a text.
abbrev number : WorkloadType → ℕ
number deployment = 0
number stateful_set = 1
number daemon_set = 2
number replica_set = 3
number (unknown _) = 4

abbrev text : WorkloadType → String
text deployment = ""
text stateful_set = ""
text daemon_set = ""
text replica_set = ""
text (unknown s) = s

abbrev kind_of : ℕ → String → WorkloadType
kind_of zero s = deployment
kind_of (suc zero) s = stateful_set
kind_of (suc (suc zero)) s = daemon_set
kind_of (suc (suc (suc zero))) s = replica_set
kind_of (suc (suc (suc (suc n)))) s = unknown s

kind_of-number : (t : WorkloadType) → kind_of (number t) (text t) ≡ t
kind_of-number deployment = refl
kind_of-number stateful_set = refl
kind_of-number daemon_set = refl
kind_of-number replica_set = refl
kind_of-number (unknown s) = refl

same_number :
    (t u : WorkloadType)
    → nat_eq (number t) (number u) && text t == text u ≡ true
    → (number t ≡ number u) × (text t ≡ text u)
same_number t u h = ground (arith, eq_iff (text t) (text u))

number_refl : (t : WorkloadType) → nat_eq (number t) (number t) && text t == text t ≡ true
number_refl t = ground (arith, eq_refl (text t))

-- Two kinds are the same or not.
pub kind_cases : (t u : WorkloadType) → (t ≡ u) ⊎ (t ≢ u)
kind_cases t u = elim (Bool-cases (nat_eq (number t) (number u) && text t == text u)) [
  | inl same ↦
      let (a, b) = same_number t u same in
      inl (sym (kind_of-number t) ∙ (λ i. kind_of (a i) (b i)) ∙ kind_of-number u)
  | inr other ↦ inr (λ e.
      let clash =
        sym (number_refl t)
        ∙ ap (λ (v : WorkloadType). nat_eq (number t) (number v) && text t == text v) e
        ∙ other in
      absurd (cc))
]

module _ (k : Cluster) (laws : ClusterLaws k) (ns : String)
    (spec : WorkloadType → Workload → Workload) where
  open k use {World}
  open laws use {workload}

  -- A pass over each kind of a list, whether the one before failed or not, and the errors of them all.
  pub data Sweep : List WorkloadType → List Error → World → World → Type 0 where
    ended : {w : World} → Sweep [] [] w w
    passed :
        {t : WorkloadType} {ts : List WorkloadType} {e : Option Error} {es : List Error}
        {w w1 w' : World}
        → Pass k laws t ns (spec t) e w w1
        → Sweep ts es w1 w'
        → Sweep (t ∷ ts) (cons_error e es) w w'

  pub Sweep-frame :
      {ts : List WorkloadType} {es : List Error} {w w' : World}
      → Sweep ts es w w'
      → (u : WorkloadType) (ns' name : String) → All (λ (t : WorkloadType). u ≢ t) ts ⊎ (ns' ≢ ns)
      → workload w' u ns' name ≡ workload w u ns' name
  Sweep-frame ended u ns' name other = refl
  Sweep-frame (passed p s) u ns' name (inl (h, hs)) =
      Sweep-frame s u ns' name (inl hs) ∙ p.frame u ns' name (inl h)
  Sweep-frame (passed p s) u ns' name (inr away) =
      Sweep-frame s u ns' name (inr away) ∙ p.frame u ns' name (inr away)

  module _ (again : (t : WorkloadType) (d : Workload) → spec t (spec t d) ≡ spec t d)
      (u : WorkloadType) (name : String) (d : Workload) where
    no_errors : (e : Option Error) (es : List Error) → cons_error e es ≡ [] → (e ≡ none) × (es ≡ [])
    no_errors none es h = (refl, h)
    no_errors (some x) es h = absurd (cc)

    at_kind :
        {t : WorkloadType} {e : Option Error} {w w' : World}
        → Pass k laws t ns (spec t) e w w'
        → t ≡ u
        → Pass k laws u ns (spec u) e w w'
    at_kind {e = e} {w} {w'} p same =
        subst (λ (v : WorkloadType). Pass k laws v ns (spec v) e w w') same p

    -- what is written already stays
    Sweep-keeps :
        {ts : List WorkloadType} {es : List Error} {w w' : World}
        → Sweep ts es w w'
        → es ≡ []
        → workload w u ns name ≡ some (spec u d)
        → workload w' u ns name ≡ some (spec u d)
    Sweep-keeps ended fine there = there
    Sweep-keeps (passed {t} {e = e} {es} {w} {w1} p s) fine there =
        let (fine_now, fine_later) = no_errors e es fine in
        Sweep-keeps s fine_later (elim (kind_cases t u) [
          | inl same ↦ (at_kind p same).done fine_now name (spec u d) there ∙ ap some (again u d)
          | inr other ↦ p.frame u ns name (inl (λ h. other (sym h))) ∙ there
        ])

    -- Where no pass fails, every object of a kind in the list is written.
    pub Sweep-reaches :
        {ts : List WorkloadType} {es : List Error} {w w' : World}
        → Sweep ts es w w'
        → es ≡ []
        → Memᴰ u ts
        → workload w u ns name ≡ some d
        → workload w' u ns name ≡ some (spec u d)
    Sweep-reaches ended fine m there = absurd (Memᴰ.not-nil m)
    Sweep-reaches (passed {t} {ts} {e} {es} {w} {w1} p s) fine m there =
        let (fine_now, fine_later) = no_errors e es fine in
        elim (kind_cases t u) [
          | inl same ↦ Sweep-keeps s fine_later ((at_kind p same).done fine_now name d there)
          | inr other ↦ elim m [
            | Memᴰ.head e ↦ absurd (other (sym e))
            | Memᴰ.tail rest ↦
                Sweep-reaches s fine_later rest
                  (p.frame u ns name (inl (λ h. other (sym h))) ∙ there)
          ]
        ]

    -- An object is as before or as the specification says, whatever fails.
    pub Sweep-either :
        {ts : List WorkloadType} {es : List Error} {w w' : World}
        → Sweep ts es w w'
        → (workload w u ns name ≡ some d) ⊎ (workload w u ns name ≡ some (spec u d))
        → (workload w' u ns name ≡ some d) ⊎ (workload w' u ns name ≡ some (spec u d))
    Sweep-either ended there = there
    Sweep-either (passed {t} {w1 = w1} p s) there = Sweep-either s (elim (kind_cases t u) [
      | inl same ↦ elim there [
        | inl before ↦ (at_kind p same).either name d before
        | inr after ↦ inr (elim ((at_kind p same).either name (spec u d) after) [
          | inl kept ↦ kept
          | inr twice ↦ twice ∙ ap some (again u d)
        ])
      ]
      | inr other ↦
          let q = p.frame u ns name (inl (λ h. other (sym h))) in
          elim there [ inl before ↦ inl (q ∙ before) | inr after ↦ inr (q ∙ after) ]
    ])
