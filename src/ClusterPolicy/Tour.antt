-- ===== src/ClusterPolicy/Tour.antt =====
-- A tour of the references of a cluster-wide policy: one workload after another.
use mathlib.Core.List.{Memᴰ}
use mathlib.Core.List.Memᴰ
use kube_greencosts.Prelude.{
  String, ◌≡◌, ◌≢◌, refl, sym, ◌∙◌, ap, subst, ◌⊎◌, inl, inr, Bool-cases, Option, none, some, List,
  [], ◌∷◌, All, ◌==◌, eq_iff,
}
use kube_greencosts.Api.{WorkloadType, Workload}
use kube_greencosts.Cluster.{Error, Cluster}
use kube_greencosts.Cluster.Laws.{ClusterLaws}
use kube_greencosts.Policy.{cons_error}
use kube_greencosts.Policy.Sweep.{kind_cases}
use kube_greencosts.ClusterPolicy.Collect.{WorkloadRef}
use kube_greencosts.ClusterPolicy.Effects.{Reach}

pub text_cases : (s s' : String) → (s ≡ s') ⊎ (s ≢ s')
text_cases s s' = elim (Bool-cases (s == s')) [
  | inl same ↦ inl ((eq_iff s s').0 same)
  | inr other ↦ inr (λ e. let clash = sym ((eq_iff s s').1 e) ∙ other in absurd (cc))
]

-- The workload of a reference is another one.
abbrev pub Differs : WorkloadRef → WorkloadType → String → String → Type 0
Differs ref u ns name = (u ≢ ref.kind) ⊎ (ns ≢ ref.namespace) ⊎ (name ≢ ref.name)

pub ref_cases : (ref x : WorkloadRef) → (x ≡ ref) ⊎ Differs x ref.kind ref.namespace ref.name
ref_cases ref x = elim (kind_cases ref.kind x.kind) [
  | inl a ↦ elim (text_cases ref.namespace x.namespace) [
    | inl b ↦ elim (text_cases ref.name x.name) [
      | inl e ↦ inl (λ i. record { namespace = sym b i; kind = sym a i; name = sym e i })
      | inr e ↦ inr (inr (inr e))
    ]
    | inr b ↦ inr (inr (inl b))
  ]
  | inr a ↦ inr (inl a)
]

module _ (k : Cluster) (laws : ClusterLaws k) (spec : WorkloadType → Workload → Workload) where
  open k use {World}
  open laws use {workload}

  abbrev pub Visit : WorkloadRef → Option Error → World → World → Type 0
  Visit ref e w w' = Reach k laws ref.kind ref.namespace ref.name (spec ref.kind) e w w'

  -- The references in turn, whether the one before failed or not, and the errors of them all.
  pub data Tour : List WorkloadRef → List Error → World → World → Type 0 where
    ended : {w : World} → Tour [] [] w w
    visited :
        {ref : WorkloadRef} {refs : List WorkloadRef} {e : Option Error} {es : List Error}
        {w w1 w' : World}
        → Visit ref e w w1
        → Tour refs es w1 w'
        → Tour (ref ∷ refs) (cons_error e es) w w'

  pub Tour-frame :
      {refs : List WorkloadRef} {es : List Error} {w w' : World}
      → Tour refs es w w'
      → (u : WorkloadType) (ns name : String)
      → All (λ (ref : WorkloadRef). Differs ref u ns name) refs
      → workload w' u ns name ≡ workload w u ns name
  Tour-frame ended u ns name other = refl
  Tour-frame (visited v s) u ns name (h, hs) = Tour-frame s u ns name hs ∙ v.frame u ns name h

  module _ (again : (t : WorkloadType) (d : Workload) → spec t (spec t d) ≡ spec t d)
      (ref : WorkloadRef) (d : Workload) where
    no_errors : (e : Option Error) (es : List Error) → cons_error e es ≡ [] → (e ≡ none) × (es ≡ [])
    no_errors none es h = (refl, h)
    no_errors (some x) es h = absurd (cc)

    abbrev held_at : World → Option Workload
    held_at w = workload w ref.kind ref.namespace ref.name

    at_ref :
        {x : WorkloadRef} {e : Option Error} {w w' : World}
        → Visit x e w w'
        → x ≡ ref
        → Visit ref e w w'
    at_ref {e = e} {w} {w'} v same = subst (λ (y : WorkloadRef). Visit y e w w') same v

    -- what is written already stays
    Tour-keeps :
        {refs : List WorkloadRef} {es : List Error} {w w' : World}
        → Tour refs es w w'
        → es ≡ []
        → held_at w ≡ some (spec ref.kind d)
        → held_at w' ≡ some (spec ref.kind d)
    Tour-keeps ended fine there = there
    Tour-keeps (visited {ref = x} {e = e} {es} {w} {w1} v s) fine there =
        let (fine_now, fine_later) = no_errors e es fine in
        Tour-keeps s fine_later (elim (ref_cases ref x) [
          | inl same ↦
              (at_ref v same).done fine_now (spec ref.kind d) there ∙ ap some (again ref.kind d)
          | inr other ↦ v.frame ref.kind ref.namespace ref.name other ∙ there
        ])

    -- Where nothing fails, the workload of every reference is written.
    pub Tour-reaches :
        {refs : List WorkloadRef} {es : List Error} {w w' : World}
        → Tour refs es w w'
        → es ≡ []
        → Memᴰ ref refs
        → held_at w ≡ some d
        → held_at w' ≡ some (spec ref.kind d)
    Tour-reaches ended fine m there = absurd (Memᴰ.not-nil m)
    Tour-reaches (visited {ref = x} {refs} {e} {es} {w} {w1} v s) fine m there =
        let (fine_now, fine_later) = no_errors e es fine in
        elim (ref_cases ref x) [
          | inl same ↦ Tour-keeps s fine_later ((at_ref v same).done fine_now d there)
          | inr other ↦
              let later = v.frame ref.kind ref.namespace ref.name other ∙ there in
              elim m [
                | Memᴰ.head e ↦ Tour-keeps s fine_later ((at_ref v (sym e)).done fine_now d there)
                | Memᴰ.tail rest ↦ Tour-reaches s fine_later rest later
              ]
        ]

    -- A workload is as before or as the specification says, whatever fails.
    pub Tour-either :
        {refs : List WorkloadRef} {es : List Error} {w w' : World}
        → Tour refs es w w'
        → (held_at w ≡ some d) ⊎ (held_at w ≡ some (spec ref.kind d))
        → (held_at w' ≡ some d) ⊎ (held_at w' ≡ some (spec ref.kind d))
    Tour-either ended there = there
    Tour-either (visited {ref = x} v s) there = Tour-either s (elim (ref_cases ref x) [
      | inl same ↦ elim there [
        | inl before ↦ (at_ref v same).either d before
        | inr after ↦ inr (elim ((at_ref v same).either (spec ref.kind d) after) [
          | inl kept ↦ kept
          | inr twice ↦ twice ∙ ap some (again ref.kind d)
        ])
      ]
      | inr other ↦
          let q = v.frame ref.kind ref.namespace ref.name other in
          elim there [ inl before ↦ inl (q ∙ before) | inr after ↦ inr (q ∙ after) ]
    ])
