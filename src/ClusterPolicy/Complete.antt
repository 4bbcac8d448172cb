-- ===== src/ClusterPolicy/Complete.antt =====
-- Every workload that names a cluster-wide policy is collected.
use mathlib.Core.List.{Memᴰ}
use mathlib.Core.List.Memᴰ
use kube_greencosts.Prelude.{
  String, ◌≡◌, refl, subst, inl, inr, Bool, true, false, Bool-cases, List, [], ◌∷◌, ◌++◌, ◌==◌,
  eq_iff, eq_refl, if◌then◌else◌,
}
use kube_greencosts.Api.{WorkloadType, KindFilter, Workload}
use kube_greencosts.ClusterPolicy.Collect.{
  WorkloadRef, ref_string, has_item, kind_allowed, Collected, add, add_each, policy_of, is_skipped,
  annotated_refs,
}

-- Whether a list has a reference of this text.
abbrev pub has_ref : String → List WorkloadRef → Bool
has_ref text [] = false
has_ref text (ref ∷ refs) = if text == ref_string ref then true else has_ref text refs

has_ref-append_left :
    (text : String) (xs ys : List WorkloadRef)
    → has_ref text xs ≡ true
    → has_ref text (xs ++ ys) ≡ true
has_ref-append_left text [] ys = λ h. absurd (cc)
has_ref-append_left text (x ∷ xs) ys = elim (Bool-cases (text == ref_string x)) [
  | inl same ↦ rw same (λ _. refl)
  | inr other ↦ rw other (has_ref-append_left text xs ys)
]

has_ref-append_right :
    (text : String) (xs ys : List WorkloadRef)
    → has_ref text ys ≡ true
    → has_ref text (xs ++ ys) ≡ true
has_ref-append_right text [] ys h = h
has_ref-append_right text (x ∷ xs) ys h = elim (Bool-cases (text == ref_string x)) [
  | inl same ↦ rw same refl
  | inr other ↦ rw other (has_ref-append_right text xs ys h)
]

-- Whatever is seen is collected.
abbrev pub Honest : Collected → Type 0
Honest c = (text : String) → has_item text c.seen ≡ true → has_ref text c.refs ≡ true

module _ (spec : KindFilter) where
  add-Honest : (c : Collected) (ref : WorkloadRef) → Honest c → Honest (add spec c ref)
  unfolding add
  add-Honest c ref h = elim (Bool-cases (kind_allowed ref spec)) [
    | inl kind_ok ↦ rw kind_ok (elim (Bool-cases (has_item (ref_string ref) c.seen)) [
      | inl old ↦ rw old h
      | inr new ↦ rw new (λ text. elim (Bool-cases (text == ref_string ref)) [
        | inl same ↦ λ _. has_ref-append_right text c.refs _ (rw same refl)
        | inr other ↦ rw other (λ e. has_ref-append_left text c.refs _ (h text e))
      ])
    ])
    | inr other_kind ↦ rw other_kind h
  ]

  -- a reference that was collected stays
  add-keeps :
      (c : Collected) (ref : WorkloadRef) (text : String)
      → has_ref text c.refs ≡ true
      → has_ref text (add spec c ref).refs ≡ true
  unfolding add
  add-keeps c ref text h = elim (Bool-cases (kind_allowed ref spec)) [
    | inl kind_ok ↦ rw kind_ok (elim (Bool-cases (has_item (ref_string ref) c.seen)) [
      | inl old ↦ rw old h
      | inr new ↦ rw new (has_ref-append_left text c.refs _ h)
    ])
    | inr other_kind ↦ rw other_kind h
  ]

  -- a reference of an allowed kind is collected
  add-hits :
      (c : Collected) (ref : WorkloadRef)
      → Honest c
      → kind_allowed ref spec ≡ true
      → has_ref (ref_string ref) (add spec c ref).refs ≡ true
  unfolding add
  add-hits c ref honest kind_ok = rw kind_ok (elim (Bool-cases (has_item (ref_string ref) c.seen)) [
    | inl old ↦ rw old (honest (ref_string ref) old)
    | inr new ↦
        rw new (has_ref-append_right (ref_string ref) c.refs _ (rw (eq_refl (ref_string ref)) refl))
  ])

  pub add_each-Honest :
      (refs : List WorkloadRef) (c : Collected) → Honest c → Honest (add_each spec c refs)
  unfolding add_each
  add_each-Honest [] c h = h
  add_each-Honest (ref ∷ refs) c h = add_each-Honest refs (add spec c ref) (add-Honest c ref h)

  pub add_each-keeps :
      (refs : List WorkloadRef) (c : Collected) (text : String)
      → has_ref text c.refs ≡ true
      → has_ref text (add_each spec c refs).refs ≡ true
  unfolding add_each
  add_each-keeps [] c text h = h
  add_each-keeps (ref ∷ refs) c text h =
      add_each-keeps refs (add spec c ref) text (add-keeps c ref text h)

  pub add_each-hits :
      (refs : List WorkloadRef) (c : Collected) (ref : WorkloadRef)
      → Honest c
      → kind_allowed ref spec ≡ true
      → Memᴰ ref refs
      → has_ref (ref_string ref) (add_each spec c refs).refs ≡ true
  unfolding add_each
  add_each-hits [] c ref honest kind_ok m = absurd (Memᴰ.not-nil m)
  add_each-hits (x ∷ refs) c ref honest kind_ok m = elim m [
    | Memᴰ.head e ↦ add_each-keeps refs (add spec c x) (ref_string ref) (
        subst (λ (y : WorkloadRef). has_ref (ref_string ref) (add spec c y).refs ≡ true) e
          (add-hits c ref honest kind_ok))
    | Memᴰ.tail rest ↦ add_each-hits refs (add spec c x) ref (add-Honest c x honest) kind_ok rest
  ]

annotated_refs-cons :
    (policy : String) (t : WorkloadType) (x : Workload) (xs : List Workload) (ref : WorkloadRef)
    → Memᴰ ref (annotated_refs policy t xs)
    → Memᴰ ref (annotated_refs policy t (x ∷ xs))
unfolding annotated_refs
annotated_refs-cons policy t x xs ref m = elim (Bool-cases (is_skipped t x)) [
  | inl skip ↦ rw skip m
  | inr take ↦ rw take (elim (Bool-cases (policy_of x.annotations == policy)) [
    | inl own ↦ rw own (Memᴰ.tail m)
    | inr other ↦ rw other m
  ])
]

annotated_refs-first :
    (policy : String) (t : WorkloadType) (xs : List Workload) (d : Workload)
    → is_skipped t d ≡ false
    → policy_of d.annotations ≡ policy
    → Memᴰ
        (record { namespace = d.namespace; kind = t; name = d.name })
        (annotated_refs policy t (d ∷ xs))
unfolding annotated_refs
annotated_refs-first policy t xs d take own =
    rw (take, (eq_iff (policy_of d.annotations) policy).1 own) (Memᴰ.head refl)

-- A listed object that names the policy has a reference.
pub annotated_refs-hits :
    (policy : String) (t : WorkloadType) (l : List Workload) (d : Workload)
    → is_skipped t d ≡ false
    → policy_of d.annotations ≡ policy
    → Memᴰ d l
    → Memᴰ (record { namespace = d.namespace; kind = t; name = d.name }) (annotated_refs policy t l)
annotated_refs-hits policy t [] d take own m = absurd (Memᴰ.not-nil m)
annotated_refs-hits policy t (x ∷ xs) d take own m = elim m [
  | Memᴰ.head e ↦
      subst
        (λ (y : Workload).
          Memᴰ (record { namespace = d.namespace; kind = t; name = d.name })
            (annotated_refs policy t (y ∷ xs)))
        e (annotated_refs-first policy t xs d take own)
  | Memᴰ.tail rest ↦
      annotated_refs-cons policy t x xs _ (annotated_refs-hits policy t xs d take own rest)
]
