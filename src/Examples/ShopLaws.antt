-- ===== src/Examples/ShopLaws.antt =====
-- The example cluster is one that the code can rely on.
use kube_greencosts.Prelude.{
  String, ◌≡◌, ◌≢◌, refl, sym, ap, subst, ◌∙◌, ◌⊎◌, inl, inr, true, false, Bool-cases, Option, none,
  some, [], arith, ◌==◌, eq_iff, All, if◌then◌else◌,
}
use mathlib.Core.List.{Memᴰ}
use kube_greencosts.Api.{
  Namespace, WorkloadType, deployment, stateful_set, daemon_set, replica_set, unknown, Workload,
}
use kube_greencosts.Cluster.{ok, err, not_found}
use kube_greencosts.Cluster.Laws.{Distinct, ClusterLaws}
use kube_greencosts.Examples.Shop.{
  Shop, object, contents, is_deployment, is_here, held, everything, answer, list, found, patch,
  namespace_of, shop,
}

here_in_shop : (t : WorkloadType) (ns : String) → is_here t ns ≡ true → ns ≡ "shop"
here_in_shop deployment ns h = (eq_iff ns "shop").0 h
here_in_shop stateful_set ns h = absurd (cc)
here_in_shop daemon_set ns h = absurd (cc)
here_in_shop replica_set ns h = absurd (cc)
here_in_shop (unknown _) ns h = absurd (cc)

kind_in_shop : (t : WorkloadType) (ns : String) → is_here t ns ≡ true → t ≡ deployment
kind_in_shop deployment ns h = refl
kind_in_shop stateful_set ns h = absurd (cc)
kind_in_shop daemon_set ns h = absurd (cc)
kind_in_shop replica_set ns h = absurd (cc)
kind_in_shop (unknown _) ns h = absurd (cc)

pub list_quiet : (t : WorkloadType) (ns : Option String) (w : Shop) → held (list t ns w).1 ≡ held w
list_quiet t none w = refl
list_quiet t (some ns) w = refl

pub list_quiet_namespace :
    (t : WorkloadType) (ns : Option String) (w : Shop)
    → namespace_of (list t ns w).1 ≡ namespace_of w
list_quiet_namespace t none w = refl
list_quiet_namespace t (some ns) w = refl

pub everything-held :
    (t : WorkloadType) (w : Shop)
    → All
        (λ (d : Workload). held w t d.namespace d.name ≡ some d)
        (if is_deployment t then everything w else [])
everything-held deployment w = (refl, (refl, tt))
everything-held stateful_set w = tt
everything-held daemon_set w = tt
everything-held replica_set w = tt
everything-held (unknown _) w = tt

pub some_inj {ℓ} : {A : Type ℓ} (a b : A) → some a ≡ some b → a ≡ b
some_inj a b h = cc

name_of : {a b : Workload} → a ≡ b → a.name ≡ b.name
name_of e = ap (λ (d : Workload). d.name) e

space_of : {a b : Workload} → a ≡ b → a.namespace ≡ b.namespace
space_of e = ap (λ (d : Workload). d.namespace) e

module _ (t : WorkloadType) (ns : String) (w : Shop) where
  pub answer-held :
      All (λ (d : Workload). (d.namespace ≡ ns) × (held w t ns d.name ≡ some d)) (answer t ns w)
  answer-held = elim (Bool-cases (is_here t ns)) [
    | inl here ↦ let e = sym (here_in_shop t ns here) in rw here ((e, refl), ((e, refl), tt))
    | inr away ↦ rw away tt
  ]

  pub answer-Distinct : Distinct (answer t ns w)
  answer-Distinct = elim (Bool-cases (is_here t ns)) [
    | inl here ↦ rw here (((λ e. ground (arith, e, eq_iff "db" "web")), tt), (tt, tt))
    | inr away ↦ rw away tt
  ]

  pub answer_all :
      (name : String) (d : Workload)
      → held w t ns name ≡ some d
      → (d.namespace ≡ ns) × (d.name ≡ name) × Memᴰ d (answer t ns w)
  answer_all name d = elim (Bool-cases (is_here t ns)) [
    | inl here ↦
        let f = sym (here_in_shop t ns here) in
        rw here (elim (Bool-cases (name == "web")) [
          | inl web ↦ rw web (λ h.
              let e = sym (some_inj _ _ h) in
              (space_of e ∙ f, name_of e ∙ sym ((eq_iff name "web").0 web), Memᴰ.head e))
          | inr other ↦ rw other (elim (Bool-cases (name == "db")) [
            | inl db ↦ rw db (λ h.
                let e = sym (some_inj _ _ h) in
                (
                  space_of e ∙ f,
                  name_of e ∙ sym ((eq_iff name "db").0 db),
                  Memᴰ.tail (Memᴰ.head e),
                ))
            | inr none_else ↦ rw none_else (λ h. absurd (cc))
          ])
        ])
    | inr away ↦ rw away (λ h. absurd (cc))
  ]

no_item : (d : Workload) → Memᴰ d [] → ⊥
no_item d m = elim m [ ]

-- what is held in the namespace is in the list of the whole cluster
in_everything :
    (t : WorkloadType) (ns : String) (w : Shop) (d : Workload)
    → Memᴰ d (answer t ns w)
    → Memᴰ d (if is_deployment t then everything w else [])
in_everything deployment ns w d = elim (Bool-cases (ns == "shop")) [
  | inl here ↦ rw here (λ m. m)
  | inr away ↦ rw away (λ m. absurd (no_item d m))
]
in_everything stateful_set ns w d = λ m. m
in_everything daemon_set ns w d = λ m. m
in_everything replica_set ns w d = λ m. m
in_everything (unknown _) ns w d = λ m. m

pub everything_all :
    (t : WorkloadType) (ns name : String) (w : Shop) (d : Workload)
    → held w t ns name ≡ some d
    → (d.namespace ≡ ns) × (d.name ≡ name) × Memᴰ d (if is_deployment t then everything w else [])
everything_all t ns name w d h =
    let (space, named, there) = answer_all t ns w name d h in
    (space, named, in_everything t ns w d there)

module _ (t : WorkloadType) (d d' : Workload) (w : Shop) where
  same_object :
      (name : String) → d'.namespace ≡ "shop" → d'.name ≡ name → object name (contents d') ≡ d'
  same_object name e f = λ i. record {
    namespace = sym e i;
    name = sym f i;
    annotations = d'.annotations;
    owner_kinds = d'.owner_kinds;
    replicas = d'.replicas;
    node_selector = d'.node_selector;
  }

  pub shop_patched :
      (patch t d d' w).0 ≡ ok tt → held (patch t d d' w).1 t d'.namespace d'.name ≡ some d'
  shop_patched = elim (Bool-cases (is_here t d'.namespace)) [
    | inl here ↦
        let e = here_in_shop t d'.namespace here in
        rw here (elim (Bool-cases (d'.name == "web")) [
          | inl web ↦ rw web (λ _. (ap some (same_object "web" e ((eq_iff d'.name "web").0 web))))
          | inr other ↦ rw other (elim (Bool-cases (d'.name == "db")) [
            | inl db ↦ rw db (λ _. (ap some (same_object "db" e ((eq_iff d'.name "db").0 db))))
            | inr none_else ↦ rw none_else (λ h. absurd (cc))
          ])
        ])
    | inr away ↦ rw away (λ h. absurd (cc))
  ]

  pub shop_atomic :
      (held (patch t d d' w).1 t d'.namespace d'.name ≡ held w t d'.namespace d'.name)
      ⊎ (held (patch t d d' w).1 t d'.namespace d'.name ≡ some d')
  shop_atomic = elim (Bool-cases (is_here t d'.namespace)) [
    | inl here ↦
        let e = here_in_shop t d'.namespace here in
        rw here (elim (Bool-cases (d'.name == "web")) [
          | inl web ↦ rw web (inr (ap some (same_object "web" e ((eq_iff d'.name "web").0 web))))
          | inr other ↦ rw other (elim (Bool-cases (d'.name == "db")) [
            | inl db ↦ rw db (inr (ap some (same_object "db" e ((eq_iff d'.name "db").0 db))))
            | inr none_else ↦ rw none_else (inl refl)
          ])
        ])
    | inr away ↦ rw away (inl refl)
  ]

  -- Two objects that are both held here and do not agree have two names.
  two_names :
      (u : WorkloadType) (ns name : String)
      → is_here t d'.namespace ≡ true
      → is_here u ns ≡ true
      → (u ≢ t) ⊎ (ns ≢ d'.namespace) ⊎ (name ≢ d'.name)
      → name ≢ d'.name
  two_names u ns name here there (inl other_kind) =
      absurd (other_kind (kind_in_shop u ns there ∙ sym (kind_in_shop t d'.namespace here)))
  two_names u ns name here there (inr (inl other_space)) =
      absurd (other_space (here_in_shop u ns there ∙ sym (here_in_shop t d'.namespace here)))
  two_names u ns name here there (inr (inr other_name)) = other_name

  not_both : (name key : String) → name ≢ d'.name → d'.name == key ≡ true → name == key ≡ false
  not_both name key other e = ground (arith, eq_iff name key, (eq_iff d'.name key).0 e)

  held_beside :
      (u : WorkloadType) (ns name : String)
      → is_here t d'.namespace ≡ true
      → is_here u ns ≡ true
      → name ≢ d'.name
      → held (patch t d d' w).1 u ns name ≡ held w u ns name
  held_beside u ns name here there other =
      rw (here, there)
        (elim (Bool-cases (d'.name == "web")) [
          | inl web ↦ rw (web, not_both name "web" other web) refl
          | inr not_web ↦ rw not_web (elim (Bool-cases (d'.name == "db")) [
            | inl db ↦ rw (db, not_both name "db" other db) refl
            | inr not_db ↦ rw not_db refl
          ])
        ])

  pub shop_keeps :
      (u : WorkloadType) (ns name : String)
      → (u ≢ t) ⊎ (ns ≢ d'.namespace) ⊎ (name ≢ d'.name)
      → held (patch t d d' w).1 u ns name ≡ held w u ns name
  shop_keeps u ns name other = elim (Bool-cases (is_here t d'.namespace)) [
    | inl here ↦ elim (Bool-cases (is_here u ns)) [
      | inl there ↦ held_beside u ns name here there (two_names u ns name here there other)
      | inr away ↦ rw away refl
    ]
    | inr away ↦ rw away refl
  ]

pub missing : (o : Option Workload) → found o ≡ err not_found → o ≡ none
missing none h = refl
missing (some x) h = absurd (cc)

pub found_held : (o : Option Workload) (d : Workload) → found o ≡ ok d → o ≡ some d
found_held none d h = absurd (cc)
found_held (some x) d h = cc

pub ok_inj {ℓ} : {A : Type ℓ} (a b : A) → ok a ≡ ok b → a ≡ b
ok_inj a b h = cc

pub held_at :
    (w : Shop) (t : WorkloadType) (ns name : String) (d : Workload)
    → held w t ns name ≡ some d
    → (d.namespace ≡ ns) × (d.name ≡ name) × (held w t ns name ≡ some d)
held_at w t ns name d h = let (space, named, _) = answer_all t ns w name d h in (space, named, h)

abbrev pub shop-ClusterLaws : ClusterLaws shop
shop-ClusterLaws = record {
  workload = held;
  namespace = namespace_of;
  listed_everywhere = λ t w l e.
      subst (All (λ (d : Workload). held w t d.namespace d.name ≡ some d)) (ok_inj _ _ e)
        (everything-held t w);
  listed_everywhere_all = λ t ns name w l d e h.
      let (space, named, there) = everything_all t ns name w d h in
      (space, named, subst (Memᴰ d) (ok_inj _ _ e) there);
  namespaces_listed = λ w l e.
      subst (All (λ (n : Namespace). namespace_of w n.name ≡ some n)) (ok_inj _ _ e) (refl, tt);
  list_keeps_namespace = list_quiet_namespace;
  list_namespaces_keeps = λ _. refl;
  list_namespaces_keeps_namespace = λ _. refl;
  listed = λ t ns w l e.
      subst (All (λ (d : Workload). (d.namespace ≡ ns) × (held w t ns d.name ≡ some d)))
        (ok_inj _ _ e) (answer-held t ns w);
  listed_distinct = λ t ns w l e. subst Distinct (ok_inj _ _ e) (answer-Distinct t ns w);
  listed_all = λ t ns name w l d e h.
      let (_, named, there) = answer_all t ns w name d h in
      (named, subst (Memᴰ d) (ok_inj _ _ e) there);
  got = λ t ns name w d e. held_at w t ns name d (found_held _ d e);
  get_missing = λ t ns name w e. missing _ e;
  list_keeps = list_quiet;
  get_keeps = λ _ _ _ _. refl;
  list_hpas_keeps = λ _ _. refl;
  patch_hpa_keeps = λ _ _ _. refl;
  patched = shop_patched;
  patch_atomic = shop_atomic;
  patch_keeps = shop_keeps;
}
