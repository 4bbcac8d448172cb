-- ===== src/Examples/Desk.antt =====
-- An EnergyPriceSource "spot" in a namespace "shop", and a provider that answers two prices.
use kube_greencosts.Prelude.{
  eq_refl, ℕ, ◌+◌, ◌*◌, ◌≤◌, String, ◌≡◌, refl, sym, ◌∙◌, ap, ◌⊎◌, inl, inr, Bool, true, false,
  ◌&&◌, Bool-cases, Option, none, some, List, [], ◌∷◌, All, ltb, ◌==◌, arith, if◌then◌else◌,
}
use kube_greencosts.Cluster.{Result, ok, err, not_found}
use kube_greencosts.Price.{PricePoint}
use kube_greencosts.Price.Order.{IsChronological}
use kube_greencosts.EnergyJob.Types.{parsed}
use kube_greencosts.EnergyJob.Laws.{truncated}
use kube_greencosts.Provider.{Network}
use kube_greencosts.Provider.Custom.{is_before}
use kube_greencosts.PriceSource.{EnergyPriceSource, SourceStore}
use kube_greencosts.PriceSource.Stored.{PatchLaws}
use kube_greencosts.PriceSource.Laws.{SourceLaws, whole_seconds}
use kube_greencosts.Examples.Bakery.{hourly, hour, midnight}
use kube_greencosts.Examples.BakeryLaws.{keys}

pub record Desk : Type 0 where
  pub now : ℕ
  pub source : Option (EnergyPriceSource ℕ)

abbrev pub insert_point :
    (PricePoint ℕ → PricePoint ℕ → Bool) → PricePoint ℕ → List (PricePoint ℕ) → List (PricePoint ℕ)
insert_point less p [] = p ∷ []
insert_point less p (q ∷ ps) = if less q p then q ∷ insert_point less p ps else p ∷ q ∷ ps

abbrev pub sort_points :
    (PricePoint ℕ → PricePoint ℕ → Bool) → List (PricePoint ℕ) → List (PricePoint ℕ)
sort_points less [] = []
sort_points less (p ∷ ps) = insert_point less p (sort_points less ps)

-- the instant of each text that the provider answers
abbrev time_of : String → Option ℕ
time_of s =
    if s == "one"
    then some (midnight + hour)
    else if s == "two"
    then some (midnight + 2 * hour)
    else none

abbrev pub net : Network ℕ Desk
net = record {
  http_get = λ r w. (some (record { status = 200; body = λ _. some "prices" }), w);
  decode_intervals = λ _. some (
      record { start = "two"; eur_per_mwh = 20 } ∷ record { start = "one"; eur_per_mwh = 10 } ∷ []);
  decode_publication = λ _. none;
  decode_acknowledgement = λ _. none;
  decode_enever = λ _. none;
  decode_energyzero = λ _. none;
  parse_rfc3339 = time_of;
  parse_entsoe_time = λ _. none;
  format_date = λ _ _. "";
  parse_float = λ _. none;
  is_finite = λ _. true;
  times_thousand = λ n. n * 1000;
  to_upper = λ s. s;
  sort_points = sort_points;
}

abbrev found : String → String → Option (EnergyPriceSource ℕ) → Option (EnergyPriceSource ℕ)
found ns name none = none
found ns name (some e) = if e.namespace == ns && e.name == name then some e else none

abbrev or_not_found : Option (EnergyPriceSource ℕ) → Result (EnergyPriceSource ℕ)
or_not_found none = err not_found
or_not_found (some e) = ok e

-- the source with its times in whole seconds
abbrev rounded : EnergyPriceSource ℕ → EnergyPriceSource ℕ
rounded e = record e { prices = whole_seconds e.prices; last_updated = truncated e.last_updated }

abbrev patched_over :
    Option (EnergyPriceSource ℕ) → EnergyPriceSource ℕ → Desk → Result (EnergyPriceSource ℕ) × Desk
patched_over none e w = (err not_found, w)
patched_over (some old) e w = (ok (rounded e), record w { source = some (rounded e) })

abbrev pub desk : SourceStore ℕ Desk
desk = record {
  clock = λ w. (w.now, w);
  get_source = λ ns name w. (or_not_found (found ns name w.source), w);
  patch_source = λ base e w. patched_over (found e.namespace e.name w.source) e w;
  get_secret = λ ns name w. (err not_found, w);
  parse_standard = λ _. parsed hourly;
  message = λ _. "error";
}

pub found_got :
    (ns name : String) (o : Option (EnergyPriceSource ℕ)) (e : EnergyPriceSource ℕ)
    → or_not_found (found ns name o) ≡ ok e
    → (found ns name o ≡ some e) × (e.namespace ≡ ns) × (e.name ≡ name)
found_got ns name none e = λ h. absurd (cc)
found_got ns name (some x) e = elim (Bool-cases (x.namespace == ns && x.name == name)) [
  | inl here ↦ rw here (λ h.
      let same : x ≡ e = cc in
      let (a, b) = keys x.namespace x.name ns name here in
      (
        ap (λ (y : EnergyPriceSource ℕ). some y) same,
        sym (ap (λ (y : EnergyPriceSource ℕ). y.namespace) same) ∙ a,
        sym (ap (λ (y : EnergyPriceSource ℕ). y.name) same) ∙ b,
      ))
  | inr there ↦ rw there (λ h. absurd (cc))
]

pub found_patched :
    (old : Option (EnergyPriceSource ℕ)) (e : EnergyPriceSource ℕ) (w : Desk)
    (e' : EnergyPriceSource ℕ)
    → found e.namespace e.name (patched_over old e w).1.source ≡ some e'
    → (found e.namespace e.name w.source ≡ some e')
      ⊎ ((e'.prices ≡ whole_seconds e.prices) × (e'.last_updated ≡ truncated e.last_updated))
found_patched none e w e' = λ h. inl h
found_patched (some old) e w e' =
    elim (Bool-cases (e.namespace == e.namespace && e.name == e.name)) [
      | inl here ↦ rw here (λ h.
          let same : e' ≡ rounded e = cc in
          inr (
            ap (λ (y : EnergyPriceSource ℕ). y.prices) same,
            ap (λ (y : EnergyPriceSource ℕ). y.last_updated) same,
          ))
      | inr never ↦ rw never (λ h. absurd (cc))
    ]

abbrev pub desk-SourceLaws : SourceLaws net desk
desk-SourceLaws = record {
  stored = λ w ns name. found ns name w.source;
  clock_same = λ w. refl;
  get_same = λ ns name w. refl;
  got = λ ns name w e. found_got ns name w.source e;
  secret_same = λ ns name w. refl;
  http_same = λ r w. refl;
  patched = λ base e w e'. found_patched (found e.namespace e.name w.source) e w e';
}

stored_after :
    (old : Option (EnergyPriceSource ℕ)) (e a : EnergyPriceSource ℕ) (w : Desk)
    → (patched_over old e w).0 ≡ ok a
    → (e' : EnergyPriceSource ℕ) × (found e.namespace e.name (patched_over old e w).1.source
        ≡ some e')
      × (e'.prices ≡ whole_seconds e.prices)
stored_after none e a w = λ h. absurd (cc)
stored_after (some old) e a w =
    λ h. (rounded e, rw (eq_refl e.namespace, eq_refl e.name) refl, refl)

pub desk-PatchLaws : PatchLaws net desk desk-SourceLaws
desk-PatchLaws = record {
  stores = λ base e a w. stored_after (found e.namespace e.name w.source) e a w;
}

Before-insert :
    (p q : PricePoint ℕ) (ps : List (PricePoint ℕ))
    → p.at ≤ q.at
    → All (λ (r : PricePoint ℕ). p.at ≤ r.at) ps
    → All (λ (r : PricePoint ℕ). p.at ≤ r.at) (insert_point is_before q ps)
Before-insert p q [] first before = (first, tt)
Before-insert p q (r ∷ ps) first before = elim (Bool-cases (is_before r q)) [
  | inl earlier ↦ rw earlier (before.0, Before-insert p q ps first before.1)
  | inr later ↦ rw later (first, before)
]

Before-all :
    (p q : PricePoint ℕ) (ps : List (PricePoint ℕ))
    → p.at ≤ q.at
    → All (λ (r : PricePoint ℕ). q.at ≤ r.at) ps
    → All (λ (r : PricePoint ℕ). p.at ≤ r.at) ps
Before-all p q [] first before = tt
Before-all p q (r ∷ ps) first before =
    (omega (arith, first, before.0), Before-all p q ps first before.1)

insert_point-IsChronological :
    (p : PricePoint ℕ) (ps : List (PricePoint ℕ))
    → IsChronological ps
    → IsChronological (insert_point is_before p ps)
insert_point-IsChronological p [] o = (tt, tt)
insert_point-IsChronological p (q ∷ ps) o = elim (Bool-cases (is_before q p)) [
  | inl earlier ↦
      rw earlier
        (Before-insert q p ps (up q.at p.at earlier) o.0, insert_point-IsChronological p ps o.1)
  | inr later ↦
      rw later (let first = down q.at p.at later in ((first, Before-all p q ps first o.0), o))
]
  where
    up : (a b : ℕ) → ltb a b ≡ true → a ≤ b
    up a b h = ground arith

    down : (a b : ℕ) → ltb a b ≡ false → b ≤ a
    down a b h = ground arith

pub sort_points-IsChronological :
    (ps : List (PricePoint ℕ)) → IsChronological (sort_points is_before ps)
sort_points-IsChronological [] = tt
sort_points-IsChronological (p ∷ ps) =
    insert_point-IsChronological p (sort_points is_before ps) (sort_points-IsChronological ps)
