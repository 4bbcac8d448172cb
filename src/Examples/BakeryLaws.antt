-- ===== src/Examples/BakeryLaws.antt =====
-- The bakery keeps the laws of a store of jobs.
use mathlib.Core.List.{Memᴰ}
use kube_greencosts.Prelude.{
  String, ◌≡◌, refl, sym, ◌∙◌, ap, subst, inl, inr, ◌⊎◌, Bool, true, false, ◌&&◌, Bool-cases,
  Option, none, some, List, [], ◌∷◌, eq_iff, eq_refl,
}
use kube_greencosts.Cluster.{ok, err, already_exists}
use kube_greencosts.EnergyJob.Types.{Job, EnergyAwareCronJob}
use kube_greencosts.EnergyJob.Due.{CreateLaws}
use kube_greencosts.EnergyJob.Laws.{JobLaws, truncated}
use kube_greencosts.Examples.Bakery.{
  Bakery, is_key, find_job, without, find_object, or_not_found, whole_object, patched_over,
  created_beside, bakery, tools,
}

pub keys :
    (ns name ns' name' : String) → is_key ns name ns' name' ≡ true → (ns ≡ ns') × (name ≡ name')
keys ns name ns' name' h = ((eq_iff ns ns').0 (left _ _ h), (eq_iff name name').0 (right _ _ h))
  where
    left : (a b : Bool) → a && b ≡ true → a ≡ true
    left true b e = refl
    left false b e = e

    right : (a b : Bool) → a && b ≡ true → b ≡ true
    right true b e = e
    right false b e = absurd (cc)

pub find_job-Mem :
    (ns name : String) (jobs : List Job) (j : Job) → find_job ns name jobs ≡ some j → Memᴰ j jobs
find_job-Mem ns name [] j = λ h. absurd (cc)
find_job-Mem ns name (k ∷ jobs) j = elim (Bool-cases (is_key k.namespace k.name ns name)) [
  | inl here ↦ rw here (λ h. Memᴰ.head (let same : k ≡ j = cc in sym same))
  | inr there ↦ rw there (λ h. Memᴰ.tail (find_job-Mem ns name jobs j h))
]

find_job-gone :
    (ns name : String) (jobs : List Job) → find_job ns name (without ns name jobs) ≡ none
find_job-gone ns name [] = refl
find_job-gone ns name (k ∷ jobs) = elim (Bool-cases (is_key k.namespace k.name ns name)) [
  | inl gone ↦ rw gone (find_job-gone ns name jobs)
  | inr left ↦ rw (left, left) (find_job-gone ns name jobs)
]

-- What is found after a deletion was there before.
pub find_job-without :
    (ns name ns' name' : String) (jobs : List Job) (j : Job)
    → find_job ns' name' (without ns name jobs) ≡ some j
    → find_job ns' name' jobs ≡ some j
find_job-without ns name ns' name' [] j = λ h. h
find_job-without ns name ns' name' (k ∷ jobs) j =
    elim (Bool-cases (is_key k.namespace k.name ns name)) [
      | inl gone ↦ rw gone (elim (Bool-cases (is_key k.namespace k.name ns' name')) [
        | inl same ↦ λ h.
            let (a, b) = keys k.namespace k.name ns name gone in
            let (a', b') = keys k.namespace k.name ns' name' same in
            let clash : none ≡ some j =
              sym (find_job-gone ns name jobs)
              ∙ (λ i. find_job ((sym a ∙ a') i) ((sym b ∙ b') i) (without ns name jobs))
              ∙ h in
            absurd (cc)
        | inr other ↦ rw other (find_job-without ns name ns' name' jobs j)
      ])
      | inr left ↦ rw left (elim (Bool-cases (is_key k.namespace k.name ns' name')) [
        | inl same ↦ rw same (λ h. h)
        | inr other ↦ rw other (find_job-without ns name ns' name' jobs j)
      ])
    ]

-- What is found after a creation was there before, or is the job that was created.
pub find_job-created :
    (old : Option Job) (j : Job) (w : Bakery) (ns name : String) (x : Job)
    → find_job ns name (created_beside old j w).1.jobs ≡ some x
    → (find_job ns name w.jobs ≡ some x) ⊎ ((ns ≡ j.namespace) × (name ≡ j.name))
find_job-created (some old) j w ns name x = λ h. inl h
find_job-created none j w ns name x = elim (Bool-cases (is_key j.namespace j.name ns name)) [
  | inl new ↦ λ h. let (a, b) = keys j.namespace j.name ns name new in inr (sym a, sym b)
  | inr old ↦ rw old (λ h. inl h)
]

pub find_object-got :
    (ns name : String) (o : Option EnergyAwareCronJob) (e : EnergyAwareCronJob)
    → or_not_found (find_object ns name o) ≡ ok e
    → (find_object ns name o ≡ some e) × (e.namespace ≡ ns) × (e.name ≡ name)
find_object-got ns name none e = λ h. absurd (cc)
find_object-got ns name (some x) e = elim (Bool-cases (is_key x.namespace x.name ns name)) [
  | inl here ↦ rw here (λ h.
      let same : x ≡ e = cc in
      let (a, b) = keys x.namespace x.name ns name here in
      (
        ap (λ (y : EnergyAwareCronJob). some y) same,
        sym (ap (λ (y : EnergyAwareCronJob). y.namespace) same) ∙ a,
        sym (ap (λ (y : EnergyAwareCronJob). y.name) same) ∙ b,
      ))
  | inr there ↦ rw there (λ h. absurd (cc))
]

pub patched_next :
    (old : Option EnergyAwareCronJob) (e : EnergyAwareCronJob) (w : Bakery)
    (e' : EnergyAwareCronJob)
    → find_object e.namespace e.name (patched_over old e w).1.object ≡ some e'
    → (find_object e.namespace e.name w.object ≡ some e')
      ⊎ (e'.status.next_scheduled_time ≡ truncated e.status.next_scheduled_time)
patched_next none e w e' = λ h. inl h
patched_next (some old) e w e' = elim (Bool-cases (is_key e.namespace e.name e.namespace e.name)) [
  | inl here ↦ rw here (λ h.
      let same : whole_object e ≡ e' = cc in
      inr (sym (ap (λ (y : EnergyAwareCronJob). y.status.next_scheduled_time) same)))
  | inr never ↦ rw never (λ h. absurd (cc))
]

pub created_object :
    (old : Option Job) (j : Job) (w : Bakery) → (created_beside old j w).1.object ≡ w.object
created_object none j w = refl
created_object (some old) j w = refl

pub patched_jobs :
    (old : Option EnergyAwareCronJob) (e : EnergyAwareCronJob) (w : Bakery)
    → (patched_over old e w).1.jobs ≡ w.jobs
patched_jobs none e w = refl
patched_jobs (some old) e w = refl

pub listed_jobs :
    (ns name : String) (jobs l : List Job) (j : Job)
    → ok jobs ≡ ok l
    → find_job ns name jobs ≡ some j
    → Memᴰ j l
listed_jobs ns name jobs l j e h =
    let same : jobs ≡ l = cc in
    subst (λ (x : List Job). Memᴰ j x) same (find_job-Mem ns name jobs j h)

pub owned_job :
    (e : EnergyAwareCronJob) (j j' : Job)
    → tools.set_controller_reference e j ≡ ok j'
    → (j'.namespace ≡ j.namespace) × (j'.name ≡ j.name)
owned_job e j j' h =
    let same : record j { owner = some e.uid } ≡ j' = cc in
    (sym (ap (λ (x : Job). x.namespace) same), sym (ap (λ (x : Job). x.name) same))

abbrev pub bakery-JobLaws : JobLaws tools bakery
bakery-JobLaws = record {
  job_at = λ w ns name. find_job ns name w.jobs;
  stored = λ w ns name. find_object ns name w.object;
  clock_same = λ w. (refl, refl);
  get_same = λ ns name w. (refl, refl);
  got = λ ns name w e. find_object-got ns name w.object e;
  list_same = λ ns label w. (refl, refl);
  listed = λ ns label name w l j e h _. listed_jobs ns name w.jobs l j e h;
  price_same = λ ns name w. (refl, refl);
  delete_stored = λ ns name w. refl;
  deleted = λ ns name w ns' name' j. find_job-without ns name ns' name' w.jobs j;
  create_stored = λ j w i ns name.
      find_object ns name (created_object (find_job j.namespace j.name w.jobs) j w i);
  created = λ j w ns name x. find_job-created (find_job j.namespace j.name w.jobs) j w ns name x;
  patch_jobs = λ base e w i ns name.
      find_job ns name (patched_jobs (find_object e.namespace e.name w.object) e w i);
  patched = λ base e w e'. patched_next (find_object e.namespace e.name w.object) e w e';
  owned = owned_job;
}

made_or_found :
    (old : Option Job) (job made : Job) (w : Bakery)
    → (created_beside old job w).0 ≡ ok made
    → (x : Job) × (find_job job.namespace job.name (created_beside old job w).1.jobs ≡ some x)
made_or_found (some x) job made w = λ h. absurd (cc)
made_or_found none job made w = λ h. (job, rw (eq_refl job.namespace, eq_refl job.name) refl)

found_again :
    (old : Option Job) (job : Job) (w : Bakery)
    → find_job job.namespace job.name w.jobs ≡ old
    → (created_beside old job w).0 ≡ err already_exists
    → (x : Job) × (find_job job.namespace job.name (created_beside old job w).1.jobs ≡ some x)
found_again (some x) job w there = λ h. (x, there)
found_again none job w there = λ h. absurd (cc)

pub bakery-CreateLaws : CreateLaws tools bakery bakery-JobLaws
bakery-CreateLaws = record {
  made = λ job made w. made_or_found (find_job job.namespace job.name w.jobs) job made w;
  found = λ job w. found_again (find_job job.namespace job.name w.jobs) job w refl;
}
