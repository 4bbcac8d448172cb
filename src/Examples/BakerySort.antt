-- ===== src/Examples/BakerySort.antt =====
-- The bakery sorts jobs as the laws of the library want.
use mathlib.Core.List.{Permᴰ}
use mathlib.Core.List.Permᴰ
use kube_greencosts.Prelude.{
  ℕ, ◌≤◌, ◌≡◌, refl, inl, inr, Bool, true, false, Bool-cases, List, [], ◌∷◌, arith, ltb,
}
use kube_greencosts.EnergyJob.Types.{Job}
use kube_greencosts.EnergyJob.Sync.{job_start_time, starts_before}
use kube_greencosts.EnergyJob.Sync.History.{Before, IsOrdered, SortLaws}
use kube_greencosts.Examples.Bakery.{insert_job, sort_jobs, tools}

insert_job-permutes :
    (less : Job → Job → Bool) (j : Job) (jobs : List Job)
    → Permᴰ (insert_job less j jobs) (j ∷ jobs)
insert_job-permutes less j [] = Permᴰ.cons refl Permᴰ.nil
insert_job-permutes less j (k ∷ jobs) = elim (Bool-cases (less k j)) [
  | inl before ↦
      rw before
        (Permᴰ.trans (Permᴰ.cons refl (insert_job-permutes less j jobs)) (Permᴰ.swap refl refl))
  | inr after ↦ rw after (Permᴰ.refl (j ∷ k ∷ jobs))
]

sort_jobs-permutes : (less : Job → Job → Bool) (jobs : List Job) → Permᴰ (sort_jobs less jobs) jobs
sort_jobs-permutes less [] = Permᴰ.nil
sort_jobs-permutes less (j ∷ jobs) =
    Permᴰ.trans (insert_job-permutes less j (sort_jobs less jobs))
      (Permᴰ.cons refl (sort_jobs-permutes less jobs))

Before-insert :
    (i j : Job) (jobs : List Job)
    → job_start_time i ≤ job_start_time j
    → Before i jobs
    → Before i (insert_job starts_before j jobs)
Before-insert i j [] first before = (first, tt)
Before-insert i j (k ∷ jobs) first before = elim (Bool-cases (starts_before k j)) [
  | inl earlier ↦ rw earlier (before.0, Before-insert i j jobs first before.1)
  | inr later ↦ rw later (first, before)
]

Before-all :
    (i k : Job) (jobs : List Job)
    → job_start_time i ≤ job_start_time k
    → Before k jobs
    → Before i jobs
Before-all i k [] first before = tt
Before-all i k (j ∷ jobs) first before =
    (omega (arith, first, before.0), Before-all i k jobs first before.1)

insert_job-IsOrdered :
    (j : Job) (jobs : List Job) → IsOrdered jobs → IsOrdered (insert_job starts_before j jobs)
insert_job-IsOrdered j [] o = (tt, tt)
insert_job-IsOrdered j (k ∷ jobs) o = elim (Bool-cases (starts_before k j)) [
  | inl earlier ↦ rw earlier (
    Before-insert k j jobs (up (job_start_time k) (job_start_time j) earlier) o.0,
    insert_job-IsOrdered j jobs o.1,
  )
  | inr later ↦ rw later (
      let first = down (job_start_time k) (job_start_time j) later in
      ((first, Before-all j k jobs first o.0), o))
]
  where
    up : (a b : ℕ) → ltb a b ≡ true → a ≤ b
    up a b h = ground arith

    down : (a b : ℕ) → ltb a b ≡ false → b ≤ a
    down a b h = ground arith

sort_jobs-IsOrdered : (jobs : List Job) → IsOrdered (sort_jobs starts_before jobs)
sort_jobs-IsOrdered [] = tt
sort_jobs-IsOrdered (j ∷ jobs) =
    insert_job-IsOrdered j (sort_jobs starts_before jobs) (sort_jobs-IsOrdered jobs)

pub tools-SortLaws : SortLaws tools
tools-SortLaws = record { permutes = sort_jobs-permutes; orders = sort_jobs-IsOrdered }
