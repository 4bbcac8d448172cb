-- ===== src/EnergyJob/Sync/History.antt =====
-- Which jobs the history limits delete.
use mathlib.Core.List.{Permᴰ}
use mathlib.Core.List.Permᴰ
use kube_greencosts.Prelude.{
  ℕ, zero, suc, ◌-◌, ◌≤◌, ◌≡◌, refl, sym, ap, subst, inl, inr, Bool, true, false, Bool-cases, List,
  [], ◌∷◌, ◌++◌, All, length, ltb, arith, if◌then◌else◌,
}
use kube_greencosts.Prelude.Int.{pos}
use kube_greencosts.EnergyJob.Types.{Job, JobLibrary, JobStore}
use kube_greencosts.EnergyJob.Sync.{job_start_time, starts_before, first_of, delete_each, prune}

-- No job of the second list starts before the first job.
abbrev pub Before : Job → List Job → Type 0
Before j l = All (λ (k : Job). job_start_time j ≤ job_start_time k) l

abbrev pub IsOrdered : List Job → Type 0
IsOrdered [] = Unit
IsOrdered (j ∷ l) = Before j l × IsOrdered l

-- `sort.Slice` permutes the slice, and orders it by the start times.
pub record SortLaws {F : Type 0} (lib : JobLibrary F) : Type 0 where
  pub permutes : (less : Job → Job → Bool) (l : List Job) → Permᴰ (lib.sort_slice less l) l
  pub orders : (l : List Job) → IsOrdered (lib.sort_slice starts_before l)

pub length-perm : {a b : List Job} → Permᴰ a b → length a ≡ length b
length-perm Permᴰ.nil = refl
length-perm (Permᴰ.cons e p) = ap (λ (n : ℕ). suc n) (length-perm p)
length-perm (Permᴰ.swap e f) = refl
length-perm (Permᴰ.trans p q) = omega (arith, length-perm p, length-perm q)

-- `jobs[n:]`
after_first : ℕ → List Job → List Job
after_first zero l = l
after_first (suc n) [] = []
after_first (suc n) (j ∷ l) = after_first n l

first-append-after : (n : ℕ) (l : List Job) → first_of n l ++ after_first n l ≡ l
unfolding first_of after_first
first-append-after zero l = refl
first-append-after (suc n) [] = refl
first-append-after (suc n) (j ∷ l) = ap (λ (r : List Job). j ∷ r) (first-append-after n l)

length-after : (n : ℕ) (l : List Job) → length (after_first n l) ≡ length l - n
unfolding after_first
length-after zero l = omega arith
length-after (suc n) [] = omega arith
length-after (suc n) (j ∷ l) = omega (arith, length-after n l)

Before-after : (j : Job) (n : ℕ) (l : List Job) → Before j l → Before j (after_first n l)
unfolding after_first
Before-after j zero l b = b
Before-after j (suc n) [] b = tt
Before-after j (suc n) (k ∷ l) b = Before-after j n l b.1

ordered-split :
    (n : ℕ) (l : List Job)
    → IsOrdered l
    → All (λ (d : Job). Before d (after_first n l)) (first_of n l)
unfolding first_of after_first
ordered-split zero l o = tt
ordered-split (suc n) [] o = tt
ordered-split (suc n) (j ∷ l) o = (Before-after j n l o.0, ordered-split n l o.1)

abbrev pub least : ℕ → ℕ → ℕ
least a b = if ltb a b then a else b

module _ {F World : Type 0} (lib : JobLibrary F) (store : JobStore F World)
    (laws : SortLaws lib) where
  -- The jobs are parted into those deleted and those kept.
  pub record IsPruned (limit : ℕ) (jobs deleted kept : List Job) : Type 0 where
    pub deletes : prune lib store (pos limit) jobs ≡ delete_each lib store deleted
    pub parts : Permᴰ (deleted ++ kept) jobs
    pub count_kept : length kept ≡ least limit (length jobs)
    pub oldest : All (λ (d : Job). Before d kept) deleted

  IsPruned-excess :
      (limit : ℕ) (jobs : List Job)
      → ltb limit (length jobs) ≡ true
      → IsPruned limit jobs
          (first_of (length jobs - limit) (lib.sort_slice starts_before jobs))
          (after_first (length jobs - limit) (lib.sort_slice starts_before jobs))
  unfolding prune
  IsPruned-excess limit jobs excess = record {
    deletes = rw excess refl;
    parts =
        subst (λ (l : List Job). Permᴰ l jobs)
          (sym (first-append-after (length jobs - limit) (lib.sort_slice starts_before jobs)))
          (laws.permutes starts_before jobs);
    count_kept = kept;
    oldest = ordered-split _ _ (laws.orders jobs);
  }
    where
      kept :
          length (after_first (length jobs - limit) (lib.sort_slice starts_before jobs))
          ≡ least limit (length jobs)
      kept = ground (
        arith,
        excess,
        length-after (length jobs - limit) (lib.sort_slice starts_before jobs),
        length-perm (laws.permutes starts_before jobs),
      )

  IsPruned-none :
      (limit : ℕ) (jobs : List Job) → ltb limit (length jobs) ≡ false → IsPruned limit jobs [] jobs
  unfolding prune delete_each
  IsPruned-none limit jobs within = record {
    deletes = rw within refl;
    parts = Permᴰ.refl jobs;
    count_kept = ground (arith, within);
    oldest = tt;
  }

  -- With a limit of at least zero, the pruning of a history deletes some of the jobs and keeps the
  -- others: as many as the limit allows, or all if they are fewer, and no job that is deleted started
  -- after one that is kept.
  pub keeps_newest :
      (limit : ℕ) (jobs : List Job)
      → (deleted : List Job) × (kept : List Job) × IsPruned limit jobs deleted kept
  keeps_newest limit jobs = elim (Bool-cases (ltb limit (length jobs))) [
    | inl excess ↦ (_, _, IsPruned-excess limit jobs excess)
    | inr within ↦ ([], jobs, IsPruned-none limit jobs within)
  ]
