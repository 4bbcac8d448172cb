-- ===== src/EnergyJob/Rules/Whole.antt =====
-- The rules, with what the tracking of jobs needs, are enough for a whole reconciliation.
use kube_greencosts.Prelude.{
  suc, ◌+◌, String, ◌≡◌, refl, sym, subst, inl, inr, Bool-cases, Option, none, some, List, [], ◌∷◌,
  length, ltb, leb,
}
use kube_greencosts.Prelude.Int.{ℤ, pos, negsuc}
use kube_greencosts.Cluster.{Error, Result, ok, err, ignore_not_found}
use kube_greencosts.Price.{Float}
use kube_greencosts.EnergyJob.Types.{Job, EnergyAwareCronJob, JobLibrary, JobStore}
use kube_greencosts.EnergyJob.Run.{
  Run, done, failed, panicked, Act, Requeue, pure, ◌>>=◌, call, run_of,
}
use kube_greencosts.EnergyJob.Naming.{owner_label_value}
use kube_greencosts.EnergyJob.Sync.{
  Tracked, track, starts_before, unless_not_found, limit_or, delete_found, delete_each, prune,
  with_jobs, sync_active_jobs,
}
use kube_greencosts.EnergyJob.Reconcile.{after_sync, ignored, after_get, reconcile}
use kube_greencosts.EnergyJob.Laws.{Ends, Triple, Triple-bind, Ends-continue}
use kube_greencosts.EnergyJob.Rules.{Rules}
use kube_greencosts.EnergyJob.Rules.Turn.{Ends-after_sync}

module _ (float : Float) {World : Type 0} (lib : JobLibrary float.F)
    (store : JobStore float.F World) where
  abbrev pub listing : EnergyAwareCronJob → World → Result (List Job) × World
  listing base = store.list_jobs base.namespace (owner_label_value lib.sha256_hex base.name)

  -- the object after the tracking of the jobs that were listed
  abbrev pub synced : EnergyAwareCronJob → List Job → EnergyAwareCronJob
  synced base l = with_jobs lib store base (track l base.status.last_successful_time)

  -- the state in which the jobs have been tracked
  abbrev pub after_tracking : EnergyAwareCronJob → World → World
  after_tracking base w = (sync_active_jobs lib store base w).1

  -- `P l` holds after the listing of `l` and through the deletions, and the rules lead on from it.
  pub record Plan (base : EnergyAwareCronJob) (w : World) (I : World → Type 0) : Type 1 where
    pub P : List Job → World → Type 0
    pub listed : Ends I P (run_of (listing base w).0) (listing base w).1
    pub deleted :
        (l : List Job) (ns name : String) (v : World) → P l v → P l (store.delete_job ns name v).1
    pub rules :
        (l : List Job)
        → (listing base w).0 ≡ ok l
        → Rules float lib store (after_tracking base w) base (synced base l) I (P l)

  module _ (base : EnergyAwareCronJob) (w : World) (I : World → Type 0) (plan : Plan base w I) where
    open plan use {P}

    abbrev u : World
    u = after_tracking base w

    -- with the listing that was given
    abbrev Listed : List Job → World → Type 0
    Listed l v = P l v × ((listing base w).0 ≡ ok l)

    Ends-Listed :
        (r : Result (List Job)) (v : World)
        → (listing base w).0 ≡ r
        → Ends I P (run_of r) v
        → Ends I Listed (run_of r) v
    Ends-Listed (ok l) v h p = (p, h)
    Ends-Listed (err x) v h i = i

    Listed-weaken : (l : List Job) (v : World) → Listed l v → I v
    Listed-weaken l v (p, h) = (plan.rules l h).weaken v p

    abbrev Stays : List Job → Act World (Unit {0}) → Type 0
    Stays l m = Triple I (Listed l) m (λ _. Listed l)

    Ends-deleted :
        (l : List Job) (r : Result (Unit {0})) (v : World)
        → Listed l v
        → Ends I (λ _. Listed l) (run_of r) v
    Ends-deleted l (ok a) v p = p
    Ends-deleted l (err x) v p = Listed-weaken l v p

    deleting : (l jobs : List Job) → Stays l (delete_each lib store jobs)
    unfolding delete_each
    deleting l [] v p = p
    deleting l (job ∷ jobs) v p =
        Triple-bind I (Listed l) (λ _. Listed l) (λ _. Listed l)
          (call (delete_found lib store job.namespace job.name)) (λ _. delete_each lib store jobs)
          (λ x q.
            Ends-deleted l (unless_not_found (store.delete_job job.namespace job.name x).0) _
              (plan.deleted l job.namespace job.name x q.0, q.1))
          (λ _. deleting l jobs) v p

    pruning : (l : List Job) (limit : ℤ) (jobs : List Job) → Stays l (prune lib store limit jobs)
    unfolding prune
    pruning l (pos limit) jobs = elim (Bool-cases (ltb limit (length jobs))) [
      | inl excess ↦ rw excess (deleting l _)
      | inr within ↦ rw within (λ v p. p)
    ]
    pruning l (negsuc n) jobs =
        elim (Bool-cases (leb (length jobs + suc n) (lib.capacity (length jobs)))) [
          | inl room ↦ rw room (
              Triple-bind I (Listed l) (λ _. Listed l) (λ _. Listed l)
                (delete_each lib store (lib.sort_slice starts_before jobs)) _ (deleting l _)
                (λ _ v p. Listed-weaken l v p))
          | inr beyond ↦ rw beyond (Listed-weaken l)
        ]

    abbrev Synced : EnergyAwareCronJob → World → Type 0
    Synced e v = (l : List Job) × Listed l v × (e ≡ synced base l)

    syncing : Ends I Synced (sync_active_jobs lib store base w).0 u
    unfolding sync_active_jobs
    syncing =
        Triple-bind I (λ v. v ≡ w) Listed Synced (call (listing base)) _
          (λ v same.
            subst (λ (x : World). Ends I Listed (run_of (listing base x).0) (listing base x).1)
              (sym same) (Ends-Listed (listing base w).0 (listing base w).1 refl plan.listed))
          (λ l.
            Triple-bind I (Listed l) (λ _. Listed l) Synced
              (prune lib store (limit_or 3 base.spec.successful_jobs_history_limit)
                (tracks l).successful)
              _ (pruning l _ _)
              (λ _.
                Triple-bind I (Listed l) (λ _. Listed l) Synced
                  (prune lib store (limit_or 1 base.spec.failed_jobs_history_limit)
                    (tracks l).failed)
                  (λ _. pure (synced base l)) (pruning l _ _) (λ _ v p. (l, p, refl))))
          w refl
      where
        tracks : List Job → Tracked
        tracks l = track l base.status.last_successful_time

    Ends-there :
        (r : Run EnergyAwareCronJob) (v : World)
        → Ends I Synced r v
        → Ends I (λ e x. Synced e x × (x ≡ v)) r v
    Ends-there (done e) v s = (s, refl)
    Ends-there (failed x) v i = i
    Ends-there panicked v i = i

    abbrev After : EnergyAwareCronJob → World → Type 0
    After e v =
        Ends I (λ _. I) (after_sync float lib store base e v).0
          (after_sync float lib store base e v).1

    turning : (e : EnergyAwareCronJob) (v : World) → Synced e v × (v ≡ u) → After e v
    turning e v ((l, (p, h), same), there) =
        subst (λ (x : World). After e x) (sym there)
          (subst (λ (x : EnergyAwareCronJob). After x u) (sym same)
            (Ends-after_sync float lib store u base (synced base l) I (P l) (plan.rules l h)
              (subst (λ (x : World). P l x) there p)))

    Ends-all : (r : Run Requeue) (v : World) → Ends I (λ _. I) r v → I v
    Ends-all (done a) v i = i
    Ends-all (failed x) v i = i
    Ends-all panicked v i = i

    planned : I ((do e ← sync_active_jobs lib store base; after_sync float lib store base e) w).1
    planned = Ends-all _ _ (
        Ends-continue I (λ e v. Synced e v × (v ≡ u)) (λ _. I) (after_sync float lib store base) _ _
          (Ends-there _ u syncing) turning)

  module _ (ns name : String) (w : World) (I : World → Type 0)
      (got : I (store.get_cron_job ns name w).1) where
    after_error :
        (o : Option Error) → I (ignored float lib store o (store.get_cron_job ns name w).1).1
    after_error none = got
    after_error (some e) = got

    after_answer :
        (r : Result EnergyAwareCronJob)
        → ((base : EnergyAwareCronJob) → r ≡ ok base → Plan base (store.get_cron_job ns name w).1 I)
        → I (after_get float lib store r (store.get_cron_job ns name w).1).1
    unfolding after_get
    after_answer (err e) plans = after_error (ignore_not_found e)
    after_answer (ok base) plans = planned base _ I (plans base refl)

    -- What a plan for the object that is read keeps holds after the reconciliation.
    pub reconcile_keeps :
        ((base : EnergyAwareCronJob)
          → (store.get_cron_job ns name w).0 ≡ ok base
          → Plan base (store.get_cron_job ns name w).1 I)
        → I (reconcile float lib store ns name w).1
    unfolding reconcile
    reconcile_keeps plans = after_answer _ plans
