-- ===== src/EnergyJob/Forbid/Steps.antt =====
-- What a reconciliation needs of the state under Forbid, by the rules.
use kube_greencosts.Prelude.{
  ℕ, String, ◌≡◌, refl, sym, ◌∙◌, ap, subst, inl, inr, false, Option, none, some, List, [], ◌∷◌,
}
use kube_greencosts.Cluster.{ok}
use kube_greencosts.Price.{Float}
use kube_greencosts.EnergyJob.Types.{
  Job, ConcurrencyPolicy, forbid, ObjectReference, EnergyAwareCronJob, JobLibrary, JobStore,
}
use kube_greencosts.EnergyJob.Dispatch.{build_job, with_status}
use kube_greencosts.EnergyJob.Reconcile.{is_forbidden}
use kube_greencosts.EnergyJob.Laws.{JobLaws}
use kube_greencosts.EnergyJob.Rules.Dispatching.{DispatchRules}
use kube_greencosts.EnergyJob.Forbid.{
  Jobs, Objects, job_name, Unfinished, Fits, IsSingle, Single, Single-patch,
}

pub not_forbidden :
    (policy : ConcurrencyPolicy) (active : List ObjectReference)
    → policy ≡ forbid
    → is_forbidden policy active ≡ false
    → active ≡ []
not_forbidden policy active h =
    subst (λ (p : ConcurrencyPolicy). is_forbidden p active ≡ false → active ≡ []) (sym h)
      (at_forbid active)
  where
    at_forbid : (l : List ObjectReference) → is_forbidden forbid l ≡ false → l ≡ []
    at_forbid [] e = refl
    at_forbid (r ∷ rs) e = absurd (cc)

module _ (float : Float) {World : Type 0} (lib : JobLibrary float.F)
    (store : JobStore float.F World) (ns name : String) (laws : JobLaws lib store) where
  open laws use {job_at, stored}

  abbrev pub UnfinishedIn : Jobs → String → Type 0
  UnfinishedIn = Unfinished lib store ns name

  abbrev pub I : World → Type 0
  I = Single lib store ns name laws

  -- What depends on the jobs and the objects is kept by an action that keeps both.
  pub kept :
      (P : Jobs → Objects → Type 0) (w w' : World)
      → (job_at w' ≡ job_at w) × (stored w' ≡ stored w)
      → P (job_at w) (stored w)
      → P (job_at w') (stored w')
  kept P w w' (p, q) h =
      subst (λ (v : Jobs). P v (stored w')) (sym p)
        (subst (λ (o : Objects). P (job_at w) o) (sym q) h)

  unfoldable pub before_delete :
      (ns' name' : String) (w : World) (a : String)
      → UnfinishedIn (job_at (store.delete_job ns' name' w).1) a
      → UnfinishedIn (job_at w) a
  before_delete ns' name' w a u = (u.0, laws.deleted ns' name' w ns a u.0 u.1, u.2, u.3)

  -- What a dispatch at the time needs: no other job is unfinished, and no other job's time is stored.
  pub record IsDue (t : ℕ) (jobs : Jobs) (objects : Objects) : Type 0 where
    pub only : (a : String) → UnfinishedIn jobs a → a ≡ job_name lib store ns name t
    pub same_job :
        (e' : EnergyAwareCronJob) (t' : ℕ)
        → objects ns name ≡ some e'
        → e'.status.next_scheduled_time ≡ some t'
        → job_name lib store ns name t' ≡ job_name lib store ns name t

  IsDue-IsSingle :
      (t : ℕ) (jobs : Jobs) (objects : Objects)
      → IsDue t jobs objects
      → IsSingle lib store ns name jobs objects
  IsDue-IsSingle t jobs objects d = record {
    one = λ a b u v. d.only a u ∙ sym (d.only b v);
    pinned = λ e' h t' h' a u. d.only a u ∙ sym (d.same_job e' t' h h');
  }

  pub no_time-Fits :
      (jobs : Jobs) (next : Option ℕ) → next ≡ none → Fits lib store ns name jobs next
  no_time-Fits jobs next unset t h a u = let clash = sym unset ∙ h in absurd (cc)

  module _ (base e : EnergyAwareCronJob) (in_namespace : e.namespace ≡ ns)
      (named : e.name ≡ name) where
    abbrev pub Due : ℕ → World → Type 0
    Due t w = IsDue t (job_at w) (stored w)

    Due-delete :
        (t : ℕ) (ns' name' : String) (w : World) → Due t w → Due t (store.delete_job ns' name' w).1
    Due-delete t ns' name' w d = record {
      only = λ a u. d.only a (before_delete ns' name' w a u);
      same_job = rw (laws.delete_stored ns' name' w) d.same_job;
    }

    Due-created :
        (t : ℕ) (job : Job) (w : World)
        → lib.set_controller_reference e (build_job lib.sha256_hex e t) ≡ ok job
        → Due t w
        → Due t (store.create_job job w).1
    Due-created t job w h d =
        let (in_ns, with_name) = laws.owned e (build_job lib.sha256_hex e t) job h in
        record {
          only = λ a u. elim (laws.created job w ns a u.0 u.1) [
            | inl old ↦ d.only a (u.0, old, u.2, u.3)
            | inr new ↦ new.1 ∙ with_name ∙ ap (λ (n : String). job_name lib store ns n t) named
          ];
          same_job = rw (laws.create_stored job w) d.same_job;
        }

    pub dispatch_rules : (t : ℕ) → DispatchRules lib store base e t I (Due t) (Due t)
    dispatch_rules t = record {
      weaken_before = λ w d. IsDue-IsSingle t _ _ d;
      weaken = λ w d. IsDue-IsSingle t _ _ d;
      deleted = Due-delete t;
      created = Due-created t;
      clock_keeps = λ w d. kept (IsDue t) w _ (laws.clock_same w) d;
      patched = λ s w unset d.
          Single-patch lib store ns name laws base (with_status e s) w in_namespace named
            (IsDue-IsSingle t _ _ d) (no_time-Fits (job_at w) s.next_scheduled_time unset);
    }
