-- ===== src/EnergyJob/Forbid/Planned.antt =====
-- The plan of a reconciliation under Forbid.
use mathlib.Core.List.{Memᴰ}
use kube_greencosts.Prelude.{ℕ, String, ◌≡◌, refl, sym, ◌∙◌, ap, false, none, some, List}
use kube_greencosts.Cluster.{Result, ok, err}
use kube_greencosts.Price.{Float}
use kube_greencosts.EnergyJob.Types.{Job, forbid, EnergyAwareCronJob, JobLibrary, JobStore}
use kube_greencosts.EnergyJob.Run.{run_of}
use kube_greencosts.EnergyJob.Naming.{owner_label_value}
use kube_greencosts.EnergyJob.Dispatch.{with_status}
use kube_greencosts.EnergyJob.Reconcile.{is_forbidden}
use kube_greencosts.EnergyJob.Laws.{JobLaws, Ends}
use kube_greencosts.EnergyJob.Rules.{IsOpen, Rules}
use kube_greencosts.EnergyJob.Rules.Dispatching.{Triple-dispatch}
use kube_greencosts.EnergyJob.Rules.Whole.{listing, synced, after_tracking, Plan}
use kube_greencosts.EnergyJob.Forbid.{Jobs, Objects, job_name, IsSingle, Single-patch}
use kube_greencosts.EnergyJob.Forbid.Tracking.{track-idle}
use kube_greencosts.EnergyJob.Forbid.Steps.{
  not_forbidden, UnfinishedIn, I, kept, before_delete, no_time-Fits, Due, dispatch_rules,
}

module _ (float : Float) {World : Type 0} (lib : JobLibrary float.F)
    (store : JobStore float.F World) (ns name : String) (laws : JobLaws lib store) where
  open laws use {job_at, stored}

  -- what is known while the object that was read is worked on: a listing was complete
  record Found (base : EnergyAwareCronJob) (l : List Job) (jobs : Jobs) (objects : Objects)
      : Type 0 where
    pub single : IsSingle lib store ns name jobs objects
    pub unchanged : objects ns name ≡ some base
    pub complete : (a : String) (u : UnfinishedIn float lib store ns name laws jobs a) → Memᴰ u.0 l

  module _ (base : EnergyAwareCronJob) (in_namespace : base.namespace ≡ ns)
      (named : base.name ≡ name) (policy : base.spec.concurrency_policy ≡ forbid) where
    abbrev FoundAt : List Job → World → Type 0
    FoundAt l w = Found base l (job_at w) (stored w)

    Found-delete :
        (l : List Job) (ns' name' : String) (w : World)
        → FoundAt l w
        → FoundAt l (store.delete_job ns' name' w).1
    unfolding before_delete
    Found-delete l ns' name' w f = record {
      single = record {
        one = λ a b u v.
            f.single.one a b (before_delete float lib store ns name laws ns' name' w a u)
              (before_delete float lib store ns name laws ns' name' w b v);
        pinned = rw (laws.delete_stored ns' name' w) (λ e h t h' a u.
            f.single.pinned e h t h' a
              (before_delete float lib store ns name laws ns' name' w a u));
      };
      unchanged = rw (laws.delete_stored ns' name' w) f.unchanged;
      complete = λ a u. f.complete a (before_delete float lib store ns name laws ns' name' w a u);
    }

    Ends-listed :
        (w : World) (r : Result (List Job))
        → (listing float lib store base w).0 ≡ r
        → (I float lib store ns name laws) w
        → stored w ns name ≡ some base
        → Ends
            (I float lib store ns name laws)
            FoundAt
            (run_of r)
            (listing float lib store base w).1
    Ends-listed w (err x) e s u =
        kept float lib store ns name laws (IsSingle lib store ns name) w _ (laws.list_same _ _ w) s
    Ends-listed w (ok l) e s u =
        kept float lib store ns name laws (Found base l) w _ (laws.list_same _ _ w) (record {
          single = s;
          unchanged = u;
          complete = λ a v.
              laws.listed base.namespace (owner_label_value lib.sha256_hex base.name) a w l v.0 e
                ((λ i. job_at w (in_namespace i) a) ∙ v.1)
                (v.3 ∙ ap (λ (n : String). some (owner_label_value lib.sha256_hex n)) (sym named));
        })

    module _ (l : List Job) where
      abbrev e : EnergyAwareCronJob
      e = synced float lib store base l

      idle :
          (w : World)
          → FoundAt l w
          → is_forbidden base.spec.concurrency_policy e.status.active ≡ false
          → (a : String) → UnfinishedIn float lib store ns name laws (job_at w) a
          → ⊥
      idle w f free a u =
          track-idle l base.status.last_successful_time u.0 (f.complete a u)
            (not_forbidden base.spec.concurrency_policy e.status.active policy free) u.2

      Found-stored :
          (t : ℕ) (w : World)
          → base.status.next_scheduled_time ≡ some t
          → FoundAt l w
          → Due float lib store ns name laws base e in_namespace named t w
      Found-stored t w h f = record {
        only = λ a u. f.single.pinned base f.unchanged t h a u;
        same_job = λ e' t' p q.
            ap (λ (x : ℕ). job_name lib store ns name x) (instant e' t' (sym p ∙ f.unchanged) q);
      }
        where
          instant :
              (e' : EnergyAwareCronJob) (t' : ℕ)
              → some e' ≡ some base
              → e'.status.next_scheduled_time ≡ some t'
              → t' ≡ t
          instant e' t' p q =
              let object : e' ≡ base = cc in
              let time : some t' ≡ some t =
                sym q ∙ ap (λ (x : EnergyAwareCronJob). x.status.next_scheduled_time) object ∙ h in
              cc

      Found-open :
          (u : World) (t : ℕ) (w : World)
          → IsOpen float lib store u e t
          → FoundAt l w
          → Due float lib store ns name laws base e in_namespace named (store.clock u).0 w
      Found-open u t w o f = record {
        only = λ a u. absurd (idle w f o.free a u);
        same_job = λ e' t' p q. absurd (never e' t' (sym p ∙ f.unchanged) q o.unset);
      }
        where
          never :
              (e' : EnergyAwareCronJob) (t' : ℕ)
              → some e' ≡ some base
              → e'.status.next_scheduled_time ≡ some t'
              → base.status.next_scheduled_time ≡ none
              → ⊥
          never e' t' p q unset =
              let object : e' ≡ base = cc in
              let clash : some t' ≡ none =
                sym q
                ∙ ap (λ (x : EnergyAwareCronJob). x.status.next_scheduled_time) object
                ∙ unset in
              absurd (cc)

      forbid_rules :
          (u : World) → Rules float lib store u base e (I float lib store ns name laws) (FoundAt l)
      forbid_rules u = record {
        weaken = λ w f. f.single;
        clock_keeps =
            λ w f. kept float lib store ns name laws (Found base l) w _ (laws.clock_same w) f;
        clock_keeps_after = λ w s.
            kept float lib store ns name laws (IsSingle lib store ns name) w _ (laws.clock_same w)
              s;
        prices_keep = λ ns' name' w f.
            kept float lib store ns name laws (Found base l) w _ (laws.price_same ns' name' w) f;
        same_time = λ s w h f.
            Single-patch lib store ns name laws base (with_status e s) w in_namespace named f.single
              (λ t h' a u. f.single.pinned base f.unchanged t (sym h ∙ h') a u);
        no_time = λ s w h f.
            Single-patch lib store ns name laws base (with_status e s) w in_namespace named f.single
              (no_time-Fits float lib store ns name laws (job_at w) s.next_scheduled_time h);
        new_time = λ s t p w c h f.
            Single-patch lib store ns name laws base (with_status e s) w in_namespace named f.single
              (λ t' h' a u. absurd (idle w f c.open_at.free a u));
        dispatch_stored = λ t awake due h w f.
            Triple-dispatch lib store base e t (I float lib store ns name laws)
              (Due float lib store ns name laws base e in_namespace named t)
              (Due float lib store ns name laws base e in_namespace named t)
              (dispatch_rules float lib store ns name laws base e in_namespace named t) w
              (Found-stored t w h f);
        dispatch_now = λ t o w f.
            Triple-dispatch lib store base e (store.clock u).0 (I float lib store ns name laws)
              (Due float lib store ns name laws base e in_namespace named (store.clock u).0)
              (Due float lib store ns name laws base e in_namespace named (store.clock u).0)
              (dispatch_rules float lib store ns name laws base e in_namespace named
                (store.clock u).0)
              w (Found-open u t w o f);
      }

    pub forbid_plan :
        (w : World)
        → (I float lib store ns name laws) w
        → stored w ns name ≡ some base
        → Plan float lib store base w (I float lib store ns name laws)
    forbid_plan w s u = record {
      P = FoundAt;
      listed = Ends-listed w _ refl s u;
      deleted = Found-delete;
      rules = λ l _. forbid_rules l (after_tracking float lib store base w);
    }
