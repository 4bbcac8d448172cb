-- ===== src/EnergyJob/Forbid/Promise.antt =====
-- Under Forbid at most one job is unfinished, whatever happens between reconciliations.
use kube_greencosts.Prelude.{String, ◌≡◌, sym, ◌∙◌, ◌⊎◌, inl, inr, none, some}
use kube_greencosts.Price.{Float}
use kube_greencosts.EnergyJob.Types.{forbid, EnergyAwareCronJob, JobLibrary, JobStore}
use kube_greencosts.EnergyJob.Reconcile.{reconcile}
use kube_greencosts.EnergyJob.Laws.{JobLaws}
use kube_greencosts.EnergyJob.Rules.Whole.{reconcile_keeps}
use kube_greencosts.EnergyJob.Forbid.{Unfinished, IsSingle, Single}
use kube_greencosts.EnergyJob.Forbid.Steps.{kept}
use kube_greencosts.EnergyJob.Forbid.Planned.{forbid_plan}

module _ (float : Float) {World : Type 0} (lib : JobLibrary float.F)
    (store : JobStore float.F World) (ns name : String) (laws : JobLaws lib store) where
  open laws use {job_at, stored}

  abbrev pub UnfinishedAt : World → String → Type 0
  UnfinishedAt w a = Unfinished lib store ns name (job_at w) a

  abbrev SingleAt : World → Type 0
  SingleAt = Single lib store ns name laws

  abbrev Forbids : World → Type 0
  Forbids w =
      (e : EnergyAwareCronJob) → stored w ns name ≡ some e → e.spec.concurrency_policy ≡ forbid

  -- A reconciliation while the policy is Forbid, or anything else, which may end or delete the jobs,
  -- and edit, delete or create the EnergyAwareCronJob, but starts no job of it and stores no time.
  pub data Step : World → World → Type 0 where
    reconciled : (w : World) → Forbids w → Step w (reconcile float lib store ns name w).1
    elsewhere :
        (w w' : World)
        → ((a : String) → UnfinishedAt w' a → UnfinishedAt w a)
        → ((e' : EnergyAwareCronJob)
            → stored w' ns name ≡ some e'
            → (e'.status.next_scheduled_time ≡ none)
              ⊎ ((e : EnergyAwareCronJob) × (stored w ns name ≡ some e)
                  × (e'.status.next_scheduled_time ≡ e.status.next_scheduled_time)))
        → Step w w'

  pub data Reach (w : World) : World → Type 0 where
    here : Reach w w
    next : {w' w'' : World} → Reach w w' → Step w' w'' → Reach w w''

  Single-reconcile :
      (w : World) → Forbids w → SingleAt w → SingleAt (reconcile float lib store ns name w).1
  Single-reconcile w policy s =
      reconcile_keeps float lib store ns name w SingleAt
        (kept float lib store ns name laws (IsSingle lib store ns name) w _
          (laws.get_same ns name w) s)
        (λ base h.
          let (there, in_namespace, named) = laws.got ns name w base h in
          let (single, unchanged) =
            kept float lib store ns name laws
              (λ j o. IsSingle lib store ns name j o × (o ns name ≡ some base)) w _
              (laws.get_same ns name w) (s, there) in
          forbid_plan float lib store ns name laws base in_namespace named (policy base there) _
            single unchanged)

  Step-Single : {w w' : World} → Step w w' → SingleAt w → SingleAt w'
  Step-Single (reconciled w policy) s = Single-reconcile w policy s
  Step-Single (elsewhere w w' jobs objects) s = record {
    one = λ a b u v. s.one a b (jobs a u) (jobs b v);
    pinned = λ e' h t h' a u. elim (objects e' h) [
      | inl unset ↦ let clash = sym unset ∙ h' in absurd (cc)
      | inr old ↦ s.pinned old.0 old.1 t (sym old.2 ∙ h') a (jobs a u)
    ];
  }

  Reach-Single : {w w' : World} → SingleAt w → Reach w w' → SingleAt w'
  Reach-Single s here = s
  Reach-Single s (next r st) = Step-Single st (Reach-Single s r)

  -- From a state in which no job of an EnergyAwareCronJob is unfinished, while its policy is Forbid at
  -- every reconciliation, all its unfinished jobs have one name: reconciliations, also those that fail
  -- after the job was created, never start a second one. Between them jobs may end and be deleted, and
  -- the EnergyAwareCronJob may be edited, but no one else starts a job of it or stores a time.
  pub forbid_keeps_one :
      (w w' : World) (a b : String)
      → ((a' : String) → UnfinishedAt w a' → ⊥)
      → Reach w w'
      → UnfinishedAt w' a
      → UnfinishedAt w' b
      → a ≡ b
  forbid_keeps_one w w' a b none_yet r = (Reach-Single start r).one a b
    where
      start : SingleAt w
      start = record {
        one = λ x y u v. absurd (none_yet x u);
        pinned = λ e h t h' x u. absurd (none_yet x u);
      }
