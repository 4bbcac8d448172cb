-- ===== src/Hibernate/Pass.antt =====
-- A pass over one kind of workload in one namespace: what the loops do, seen from the store.
use mathlib.Core.Path.{subst}
use kube_greencosts.Prelude.{
  String, ◌≡◌, ◌≢◌, refl, sym, ap, ◌∙◌, ◌⊎◌, inl, inr, Option-cases, Option, none, some, List, [],
  ◌∷◌, All,
}
use kube_greencosts.Api.{WorkloadType, Workload}
use kube_greencosts.Cluster.{Error, Cluster, Exec, Result, ok, err, error_of, continue, ◌>>=◌}
use kube_greencosts.Cluster.Laws.{ClusterLaws, Distinct}
use kube_greencosts.Hibernate.{Outcome, hibernate_loop, over_list}
use kube_greencosts.Wake.{wake_loop}
use kube_greencosts.Hibernate.Run.{
  All-mem, Held, Outside, Either, Done, Step, Run, finished, stopped, stepped, Run-frame,
  Run-Either, Run-Done,
}

module _ (k : Cluster) (laws : ClusterLaws k) (t : WorkloadType) (ns : String)
    (spec : Workload → Workload) where
  open k use {World, list_workloads}
  open laws use {workload, listed, listed_distinct, listed_all, list_keeps}

  -- What a pass leaves: objects of other kinds and namespaces, and names that are not there, are
  -- left alone; each object is as before or as `spec` says, and as `spec` says where no error came.
  pub record Pass (e : Option Error) (w w' : World) : Type 0 where
    pub frame :
        (u : WorkloadType) (ns' name : String)
        → (u ≢ t) ⊎ (ns' ≢ ns)
        → workload w' u ns' name ≡ workload w u ns' name
    pub absent : (name : String) → workload w t ns name ≡ none → workload w' t ns name ≡ none
    pub either :
        (name : String) (d : Workload)
        → workload w t ns name ≡ some d
        → (workload w' t ns name ≡ some d) ⊎ (workload w' t ns name ≡ some (spec d))
    pub done :
        e ≡ none
        → (name : String) (d : Workload) → workload w t ns name ≡ some d
        → workload w' t ns name ≡ some (spec d)

  Held-absent :
      (w : World) (l : List Workload) (name : String)
      → workload w t ns name ≡ none
      → All (Held k laws t ns spec w) l
      → All (λ (x : Workload). x.name ≢ name) l
  Held-absent w [] name e _ = tt
  Held-absent w (d ∷ ds) name e (h, hs) =
      ((λ same. cc (h.1, e, ap (workload w t ns) same)), Held-absent w ds name e hs)

  within :
      {u : WorkloadType} {ns' : String} (name : String) (l : List Workload)
      → (u ≢ t) ⊎ (ns' ≢ ns)
      → Outside k laws t ns spec l u ns' name
  within name l (inl a) = inl a
  within name l (inr b) = inr (inl b)

  module _ (w : World) (l : List Workload) (answer : (list_workloads t (some ns) w).0 ≡ ok l) where
    abbrev listed_world : World
    listed_world = (list_workloads t (some ns) w).1

    held : All (Held k laws t ns spec listed_world) l
    held =
        subst
          (λ (f : WorkloadType → String → String → Option Workload).
            All (λ (d : Workload). (d.namespace ≡ ns) × (f t ns d.name ≡ some d)) l)
          (sym (list_keeps t (some ns) w)) (listed t ns w l answer)

    same :
        (u : WorkloadType) (ns' name : String)
        → workload listed_world u ns' name ≡ workload w u ns' name
    same u ns' name i = list_keeps t (some ns) w i u ns' name

    -- A run over the listed workloads is a pass.
    Pass-Run :
        (e : Option Error) (w' : World) → Run k laws t ns spec l e listed_world w' → Pass e w w'
    Pass-Run e w' r = record {
      frame = λ u ns' name other.
          Run-frame k laws t ns spec r apart held u ns' name (within name l other)
          ∙ same u ns' name;
      absent = λ name gone.
          Run-frame k laws t ns spec r apart held t ns name
            (inr (inr (Held-absent listed_world l name (same t ns name ∙ gone) held)))
          ∙ same t ns name
          ∙ gone;
      either = λ name d there.
          let (e, m) = listed_all t ns name w l d answer there in
          subst
            (λ (n : String). (workload w' t ns n ≡ some d) ⊎ (workload w' t ns n ≡ some (spec d))) e
            (All-mem (Either k laws t ns spec w') l (Run-Either k laws t ns spec r apart held) m);
      done = λ fine name d there.
          let (e, m) = listed_all t ns name w l d answer there in
          subst (λ (n : String). workload w' t ns n ≡ some (spec d)) e
            (All-mem (Done k laws t ns spec w') l (Run-Done k laws t ns spec r fine apart held) m);
    }
      where
        apart : Distinct l
        apart = listed_distinct t ns w l answer

  -- A list that fails ends the pass before any write.
  Pass-unlisted : (x : Error) (w w' : World) → workload w' ≡ workload w → Pass (some x) w w'
  Pass-unlisted x w w' q = record {
    frame = λ u ns' name _ i. q i u ns' name;
    absent = λ name gone. (λ i. q i t ns name) ∙ gone;
    either = λ name d there. inl ((λ i. q i t ns name) ∙ there);
    done = λ fine. absurd (cc);
  }

  -- A pass that does nothing, where `spec` changes nothing.
  pub Pass-idle : (w : World) → ((d : Workload) → spec d ≡ d) → Pass none w w
  Pass-idle w nothing = record {
    frame = λ u ns' name _. refl;
    absent = λ name gone. gone;
    either = λ name d there. inl there;
    done = λ _ name d there. there ∙ ap some (sym (nothing d));
  }

  module _ (step : Workload → World → Outcome × World)
      (steps : (d : Workload) (w : World)
        → Step k laws t ns spec d (step d w).0.1 w (step d w).1) where
    hibernate_loop-Run :
        (kind : String) (l : List Workload) (names : List String) (w : World)
        → let ((_, e), w') = hibernate_loop k kind step l names w in Run k laws t ns spec l e w w'
    unfolding hibernate_loop
    hibernate_loop-Run kind [] names w = finished
    hibernate_loop-Run kind (d ∷ ds) names w = elim (Option-cases (step d w).0.1) [
      | inl fine ↦
          rw (fine, hibernate_loop)
            (stepped (rw fine at (steps d w)) (hibernate_loop-Run kind ds _ (step d w).1))
      | inr (x, failed) ↦ rw (failed, hibernate_loop) (stopped (rw failed at (steps d w)))
    ]

    over_list-Pass :
        (kind : String) (w : World) (r : Result (List Workload))
        → (list_workloads t (some ns) w).0 ≡ r
        → let ((_, e), w') = over_list k kind step (r, (list_workloads t (some ns) w).1) in
          Pass e w w'
    over_list-Pass kind w (ok l) answer = Pass-Run w l answer _ _ (hibernate_loop-Run kind l [] _)
    over_list-Pass kind w (err x) answer = Pass-unlisted x w _ (list_keeps t (some ns) w)

    -- the pass of a `hibernate…` function
    pub hibernate-Pass :
        (kind : String) (w : World)
        → let ((_, e), w') = over_list k kind step (list_workloads t (some ns) w) in Pass e w w'
    hibernate-Pass kind w = over_list-Pass kind w _ refl

  module _ (step : Workload → Exec World (Unit {0}))
      (steps : (d : Workload) (w : World)
        → Step k laws t ns spec d (error_of (step d w).0) w (step d w).1) where
    wake_loop-after :
        (d : Workload) (ds : List Workload) (w : World) (r : Result (Unit {0}))
        → (step d w).0 ≡ r
        → (let (r', w') = wake_loop k step ds (step d w).1 in
            Run k laws t ns spec ds (error_of r') (step d w).1 w')
        → let (r', w') = continue r (λ _. wake_loop k step ds) (step d w).1 in
          Run k laws t ns spec (d ∷ ds) (error_of r') w w'
    wake_loop-after d ds w (ok _) e rest = stepped (rw e at (steps d w)) rest
    wake_loop-after d ds w (err x) e rest = stopped (rw e at (steps d w))

    wake_loop-Run :
        (l : List Workload) (w : World)
        → let (r, w') = wake_loop k step l w in Run k laws t ns spec l (error_of r) w w'
    unfolding wake_loop
    wake_loop-Run [] w = finished
    wake_loop-Run (d ∷ ds) w = wake_loop-after d ds w _ refl (wake_loop-Run ds (step d w).1)

    wake_list-Pass :
        (w : World) (r : Result (List Workload))
        → (list_workloads t (some ns) w).0 ≡ r
        → let (r', w') = continue r (wake_loop k step) (list_workloads t (some ns) w).1 in
          Pass (error_of r') w w'
    wake_list-Pass w (ok l) answer = Pass-Run w l answer _ _ (wake_loop-Run l _)
    wake_list-Pass w (err x) answer = Pass-unlisted x w _ (list_keeps t (some ns) w)

    -- the pass of a `wake…` function
    pub wake-Pass :
        (w : World)
        → let (r, w') = (list_workloads t (some ns) >>= wake_loop k step) w in
          Pass (error_of r) w w'
    wake-Pass w = wake_list-Pass w _ refl
