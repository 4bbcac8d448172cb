-- ===== src/ClusterPolicy/Effects.antt =====
-- What a cluster-wide policy does to one workload, seen from the store.
use kube_greencosts.Prelude.{
  String, ◌≡◌, ◌≢◌, refl, sym, ◌∙◌, ap, ◌⊎◌, inl, inr, Option, none, some, subst, if◌then◌else◌,
}
use kube_greencosts.Api.{
  WorkloadType, deployment, stateful_set, daemon_set, replica_set, unknown, HibernateAction,
  HibernationOwner, Workload,
}
use kube_greencosts.Cluster.{
  Error, not_found, already_exists, api_failed, encoding_failed, Cluster, ignore_not_found,
}
use kube_greencosts.Cluster.Laws.{ClusterLaws}
use kube_greencosts.Hibernate.Spec.{hibernate_spec, sleep_spec, wake_spec, awaken_spec}
use kube_greencosts.Hibernate.Effect.{Effect}

-- What hibernating one workload is to make of it.
abbrev pub hibernate_one_spec :
    Cluster → HibernateAction → HibernationOwner → WorkloadType → Workload → Workload
hibernate_one_spec k action owner deployment d = hibernate_spec action owner d
hibernate_one_spec k action owner stateful_set d = hibernate_spec action owner d
hibernate_one_spec k action owner daemon_set d =
    if action.sleep_daemon_set then sleep_spec k.marshal owner d else d
hibernate_one_spec k action owner replica_set d = hibernate_spec action owner d
hibernate_one_spec k action owner (unknown _) d = d

-- What waking one workload is to make of it.
abbrev pub wake_one_spec : Cluster → HibernationOwner → WorkloadType → Workload → Workload
wake_one_spec k owner deployment d = wake_spec owner d
wake_one_spec k owner stateful_set d = wake_spec owner d
wake_one_spec k owner daemon_set d = awaken_spec k.unmarshal owner d
wake_one_spec k owner replica_set d = wake_spec owner d
wake_one_spec k owner (unknown _) d = d

pub some_inj {ℓ} : {A : Type ℓ} (a b : A) → some a ≡ some b → a ≡ b
some_inj a b h = cc

module _ (k : Cluster) (laws : ClusterLaws k) where
  open k use {World, get_workload, patch_workload, marshal, unmarshal}
  open laws use {workload}

  module _ (t : WorkloadType) (ns name : String) (spec : Workload → Workload) where
    -- The one workload is as before or as `spec` says, as `spec` says where no error came, and no
    -- other is touched.
    pub record Reach (e : Option Error) (w w' : World) : Type 0 where
      pub frame :
          (u : WorkloadType) (ns' name' : String)
          → (u ≢ t) ⊎ (ns' ≢ ns) ⊎ (name' ≢ name)
          → workload w' u ns' name' ≡ workload w u ns' name'
      pub either :
          (d : Workload)
          → workload w t ns name ≡ some d
          → (workload w' t ns name ≡ some d) ⊎ (workload w' t ns name ≡ some (spec d))
      pub done :
          e ≡ none
          → (d : Workload) → workload w t ns name ≡ some d
          → workload w' t ns name ≡ some (spec d)

    pub Reach-missing :
        (e : Error) (w w' : World)
        → workload w' ≡ workload w
        → (e ≡ not_found → workload w t ns name ≡ none)
        → Reach (ignore_not_found e) w w'
    Reach-missing e w w' q gone = record {
      frame = λ u ns' name' _ i. q i u ns' name';
      either = λ d there. inl ((λ i. q i t ns name) ∙ there);
      done = λ fine d there. absurd (clash e fine gone there);
    }
      where
        clash :
            {d : Workload} (x : Error)
            → ignore_not_found x ≡ none
            → (x ≡ not_found → workload w t ns name ≡ none)
            → workload w t ns name ≡ some d
            → ⊥
        clash not_found fine g there = let n = sym (g refl) ∙ there in absurd (cc)
        clash already_exists fine g there = absurd (cc)
        clash api_failed fine g there = absurd (cc)
        clash encoding_failed fine g there = absurd (cc)

    pub Reach-idle : (e : Option Error) (w : World) → ((d : Workload) → spec d ≡ d) → Reach e w w
    Reach-idle e w nothing = record {
      frame = λ u ns' name' _. refl;
      either = λ d there. inl there;
      done = λ fine d there. there ∙ ap some (sym (nothing d));
    }

    pub Reach-step :
        (d : Workload) (e : Option Error) (w w1 w' : World)
        → workload w1 ≡ workload w
        → d.name ≡ name
        → workload w t ns name ≡ some d
        → Effect k laws t ns d (spec d) e w1 w'
        → Reach e w w'
    Reach-step d e w w1 w' q same held eff = record {
      frame = λ u ns' name' other.
          eff.frame u ns' name'
            (subst (λ (n : String). (u ≢ t) ⊎ (ns' ≢ ns) ⊎ (name' ≢ n)) (sym same) other)
          ∙ (λ i. q i u ns' name');
      either = λ x there.
          let is_d = some_inj _ _ (sym held ∙ there) in
          elim eff.either [
            | inl before ↦ inl (at_name (workload w' t ns) ∙ before ∙ ap some is_d)
            | inr after ↦
                inr (at_name (workload w' t ns) ∙ after ∙ ap (λ (y : Workload). some (spec y)) is_d)
          ];
      done = λ fine x there.
          let is_d = some_inj _ _ (sym held ∙ there) in
          at_name (workload w' t ns) ∙ eff.done fine ∙ ap (λ (y : Workload). some (spec y)) is_d;
    }
      where
        at_name : (f : String → Option Workload) → f name ≡ f d.name
        at_name f i = f (sym same i)
