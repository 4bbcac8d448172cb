-- ===== src/Policy/Requeue.antt =====
-- When a reconciliation asks to be run again.
use kube_greencosts.Prelude.{
  String, ℕ, ◌+◌, ◌≤◌, ◌<◌, ◌≡◌, ◌≢◌, refl, ◌⊎◌, inl, inr, Bool, true, false, Option, none, some,
  List, [], arith, if◌then◌else◌,
}
use kube_greencosts.Cluster.{
  Error, Cluster, Result, ok, err, not_found, already_exists, api_failed, encoding_failed,
}
use kube_greencosts.Window.{
  AvailabilityWindow, Calendar, is_zero_time, next_availability_window_start,
}
use kube_greencosts.PolicyApi.{HibernatePolicy, PolicyStore}
use kube_greencosts.Policy.{
  window_check_interval, requeue_until, requeue_at_start, requeue, finished, reconcile_policy,
  fetched_policy, reconcile,
}

abbrev pub IsSoon : ℕ → Type 0
IsSoon after = (0 < after) × (after ≤ window_check_interval)

requeue_until-IsSoon : (boundary later : ℕ) → IsSoon (requeue_until boundary later)
unfolding requeue_until
requeue_until-IsSoon boundary later = ground arith

requeue_until-le :
    (boundary later : ℕ) → later < boundary → later + requeue_until boundary later ≤ boundary
unfolding requeue_until
requeue_until-le boundary later h = ground arith

-- The next boundary: the end of the window that is open, or the next start, if there is one.
abbrev pub boundary_of : Calendar → Bool → ℕ → List AvailabilityWindow → ℕ → Option ℕ
boundary_of c true window_end windows now = some window_end
boundary_of c false window_end windows now =
    let next = next_availability_window_start c windows now in
    if is_zero_time next then none else some next

module _ (k : Cluster) (c : Calendar) (p : PolicyStore k.World) where
  open k use {World}
  open p use {clock, get_policy}

  interval_or-IsSoon :
      (b : Bool) (next : ℕ) (w : World) → IsSoon (requeue_at_start k c p next b w).0
  interval_or-IsSoon true next w = (omega arith, omega arith)
  interval_or-IsSoon false next w = requeue_until-IsSoon next (clock w).0

  requeue-IsSoon :
      (b : Bool) (window_end : ℕ) (windows : List AvailabilityWindow) (now : ℕ) (w : World)
      → IsSoon (requeue k c p b window_end windows now w).0
  requeue-IsSoon true window_end windows now w = requeue_until-IsSoon window_end (clock w).0
  requeue-IsSoon false window_end windows now w = interval_or-IsSoon _ _ w

  in_time :
      (b : Bool) (next boundary : ℕ) (w : World)
      → (if b then none else some next) ≡ some boundary
      → (clock w).0 < boundary
      → (clock w).0 + (requeue_at_start k c p next b w).0 ≤ boundary
  in_time true next boundary w e h = absurd (cc)
  in_time false next boundary w e h = at_boundary next boundary (same e) h
    where
      same : some next ≡ some boundary → next ≡ boundary
      same f = cc

      at_boundary :
          (a b : ℕ) → a ≡ b → (clock w).0 < b → (clock w).0 + requeue_until a (clock w).0 ≤ b
      at_boundary a b f g = rw f (requeue_until-le b (clock w).0 g)

  -- Where there is a next boundary and it is not past when the clock is read, the time that is asked
  -- for ends no later than the boundary.
  pub requeue_in_time :
      (b : Bool) (window_end : ℕ) (windows : List AvailabilityWindow) (now boundary : ℕ) (w : World)
      → boundary_of c b window_end windows now ≡ some boundary
      → (clock w).0 < boundary
      → (clock w).0 + (requeue k c p b window_end windows now w).0 ≤ boundary
  requeue_in_time true window_end windows now boundary w e h =
      in_time false window_end boundary w e h
  requeue_in_time false window_end windows now boundary w e h = in_time _ _ boundary w e h

  finished-cases :
      (errs : List Error) (next : World → ℕ × World)
      → ((w : World) → IsSoon (next w).0)
      → (r : Result (Unit {0})) (w : World)
      → let result = (finished k c p (r, w) errs next).0 in
        ((result.requeue_after ≡ 0) × (result.errors ≢ [])) ⊎ IsSoon result.requeue_after
  finished-cases errs next soon (ok _) w = inr (soon w)
  finished-cases errs next soon (err e) w = inl (refl, λ h. absurd (cc))

  policy_after-cases :
      (hp : HibernatePolicy) (w : World)
      → let result = (reconcile_policy k c p hp w).0 in
        ((result.requeue_after ≡ 0) × (result.errors ≢ [])) ⊎ IsSoon result.requeue_after
  unfolding reconcile_policy
  policy_after-cases hp w = finished-cases _ _ (requeue-IsSoon _ _ hp.availability_windows _) _ _

  -- A reconciliation of a HibernatePolicy asks to be run again within five minutes and not at once; or
  -- it reports an error and leaves the time to the caller; or the policy is not found, and it asks for
  -- nothing and reports no error.
  pub policy_requeued :
      (ns name : String) (w : World)
      → let result = (reconcile k c p ns name w).0 in
        (((get_policy ns name w).0 ≡ err not_found)
          × (result.requeue_after ≡ 0)
          × (result.errors ≡ []))
        ⊎ ((result.requeue_after ≡ 0) × (result.errors ≢ []))
        ⊎ ((0 < result.requeue_after) × (result.requeue_after ≤ window_check_interval))
  unfolding reconcile
  policy_requeued ns name w = answered (get_policy ns name w).0 (get_policy ns name w).1
    where
      answered :
          (r : Result HibernatePolicy) (w1 : World)
          → let result = (fetched_policy k c p (r, w1)).0 in
            ((r ≡ err not_found) × (result.requeue_after ≡ 0) × (result.errors ≡ []))
            ⊎ ((result.requeue_after ≡ 0) × (result.errors ≢ []))
            ⊎ ((0 < result.requeue_after) × (result.requeue_after ≤ window_check_interval))
      answered (err not_found) w1 = inl (refl, refl, refl)
      answered (err already_exists) w1 = inr (inl (refl, λ h. absurd (cc)))
      answered (err api_failed) w1 = inr (inl (refl, λ h. absurd (cc)))
      answered (err encoding_failed) w1 = inr (inl (refl, λ h. absurd (cc)))
      answered (ok hp) w1 = inr (policy_after-cases hp w1)
