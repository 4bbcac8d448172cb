-- ===== src/EnergyJob/Forbid/Tracking.antt =====
-- Where no job is active, every job that is listed has finished.
use mathlib.Core.List.{Memᴰ}
use mathlib.Core.List.Memᴰ
use kube_greencosts.Prelude.{
  ℕ, String, ◌≡◌, ◌≢◌, sym, ◌∙◌, ap, inl, inr, Bool-cases, Option, none, some, List, [], ◌∷◌, ◌==◌,
}
use kube_greencosts.EnergyJob.Types.{Job}
use kube_greencosts.EnergyJob.Sync.{job_complete, job_finished, Tracked, tracked, track, mapped}

tracked-active :
    (o : Option String) (j : Job) (t : Tracked)
    → mapped (tracked o j t).active ≡ []
    → (o ≢ none) × (mapped t.active ≡ [])
tracked-active none j t = λ h. absurd (cc)
tracked-active (some kind) j t = elim (Bool-cases (kind == job_complete)) [
  | inl complete ↦ rw complete (λ h. (λ x. cc, h))
  | inr other ↦ rw other (λ h. (λ x. cc, h))
]

pub track-idle :
    (l : List Job) (last : Option ℕ) (j : Job)
    → Memᴰ j l
    → mapped (track l last).active ≡ []
    → job_finished j ≢ none
unfolding track
track-idle [] last j m h = absurd (Memᴰ.not-nil m)
track-idle (x ∷ xs) last j m h =
    let (apart, rest) = tracked-active (job_finished x) x _ h in
    elim m [
      | Memᴰ.head same ↦ λ f. apart (sym (ap (λ (y : Job). job_finished y) same) ∙ f)
      | Memᴰ.tail later ↦ track-idle xs _ j later rest
    ]
