-- ===== src/Queue/Again.antt =====
-- The job that the media clean-up leaves behind.
use openpostfork.Prelude.{
  ◌+◌, ◌*◌, String, ◌≡◌, refl, subst, ◌⊎◌, inl, inr, Option, none, some, List, [], ◌∷◌, ◌==◌,
  Bool-cases, Option-cases, Result, ok, err, Result-cases,
}
use openpostfork.Prelude.Clock.{hour}
use openpostfork.Prelude.Int.{ℤ, pos, leb_ℤ}
use openpostfork.Prelude.Table.{find_where}
use openpostfork.Queue.{Job, pending}
use openpostfork.Queue.Cleanup.{
  Media, Tables, CleanupServices, select_media, load_workspace, insert_job, listed,
  variant_media_ids, delete_unused_media, delete_each, cleanup_job, inserted, insert_cleanup,
  schedule_again, reschedule, schedule_next, with_used, clean_up, found_media, CleanupWorkspace,
  handle_media_cleanup,
}

module _ {S : Type 0} (v : CleanupServices S) where
  -- No job was added, or one that starts a day from now.
  abbrev pub AddsOneLater : List Job → List Job → Type 0
  AddsOneLater before after =
      (after ≡ before)
      ⊎ ((j : Job) × (after ≡ j ∷ before) × (j.status ≡ pending) × (j.run_at ≡ v.now + 24 * hour))

  inserted_later :
      (failed : Option String) (payload : String) (t : Tables S)
      → AddsOneLater t.jobs (inserted v failed payload t).1.jobs
  inserted_later (some message) payload t = inl refl
  inserted_later none payload t = inr (cleanup_job v payload t.jobs, refl, refl, refl)

  insert_later :
      (marshalled : Result String String) (t : Tables S)
      → AddsOneLater t.jobs (insert_cleanup v marshalled t).1.jobs
  insert_later (err message) t = inl refl
  insert_later (ok payload) t = inserted_later (v.fails insert_job) payload t

  schedule_again_later :
      (workspace_id : String) (days : ℤ) (t : Tables S)
      → AddsOneLater t.jobs (schedule_again v workspace_id days t).1.jobs
  unfolding schedule_again
  schedule_again_later workspace_id days t = elim (Bool-cases (leb_ℤ days (pos 0))) [
    | inl e ↦ rw e (inl refl)
    | inr e ↦ rw e (insert_later (v.marshal_payload workspace_id days) t)
  ]

  reschedule_later :
      (workspace_id : String) (found : Option CleanupWorkspace) (t : Tables S)
      → AddsOneLater t.jobs (reschedule v workspace_id found t).jobs
  reschedule_later workspace_id none t = inl refl
  reschedule_later workspace_id (some w) t =
      elim (Bool-cases (leb_ℤ w.media_cleanup_days (pos 0))) [
        | inl e ↦ rw e (inl refl)
        | inr e ↦ rw e (schedule_again_later workspace_id w.media_cleanup_days t)
      ]

  next_later :
      (workspace_id : String) (t : Tables S)
      → AddsOneLater t.jobs (schedule_next v workspace_id t).jobs
  unfolding schedule_next
  next_later workspace_id t = elim (Option-cases (v.fails load_workspace)) [
    | inr q ↦ rw (q.1, schedule_next) (inl refl)
    | inl e ↦
        rw (e, schedule_next)
          (reschedule_later workspace_id
            (find_where (λ (w : CleanupWorkspace). w.id == workspace_id) t.workspaces) t)
  ]

  jobs-delete_each :
      (used : List String) (ms : List Media) (t : Tables S)
      → (delete_each v used ms t).jobs ≡ t.jobs
  unfolding delete_each delete_unused_media
  jobs-delete_each used [] t = refl
  jobs-delete_each used (m ∷ ms) t = elim (Bool-cases (listed m.id used)) [
    | inl e ↦ rw (e, delete_each) (jobs-delete_each used ms t)
    | inr e ↦ rw (e, delete_each) (jobs-delete_each used ms (delete_unused_media v m t))
  ]

  with_used_later :
      (workspace_id : String) (days : ℤ) (found : Result String (List String)) (t : Tables S)
      → AddsOneLater t.jobs (with_used v workspace_id days found t).1.jobs
  with_used_later workspace_id days (err message) t = inl refl
  with_used_later workspace_id days (ok used) t =
      subst
        (λ before.
          AddsOneLater before
            (schedule_next v workspace_id
              (delete_each v used (found_media v workspace_id days t) t)).jobs)
        (jobs-delete_each used (found_media v workspace_id days t) t)
        (next_later workspace_id (delete_each v used (found_media v workspace_id days t) t))

  clean_up_later :
      (workspace_id : String) (days : ℤ) (t : Tables S)
      → AddsOneLater t.jobs (clean_up v workspace_id days t).1.jobs
  unfolding clean_up
  clean_up_later workspace_id days t = elim (Bool-cases (leb_ℤ days (pos 0))) [
    | inl e ↦ rw e (inl refl)
    | inr e ↦ elim (Option-cases (v.fails select_media)) [
      | inr q ↦ rw (e, q.1, clean_up) (inl refl)
      | inl f ↦
          rw (e, f, clean_up)
            (with_used_later workspace_id days (variant_media_ids v workspace_id t) t)
    ]
  ]

  -- Whatever its payload, and whichever statements fail, a clean-up job leaves the table of jobs as
  -- it is, or adds one pending job that runs a day later.
  pub handle_media_cleanup-AddsOneLater :
      (payload : String) (t : Tables S)
      → AddsOneLater t.jobs (handle_media_cleanup v payload t).1.jobs
  unfolding handle_media_cleanup
  handle_media_cleanup-AddsOneLater payload t = elim (Result-cases (v.unmarshal_payload payload)) [
    | inl q ↦ rw (q.1, handle_media_cleanup) (inl refl)
    | inr q ↦ rw (q.1, handle_media_cleanup) (clean_up_later q.0.0 q.0.1 t)
  ]
