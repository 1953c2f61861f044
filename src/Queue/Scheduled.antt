-- ===== src/Queue/Scheduled.antt =====
-- The scheduling of the media clean-up of a workspace from outside the worker.
use openpostfork.Prelude.{
  String, ◌<>◌, ◌≡◌, refl, inl, inr, true, false, none, some, List, Option-cases, Result, ok, err,
}
use openpostfork.Prelude.Int.{ℤ, pos, leb_ℤ}
use openpostfork.Prelude.Table.{find_where, find_where-delete_where}
use openpostfork.Queue.{Job}
use openpostfork.Queue.Cleanup.{
  Tables, CleanupServices, find_job, insert_job, delete_jobs, cleanup_job, inserted, is_cleanup_of,
  schedule_payload, schedule_media_cleanup, cancel_media_cleanup,
}

module _ {S : Type 0} (v : CleanupServices S) where
  -- The payload of a workspace is like the pattern made of its id.
  abbrev pub PayloadsMatch : String → Type 0
  PayloadsMatch ws =
      (days : ℤ) (payload : String)
      → v.marshal_payload ws days ≡ ok payload
      → v.like payload ("%" <> ws <> "%") ≡ true

  -- The table has a clean-up job of the workspace.
  abbrev pub HasJob : String → List Job → Type 0
  HasJob ws jobs = (j : Job) × (find_where (is_cleanup_of v ws) jobs ≡ some j)

  found_keeps :
      (ws : String) (marshalled : Result String String) (t : Tables S)
      → v.fails find_job ≡ none
      → HasJob ws t.jobs
      → (schedule_payload v ws marshalled t).1 ≡ t
  found_keeps ws (err message) t quiet h = refl
  found_keeps ws (ok payload) t quiet h = rw (quiet, h.1) refl

  inserted_has :
      (ws payload : String) (t : Tables S)
      → v.like payload ("%" <> ws <> "%") ≡ true
      → (inserted v (v.fails insert_job) payload t).0 ≡ none
      → HasJob ws (inserted v (v.fails insert_job) payload t).1.jobs
  inserted_has ws payload t match done = elim (Option-cases (v.fails insert_job)) [
    | inr q ↦ cc (rw q.1 at done)
    | inl e ↦ rw e (cleanup_job v payload t.jobs, rw match refl)
  ]

  payload_has :
      (ws : String) (marshalled : Result String String) (t : Tables S)
      → v.fails find_job ≡ none
      → ((payload : String) → marshalled ≡ ok payload → v.like payload ("%" <> ws <> "%") ≡ true)
      → (schedule_payload v ws marshalled t).0 ≡ none
      → HasJob ws (schedule_payload v ws marshalled t).1.jobs
  payload_has ws (err message) t quiet match done = cc
  payload_has ws (ok payload) t quiet match done =
      elim (Option-cases (find_where (is_cleanup_of v ws) t.jobs)) [
        | inr q ↦ rw (quiet, q.1) (q.0, q.1)
        | inl e ↦
            rw (quiet, e) (inserted_has ws payload t (match payload refl) (rw (quiet, e) at done))
      ]

  -- Scheduling the clean-up of a workspace for a positive number of days, where it ends without an
  -- error, leaves a job of the workspace in the table, and a second call changes nothing. (The
  -- search for a job does not fail, and the payloads of the workspace match its pattern.)
  pub schedule-schedule :
      (ws : String) (days other : ℤ) (t : Tables S)
      → v.fails find_job ≡ none
      → PayloadsMatch ws
      → leb_ℤ days (pos 0) ≡ false
      → leb_ℤ other (pos 0) ≡ false
      → (schedule_media_cleanup v ws days t).0 ≡ none
      → let after = (schedule_media_cleanup v ws days t).1 in
        HasJob ws after.jobs × ((schedule_media_cleanup v ws other after).1 ≡ after)
  unfolding schedule_media_cleanup
  schedule-schedule ws days other t quiet match positive positive' done =
      let h =
        payload_has ws (v.marshal_payload ws days) t quiet (match days) (rw positive at done) in
      rw (positive, positive')
        (
          h,
          found_keeps ws (v.marshal_payload ws other)
              (schedule_payload v ws (v.marshal_payload ws days) t).1 quiet h,
        )

  -- Scheduling it for no days, where the deletion does not fail, leaves no job of the workspace.
  pub schedule-cancel :
      (ws : String) (days : ℤ) (t : Tables S)
      → v.fails delete_jobs ≡ none
      → leb_ℤ days (pos 0) ≡ true
      → find_where (is_cleanup_of v ws) (schedule_media_cleanup v ws days t).1.jobs ≡ none
  unfolding schedule_media_cleanup cancel_media_cleanup
  schedule-cancel ws days t quiet off =
      rw (off, quiet, cancel_media_cleanup) (find_where-delete_where (is_cleanup_of v ws) t.jobs)
