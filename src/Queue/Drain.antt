-- ===== src/Queue/Drain.antt =====
-- The loop of `processDueJobs`.
use openpostfork.Prelude.{
  ℕ, zero, suc, ◌+◌, ◌-◌, ◌≤◌, ◌<◌, String, ◌≡◌, refl, subst, inl, inr, Bool, true, Option, none,
  some, List, [], ◌∷◌, ◌++◌, false, leb, if◌then◌else◌, All, arith, eq_refl, Bool-cases,
}
use openpostfork.Prelude.Table.{update_where, delete_where, In, In-update}
use openpostfork.Queue.{
  Job, pending, processing, World, Handlers, Tick, lock, retry, by_id, settle, save_retry, complete,
  handle_locked_job, execute_job, process_next_job_if_available, drain,
}
use openpostfork.Queue.Rows.{
  IsKeyed, total, total-update, IsKeyed-update, total-append, total-delete, In-append, In-delete,
}
use openpostfork.Queue.Claim.{claim_lem, is_due_iff}

-- How often a job can still be claimed up to a time.
abbrev pub tries_left : ℕ → Job → ℕ
tries_left until j = elim j.status [
  | pending ↦ if leb j.run_at until then suc (j.max_attempts - j.attempts) else 0
  | _ ↦ 0
]

-- What the handlers do to the jobs table: they may delete jobs that are not being processed, and
-- insert jobs with ids of their own that run later than the time.
abbrev pub InsertsLater : {S : Type 0} → ℕ → Handlers S → Type 0
InsertsLater {S} until h =
    (j : Job) (w : World S)
    → IsKeyed w.jobs
    → (added : List Job) × (gone : Job → Bool) × ((execute_job h j w).1.jobs
        ≡ added ++ delete_where gone w.jobs)
      × ((r : Job) → r.status ≡ processing → gone r ≡ false)
      × All (λ r. until < r.run_at) added
      × IsKeyed (added ++ delete_where gone w.jobs)

total_later :
    (until : ℕ) (js : List Job) → All (λ r. until < r.run_at) js → total (tries_left until) js ≡ 0
total_later until [] h = refl
total_later until (x ∷ xs) h = ground (arith, total_later until xs h.1)

module _ {S : Type 0} (h : Handlers S) (until : ℕ) where
  settle-tries_left :
      (t : Tick) (problem : Option String) (j : Job) (jobs : List Job)
      → IsKeyed jobs
      → In j jobs
      → j.status ≡ processing
      → total (tries_left until) (settle h t j problem jobs)
        ≤ total (tries_left until) jobs + (j.max_attempts - j.attempts)
  unfolding settle retry
  settle-tries_left t none j jobs k i e =
      ground (arith, total-update (tries_left until) complete j jobs k i)
  settle-tries_left t (some message) j jobs k i e =
      ground (
        arith,
        total-update (tries_left until) (save_retry (retry t.failed_at message j)) j jobs k i,
      )

  settle-IsKeyed :
      (t : Tick) (problem : Option String) (j : Job) (jobs : List Job)
      → IsKeyed jobs
      → IsKeyed (settle h t j problem jobs)
  unfolding settle
  settle-IsKeyed t none j jobs k = elim (Bool-cases t.save_fails) [
    | inl e ↦ rw e k
    | inr e ↦ rw e (IsKeyed-update complete (λ r. refl) (by_id j.id) jobs k)
  ]
  settle-IsKeyed t (some message) j jobs k = elim (Bool-cases t.save_fails) [
    | inl e ↦ rw e k
    | inr e ↦
        rw e (
          IsKeyed-update (save_retry (retry t.failed_at message j)) (λ r. refl) (by_id j.id) jobs k)
  ]

  -- A round either ends the loop, or uses up a try.
  abbrev Progress : World S → World S × Bool → Type 0
  Progress w (w', more) =
      IsKeyed w'.jobs
      × (more ≡ true → total (tries_left until) w'.jobs < total (tries_left until) w.jobs)

  -- The table that a handler leaves.
  executed :
      (j : Job) (w : World S)
      → InsertsLater until h
      → IsKeyed w.jobs
      → In j w.jobs
      → j.status ≡ processing
      → IsKeyed (execute_job h j w).1.jobs
        × In j (execute_job h j w).1.jobs
        × (total (tries_left until) (execute_job h j w).1.jobs ≤ total (tries_left until) w.jobs)
  executed j w later k i e =
      let (added, gone, same, kept, runs, keyed) = later j w k in
      rw same (
        keyed,
        In-append j added (delete_where gone w.jobs) (In-delete gone j w.jobs (kept j e) i),
        omega (
          arith,
          total-append (tries_left until) added (delete_where gone w.jobs),
          total_later until added runs,
          total-delete (tries_left until) gone w.jobs,
        ),
      )

  handled :
      (worker : String) (t : Tick) (w : World S) (j : Job)
      → InsertsLater until h
      → t.claim_at ≤ until
      → IsKeyed w.jobs
      → In j w.jobs
      → (j.status ≡ pending) × (j.run_at ≤ t.claim_at)
      → Progress w (
        handle_locked_job h t
            (lock worker t.claim_at j)
            (record w { jobs = update_where (by_id j.id) (lock worker t.claim_at) w.jobs }),
        true,
      )
  unfolding handle_locked_job lock
  handled worker t w j later before k i e =
      let f = lock worker t.claim_at in
      let w₁ : World S = record w { jobs = update_where (by_id j.id) f w.jobs } in
      let k₁ : IsKeyed w₁.jobs = IsKeyed-update f (λ r. refl) (by_id j.id) w.jobs k in
      let i₁ : In (f j) w₁.jobs =
        subst (λ r. In r w₁.jobs) (rw (eq_refl j.id) refl) (In-update (by_id j.id) f j w.jobs i) in
      let out = (execute_job h (f j) w₁).0 in
      let x = executed (f j) w₁ later k₁ i₁ refl in
      let js = (execute_job h (f j) w₁).1.jobs in
      (
        settle-IsKeyed t out (f j) js x.0,
        λ _. ground (
          arith,
          settle-tries_left t out (f j) js x.0 x.1 refl,
          x.2,
          total-update (tries_left until) f j w.jobs k i,
        ),
      )

  round :
      (worker : String) (t : Tick) (w : World S)
      → InsertsLater until h
      → t.claim_at ≤ until
      → IsKeyed w.jobs
      → Progress w (process_next_job_if_available h worker t w)
  unfolding process_next_job_if_available
  round worker t w later before k = elim (Bool-cases t.claim_fails) [
    | inl e ↦ rw e (k, λ q. cc)
    | inr e ↦ elim (claim_lem worker t.claim_at w.jobs) [
      | inl p ↦ rw (e, p.0, process_next_job_if_available) (k, λ q. cc)
      | inr q ↦
          rw (e, q.1, process_next_job_if_available)
            (handled worker t w q.0 later before k q.2.1 ((is_due_iff t.claim_at q.0).0 q.2.0))
    ]
  ]

  -- With more fuel than the tries that the table holds up to a time, the loop returns before that
  -- time, and the ids are still distinct.
  pub drain-total :
      (fuel : ℕ) (worker : String) (ticks : ℕ → Tick) (i : ℕ) (w : World S)
      → InsertsLater until h
      → ((n : ℕ) → (ticks n).claim_at ≤ until)
      → IsKeyed w.jobs
      → total (tries_left until) w.jobs < fuel
      → (w' : World S) × (drain h fuel worker ticks i w ≡ some w') × IsKeyed w'.jobs
  unfolding drain
  drain-total zero worker ticks i w later before k lt = elim lt [ ]
  drain-total (suc fuel) worker ticks i w later before k lt =
      let p = round worker (ticks i) w later (before i) k in
      elim (Bool-cases (process_next_job_if_available h worker (ticks i) w).1) [
        | inl e ↦ rw e (
            drain-total fuel worker ticks (suc i)
              (process_next_job_if_available h worker (ticks i) w).0 later before p.0
              (omega (arith, p.1 e)))
        | inr e ↦ ((process_next_job_if_available h worker (ticks i) w).0, rw e refl, p.0)
      ]
