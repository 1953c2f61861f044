-- ===== src/Queue/Recovery.antt =====
-- Jobs left in `processing` by a worker that died, and the whole of `processDueJobs`.
use openpostfork.Prelude.{
  ℕ, suc, ◌+◌, ◌-◌, ◌*◌, ◌≤◌, ◌<◌, String, ◌≡◌, refl, ◌⊎◌, inl, inr, Bool, true, false, none, some,
  List, [], ◌∷◌, arith, Bool-cases, Option-cases,
}
use openpostfork.Queue.{
  Job, pending, processing, World, Handlers, Tick, is_stale, unlock, requeue_stale_processing_jobs,
  process_due_jobs,
}
use openpostfork.Queue.Rows.{IsKeyed, total, IsKeyed-update}
use openpostfork.Queue.Drain.{tries_left, InsertsLater, drain-total}

-- A job that some worker locked no less than fifteen minutes before `now`.
abbrev pub IsAbandoned : ℕ → Job → Type 0
IsAbandoned now j =
    (at : ℕ) × (j.status ≡ processing)
    × (j.locked_at ≡ some at)
    × (at + 15 * 60 * 1_000_000_000 ≤ now)

stale→abandoned : (now : ℕ) (j : Job) → is_stale now j ≡ true → IsAbandoned now j
unfolding is_stale
stale→abandoned now j h = elim (Option-cases j.locked_at) [
  | inl e ↦ ground arith
  | inr q ↦ (q.0, ground arith, q.1, ground arith)
]

abandoned→stale : (now : ℕ) (j : Job) → IsAbandoned now j → is_stale now j ≡ true
unfolding is_stale
abandoned→stale now j (at, s, l, lt) = ground arith

-- The job waits again and nobody has it; what it is, what it has tried and when it runs stay.
abbrev pub IsGivenBack : Job → Job → Type 0
IsGivenBack x y =
    (y.status ≡ pending)
    × (y.locked_at ≡ none)
    × (y.locked_by ≡ "")
    × (y.id ≡ x.id)
    × (y.kind ≡ x.kind)
    × (y.payload ≡ x.payload)
    × (y.run_at ≡ x.run_at)
    × (y.attempts ≡ x.attempts)
    × (y.max_attempts ≡ x.max_attempts)
    × (y.last_error ≡ x.last_error)

-- The rows of the table change exactly as they should.
abbrev pub Requeued : ℕ → List Job → List Job → Type 0
Requeued now [] [] = Unit {0}
Requeued now [] (y ∷ ys) = ⊥
Requeued now (x ∷ xs) [] = ⊥
Requeued now (x ∷ xs) (y ∷ ys) =
    ((IsAbandoned now x × IsGivenBack x y) ⊎ ((¬ IsAbandoned now x) × (y ≡ x))) × Requeued now xs ys

unlock-IsGivenBack : (x : Job) → IsGivenBack x (unlock x)
unlock-IsGivenBack x = (refl, refl, refl, refl, refl, refl, refl, refl, refl, refl)

-- Where its statement does not fail, the requeueing makes pending again, without a worker and a
-- lock, exactly the jobs that some worker locked at least fifteen minutes before, each with its
-- payload, its attempts and its run time; and it changes no other row.
pub requeue_lem :
    (now : ℕ) (jobs : List Job) → Requeued now jobs (requeue_stale_processing_jobs now false jobs)
unfolding requeue_stale_processing_jobs
requeue_lem now [] = tt
requeue_lem now (x ∷ xs) = (
  elim (Bool-cases (is_stale now x)) [
    | inl e ↦ inl (stale→abandoned now x e, rw e (unlock-IsGivenBack x))
    | inr e ↦ inr ((λ a. cc (abandoned→stale now x a)), rw e refl)
  ],
  requeue_lem now xs,
)

requeue-IsKeyed :
    (now : ℕ) (fails : Bool) (jobs : List Job)
    → IsKeyed jobs
    → IsKeyed (requeue_stale_processing_jobs now fails jobs)
unfolding requeue_stale_processing_jobs
requeue-IsKeyed now true jobs k = k
requeue-IsKeyed now false jobs k = IsKeyed-update unlock (λ r. refl) (is_stale now) jobs k

-- The tries that the tables hold, with those of the jobs that may be requeued.
abbrev pub tries : Job → ℕ
tries j = suc (j.max_attempts - j.attempts)

requeue-tries :
    (until now : ℕ) (fails : Bool) (jobs : List Job)
    → total (tries_left until) (requeue_stale_processing_jobs now fails jobs) ≤ total tries jobs
unfolding requeue_stale_processing_jobs
requeue-tries until now true [] = omega arith
requeue-tries until now false [] = omega arith
requeue-tries until now true (x ∷ xs) = ground (arith, requeue-tries until now true xs)
requeue-tries until now false (x ∷ xs) = ground (arith, requeue-tries until now false xs)

-- `processDueJobs` returns: fuel above the number of tries that the table holds is enough,
-- whichever statements fail and whatever the handlers answer, and the ids of the jobs stay distinct.
-- (The ids are distinct before, the loop's clock stays below some time, and the handlers leave the
-- jobs table as it is but for the deletion of jobs that are not being processed, and the insertion,
-- with ids of their own, of jobs that run after that time.)
pub process_due_jobs-total :
    {S : Type 0} (h : Handlers S) (until fuel : ℕ) (worker : String) (now : ℕ) (fails : Bool)
    (ticks : ℕ → Tick) (w : World S)
    → InsertsLater until h
    → ((n : ℕ) → (ticks n).claim_at ≤ until)
    → IsKeyed w.jobs
    → total tries w.jobs < fuel
    → (w' : World S) × (process_due_jobs h fuel worker now fails ticks w ≡ some w')
      × IsKeyed w'.jobs
unfolding process_due_jobs
process_due_jobs-total h until fuel worker now fails ticks w later before k lt =
    drain-total h until fuel worker ticks 0
      (record w { jobs = requeue_stale_processing_jobs now fails w.jobs }) later before
      (requeue-IsKeyed now fails w.jobs k) (omega (arith, requeue-tries until now fails w.jobs))
