-- ===== src/Queue/Retry.antt =====
-- What becomes of a claimed job, and the waiting time before it is tried again.
use openpostfork.Prelude.{
  ℕ, ◌+◌, ◌-◌, ◌*◌, ◌^◌, ◌≤◌, ◌<◌, String, ◌≡◌, refl, subst, ◌≢◌, inl, inr, false, Option, none,
  some, List, arith, eq_refl, ltb, if◌then◌else◌, Bool-cases, ==_of_ne,
}
use native.Mathlib.Nat.{pow-le-pow_right, mod-eq_of_lt}
use openpostfork.Prelude.Clock.{minute}
use openpostfork.Prelude.Table.{update_where, In, In-update}
use openpostfork.Queue.{
  Job, pending, failed, World, Handlers, Tick, backoff, add_duration, retry, by_id, settle,
  handle_locked_job, execute_job, save_retry, complete,
}

two_pow_le : (k : ℕ) → k ≤ 27 → 2 ^ k ≤ 2 ^ 27
two_pow_le k h = pow-le-pow_right (omega arith) h

-- The wait before the next try is a positive int64: the shift and the product do not overflow.
backoff_small : (n : ℕ) → n ≤ 27 → 2 ^ n * minute < 2 ^ 63
backoff_small n h = omega (arith, two_pow_le n h)

pub backoff_exact : (n : ℕ) → n ≤ 27 → backoff (n + 1) ≡ 2 ^ n * minute
unfolding backoff
backoff_exact n h =
    let e : n + 1 - 1 ≡ n = omega arith in rw e (mod-eq_of_lt (omega (arith, backoff_small n h)))

-- The retry time, for an attempt count that the waits of an int64 can hold.
pub add_duration-backoff :
    (now n : ℕ) → n ≤ 27 → add_duration now (backoff (n + 1)) ≡ now + 2 ^ n * minute
unfolding add_duration
add_duration-backoff now n h = rw (backoff_exact n h) (ground (arith, backoff_small n h))

-- The row after a failed try: it waits 2^attempts minutes while attempts are left, and fails for
-- good at the last one.
abbrev pub retried : ℕ → String → Job → Job
retried now message j =
    if ltb (j.attempts + 1) j.max_attempts
    then record j {
      status = pending;
      attempts = j.attempts + 1;
      run_at = now + 2 ^ j.attempts * minute;
      last_error = message;
    }
    else record j { status = failed; attempts = j.attempts + 1; last_error = message }

retry-retried :
    (now : ℕ) (message : String) (j : Job)
    → j.attempts ≤ 27
    → retry now message j ≡ retried now message j
unfolding retry
retry-retried now message j h = ground (arith, add_duration-backoff now j.attempts h)

abbrev pub settled : ℕ → Option String → Job → Job
settled now none j = complete j
settled now (some message) j = retried now message j

settle_lem :
    {S : Type 0} (h : Handlers S) (t : Tick) (problem : Option String) (j : Job) (jobs : List Job)
    → j.attempts ≤ 27
    → t.save_fails ≡ false
    → In j jobs
    → In (settled t.failed_at problem j) (settle h t j problem jobs)
unfolding settle
settle_lem h t none j jobs few saves i = rw saves (
    subst (λ r. In r (update_where (by_id j.id) complete jobs)) (rw (eq_refl j.id) refl)
      (In-update (by_id j.id) complete j jobs i))
settle_lem h t (some message) j jobs few saves i = rw saves (
    subst (λ r. In r (update_where (by_id j.id) (save_retry (retry t.failed_at message j)) jobs))
      (rw (eq_refl j.id) (rw (retry-retried t.failed_at message j few) (ground arith)))
      (In-update (by_id j.id) (save_retry (retry t.failed_at message j)) j jobs i))

settle_other :
    {S : Type 0} (h : Handlers S) (t : Tick) (problem : Option String) (j r : Job) (jobs : List Job)
    → r.id ≢ j.id
    → In r jobs
    → In r (settle h t j problem jobs)
unfolding settle
settle_other h t none j r jobs ne i = elim (Bool-cases t.save_fails) [
  | inl e ↦ rw e i
  | inr e ↦ rw e (
      subst (λ q. In q (update_where (by_id j.id) complete jobs)) (rw (==_of_ne r.id j.id ne) refl)
        (In-update (by_id j.id) complete r jobs i))
]
settle_other h t (some message) j r jobs ne i = elim (Bool-cases t.save_fails) [
  | inl e ↦ rw e i
  | inr e ↦ rw e (
      subst (λ q. In q (update_where (by_id j.id) (save_retry (retry t.failed_at message j)) jobs))
        (rw (==_of_ne r.id j.id ne) refl)
        (In-update (by_id j.id) (save_retry (retry t.failed_at message j)) r jobs i))
]

-- A handled job, of at most 27 attempts so far, stands in the table with its outcome where the
-- handler kept its row and the update succeeds: completed without an error, else pending again
-- after 2^attempts minutes, or failed for good at the last attempt. The rows of other ids stay.
pub handle_locked_job_lem :
    {S : Type 0} (h : Handlers S) (t : Tick) (j : Job) (w : World S)
    → j.attempts ≤ 27
    → t.save_fails ≡ false
    → In j (execute_job h j w).1.jobs
    → In (settled t.failed_at (execute_job h j w).0 j) (handle_locked_job h t j w).jobs
      × ((r : Job)
          → r.id ≢ j.id
          → In r (execute_job h j w).1.jobs
          → In r (handle_locked_job h t j w).jobs)
unfolding handle_locked_job
handle_locked_job_lem h t j w few saves i = (
  settle_lem h t (execute_job h j w).0 j (execute_job h j w).1.jobs few saves i,
  λ r ne k. settle_other h t (execute_job h j w).0 j r (execute_job h j w).1.jobs ne k,
)
