-- ===== src/Queue.antt =====
-- backend/internal/queue/worker.go with the `Job` row of backend/internal/models/models.go: the
-- background worker that claims due jobs, runs them and retries those that fail.
-- The database is the list of its rows; a statement that the driver reports as failed is an input
-- of the step (`Tick`) and changes no row. The handlers of the three job types are an interface.
pub mod Rows
pub mod Claim
pub mod Retry
pub mod Drain
pub mod Recovery
pub mod Cleanup
pub mod Unused
pub mod Again
pub mod Scheduled
mod Tests
mod CleanupTests
use openpostfork.Prelude.{
  ℕ, zero, suc, ◌+◌, ◌-◌, ◌*◌, ◌/◌, ◌%◌, ◌^◌, ◌≤◌, ◌<◌, min, max, String, ◌<>◌, ◌≡◌, refl, sym, ap,
  ◌∙◌, subst, fun_ext, ◌≢◌, ◌↔◌, ◌⊎◌, inl, inr, Bool, true, false, not, ◌&&◌, ◌||◌, Option, none,
  some, List, [], ◌∷◌, ◌++◌, map, arith, ◌==◌, eq_iff, eq_refl, ltb, leb, eqb, if◌then◌else◌,
  leb→le, le→leb, leb→lt, Bool-cases, Option-cases, ==_of_ne, length, All, length-append, All-map,
  Result, ok, err, ◌>>=◌, or_fail,
}
use openpostfork.Prelude.Clock.{minute}
use openpostfork.Prelude.Table.{update_where}

-- The four statuses that the worker and the schedulers write, and any other text.
pub data JobStatus : Type 0 where
  pending processing completed failed : JobStatus
  other_status : String → JobStatus

pub record Job : Type 0 where
  pub id : String
  pub kind : String  -- the column `type`
  pub payload : String
  pub status : JobStatus
  pub run_at : ℕ
  pub attempts : ℕ
  pub max_attempts : ℕ
  pub last_error : String
  pub locked_at : Option ℕ  -- `NULL` is `none`
  pub locked_by : String

-- The tables: the jobs, and what the handlers of the jobs work on.
pub record World (S : Type 0) : Type 0 where
  pub jobs : List Job
  pub store : S

-- What a handler returns: the error, if there is one, and the tables that it leaves.
abbrev pub Outcome : Type 0 → Type 0
Outcome S = Option String × World S

-- The services that the worker calls. `tokens` says whether a token manager is configured.
pub record Handlers (S : Type 0) : Type 0 where
  pub publish : String → World S → Outcome S
  pub tokens : Bool
  pub parse_refresh_payload : String → Result String String
  pub force_refresh : String → World S → Outcome S
  pub media_cleanup : String → World S → Outcome S

-- One round of the loop: its clock readings, and which of its statements the driver fails.
pub record Tick : Type 0 where
  pub claim_at : ℕ
  pub failed_at : ℕ
  pub claim_fails : Bool
  pub save_fails : Bool

abbrev pub stale_processing_job_age : ℕ
stale_processing_job_age = 15 * minute

abbrev is_pending : JobStatus → Bool
is_pending pending = true
is_pending _ = false

abbrev is_processing : JobStatus → Bool
is_processing processing = true
is_processing _ = false

-- `status = 'pending' AND run_at <= CURRENT_TIMESTAMP`.
unfoldable pub is_due : ℕ → Job → Bool
is_due now j = is_pending j.status && leb j.run_at now

-- `ORDER BY run_at ASC LIMIT 1`; among equal times the first row in the engine's order.
abbrev earlier : Job → Option Job → Job
earlier j none = j
earlier j (some k) = if leb j.run_at k.run_at then j else k

unfoldable pub next_due : ℕ → List Job → Option Job
next_due now [] = none
next_due now (j ∷ js) =
    let rest = next_due now js in if is_due now j then some (earlier j rest) else rest

unfoldable pub lock : String → ℕ → Job → Job
lock worker now j = record j { status = processing; locked_at = some now; locked_by = worker }

abbrev pub by_id : String → Job → Bool
by_id key r = r.id == key

-- The `UPDATE … WHERE id = (SELECT …) RETURNING *`: the table after it, and the row.
unfoldable pub claim : String → ℕ → List Job → Option (Job × List Job)
claim worker now jobs = elim (next_due now jobs) [
  | none ↦ none
  | some j ↦ some (lock worker now j, update_where (by_id j.id) (lock worker now) jobs)
]

-- `time.Duration(1<<(attempts-1)) * time.Minute` as the bits of an int64.
unfoldable pub backoff : ℕ → ℕ
backoff attempts = (2 ^ (attempts - 1) * minute) % 2 ^ 64

-- `now.Add(d)` for the bits of an int64: from 2^63 on they stand for a negative number.
unfoldable pub add_duration : ℕ → ℕ → ℕ
add_duration now d = if ltb d (2 ^ 63) then now + d else now - (2 ^ 64 - d)

-- The job's fields after an error.
unfoldable pub retry : ℕ → String → Job → Job
retry now message j =
    let attempts = j.attempts + 1 in
    if leb j.max_attempts attempts
    then record j { attempts = attempts; status = failed; last_error = message }
    else record j {
      attempts = attempts;
      status = pending;
      run_at = add_duration now (backoff attempts);
      last_error = message;
    }

-- `UPDATE` of the columns status, attempts, last_error and run_at.
abbrev save_retry : Job → Job → Job
save_retry job r = record r {
  status = job.status;
  attempts = job.attempts;
  last_error = job.last_error;
  run_at = job.run_at;
}

abbrev complete : Job → Job
complete r = record r { status = completed }

module _ {S : Type 0} (h : Handlers S) where
  refresh_parsed : World S → Result String String → Outcome S
  refresh_parsed w (ok account_id) = h.force_refresh account_id w
  refresh_parsed w (err message) = (some message, w)

  handle_refresh_token_job : String → World S → Outcome S
  unfolding refresh_parsed
  handle_refresh_token_job payload w =
      if not h.tokens then (none, w) else refresh_parsed w (h.parse_refresh_payload payload)

  unfoldable pub execute_job : Job → World S → Outcome S
  unfolding handle_refresh_token_job
  execute_job j w =
      if j.kind == "publish_post"
      then h.publish j.payload w
      else if j.kind == "refresh_token"
      then handle_refresh_token_job j.payload w
      else if j.kind == "media_cleanup"
      then h.media_cleanup j.payload w
      else (none, w)

  -- The row that the run of a claimed job leaves.
  unfoldable pub settle : Tick → Job → Option String → List Job → List Job
  settle t j (some message) jobs =
      if t.save_fails
      then jobs
      else update_where (by_id j.id) (save_retry (retry t.failed_at message j)) jobs
  settle t j none jobs = if t.save_fails then jobs else update_where (by_id j.id) complete jobs

  unfoldable pub handle_locked_job : Tick → Job → World S → World S
  handle_locked_job t j w =
      let (problem, w') = execute_job j w in record w' { jobs = settle t j problem w'.jobs }

  unfoldable pub process_next_job_if_available : String → Tick → World S → World S × Bool
  process_next_job_if_available worker t w =
      if t.claim_fails then (w, false) else elim (claim worker t.claim_at w.jobs) [
        | none ↦ (w, false)
        | some (j, jobs) ↦ (handle_locked_job t j (record w { jobs = jobs }), true)
      ]

  -- `for { if !processNext { return } }` on fuel; `none` means that the fuel ran out.
  unfoldable pub drain : ℕ → String → (ℕ → Tick) → ℕ → World S → Option (World S)
  drain zero worker ticks i w = none
  drain (suc fuel) worker ticks i w =
      let (w', more) = process_next_job_if_available worker (ticks i) w in
      let rest = drain fuel worker ticks (suc i) w' in if more then rest else some w'

is_stale : ℕ → Job → Bool
is_stale now j =
    is_processing j.status
    && elim j.locked_at [ none ↦ false | some at ↦ leb (at + stale_processing_job_age) now ]

abbrev unlock : Job → Job
unlock j = record j { status = pending; locked_at = none; locked_by = "" }

-- `requeueStaleProcessingJobs`; the flag says that the driver fails the statement.
unfoldable pub requeue_stale_processing_jobs : ℕ → Bool → List Job → List Job
unfolding is_stale
requeue_stale_processing_jobs now fails jobs =
    if fails then jobs else update_where (is_stale now) unlock jobs

-- `processDueJobs`.
unfoldable pub process_due_jobs :
    {S : Type 0} → Handlers S → ℕ → String → ℕ → Bool → (ℕ → Tick) → World S → Option (World S)
process_due_jobs h fuel worker now fails ticks w =
    drain h fuel worker ticks 0 (record w { jobs = requeue_stale_processing_jobs now fails w.jobs })
