-- ===== src/Queue/Tests.antt =====
-- The theorems of the queue at a concrete table of jobs.
use openpostfork.Prelude.{
  sym, ap, ◌∙◌, subst, arith, ◌*◌, ◌≡◌, refl, ◌≢◌, ◌⊎◌, inl, true, false, none, some, List, [], ◌∷◌,
  ok,
}
use openpostfork.Prelude.Table.{delete_where, update_where, In}
use openpostfork.Prelude.Clock.{minute}
use openpostfork.Queue.{
  Job, pending, processing, World, Handlers, Tick, claim, lock, by_id, next_due, is_due,
  execute_job, handle_locked_job, process_due_jobs, requeue_stale_processing_jobs,
  handle_refresh_token_job, refresh_parsed,
}
use openpostfork.Queue.Rows.{IsKeyed}
use openpostfork.Queue.Claim.{NoneDue, IsEarliest, claim_lem, claim-claim_ne}
use openpostfork.Queue.Retry.{settled, handle_locked_job_lem}
use openpostfork.Queue.Drain.{InsertsLater}
use openpostfork.Queue.Recovery.{Requeued, requeue_lem, process_due_jobs-total}

-- The platform is down, and everything else works.
abbrev handlers : Handlers (Unit {0})
handlers = record {
  publish = λ payload w. (some "down", w);
  tokens = true;
  parse_refresh_payload = λ payload. ok payload;
  force_refresh = λ account w. (none, w);
  media_cleanup = λ payload w. (none, w);
}

abbrev first_job : Job
first_job = record {
  id = "j1";
  kind = "publish_post";
  payload = "p1";
  status = pending;
  run_at = 10;
  attempts = 1;
  max_attempts = 3;
  last_error = "";
  locked_at = none;
  locked_by = "";
}

abbrev second_job : Job
second_job = record first_job { id = "j2"; run_at = 5 }

abbrev dead_job : Job
dead_job = record first_job {
  id = "j3";
  status = processing;
  locked_at = some 0;
  locked_by = "gone";
}

abbrev table : List Job
table = first_job ∷ second_job ∷ dead_job ∷ []

abbrev world : World (Unit {0})
world = record { jobs = table; store = tt }

abbrev tick : Tick
tick = record { claim_at = 20; failed_at = 21; claim_fails = false; save_fails = false }

delete_none : (js : List Job) → delete_where (λ r. false) js ≡ js
delete_none [] = refl
delete_none (j ∷ js) = ap (λ rest. j ∷ rest) (delete_none js)

keeps_jobs : (j : Job) (w : World (Unit {0})) → (execute_job handlers j w).1.jobs ≡ w.jobs
unfolding execute_job handle_refresh_token_job refresh_parsed
keeps_jobs j w = ground arith

handlers-InsertsLater : InsertsLater 20 handlers
handlers-InsertsLater j w k = (
  [],
  (λ r. false),
  keeps_jobs j w ∙ sym (delete_none w.jobs),
  (λ r e. refl),
  tt,
  subst IsKeyed (sym (delete_none w.jobs)) k,
)

process_due_jobs-total_example :
    (w' : World (Unit {0})) × (process_due_jobs handlers 10 "w" 20 false (λ _. tick) world
      ≡ some w')
    × IsKeyed w'.jobs
process_due_jobs-total_example =
    process_due_jobs-total handlers 20 10 "w" 20 false (λ _. tick) world handlers-InsertsLater
      (λ n. omega arith) ((refl, (refl, tt)), ((refl, tt), (tt, tt))) (omega arith)

abbrev locked_job : Job
locked_job = record first_job { status = processing; locked_at = some 20; locked_by = "w" }

abbrev locked_world : World (Unit {0})
locked_world = record { jobs = locked_job ∷ second_job ∷ []; store = tt }

handle_locked_job_lem_example :
    In
      (settled 21 (execute_job handlers locked_job locked_world).0 locked_job)
      (handle_locked_job handlers tick locked_job locked_world).jobs
    × ((r : Job)
        → r.id ≢ "j1"
        → In r (execute_job handlers locked_job locked_world).1.jobs
        → In r (handle_locked_job handlers tick locked_job locked_world).jobs)
unfolding execute_job
handle_locked_job_lem_example =
    handle_locked_job_lem handlers tick locked_job locked_world (omega arith) refl (inl refl)

claim_lem_example :
    ((claim "w" 20 table ≡ none) × NoneDue 20 table)
    ⊎ ((j : Job) × (claim "w" 20 table
          ≡ some (lock "w" 20 j, update_where (by_id j.id) (lock "w" 20) table))
        × IsEarliest 20 j table)
claim_lem_example = claim_lem "w" 20 table

abbrev after_second : List Job
after_second = first_job ∷ lock "w" 20 second_job ∷ dead_job ∷ []

claim-claim_ne_example : second_job.id ≢ first_job.id
unfolding claim next_due is_due lock
claim-claim_ne_example =
    claim-claim_ne "w" "v" 20 30 table {a = lock "w" 20 second_job} {b = lock "v" 30 first_job}
      {after = after_second} {last = lock "v" 30 first_job ∷ lock "w" 20 second_job ∷ dead_job ∷ []}
      refl refl

requeue_lem_example :
    Requeued (20 * minute) table (requeue_stale_processing_jobs (20 * minute) false table)
requeue_lem_example = requeue_lem (20 * minute) table
