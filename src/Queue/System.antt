-- ===== src/Queue/System.antt =====
-- The processes that share the queue: the one worker, which may end within a pass and is started again,
-- the scheduler and the requests that add jobs. Any order of their steps is a run of the system; the
-- steps of the worker are whole passes, and what is left of one in which the process ends.
use mail_sync_portal.Base.{
  ℕ, ◌<◌, ◌≡◌, ◌≢◌, refl, Bool, String, true, false, Option, some, arith, All, All-append,
}
use mail_sync_portal.Db.{update, Db, Job, queued, insert}
use mail_sync_portal.Queue.Worker.Rows.{Rows-change}
use mail_sync_portal.Queue.Query.{modify_job, is_running, is_retrying}
use mail_sync_portal.Queue.Worker.{
  Round, Handlers, killed, iteration, reap_orphans, claim_next_job, finish_job, ended,
}
use mail_sync_portal.Queue.Worker.Lifecycle.{
  AllAppend, killed-AwaitsRetry, AtRest, AwaitsRetry, iteration-AtRest, iteration-AwaitsRetry,
  reap-AtRest, reap-AwaitsRetry, claim-ne,
}
use mail_sync_portal.Queue.Handlers.{Outside}
use mail_sync_portal.Queue.Handlers.Updates.{Machines}
use mail_sync_portal.Queue.Handlers.Laws.{portal_handlers, portal_handlers-AllAppend}
use mail_sync_portal.Queue.Scheduler.{run_once}
use mail_sync_portal.Queue.Scheduler.Pending.{run_once-All}

-- A request, such as "Synchronizuj teraz" of the panel, that adds a queued job.
unfoldable pub request : (ℕ → Job) → Db → Db
request make db = record db { job_queue = insert make db.job_queue }

-- A step, with whether the process of the worker is up before it and after it.
pub data Step : Bool → Db → Bool → Db → Type 0 where
  pass :
      (out : Outside) (ms : Machines) (failure : String) (r : Round) (db : Db)
      → Step true db true
          (iteration (portal_handlers out ms failure r.claimed_at r.finished_at) r db)
  -- The process ends within a pass; `h` is what the handlers have done until then.
  die : (h : Handlers) → AllAppend h → (r : Round) (db : Db) → Step true db false (killed h r db)
  -- The process starts, after its end or at any other time between two passes.
  restart :
      (up : Bool) (now : ℕ) (read : String → Option String) (db : Db)
      → Step up db true (reap_orphans now read db)
  schedule : (up : Bool) (now : ℕ) (db : Db) → Step up db up (run_once now db).0
  ask :
      (up : Bool) (make : ℕ → Job) (db : Db)
      → ((id : ℕ) → (make id).id ≡ id)
      → ((id : ℕ) → (make id).status ≡ queued)
      → Step up db up (request make db)

pub data Reach (was : Bool) (a : Db) : Bool → Db → Type 0 where
  here : Reach was a was a
  next : {up up' : Bool} {b c : Db} → Reach was a up b → Step up b up' c → Reach was a up' c

queued-Idle : (j : Job) → j.status ≡ queued → is_running j.status ≡ false
queued-Idle j e = rw e

-- No job is running while the worker is between two passes.
abbrev pub RestsWhenUp : Bool → Db → Type 0
RestsWhenUp true db = AtRest db
RestsWhenUp false db = Unit

request-AtRest :
    (make : ℕ → Job) (db : Db)
    → ((id : ℕ) → (make id).status ≡ queued)
    → AtRest db
    → AtRest (request make db)
unfolding request insert
request-AtRest make db status rest = record {
  idle =
      All-append _ db.job_queue.rows _ rest.idle
        (queued-Idle (make db.job_queue.next_id) (status _), tt);
}

schedule-AtRest : (now : ℕ) (db : Db) → AtRest db → AtRest (run_once now db).0
schedule-AtRest now db rest = record {
  idle = (run_once-All _ now db (λ m id le. refl) rest.idle).0;
}

Step-AtRest : {up up' : Bool} {a b : Db} → Step up a up' b → RestsWhenUp up a → RestsWhenUp up' b
Step-AtRest (pass out ms failure r db) rest =
    iteration-AtRest _ (portal_handlers-AllAppend out ms failure r.claimed_at r.finished_at) r db
      rest
Step-AtRest (die h laws r db) rest = tt
Step-AtRest (restart up now read db) rest = reap-AtRest now read db
Step-AtRest (schedule true now db) rest = schedule-AtRest now db rest
Step-AtRest (schedule false now db) rest = tt
Step-AtRest (ask true make db ids status) rest = request-AtRest make db status rest
Step-AtRest (ask false make db ids status) rest = tt

-- In every run from a state with no running job, in which the worker may end within a pass at any time
-- and is started again later, no job is running whenever its process is up and between two passes.
pub Reach-AtRest :
    {was : Bool} {a : Db} {up : Bool} {b : Db}
    → RestsWhenUp was a
    → Reach was a up b
    → RestsWhenUp up b
Reach-AtRest rest here = rest
Reach-AtRest rest (next r s) = Step-AtRest s (Reach-AtRest rest r)

request-AwaitsRetry :
    (k : ℕ) (make : ℕ → Job) (db : Db)
    → ((id : ℕ) → (make id).id ≡ id)
    → AwaitsRetry k db
    → AwaitsRetry k (request make db)
unfolding request insert
request-AwaitsRetry k make db ids w = record {
  waiting =
      All-append (λ j. j.id ≡ k → is_retrying j.status ≡ true) db.job_queue.rows _ w.waiting
        ((λ e. absurd (omega (arith, w.past, ids db.job_queue.next_id))), tt);
  past = omega (arith, w.past);
}

schedule-AwaitsRetry : (k now : ℕ) (db : Db) → AwaitsRetry k db → AwaitsRetry k (run_once now db).0
schedule-AwaitsRetry k now db w =
    let r =
      run_once-All (λ j. j.id ≡ k → is_retrying j.status ≡ true) now db
        (λ m id le e. absurd (omega (arith, w.past))) w.waiting in
    record { waiting = r.0; past = omega (arith, r.1, w.past) }

Step-AwaitsRetry :
    (k : ℕ) {up up' : Bool} {a b : Db} → Step up a up' b → AwaitsRetry k a → AwaitsRetry k b
Step-AwaitsRetry k (pass out ms failure r db) w =
    iteration-AwaitsRetry _ (portal_handlers-AllAppend out ms failure r.claimed_at r.finished_at) k
      r db w
Step-AwaitsRetry k (die h laws r db) w = killed-AwaitsRetry h laws k r db w
Step-AwaitsRetry k (restart up now read db) w = reap-AwaitsRetry k now read db w
Step-AwaitsRetry k (schedule up now db) w = schedule-AwaitsRetry k now db w
Step-AwaitsRetry k (ask up make db ids status) w = request-AwaitsRetry k make db ids w

-- Whatever the processes do, a job that awaits a retry awaits it for ever, and no pass of the
-- worker's loop takes it.
pub Reach-AwaitsRetry :
    (k : ℕ) {was : Bool} {a : Db} {up : Bool} {b : Db}
    → AwaitsRetry k a
    → Reach was a up b
    → AwaitsRetry k b
Reach-AwaitsRetry k w here = w
Reach-AwaitsRetry k w (next r s) = Step-AwaitsRetry k s (Reach-AwaitsRetry k w r)

pub retry_never_taken :
    (k : ℕ) {was : Bool} {a : Db} {up : Bool} {b : Db} (now : ℕ) (worker : String)
    (locked : ℕ → Bool) (j : Job)
    → AwaitsRetry k a
    → Reach was a up b
    → (claim_next_job now worker locked b).1 ≡ some j
    → j.id ≢ k
retry_never_taken k {b = b} now worker locked j w r e =
    claim-ne k now worker locked b j (Reach-AwaitsRetry k w r) e

ended-retrying :
    (now : ℕ) (j : Job)
    → j.attempts < j.max_attempts
    → is_retrying (ended now false j).status ≡ true
unfolding ended
ended-retrying now j h = ground arith

-- A failure with attempts left leaves the job waiting.
finish-awaits :
    (now k : ℕ) (db : Db)
    → All (λ j. j.id ≡ k → j.attempts < j.max_attempts) db.job_queue.rows
    → k < db.job_queue.next_id
    → AwaitsRetry k (finish_job now k false db)
unfolding finish_job
finish-awaits now k db left past = record {
  waiting =
      Rows-change (λ j. j.id ≡ k → j.attempts < j.max_attempts)
        (λ j. j.id ≡ k → is_retrying j.status ≡ true) k (ended now false) db
        (λ j e p q. ended-retrying now j (p e)) (λ j ne p q. absurd (ne q)) left;
  past = unfold modify_job update in past;
}

-- A job whose handler failed while it had attempts left is never claimed again, in any run of the
-- processes, where the sequence of ids is past it: `_finish_job` makes it "retrying", and
-- `_claim_next_job` takes only "queued" jobs.
pub failed-never_retried :
    (k ended_at : ℕ) (db : Db) {up : Bool} {b : Db} (now : ℕ) (worker : String) (locked : ℕ → Bool)
    (j : Job)
    → All (λ i. i.id ≡ k → i.attempts < i.max_attempts) db.job_queue.rows
    → k < db.job_queue.next_id
    → Reach true (finish_job ended_at k false db) up b
    → (claim_next_job now worker locked b).1 ≡ some j
    → j.id ≢ k
failed-never_retried k ended_at db {b = b} now worker locked j left past r e =
    retry_never_taken k now worker locked j (finish-awaits ended_at k db left past) r e
