-- ===== src/Queue/Worker.antt =====
-- workers/worker_main.py: claiming, finishing and recovering jobs, and the worker's loop.
-- One reading of the clock serves for each transaction.
pub mod Order
pub mod Claim
pub mod Rows
pub mod Lifecycle
use Prim.Native.String.{◌++◌}
use mail_sync_portal.Base.{
  ℕ, ◌+◌, ◌*◌, ◌^◌, min, String, Bool, true, false, not, Option, none, some, List, [], ◌∷◌, ◌&&◌,
  ◌||◌, ltb, leb, ◌==◌, str_eq, select, take, if◌then◌else◌, is_none,
}
use mail_sync_portal.Db.{
  update, Db, Job, queued, running, done, failed, retrying, Payload, JobRun, RunStatus, UpdateRun,
}
use mail_sync_portal.Queue.Query.{is_queued, is_running, modify_job}
use mail_sync_portal.Queue.Throttle.{get_global_policy, can_start_sync_now, is_active_run}

-- ORDER BY priority, id
abbrev pub before : Job → Job → Bool
before a b = ltb a.priority b.priority || (a.priority == b.priority && leb a.id b.id)

unfoldable pub place : Job → List Job → List Job
place j [] = j ∷ []
place j (k ∷ ks) = if before j k then j ∷ k ∷ ks else k ∷ place j ks

unfoldable pub order_by : List Job → List Job
unfolding place
order_by [] = []
order_by (j ∷ js) = place j (order_by js)

-- The rows that the query may return; `locked` tells the rows that another transaction holds.
abbrev pub is_candidate : ℕ → (ℕ → Bool) → Job → Bool
is_candidate now locked j = is_queued j.status && (leb j.run_after now && not (locked j.id))

unfoldable pub candidates : ℕ → (ℕ → Bool) → Db → List Job
candidates now locked db = take 5 (order_by (select (is_candidate now locked) db.job_queue.rows))

-- the writes to a job that is claimed, and to one that is put off
abbrev pub start_job : ℕ → String → Job → Job
start_job now worker j = record j {
  status = running;
  locked_by = some worker;
  locked_at = some now;
  attempts = j.attempts + 1;
}

abbrev pub put_off : ℕ → Job → Job
put_off now j = record j { run_after = now + 30 }

-- The body of the loop over the candidates: whether the throttle allows the job, with the policy
-- created where there is none.
unfoldable pub admit : ℕ → Job → Db → Db × Bool
admit now j db =
    if str_eq j.job_type "sync"
    then (let (db', policy) = get_global_policy db in
        (db', is_none (can_start_sync_now db' policy now)))
    else (db, true)

unfoldable pub claim_from : ℕ → String → List Job → Db → Db × Option Job
claim_from now worker [] db = (db, none)
claim_from now worker (j ∷ js) db =
    let (db', allowed) = admit now j db in
    let rest = claim_from now worker js (modify_job j.id (put_off now) db') in
    if allowed
    then (modify_job j.id (start_job now worker) db', some (start_job now worker j))
    else rest

unfoldable pub claim_next_job : ℕ → String → (ℕ → Bool) → Db → Db × Option Job
claim_next_job now worker locked db = claim_from now worker (candidates now locked db) db

abbrev pub backoff : ℕ → ℕ
backoff attempts = min (60 * 2 ^ attempts) 3600

-- the new attributes of a job that ended
unfoldable pub ended : ℕ → Bool → Job → Job
ended now success j =
    if success
    then record j { status = done }
    else if leb j.max_attempts j.attempts
    then record j { status = failed }
    else record j { status = retrying; run_after = now + backoff j.attempts }

unfoldable pub finish_job : ℕ → ℕ → Bool → Db → Db
finish_job now k success db = modify_job k (ended now success) db

-- The recovery of orphans at the start.
abbrev pub interrupted : String
interrupted = "Przerwane — worker zrestartowany (np. reboot VM)."

abbrev pub fail_run : ℕ → JobRun → JobRun
fail_run now r = record r {
  status = RunStatus.failed;
  finished_at = some now;
  error_summary = some interrupted;
}

unfoldable pub requeue : ℕ → Job → Job
requeue now j =
    if str_eq j.job_type "system_update"
    then record j { status = failed }
    else record j { status = queued; locked_by = none; locked_at = none; run_after = now }

unfoldable pub fail_update : ℕ → (UpdateRun → Option String) → UpdateRun → UpdateRun
fail_update now dnf_output_tail u = record u {
  status = RunStatus.failed;
  phase = "done";
  finished_at = some now;
  error =
      some
        "Przebieg przerwany restartem portal-worker (np. reboot VM). Sam dnf mógł się zakończyć — sprawdź liczby łatek i „wymagany restart” na tej stronie.";
  output = elim (dnf_output_tail u) [
    | none ↦ u.output
    | some tail ↦
        (if str_eq tail ""
          then u.output
          else u.output ++ ("\n### Wyjście dnf (odczytane po restarcie workera):\n" ++ tail))
  ];
}

-- The file of the transient unit, by mode, is outside the database: `read` is `none` where it
-- cannot be opened.
unfoldable pub dnf_output_tail : (String → Option String) → UpdateRun → Option String
dnf_output_tail read run =
    if not (str_eq run.host "vm1") || not (str_eq run.mode "security" || str_eq run.mode "all")
    then none
    else read run.mode

abbrev pub is_active_update : UpdateRun → Bool
is_active_update u = elim u.status [ RunStatus.running ↦ true | _ ↦ false ]

unfoldable pub reap_orphans : ℕ → (String → Option String) → Db → Db
unfolding fail_update dnf_output_tail requeue
reap_orphans now read db = record db {
  job_runs = update is_active_run (fail_run now) db.job_runs;
  job_queue = update (λ j. is_running j.status) (requeue now) db.job_queue;
  system_update_runs =
      update is_active_update (fail_update now (dnf_output_tail read)) db.system_update_runs;
}

-- What a handler does to the database, and the text of the exception that it raises, if it does.
abbrev pub Handler : Type 0
Handler = Payload → Db → Db × Option String

pub record Handlers : Type 0 where
  pub provision : Handler
  pub sync : Handler
  pub system_update : Handler

-- HANDLERS.get(job_type)
unfoldable pub handler_for : Handlers → String → Option Handler
handler_for h job_type =
    if str_eq job_type "provision"
    then some h.provision
    else if str_eq job_type "sync"
    then some h.sync
    else if str_eq job_type "system_update"
    then some h.system_update
    else none

-- The job ends as the handler does; one with no handler fails.
unfoldable pub run_with : Option Handler → ℕ → Job → Db → Db
run_with none now j db = finish_job now j.id false db
run_with (some handle) now j db =
    let (db', error) = handle j.payload db in finish_job now j.id (is_none error) db'

unfoldable pub run_job : Handlers → ℕ → Job → Db → Db
run_job h now j db = run_with (handler_for h j.job_type) now j db

pub record Round : Type 0 where
  pub claimed_at : ℕ
  pub finished_at : ℕ
  pub worker_id : String
  pub locked : ℕ → Bool

unfoldable pub run_claimed : Handlers → ℕ → Option Job → Db → Db
run_claimed h now none db = db
run_claimed h now (some j) db = run_job h now j db

-- One pass of the `while True` of `run_forever`: it sleeps where there is no job.
unfoldable pub iteration : Handlers → Round → Db → Db
iteration h r db =
    let (db', job) = claim_next_job r.claimed_at r.worker_id r.locked db in
    run_claimed h r.finished_at job db'

-- A pass that ends with the process: the job is claimed, and its handler has done what `h` does of it,
-- but `_finish_job` is not reached.
unfoldable pub handled : Option Handler → Job → Db → Db
handled none j db = db
handled (some handle) j db = (handle j.payload db).0

unfoldable pub handle_claimed : Handlers → Option Job → Db → Db
handle_claimed h none db = db
handle_claimed h (some j) db = handled (handler_for h j.job_type) j db

unfoldable pub killed : Handlers → Round → Db → Db
killed h r db =
    let (db', job) = claim_next_job r.claimed_at r.worker_id r.locked db in handle_claimed h job db'
