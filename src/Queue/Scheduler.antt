-- ===== src/Queue/Scheduler.antt =====
-- workers/scheduler_main.py: one run of the scheduler.
pub mod Pending
use mail_sync_portal.Base.{
  ℕ, ◌+◌, ◌*◌, Bool, true, false, not, none, some, List, [], ◌∷◌, ◌&&◌, ltb, ◌==◌, any, select,
  if◌then◌else◌,
}
use mail_sync_portal.Db.{insert, update, Db, Job, queued, SyncJob}
use mail_sync_portal.Queue.Query.{pending_sync, no_payload}

-- The interval in seconds: the configured minutes, if they are positive, else 60.
unfoldable pub interval : Db → ℕ
interval db = elim db.sync_interval_minutes [
  | none ↦ 3600
  | some m ↦ (if ltb 0 m then m * 60 else 3600)
]

-- now - last_enqueued_at < interval
unfoldable pub enqueued_lately : ℕ → ℕ → SyncJob → Bool
enqueued_lately now gap s = elim s.last_enqueued_at [
  | none ↦ false
  | some last ↦ ltb now (last + gap)
]

unfoldable pub already_pending : ℕ → Db → Bool
already_pending m db = any (pending_sync m) db.job_queue.rows

abbrev pub scheduled_job : ℕ → ℕ → ℕ → Job
scheduled_job now m id = record {
  id = id;
  job_type = "sync";
  payload = record no_payload { mailbox_id = some m; trigger = some "scheduled" };
  status = queued;
  priority = 100;
  run_after = now;
  locked_by = none;
  locked_at = none;
  attempts = 0;
  max_attempts = 5;
}

unfoldable pub enqueue : ℕ → SyncJob → Db → Db
enqueue now s db = record db {
  job_queue = insert (scheduled_job now s.mailbox_id) db.job_queue;
  sync_jobs =
      update (λ t. t.id == s.id) (λ t. record t { last_enqueued_at = some now }) db.sync_jobs;
}

unfoldable pub is_due : ℕ → ℕ → SyncJob → Db → Bool
is_due now gap s db = not (enqueued_lately now gap s) && not (already_pending s.mailbox_id db)

-- The loop over the enabled jobs: the pending jobs are looked up anew for each, with those that the
-- loop has added.
unfoldable pub enqueue_all : ℕ → ℕ → List SyncJob → Db → Db × ℕ
enqueue_all now gap [] db = (db, 0)
enqueue_all now gap (s ∷ ss) db = elim (is_due now gap s db) [
  | true ↦ (let (db', n) = enqueue_all now gap ss (enqueue now s db) in (db', n + 1))
  | false ↦ enqueue_all now gap ss db
]

unfoldable pub run_once : ℕ → Db → Db × ℕ
run_once now db = enqueue_all now (interval db) (select (λ s. s.is_enabled) db.sync_jobs.rows) db
