-- ===== src/Queue/Query.antt =====
-- Queries of the tables `job_queue` and `job_runs` (models/sync.py) that the parts share.
use mail_sync_portal.Base.{ℕ, Bool, true, false, Option, none, some, ◌&&◌, ◌==◌, str_eq, first}
use mail_sync_portal.Db.{Db, update, Job, JobStatus, queued, running, retrying, Payload}

-- `job.status == "queued"`, and so on for each status
abbrev pub is_queued : JobStatus → Bool
is_queued queued = true
is_queued _ = false

abbrev pub is_running : JobStatus → Bool
is_running running = true
is_running _ = false

abbrev pub is_retrying : JobStatus → Bool
is_retrying retrying = true
is_retrying _ = false

-- `JobQueue.status.in_(["queued", "running", "retrying"])`
abbrev pub is_pending : JobStatus → Bool
is_pending queued = true
is_pending running = true
is_pending retrying = true
is_pending _ = false

abbrev pub is_for : ℕ → Option ℕ → Bool
is_for m none = false
is_for m (some k) = k == m

-- the filter of `already_pending`
abbrev pub pending_sync : ℕ → Job → Bool
pending_sync m j =
    str_eq j.job_type "sync" && (is_pending j.status && is_for m j.payload.mailbox_id)

-- `db.get(JobQueue, id)`
unfoldable pub get_job : ℕ → Db → Option Job
unfolding first
get_job k db = first (λ j. j.id == k) db.job_queue.rows

-- changes of the attributes of one job
unfoldable pub modify_job : ℕ → (Job → Job) → Db → Db
modify_job k f db = record db { job_queue = update (λ j. j.id == k) f db.job_queue }

-- a payload with only a mailbox
abbrev pub no_payload : Payload
no_payload = record { mailbox_id = none; run_id = none; trigger = none; mode = none; host = none }
