-- ===== src/Panel/Live.antt =====
-- routers/mailboxes.py: the new mailbox by hand, and the run that the page shows live. The file of the
-- log is a parameter.
use mail_sync_portal.Base.{
  ℕ, ◌==◌, String, Bool, not, Option, none, some, ◌||◌, is_none, first, if◌then◌else◌,
}
use mail_sync_portal.Db.{Db, Mailbox, JobRun}
use mail_sync_portal.Imports.Service.{Request, upsert_mailbox}
use mail_sync_portal.Queue.Handlers.{get_mailbox}
use mail_sync_portal.Queue.Scheduler.{already_pending}
use mail_sync_portal.Panel.Client.{audited}
use mail_sync_portal.Panel.Mailboxes.{Asking}
use mail_sync_portal.Panel.Updates.{is_running, last}

-- `create_mailbox_manual`: the mailbox of the page that follows
unfoldable pub create_mailbox_manual :
    (String → String) → (String → String) → Asking → Request → Db → Db × Mailbox
create_mailbox_manual lower encrypt asking r db =
    let (db', m, created) = upsert_mailbox lower asking.now encrypt r db in
    (audited asking.actor "mailbox.create_manual" (some m.id) db', m)

-- What the page shows: a run with what stands in its log, a wait for the worker, perhaps with an older
-- run, or nothing; `missing` is the 404.
pub data Live : Type 0 where
  missing nothing : Live
  waiting : Option ℕ → Live
  shown : JobRun → String → Live

-- `_run_live_dict`; `read` gives the text of a file that is there.
abbrev pub log_of : (String → Option String) → Option String → String
log_of read none = ""
log_of read (some path) = elim (read path) [ none ↦ "" | some text ↦ text ]

abbrev pub show_run : (String → Option String) → JobRun → Live
show_run read r = shown r (log_of read r.imapsync_log_path)

unfoldable pub run_live : (String → Option String) → ℕ → ℕ → Db → Live
run_live read mailbox_id run_id db =
    elim (first (λ (r : JobRun). r.id == run_id) db.job_runs.rows) [
      | none ↦ missing
      | some r ↦ (if r.mailbox_id == mailbox_id then show_run read r else missing)
    ]

unfoldable pub live_of : (String → Option String) → Bool → Option JobRun → Live
live_of read pending none = if pending then waiting none else nothing
live_of read pending (some r) =
    if is_running r.status || not pending then show_run read r else waiting (some r.id)

-- `run_live_latest`: the last run of the mailbox, where it runs or no job of it is pending
unfoldable pub run_live_latest : (String → Option String) → ℕ → Db → Live
run_live_latest read mailbox_id db =
    if is_none (get_mailbox mailbox_id db)
    then missing
    else live_of read (already_pending mailbox_id db)
        (last (λ (r : JobRun). r.mailbox_id == mailbox_id) db.job_runs.rows)
