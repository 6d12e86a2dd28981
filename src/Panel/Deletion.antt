-- ===== src/Panel/Deletion.antt =====
-- routers/mailboxes.py, `delete_mailbox`: first on VM2, then in the tables of the portal.
pub mod OnVm2
pub mod Laws
pub mod Stuck
use mail_sync_portal.Base.{
  ℕ, ◌==◌, String, Bool, not, Option, none, some, List, ◌&&◌, ◌||◌, str_eq, strip, any,
  delete_where, is_none, or_else, if◌then◌else◌,
}
use mail_sync_portal.Db.{Table, update, Db, Mailbox, Credential, SyncJob, Job, JobRun, ImportRow}
use mail_sync_portal.Queue.Query.{is_for}
use mail_sync_portal.Queue.Handlers.{get_mailbox, get_credential, is_blank}
use mail_sync_portal.Panel.Client.{
  Delivery, Vm2, call, remove_mailbox, Reply, accepted, refused, http, World, stop, audited,
}

module _ {A : Type 0} where
  unfoldable pub delete : (A → Bool) → Table A → Table A
  delete p t = record t { rows = delete_where p t.rows }

-- the jobs of the mailbox that the request deletes, by the payload
abbrev pub is_sync_of : ℕ → Job → Bool
is_sync_of mailbox_id j = str_eq j.job_type "sync" && is_for mailbox_id j.payload.mailbox_id

-- a run of a synchronisation that belongs to the mailbox: ON DELETE SET NULL
abbrev pub is_run_of : ℕ → List SyncJob → JobRun → Bool
is_run_of mailbox_id syncs r =
    any (λ (s : SyncJob). s.mailbox_id == mailbox_id && is_for s.id r.sync_job_id) syncs

abbrev pub unlink : JobRun → JobRun
unlink r = record r { sync_job_id = none }

-- The mailbox with its jobs; the foreign keys of `sync_jobs` and `job_runs` have ON DELETE CASCADE.
unfoldable pub delete_rows : ℕ → Db → Db
delete_rows mailbox_id db = record db {
  job_queue = delete (is_sync_of mailbox_id) db.job_queue;
  mailboxes = delete (λ (m : Mailbox). m.id == mailbox_id) db.mailboxes;
  sync_jobs = delete (λ (s : SyncJob). s.mailbox_id == mailbox_id) db.sync_jobs;
  job_runs =
      update (is_run_of mailbox_id db.sync_jobs.rows) unlink
        (delete (λ (r : JobRun). r.mailbox_id == mailbox_id) db.job_runs);
}

abbrev pub is_imported : ℕ → Db → Bool
is_imported credential_id db =
    any (λ (r : ImportRow). is_for credential_id r.resulting_credential_id) db.import_rows.rows

-- The credential, unless another mailbox has it; `none` is the IntegrityError for a row of an import
-- that refers to it, whose foreign key has no ON DELETE.
unfoldable pub delete_credential : ℕ → Db → Option Db
delete_credential credential_id db =
    if any (λ (m : Mailbox). m.credential_id == credential_id) db.mailboxes.rows
      || is_none (get_credential credential_id db)
    then some db
    else if is_imported credential_id db
    then none
    else some (record db {
      credentials = delete (λ (c : Credential). c.id == credential_id) db.credentials;
    })

unfoldable pub delete_local : ℕ → Mailbox → Db → Option Db
delete_local actor m db = elim (delete_credential m.credential_id (delete_rows m.id db)) [
  | none ↦ none
  | some db' ↦ some (audited actor "mailbox.delete" (some m.id) db')
]

-- An exception of the database rolls the portal back, after VM2 has deleted.
unfoldable pub finish_deletion : ℕ → Mailbox → World → World × Reply
finish_deletion actor m w = elim (delete_local actor m w.portal) [
  | none ↦ (w, http 500)
  | some db ↦ (record w { portal = db }, accepted)
]

unfoldable pub delete_on_vm2 : Vm2 → Delivery → ℕ → Mailbox → World → World × Reply
delete_on_vm2 vm2 net actor m w =
    if is_none w.portal.vm2_host
    then stop (http 503) w
    else let (vm2_db, returned) =
        call net w.vm2 (remove_mailbox vm2 (or_else "" m.vm2_mailbox_id) w.vm2) in
      if returned
      then finish_deletion actor m (record w { vm2 = vm2_db })
      else (record w { vm2 = vm2_db }, refused)

unfoldable pub delete_known : Vm2 → Delivery → ℕ → String → World → Mailbox → World × Reply
delete_known vm2 net actor confirm_text w m =
    if not (str_eq (strip confirm_text) m.destination_address)
    then stop refused w
    else if is_blank m.vm2_mailbox_id
    then finish_deletion actor m w
    else delete_on_vm2 vm2 net actor m w

unfoldable pub delete_mailbox : Vm2 → Delivery → ℕ → ℕ → String → World → World × Reply
delete_mailbox vm2 net actor mailbox_id confirm_text w = elim (get_mailbox mailbox_id w.portal) [
  | none ↦ stop (http 404) w
  | some m ↦ delete_known vm2 net actor confirm_text w m
]
