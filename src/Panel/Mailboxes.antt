-- ===== src/Panel/Mailboxes.antt =====
-- routers/mailboxes.py: the requests on one mailbox, and the configuration of many.
pub mod Laws
use mail_sync_portal.Base.{
  ℕ, ◌==◌, ℤ, pos, negsuc, String, Bool, true, false, not, none, some, List, [], ◌∷◌, ◌&&◌, str_eq,
  first, any, is_none, or_else, if◌then◌else◌, strip,
}
use mail_sync_portal.Db.{insert, update, Db, Mailbox, SyncJob, Job, queued}
use mail_sync_portal.Imapsync.Flags.{Result, ok, err, validate_custom_flags}
use mail_sync_portal.Queue.Query.{no_payload}
use mail_sync_portal.Queue.Handlers.{get_mailbox, modify_mailbox, is_blank}
use mail_sync_portal.Queue.Scheduler.{already_pending}
use mail_sync_portal.Imports.Service.{new_sync_job}
use mail_sync_portal.Panel.Client.{
  Delivery, Vm2, call, patch_mailbox, Reply, accepted, refused, http, World, stop, audited,
}

abbrev pub confirm_phrase : String
confirm_phrase = "POTWIERDZAM"

-- who asks, and when
pub record Asking : Type 0 where
  pub actor : ℕ
  pub now : ℕ

-- The portal's part of a request after which VM2 stays as it is.
abbrev pub commit : World → Db → World × Reply
commit w db = (record w { portal = db }, accepted)

-- `update_quota`
abbrev pub set_quota : ℕ → Mailbox → Mailbox
set_quota quota_mb m = record m { quota_mb = quota_mb }

unfoldable pub save_quota : ℕ → Mailbox → ℕ → Db → Db
save_quota actor m quota_mb db =
    audited actor "mailbox.quota_update" (some m.id) (modify_mailbox m.id (set_quota quota_mb) db)

-- A negative quota is a 422 of VM2, which is not caught.
unfoldable pub update_known_quota :
    Vm2 → Delivery → ℕ → Mailbox → String → ℤ → World → World × Reply
update_known_quota vm2 net actor m path (negsuc n) w = stop (http 500) w
update_known_quota vm2 net actor m path (pos quota_mb) w =
    let (vm2_db, returned) = call net w.vm2 (patch_mailbox vm2 path quota_mb w.vm2) in
    if returned
    then (record { portal = save_quota actor m quota_mb w.portal; vm2 = vm2_db }, accepted)
    else (record w { vm2 = vm2_db }, http 500)

unfoldable pub update_quota : Vm2 → Delivery → ℕ → ℕ → ℤ → World → World × Reply
update_quota vm2 net actor mailbox_id quota_mb w = elim (get_mailbox mailbox_id w.portal) [
  | none ↦ stop (http 404) w
  | some m ↦
      if is_blank m.vm2_mailbox_id
      then stop (http 400) w
      else if is_none w.portal.vm2_host
      then stop (http 503) w
      else update_known_quota vm2 net actor m (or_else "" m.vm2_mailbox_id) quota_mb w
]

-- `sync_now`
abbrev pub manual_job : ℕ → ℕ → ℕ → Job
manual_job now mailbox_id id = record {
  id = id;
  job_type = "sync";
  payload = record no_payload { mailbox_id = some mailbox_id; trigger = some "manual" };
  status = queued;
  priority = 100;
  run_after = now;
  locked_by = none;
  locked_at = none;
  attempts = 0;
  max_attempts = 5;
}

unfoldable pub enqueue_manual : Asking → ℕ → Db → Db
enqueue_manual asking mailbox_id db =
    audited asking.actor "sync.triggered_manually" (some mailbox_id)
      (record db { job_queue = insert (manual_job asking.now mailbox_id) db.job_queue })

unfoldable pub sync_now : Asking → ℕ → Db → Db × Reply
sync_now asking mailbox_id db =
    if is_none (get_mailbox mailbox_id db)
    then (db, http 404)
    else if already_pending mailbox_id db
    then (db, accepted)
    else (enqueue_manual asking mailbox_id db, accepted)

-- `bulk_sync_config`: the fields of the form
pub record SyncForm : Type 0 where
  pub mailbox_ids : List ℕ
  pub days_back : ℤ
  pub preserve_folder_structure : Bool
  pub delete_on_dest : Bool
  pub is_enabled : Bool
  pub confirm_text : String

abbrev pub configure : SyncForm → SyncJob → SyncJob
configure form s = record s {
  days_back = form.days_back;
  preserve_folder_structure = form.preserve_folder_structure;
  delete_on_dest_when_missing_from_source = form.delete_on_dest;
  is_enabled = form.is_enabled;
}

abbrev pub is_chosen : List ℕ → SyncJob → Bool
is_chosen ids s = any (λ k. k == s.mailbox_id) ids

abbrev pub is_empty : List ℕ → Bool
is_empty [] = true
is_empty (k ∷ ks) = false

unfoldable pub bulk_sync_config : ℕ → SyncForm → Db → Db × Reply
bulk_sync_config actor form db =
    if form.delete_on_dest && not (str_eq form.confirm_text confirm_phrase)
    then (db, http 400)
    else if is_empty form.mailbox_ids
    then (db, accepted)
    else (
      audited actor "sync_job.bulk_update" none (record db {
        sync_jobs = update (is_chosen form.mailbox_ids) (configure form) db.sync_jobs;
      }),
      accepted,
    )

-- `update_custom_flags`: the configuration of the mailbox, made where there is none
abbrev pub set_flags : String → SyncJob → SyncJob
set_flags text s = record s { custom_flags = text }

unfoldable pub save_flags : ℕ → String → Db → Db
save_flags mailbox_id text db =
    elim (first (λ (s : SyncJob). s.mailbox_id == mailbox_id) db.sync_jobs.rows) [
      | none ↦ record db {
        sync_jobs = insert (λ id. set_flags text (new_sync_job mailbox_id id)) db.sync_jobs;
      }
      | some s ↦ record db {
        sync_jobs = update (λ (t : SyncJob). t.id == s.id) (set_flags text) db.sync_jobs;
      }
    ]

unfoldable pub save_checked : ℕ → ℕ → String → Db → Result (List String) → Db × Reply
save_checked actor mailbox_id custom_flags db (err e) = (db, refused)
save_checked actor mailbox_id custom_flags db (ok argv) = (
  audited actor "mailbox.custom_flags" (some mailbox_id)
      (save_flags mailbox_id (strip custom_flags) db),
  accepted,
)

unfoldable pub update_custom_flags : ℕ → ℕ → String → Db → Db × Reply
update_custom_flags actor mailbox_id custom_flags db =
    if is_none (get_mailbox mailbox_id db)
    then (db, http 404)
    else save_checked actor mailbox_id custom_flags db (validate_custom_flags custom_flags)
