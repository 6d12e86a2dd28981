-- ===== src/Queue/Handlers.antt =====
-- workers/handlers/provision_handler.py and sync_job_handler.py: what the worker does for a job. The
-- password cipher, the API of VM2 and the run of imapsync are outside: parameters.
pub mod Laws
pub mod Sync
pub mod Updates
use Prim.Native.String.{◌++◌}
use mail_sync_portal.Base.{
  ℕ, ℤ, pos, ◌+◌, ◌-◌, ◌==◌, String, Bool, true, false, not, Option, none, some, List, [], ◌∷◌,
  ◌++◌ as append, ◌&&◌, ◌||◌, str_eq, first, if◌then◌else◌, or_else, is_none, show_ℕ, ltb, ◌⊎◌, inl,
  inr,
}
use mail_sync_portal.Db.{
  Table, insert, update, Db, Mailbox, Credential, Domain, SyncJob, Job, JobRun, queued, Payload,
  RunStatus, Stats, AuditCall,
}
use mail_sync_portal.Imapsync.Flags.{
  ImapsyncConfig, Result, ok, err, FlagError, build_global_flags, validate_custom_flags,
}
use mail_sync_portal.Imapsync.Runner.{SyncArgs, build_argv}
use Prim.Native.Char.{Char}

-- What imapsync leaves: its exit code, the counts read from its log and the log's path.
pub record SyncResult : Type 0 where
  pub returncode : ℤ
  pub stats : Stats
  pub log_path : String

-- `none` is an exception; `run` is given the arguments, `quota` the id of a mailbox on VM2.
pub record Outside : Type 0 where
  pub decrypt : String → Option String
  pub encrypt : String → String
  pub create_mailbox : String → String → String → String → ℕ → Option String
  pub is_letter : Char → Bool
  pub passfile : String → String
  pub new_log_path : ℕ → String
  pub run : List String → Option SyncResult
  pub quota : String → Option ℕ
  pub imapsync_config : Option ImapsyncConfig

-- `db.get` of the models
unfoldable pub get_mailbox : ℕ → Db → Option Mailbox
get_mailbox k db = first (λ (m : Mailbox). m.id == k) db.mailboxes.rows

unfoldable pub get_credential : ℕ → Db → Option Credential
get_credential k db = first (λ (c : Credential). c.id == k) db.credentials.rows

unfoldable pub get_domain : ℕ → Db → Option Domain
get_domain k db = first (λ (d : Domain). d.id == k) db.domains.rows

unfoldable pub modify_mailbox : ℕ → (Mailbox → Mailbox) → Db → Db
modify_mailbox k f db = record db { mailboxes = update (λ (m : Mailbox). m.id == k) f db.mailboxes }

-- `x is None or not x`
abbrev pub is_blank : Option String → Bool
is_blank none = true
is_blank (some s) = str_eq s ""

abbrev pub is_provisioned : Mailbox → Bool
is_provisioned m = str_eq m.provisioning_status "active" && not (is_blank m.vm2_mailbox_id)

-- The job of the inventory that follows the provisioning.
abbrev pub assess_job : ℕ → ℕ → ℕ → Job
assess_job now mailbox_id id = record {
  id = id;
  job_type = "sync";
  payload = record {
    mailbox_id = some mailbox_id;
    run_id = none;
    trigger = some "assess";
    mode = some "assess";
    host = none;
  };
  status = queued;
  priority = 100;
  run_after = now;
  locked_by = none;
  locked_at = none;
  attempts = 0;
  max_attempts = 5;
}

-- the writes to a mailbox that VM2 has made
abbrev pub provisioned : String → String → Mailbox → Mailbox
provisioned vm2_id cipher m = record m {
  vm2_mailbox_id = some vm2_id;
  provisioning_status = "active";
  destination_password_encrypted =
      if m.password_override then m.destination_password_encrypted else some cipher;
}

unfoldable pub complete_provision : Outside → ℕ → Mailbox → String → String → Db → Db
complete_provision out now m plain vm2_id db =
    let db' = modify_mailbox m.id (provisioned vm2_id (out.encrypt plain)) db in
    record db' {
      audit = append db'.audit (
          (record {
            actor_admin_user_id = none;
            action = "mailbox.provisioned";
            target_id = some m.id;
          })
          ∷ []);
      job_queue = insert (assess_job now m.id) db'.job_queue;
    }

-- The calls of the cipher and of VM2: the text of the exception, or the password and the new id.
unfoldable pub call_vm2 :
    Outside → String → Credential → Domain → Mailbox → String ⊎ (String × String)
call_vm2 out host c d m = elim (out.decrypt c.source_password_encrypted) [
  | none ↦ inl "decrypt_password"
  | some plain ↦
      elim (out.create_mailbox host d.destination_domain c.destination_username plain m.quota_mb) [
        | none ↦ inl "create_mailbox"
        | some vm2_id ↦ inr (plain, vm2_id)
      ]
]

-- An exception rolls the transaction back.
unfoldable pub provision_known :
    Outside → ℕ → Mailbox → Option Credential → Option Domain → Db → Db × Option String
provision_known out now m (some c) (some d) db =
    if is_blank db.vm2_host
    then (
      db,
      some "Brak skonfigurowanego połączenia z VM2 — dokończ kreator pierwszego uruchomienia.",
    )
    else elim (call_vm2 out (or_else "" db.vm2_host) c d m) [
      | inl e ↦ (db, some e)
      | inr (plain, vm2_id) ↦ (complete_provision out now m plain vm2_id db, none)
    ]
provision_known out now m c d db = (db, some "'NoneType' object has no attribute")

unfoldable pub provision_mailbox : Outside → ℕ → Option Mailbox → Db → Db × Option String
provision_mailbox out now none db = (db, none)
provision_mailbox out now (some m) db =
    if is_provisioned m
    then (db, none)
    else provision_known out now m (get_credential m.credential_id db) (get_domain m.domain_id db)
        db

unfoldable pub provision : Outside → ℕ → Payload → Db → Db × Option String
provision out now p db = elim p.mailbox_id [
  | none ↦ (db, some "'mailbox_id'")
  | some k ↦ provision_mailbox out now (get_mailbox k db) db
]
