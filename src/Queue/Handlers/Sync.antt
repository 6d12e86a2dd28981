-- ===== src/Queue/Handlers/Sync.antt =====
-- workers/handlers/sync_job_handler.py: a synchronisation, as two transactions with the run of imapsync
-- between them. The other processes' transactions in between are not modelled.
use Prim.Native.String.{◌++◌}
use mail_sync_portal.Base.{
  ℕ, zero, ℤ, pos, ◌-◌, ◌==◌, String, Bool, true, false, not, Option, none, some, List, [], ◌∷◌,
  ◌++◌ as append, ◌&&◌, ◌||◌, str_eq, first, if◌then◌else◌, or_else, is_some, ltb, show_ℤ,
}
use mail_sync_portal.Db.{
  insert, update, Db, Mailbox, Credential, Domain, SyncJob, JobRun, Payload, RunStatus, Stats,
}
use mail_sync_portal.Imapsync.Flags.{
  ImapsyncConfig, ok, err, build_global_flags, validate_custom_flags,
}
use mail_sync_portal.Imapsync.Runner.{SyncArgs, build_argv}
use mail_sync_portal.Queue.Handlers.{
  Outside, SyncResult, get_mailbox, get_credential, get_domain, modify_mailbox, is_blank,
}

-- What the first transaction leaves for the run.
pub record Plan : Type 0 where
  pub mailbox_id : ℕ
  pub job_run_id : ℕ
  pub args : SyncArgs
  pub custom_flags : String
  pub previous_messages_total : ℕ

pub data Start : Type 0 where
  skip : Start
  raise : String → Start
  go : Db → Plan → Start

abbrev pub no_stats : Stats
no_stats = record {
  messages_transferred = 0;
  bytes_transferred = 0;
  messages_total = 0;
  folders_synced = 0;
  folders_total = 0;
  source_messages_total = 0;
  source_bytes = 0;
  dest_bytes_reported = 0;
  dest_nb_messages = 0;
  source_nb_messages = 0;
  source_duplicates = 0;
  source_missing = 0;
}

abbrev pub new_run : ℕ → ℕ → ℕ → String → ℕ → JobRun
new_run now sync_job_id mailbox_id log_path id = record {
  id = id;
  sync_job_id = some sync_job_id;
  mailbox_id = mailbox_id;
  status = RunStatus.running;
  started_at = now;
  finished_at = none;
  stats = no_stats;
  messages_missing_from_source_retained = 0;
  error_summary = none;
  imapsync_log_path = some log_path;
}

abbrev pub is_success : RunStatus → Bool
is_success RunStatus.success = true
is_success _ = false

-- The count of the last successful run: rows stand in the order of their ids.
unfoldable pub last_total : ℕ → ℕ → List JobRun → ℕ
last_total mailbox_id total [] = total
last_total mailbox_id total (r ∷ rs) =
    last_total mailbox_id
      (if r.mailbox_id == mailbox_id && is_success r.status then r.stats.messages_total else total)
      rs

unfoldable pub sync_args :
    Outside → Mailbox → Credential → Domain → SyncJob → String → String → String → Bool → SyncArgs
sync_args out m c d s host source_password dest_password assess = record {
  source_host = d.source_imap_host;
  source_port = pos d.source_imap_port;
  source_user = c.source_username;
  source_passfile = out.passfile source_password;
  dest_host = host;
  dest_port = pos 993;
  dest_user = c.destination_username ++ ("@" ++ d.destination_domain);
  dest_passfile = out.passfile dest_password;
  days_back = s.days_back;
  preserve_folder_structure = s.preserve_folder_structure;
  delete_on_dest_when_missing_from_source = s.delete_on_dest_when_missing_from_source;
  dry_run = assess;
  extra_flags = [];
}

-- The new run, still "running", with the path of its log.
unfoldable pub open_run : Outside → ℕ → Mailbox → SyncJob → SyncArgs → Db → Start
open_run out now m s args db =
    let path = out.new_log_path m.id in
    go (record db { job_runs = insert (new_run now s.id m.id path) db.job_runs })
      (record {
        mailbox_id = m.id;
        job_run_id = db.job_runs.next_id;
        args = args;
        custom_flags = s.custom_flags;
        previous_messages_total = last_total m.id 0 db.job_runs.rows;
      })

-- Both passwords, or the exception of the cipher.
unfoldable pub passwords : Outside → Credential → Mailbox → Option (String × String)
passwords out c m = elim (out.decrypt c.source_password_encrypted) [
  | none ↦ none
  | some source ↦ elim (m.destination_password_encrypted) [
    | none ↦ none
    | some cipher ↦ elim (out.decrypt cipher) [ none ↦ none | some dest ↦ some (source, dest) ]
  ]
]

unfoldable pub start_known :
    Outside → ℕ → Bool → Mailbox → Option Credential → Option Domain → SyncJob → Db → Start
start_known out now assess m (some c) (some d) s db = elim (passwords out c m) [
  | none ↦ raise "decrypt_password"
  | some (source, dest) ↦
      open_run out now m s (sync_args out m c d s (or_else "" db.vm2_host) source dest assess) db
]
start_known out now assess m c d s db = raise "'NoneType' object has no attribute"

unfoldable pub start_mailbox : Outside → ℕ → Bool → Option Mailbox → Db → Start
start_mailbox out now assess none db = skip
start_mailbox out now assess (some m) db =
    if not (str_eq m.provisioning_status "active")
    then skip
    else elim (first (λ (s : SyncJob). s.mailbox_id == m.id) db.sync_jobs.rows) [
      | none ↦ skip
      | some s ↦
          (if not s.is_enabled || is_blank db.vm2_host
            then skip
            else start_known out now assess m (get_credential m.credential_id db)
                (get_domain m.domain_id db) s db)
    ]

-- `payload.get("mode") == "assess"`
abbrev pub is_assess : Option String → Bool
is_assess none = false
is_assess (some mode) = str_eq mode "assess"

unfoldable pub start_sync : Outside → ℕ → Payload → Db → Start
start_sync out now p db = elim p.mailbox_id [
  | none ↦ raise "'mailbox_id'"
  | some k ↦ start_mailbox out now (is_assess p.mode) (get_mailbox k db) db
]

-- `_cfg.… if _cfg else …`
abbrev pub default_config : ImapsyncConfig
default_config = record {
  verify_source_ssl = true;
  add_missing_headers = false;
  max_size_mb = 0;
  timeout_seconds = 0;
  allow_size_mismatch = false;
  max_bandwidth_mbit = 0;
  custom_flags = "";
}

-- The global flags, then those of the mailbox.
unfoldable pub extra_flags : ImapsyncConfig → String → Option (List String)
extra_flags cfg custom = elim (build_global_flags cfg) [
  | err e ↦ none
  | ok global ↦ elim (validate_custom_flags custom) [
    | err e ↦ none
    | ok own ↦ some (append global own)
  ]
]

-- The body of the `try`: `none` is an exception, whose text `failure` stands for.
unfoldable pub perform : Outside → Plan → Option SyncResult
perform out plan =
    elim (extra_flags (or_else default_config out.imapsync_config) plan.custom_flags) [
      | none ↦ none
      | some flags ↦ elim (build_argv out.is_letter (record (plan.args) { extra_flags = flags })) [
        | none ↦ none
        | some argv ↦ out.run argv
      ]
    ]

abbrev pub is_zero : ℤ → Bool
is_zero (pos zero) = true
is_zero _ = false

-- The values that the second transaction writes.
pub record Outcome : Type 0 where
  pub status : RunStatus
  pub error_summary : Option String
  pub stats : Stats
  pub log_path : Option String

unfoldable pub outcome : String → Option SyncResult → Outcome
outcome failure none = record {
  status = RunStatus.failed;
  error_summary = some failure;
  stats = no_stats;
  log_path = none;
}
outcome failure (some r) = record {
  status = if is_zero r.returncode then RunStatus.success else RunStatus.failed;
  error_summary =
      if is_zero r.returncode
      then none
      else some ("imapsync zakończył się kodem " ++ show_ℤ r.returncode);
  stats = r.stats;
  log_path = some r.log_path;
}

unfoldable pub drift : Plan → Outcome → ℕ
drift plan o =
    if plan.args.delete_on_dest_when_missing_from_source
    then 0
    else plan.previous_messages_total - o.stats.messages_total

abbrev pub close_run : ℕ → Plan → Outcome → JobRun → JobRun
close_run now plan o r = record r {
  status = o.status;
  finished_at = some now;
  stats = o.stats;
  messages_missing_from_source_retained = drift plan o;
  error_summary = o.error_summary;
  imapsync_log_path = o.log_path;
}

-- The sizes of the mailbox; VM2 is asked only where there is a connection.
abbrev pub cache_sizes : Outside → Bool → Outcome → Mailbox → Mailbox
cache_sizes out connected o m = record m {
  source_bytes = if ltb 0 o.stats.source_bytes then o.stats.source_bytes else m.source_bytes;
  dest_bytes =
      if not (is_blank m.vm2_mailbox_id) && connected
      then or_else m.dest_bytes (out.quota (or_else "" m.vm2_mailbox_id))
      else m.dest_bytes;
}

unfoldable pub finish_sync : Outside → ℕ → Plan → Outcome → Db → Db × Option String
finish_sync out now plan o db =
    elim (first (λ (r : JobRun). r.id == plan.job_run_id) db.job_runs.rows) [
      | none ↦ (db, some "'NoneType' object has no attribute 'status'")
      | some r ↦
          let closed = record db {
            job_runs =
                update (λ (r : JobRun). r.id == plan.job_run_id) (close_run now plan o) db.job_runs;
          } in
          let cached =
            modify_mailbox plan.mailbox_id (cache_sizes out (is_some db.vm2_host) o) closed in
          (
            record cached {
              audit = append cached.audit (
                  (record {
                    actor_admin_user_id = none;
                    action = "sync.completed";
                    target_id = some plan.mailbox_id;
                  })
                  ∷ []);
            },
            none,
          )
    ]

-- `started` and `finished` are the readings of the clock, `failure` the text of an exception.
unfoldable pub sync : Outside → ℕ → ℕ → String → Payload → Db → Db × Option String
sync out started finished failure p db = elim (start_sync out started p db) [
  | skip ↦ (db, none)
  | raise e ↦ (db, some e)
  | go db' plan ↦ finish_sync out finished plan (outcome failure (perform out plan)) db'
]
