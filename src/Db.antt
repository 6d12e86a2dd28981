-- ===== src/Db.antt =====
-- The tables of the portal's database (app/portal_app/models): one record for each mapped class that
-- the modelled code reads or writes, and the state of the whole database. A table is the list of its
-- rows in the order of insertion, with the next value of its id sequence. Times are seconds.
use mail_sync_portal.Base.{
  ℤ, ℕ, ◌+◌, String, Bool, false, Option, none, List, [], ◌∷◌, ◌++◌, update_where,
}

pub record Table (A : Type 0) : Type 0 where
  pub rows : List A
  pub next_id : ℕ

module _ {A : Type 0} where
  -- `db.add(row); db.flush()`: the sequence gives the id
  unfoldable pub insert : (ℕ → A) → Table A → Table A
  insert make t = record { rows = t.rows ++ make t.next_id ∷ []; next_id = t.next_id + 1 }

  -- changes to the rows that satisfy a test
  unfoldable pub update : (A → Bool) → (A → A) → Table A → Table A
  update p f t = record t { rows = update_where p f t.rows }

-- models/domain.py
pub record Domain : Type 0 where
  pub id : ℕ
  pub source_domain : String
  pub destination_domain : String
  pub source_imap_host : String
  pub source_imap_port : ℕ
  pub default_quota_mb : ℕ
  pub total_quota_mb : ℕ
  pub is_active : Bool

pub record DomainLoginAlias : Type 0 where
  pub id : ℕ
  pub domain_id : ℕ
  pub alias_name : String

-- models/mailbox.py
pub record Credential : Type 0 where
  pub id : ℕ
  pub domain_id : ℕ
  pub source_username : String
  pub source_password_encrypted : String
  pub destination_username : String
  pub import_batch_id : Option ℕ
  pub status : String

pub record Mailbox : Type 0 where
  pub id : ℕ
  pub domain_id : ℕ
  pub credential_id : ℕ
  pub source_address : String
  pub destination_address : String
  pub vm2_mailbox_id : Option String
  pub provisioning_status : String
  pub quota_mb : ℕ
  pub password_override : Bool
  pub destination_password_encrypted : Option String
  pub source_bytes : ℕ
  pub dest_bytes : ℕ

-- models/sync.py
pub record SyncJob : Type 0 where
  pub id : ℕ
  pub mailbox_id : ℕ
  pub days_back : ℤ
  pub preserve_folder_structure : Bool
  pub delete_on_dest_when_missing_from_source : Bool
  pub is_enabled : Bool
  pub last_enqueued_at : Option ℕ
  pub custom_flags : String

pub data JobStatus : Type 0 where
  queued running done failed retrying : JobStatus

-- the keys of the JSON payload that the code reads; `none` is a missing key
pub record Payload : Type 0 where
  pub mailbox_id : Option ℕ
  pub run_id : Option ℕ
  pub trigger : Option String
  pub mode : Option String
  pub host : Option String

pub record Job : Type 0 where
  pub id : ℕ
  pub job_type : String
  pub payload : Payload
  pub status : JobStatus
  pub priority : ℕ
  pub run_after : ℕ
  pub locked_by : Option String
  pub locked_at : Option ℕ
  pub attempts : ℕ
  pub max_attempts : ℕ

pub data RunStatus : Type 0 where
  running success partial failed : RunStatus

-- the counters of a run, and the sizes that `_parse_stats` finds beside them
pub record Stats : Type 0 where
  pub messages_transferred : ℕ
  pub bytes_transferred : ℕ
  pub messages_total : ℕ
  pub folders_synced : ℕ
  pub folders_total : ℕ
  pub source_messages_total : ℕ
  pub source_bytes : ℕ
  pub dest_bytes_reported : ℕ
  pub dest_nb_messages : ℕ
  pub source_nb_messages : ℕ
  pub source_duplicates : ℕ
  pub source_missing : ℕ

pub record JobRun : Type 0 where
  pub id : ℕ
  pub sync_job_id : Option ℕ
  pub mailbox_id : ℕ
  pub status : RunStatus
  pub started_at : ℕ
  pub finished_at : Option ℕ
  pub stats : Stats
  pub messages_missing_from_source_retained : ℕ
  pub error_summary : Option String
  pub imapsync_log_path : Option String

-- models/imports.py
pub data BatchStatus : Type 0 where
  parsed committed failed : BatchStatus

pub record ImportBatch : Type 0 where
  pub id : ℕ
  pub row_count : ℕ
  pub status : BatchStatus

pub data MatchType : Type 0 where
  new duplicate_in_file existing_unchanged existing_updated : MatchType

-- the keys of `raw_row` that the code reads; `none` is None
pub record RawRow : Type 0 where
  pub source_domain : Option String
  pub source_username : Option String
  pub source_password : Option String
  pub destination_username : Option String
  pub display_name : Option String

pub record ImportRow : Type 0 where
  pub id : ℕ
  pub import_batch_id : ℕ
  pub raw_row : RawRow
  pub match_type : MatchType
  pub is_valid : Bool
  pub validation_errors : List String
  pub resulting_credential_id : Option ℕ

-- models/settings.py
pub record ThrottlePolicy : Type 0 where
  pub id : ℕ
  pub scope : String
  pub max_connections_per_minute : ℕ
  pub max_connections_per_hour : ℕ
  pub max_connections_per_day : ℕ
  pub concurrent_job_limit : ℕ

-- models/system_update.py
pub record UpdateRun : Type 0 where
  pub id : ℕ
  pub actor_admin_user_id : Option ℕ
  pub host : String
  pub mode : String
  pub status : RunStatus
  pub phase : String
  pub started_at : Option ℕ
  pub finished_at : Option ℕ
  pub output : String
  pub reboot_needed : Option Bool
  pub healthy : Option Bool
  pub backup_path : Option String
  pub log_path : Option String
  pub reboot_token : Option String
  pub error : Option String

-- models/webmail_sso.py
pub record WebmailSsoToken : Type 0 where
  pub id : ℕ
  pub token_hash : String
  pub mailbox_id : ℕ
  pub mailbox_address : String
  pub actor_admin_user_id : Option ℕ
  pub expires_at : ℕ
  pub used_at : Option ℕ

-- a call of `audit_service.record`, by its actor, its action and its target where that is a row
pub record AuditCall : Type 0 where
  pub actor_admin_user_id : Option ℕ
  pub action : String
  pub target_id : Option ℕ

pub record Db : Type 0 where
  pub domains : Table Domain
  pub domain_login_aliases : Table DomainLoginAlias
  pub credentials : Table Credential
  pub mailboxes : Table Mailbox
  pub sync_jobs : Table SyncJob
  pub job_queue : Table Job
  pub job_runs : Table JobRun
  pub import_batches : Table ImportBatch
  pub import_rows : Table ImportRow
  pub throttle_policies : Table ThrottlePolicy
  pub system_update_runs : Table UpdateRun
  pub webmail_sso_tokens : Table WebmailSsoToken
  pub webmail_sso_enabled : Bool
  pub sync_interval_minutes : Option ℕ
  pub vm2_host : Option String
  pub audit : List AuditCall

abbrev pub empty_table : {A : Type 0} → Table A
empty_table = record { rows = []; next_id = 1 }

abbrev pub empty_db : Db
empty_db = record {
  domains = empty_table;
  domain_login_aliases = empty_table;
  credentials = empty_table;
  mailboxes = empty_table;
  sync_jobs = empty_table;
  job_queue = empty_table;
  job_runs = empty_table;
  import_batches = empty_table;
  import_rows = empty_table;
  throttle_policies = empty_table;
  system_update_runs = empty_table;
  webmail_sso_tokens = empty_table;
  webmail_sso_enabled = false;
  sync_interval_minutes = none;
  vm2_host = none;
  audit = [];
}
