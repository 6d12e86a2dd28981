-- ===== src/Imports/Service.antt =====
-- services/import_service.py: staging a batch, and adding mailboxes. `lower` is `str.lower`; the
-- encryption of a password, which draws a nonce, is a parameter of each call.
pub mod Upsert
pub mod Keys
use Prim.Native.Char.{Char, code}
use Prim.Native.String.{◌++◌ as cat}
use mail_sync_portal.Base.{
  ℕ, ◌+◌, ◌≡◌, refl, String, Bool, true, false, not, Option, none, some, List, [], ◌∷◌, ◌++◌, ◌&&◌,
  ◌||◌, ◌==◌, str_eq, any, first, leb, ltb, if◌then◌else◌, strip, split_at, is_none, is_some,
  or_else, ℤ, pos,
}
use mail_sync_portal.Db.{
  Table, insert, update, Db, Domain, Credential, Mailbox, SyncJob, Job, queued, Payload, ImportRow,
  ImportBatch, RawRow, BatchStatus, parsed, committed, MatchType, new, duplicate_in_file,
  existing_unchanged, existing_updated,
}

-- `x or default`, for a text that may be None
abbrev pub or_text : String → Option String → String
or_text d none = d
or_text d (some s) = if str_eq s "" then d else s

unfoldable pub split_local_part : String → String
split_local_part username = elim (split_at b'@' username) [
  | none ↦ username
  | some (local, rest) ↦ local
]

pub record Request : Type 0 where
  pub source_domain : String
  pub source_username : String
  pub source_password : String
  pub destination_username : Option String
  pub source_imap_host : Option String
  pub source_imap_port : ℕ
  pub quota_mb : ℕ
  pub import_batch_id : Option ℕ

-- the normalised arguments
abbrev pub domain_name : (String → String) → Request → String
domain_name lower r = strip (lower r.source_domain)

abbrev pub user_name : Request → String
user_name r = strip r.source_username

abbrev pub target_name : Request → String
target_name r = strip (or_text (split_local_part (user_name r)) r.destination_username)

abbrev pub is_domain : String → Domain → Bool
is_domain name d = str_eq d.source_domain name

abbrev pub is_credential : ℕ → String → Credential → Bool
is_credential domain_id user c = c.domain_id == domain_id && str_eq c.source_username user

abbrev pub is_mailbox_of : ℕ → Mailbox → Bool
is_mailbox_of credential_id m = m.credential_id == credential_id

unfoldable pub new_domain : String → Request → ℕ → Domain
new_domain name r id = record {
  id = id;
  source_domain = name;
  destination_domain = name;
  source_imap_host = or_text name r.source_imap_host;
  source_imap_port = r.source_imap_port;
  default_quota_mb = 0;
  total_quota_mb = 0;
  is_active = true;
}

add_domain : String → Request → Db → Option Domain → Db × Domain
add_domain name r db (some d) = (db, d)
add_domain name r db none = (
  record db { domains = insert (new_domain name r) db.domains },
  new_domain name r db.domains.next_id,
)

unfoldable pub ensure_domain : String → Request → Db → Db × Domain
unfolding add_domain
ensure_domain name r db = add_domain name r db (first (is_domain name) db.domains.rows)

unfoldable pub new_credential : ℕ → String → Request → ℕ → Credential
new_credential domain_id cipher r id = record {
  id = id;
  domain_id = domain_id;
  source_username = user_name r;
  source_password_encrypted = cipher;
  destination_username = target_name r;
  import_batch_id = r.import_batch_id;
  status = "pending_provision";
}

abbrev pub set_password : String → Credential → Credential
set_password cipher c = record c { source_password_encrypted = cipher }

add_credential : ℕ → String → Request → Db → Option Credential → Db × Credential × Bool
add_credential domain_id cipher r db (some c) = (
  record db { credentials = update (λ x. x.id == c.id) (set_password cipher) db.credentials },
  set_password cipher c,
  false,
)
add_credential domain_id cipher r db none = (
  record db { credentials = insert (new_credential domain_id cipher r) db.credentials },
  new_credential domain_id cipher r db.credentials.next_id,
  true,
)

-- The password is written in either case: `cipher` is the encrypted password.
unfoldable pub ensure_credential : ℕ → String → Request → Db → Db × Credential × Bool
unfolding add_credential
ensure_credential domain_id cipher r db =
    add_credential domain_id cipher r db
      (first (is_credential domain_id (user_name r)) db.credentials.rows)

has_at : String → Bool
has_at s = is_some (split_at b'@' s)

unfoldable pub new_mailbox : String → Domain → ℕ → Request → ℕ → Mailbox
unfolding has_at
new_mailbox name d credential_id r id = record {
  id = id;
  domain_id = d.id;
  credential_id = credential_id;
  source_address = if has_at (user_name r) then user_name r else cat (user_name r) (cat "@" name);
  destination_address = cat (target_name r) (cat "@" d.destination_domain);
  vm2_mailbox_id = none;
  provisioning_status = "pending";
  quota_mb = if r.quota_mb == 0 then d.default_quota_mb else r.quota_mb;
  password_override = false;
  destination_password_encrypted = none;
  source_bytes = 0;
  dest_bytes = 0;
}

-- SyncJob(mailbox_id=…), with the column defaults
unfoldable pub new_sync_job : ℕ → ℕ → SyncJob
new_sync_job mailbox_id id = record {
  id = id;
  mailbox_id = mailbox_id;
  days_back = pos 365;
  preserve_folder_structure = true;
  delete_on_dest_when_missing_from_source = false;
  is_enabled = true;
  last_enqueued_at = none;
  custom_flags = "";
}

add_mailbox : String → Domain → ℕ → Request → Db → Option Mailbox → Db × Mailbox × Bool
add_mailbox name d credential_id r db (some m) = (db, m, false)
add_mailbox name d credential_id r db none = (
  record db {
    mailboxes = insert (new_mailbox name d credential_id r) db.mailboxes;
    sync_jobs = insert (new_sync_job db.mailboxes.next_id) db.sync_jobs;
  },
  new_mailbox name d credential_id r db.mailboxes.next_id,
  true,
)

unfoldable pub ensure_mailbox : String → Domain → ℕ → Request → Db → Db × Mailbox × Bool
unfolding add_mailbox
ensure_mailbox name d credential_id r db =
    add_mailbox name d credential_id r db (first (is_mailbox_of credential_id) db.mailboxes.rows)

-- JobQueue(job_type="provision", …)
unfoldable pub provision_job : ℕ → ℕ → ℕ → Job
provision_job now mailbox_id id = record {
  id = id;
  job_type = "provision";
  payload = record {
    mailbox_id = some mailbox_id;
    run_id = none;
    trigger = none;
    mode = none;
    host = none;
  };
  status = queued;
  priority = 100;
  run_after = now;
  locked_by = none;
  locked_at = none;
  attempts = 0;
  max_attempts = 5;
}

unfoldable pub queue_provision : ℕ → ℕ → Db → Db
queue_provision now mailbox_id db = record db {
  job_queue = insert (provision_job now mailbox_id) db.job_queue;
}

unfoldable pub upsert_mailbox :
    (String → String) → ℕ → (String → String) → Request → Db → Db × Mailbox × Bool
upsert_mailbox lower now encrypt r db =
    let name = domain_name lower r in
    let (db1, d) = ensure_domain name r db in
    let (db2, c, new_credential?) = ensure_credential d.id (encrypt r.source_password) r db1 in
    let (db3, m, new_mailbox?) = ensure_mailbox name d c.id r db2 in
    (queue_provision now m.id db3, m, new_credential? || new_mailbox?)
