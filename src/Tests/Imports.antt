-- ===== src/Tests/Imports.antt =====
-- The theorems on imports at concrete inputs.
use mail_sync_portal.Base.{◌≡◌, refl, none, some, true, String, [], ◌∷◌}
use mail_sync_portal.Db.{Db, empty_db, ImportBatch, parsed, new}
use mail_sync_portal.Imports.Service.{Request, upsert_mailbox}
use mail_sync_portal.Imports.Service.Upsert.{
  IsRegistered, upsert-IsRegistered, IsRepeat, upsert_twice,
}
use mail_sync_portal.Imports.Service.Keys.{IsKeyed, upsert-IsKeyed}
use mail_sync_portal.Imports.Batch.{Counts, commit_batch}
use mail_sync_portal.Imports.Batch.Laws.{Committed, commit_batch-Committed}

abbrev lower_ascii : String → String
lower_ascii s = s

abbrev ask : Request
ask = record {
  source_domain = "example.com";
  source_username = "jan";
  source_password = "secret";
  destination_username = none;
  source_imap_host = none;
  source_imap_port = 993;
  quota_mb = 0;
  import_batch_id = none;
}

abbrev cipher : String → String
cipher s = "enc"

upsert-IsRegistered_example :
    IsRegistered lower_ascii
      (cipher "secret")
      ask
      (upsert_mailbox lower_ascii 5 cipher ask empty_db).1
      (upsert_mailbox lower_ascii 5 cipher ask empty_db).0
upsert-IsRegistered_example = upsert-IsRegistered lower_ascii 5 cipher ask empty_db

upsert_twice_example :
    IsRepeat
      (upsert_mailbox lower_ascii 5 cipher ask empty_db).0
      (upsert_mailbox lower_ascii 5 cipher ask empty_db).1
      (upsert_mailbox lower_ascii 9
        (λ s. s)
        ask
        (upsert_mailbox lower_ascii 5 cipher ask empty_db).0)
upsert_twice_example = upsert_twice lower_ascii 5 9 cipher (λ s. s) ask empty_db

nothing-IsKeyed : IsKeyed empty_db
nothing-IsKeyed = record {
  domains = tt;
  credentials = tt;
  mailboxes = tt;
  sync_jobs = tt;
  past = tt;
}

upsert-IsKeyed_example : IsKeyed (upsert_mailbox lower_ascii 5 cipher ask empty_db).0
upsert-IsKeyed_example = upsert-IsKeyed lower_ascii 5 cipher ask empty_db nothing-IsKeyed

abbrev batch : ImportBatch
batch = record { id = 1; row_count = 1; status = parsed }

abbrev staged : Db
staged = record empty_db {
  import_batches = record { rows = batch ∷ []; next_id = 2 };
  import_rows = record {
    rows =
        (record {
          id = 1;
          import_batch_id = 1;
          raw_row = record {
            source_domain = some "example.com";
            source_username = some "jan";
            source_password = some "secret";
            destination_username = none;
            display_name = none;
          };
          match_type = new;
          is_valid = true;
          validation_errors = [];
          resulting_credential_id = none;
        })
        ∷ [];
    next_id = 2;
  };
}

commit_batch-Committed_example :
    (after : Db × Counts) × (commit_batch lower_ascii 5 (λ k. cipher) (λ k. true) batch staged
      ≡ some after)
    × Committed lower_ascii 5 (λ k. cipher) (λ k. true) batch staged after
commit_batch-Committed_example =
    commit_batch-Committed lower_ascii 5 (λ k. cipher) (λ k. true) batch staged refl
      (record { domains = tt; credentials = tt; mailboxes = tt; sync_jobs = tt; past = tt })
