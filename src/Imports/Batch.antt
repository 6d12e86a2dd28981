-- ===== src/Imports/Batch.antt =====
-- services/import_service.py: `stage_batch` from the parsed rows on, and `commit_batch`.
pub mod Laws
use mail_sync_portal.Base.{
  ℕ, ◌+◌, ◌≡◌, refl, String, Bool, true, false, not, Option, none, some, List, [], ◌∷◌, ◌++◌, ◌&&◌,
  ◌||◌, ◌==◌, str_eq, any, first, select, length, update_where, if◌then◌else◌, strip, is_none,
}
use mail_sync_portal.Db.{
  Table, insert, update, Db, Domain, Credential, Mailbox, ImportRow, ImportBatch, RawRow,
  BatchStatus, parsed, committed, MatchType, new, duplicate_in_file, existing_unchanged,
  existing_updated,
}
use mail_sync_portal.Imports.Service.{Request, or_text, upsert_mailbox}

-- the key of a row among the rows of its file
abbrev pub Key : Type 0
Key = String × String

abbrev pub same_key : Key → Key → Bool
same_key a b = str_eq a.0 b.0 && str_eq a.1 b.1

unfoldable pub domain_of : (String → String) → RawRow → String
domain_of lower raw = strip (lower (or_text "" raw.source_domain))

unfoldable pub user_of : RawRow → String
user_of raw = strip (or_text "" raw.source_username)

unfoldable pub key_of : (String → String) → RawRow → Key
unfolding domain_of user_of
key_of lower raw = (domain_of lower raw, lower (user_of raw))

unfoldable pub row_errors : (String → String) → RawRow → List String
row_errors lower raw =
    (if str_eq (domain_of lower raw) "" then "Brak domeny źródłowej." ∷ [] else [])
    ++ ((if str_eq (user_of raw) "" then "Brak loginu źródłowego." ∷ [] else [])
        ++ (if str_eq (or_text "" raw.source_password) ""
            then "Brak hasła źródłowego." ∷ []
            else []))

-- the join of credentials and domains
unfoldable pub in_domain : String → Db → Credential → Bool
in_domain name db c = any (λ d. d.id == c.domain_id && str_eq d.source_domain name) db.domains.rows

unfoldable pub find_credential : String → String → Db → Option Credential
find_credential name user db =
    first (λ c. in_domain name db c && str_eq c.source_username user) db.credentials.rows

-- `decrypt` gives none where decrypting raises.
unfoldable pub password_unchanged : (String → Option String) → Credential → String → Bool
password_unchanged decrypt existing new_plain = elim (decrypt existing.source_password_encrypted) [
  | none ↦ false
  | some old ↦ str_eq old new_plain
]

unfoldable pub match_existing : (String → Option String) → Option Credential → String → MatchType
match_existing decrypt none password = new
match_existing decrypt (some c) password =
    if password_unchanged decrypt c password then existing_unchanged else existing_updated

abbrev pub is_empty : List String → Bool
is_empty [] = true
is_empty (x ∷ xs) = false

unfoldable pub match_row :
    (String → String) → (String → Option String) → Db → List Key → RawRow → MatchType
match_row lower decrypt db seen raw =
    if any (same_key (key_of lower raw)) seen
    then duplicate_in_file
    else match_existing decrypt (find_credential (domain_of lower raw) (user_of raw) db)
        (or_text "" raw.source_password)

unfoldable pub staged_row :
    (String → String) → (String → Option String) → Db → ℕ → List Key → RawRow → ℕ → ImportRow
staged_row lower decrypt db batch_id seen raw id = record {
  id = id;
  import_batch_id = batch_id;
  raw_row = raw;
  match_type = match_row lower decrypt db seen raw;
  is_valid = is_empty (row_errors lower raw);
  validation_errors = row_errors lower raw;
  resulting_credential_id = none;
}

unfoldable pub see : Key → List Key → List Key
see k seen = if any (same_key k) seen then seen else k ∷ seen

-- The loop over the rows, with the keys seen so far.
unfoldable pub stage_rows :
    (String → String) → (String → Option String) → ℕ → List Key → List RawRow → Db → Db
stage_rows lower decrypt batch_id seen [] db = db
stage_rows lower decrypt batch_id seen (raw ∷ rest) db =
    stage_rows lower decrypt batch_id (see (key_of lower raw) seen) rest (record db {
      import_rows = insert (staged_row lower decrypt db batch_id seen raw) db.import_rows;
    })

unfoldable pub stage_batch :
    (String → String) → (String → Option String) → List RawRow → Db → Db × ImportBatch
stage_batch lower decrypt rows db =
    let batch : ImportBatch = record {
      id = db.import_batches.next_id;
      row_count = length rows;
      status = parsed;
    } in
    (
      stage_rows lower decrypt batch.id [] rows (record db {
        import_batches =
            insert (λ id. record { id = id; row_count = length rows; status = parsed })
              db.import_batches;
      }),
      batch,
    )

-- The request that a row makes; a valid row has the three texts.
unfoldable pub request_of : ImportRow → Request
request_of row = record {
  source_domain = or_text "" row.raw_row.source_domain;
  source_username = or_text "" row.raw_row.source_username;
  source_password = or_text "" row.raw_row.source_password;
  destination_username = row.raw_row.destination_username;
  source_imap_host = none;
  source_imap_port = 993;
  quota_mb = 0;
  import_batch_id = some row.import_batch_id;
}

pub record Counts : Type 0 where
  pub created : ℕ
  pub updated : ℕ
  pub skipped : ℕ

abbrev pub is_duplicate : MatchType → Bool
is_duplicate duplicate_in_file = true
is_duplicate _ = false

unfoldable pub is_skipped : (ℕ → Bool) → ImportRow → Bool
is_skipped selected row = not (selected row.id) || (not row.is_valid || is_duplicate row.match_type)

unfoldable pub commit_row :
    (String → String) → ℕ → (ℕ → String → String) → ImportRow → Db × Counts → Db × Counts
commit_row lower now encrypt row (db, n) =
    let (db', mailbox, was_created) =
      upsert_mailbox lower now (encrypt row.id) (request_of row) db in
    (
      record db' {
        import_rows =
            update (λ r. r.id == row.id)
              (λ r. record r { resulting_credential_id = some mailbox.credential_id })
              db'.import_rows;
      },
      if was_created
          then record n { created = n.created + 1 }
          else record n { updated = n.updated + 1 },
    )

unfoldable pub commit_next :
    (String → String)
    → ℕ
    → (ℕ → String → String)
    → (ℕ → Bool)
    → ImportRow
    → Db × Counts
    → Db × Counts
commit_next lower now encrypt selected row (db, n) =
    if is_skipped selected row
    then (db, record n { skipped = n.skipped + 1 })
    else commit_row lower now encrypt row (db, n)

unfoldable pub commit_rows :
    (String → String)
    → ℕ
    → (ℕ → String → String)
    → (ℕ → Bool)
    → List ImportRow
    → Db × Counts
    → Db × Counts
commit_rows lower now encrypt selected [] s = s
commit_rows lower now encrypt selected (row ∷ rows) s =
    commit_rows lower now encrypt selected rows (commit_next lower now encrypt selected row s)

abbrev pub no_counts : Counts
no_counts = record { created = 0; updated = 0; skipped = 0 }

abbrev pub is_parsed : BatchStatus → Bool
is_parsed parsed = true
is_parsed _ = false

-- `none` is the ImportValidationError: the batch was processed before.
unfoldable pub commit_batch :
    (String → String)
    → ℕ
    → (ℕ → String → String)
    → (ℕ → Bool)
    → ImportBatch
    → Db
    → Option (Db × Counts)
commit_batch lower now encrypt selected batch db =
    if not (is_parsed batch.status)
    then none
    else let rows = select (λ r. r.import_batch_id == batch.id) db.import_rows.rows in
      let (db', n) = commit_rows lower now encrypt selected rows (db, no_counts) in
      some (
        record db' {
          import_batches =
              update (λ b. b.id == batch.id) (λ b. record b { status = committed })
                db'.import_batches;
        },
        n,
      )
