-- ===== src/Imports/Batch/Laws.antt =====
-- What staging and committing a batch guarantee.
use mathlib.Core.Bool.{false≢true}
use mail_sync_portal.Base.{
  ℕ, ◌+◌, ◌≡◌, refl, sym, ◌∙◌, String, Bool, true, false, none, some, inl, inr, List, [], ◌∷◌,
  arith, ◌==◌, select, length, Bool-cases, ◌↔◌, ==_refl, All-update, All-trivial, All,
}
use mail_sync_portal.Db.{Db, update, ImportRow, ImportBatch, committed}
use mail_sync_portal.Imports.Service.Keys.{IsKeyed, upsert-IsKeyed}
use mail_sync_portal.Imports.Batch.{
  Counts, no_counts, is_skipped, commit_row, commit_next, commit_rows, commit_batch, is_parsed,
  request_of,
}

total : Counts → ℕ
total n = n.created + n.updated + n.skipped

module _ (lower : String → String) (now : ℕ) (encrypt : ℕ → String → String)
    (selected : ℕ → Bool) where
  commit_next-total :
      (row : ImportRow) (s : Db × Counts)
      → total (commit_next lower now encrypt selected row s).1 ≡ total s.1 + 1
  unfolding commit_next commit_row total
  commit_next-total row (db, n) = ground arith

  commit_rows-total :
      (rows : List ImportRow) (s : Db × Counts)
      → total (commit_rows lower now encrypt selected rows s).1 ≡ total s.1 + length rows
  unfolding commit_rows
  commit_rows-total [] s = omega arith
  commit_rows-total (row ∷ rows) s = omega (
    arith,
    commit_rows-total rows (commit_next lower now encrypt selected row s),
    commit_next-total row s,
  )

  commit_next-IsKeyed :
      (row : ImportRow) (s : Db × Counts)
      → IsKeyed s.0
      → IsKeyed (commit_next lower now encrypt selected row s).0
  unfolding commit_next commit_row
  commit_next-IsKeyed row (db, n) k = elim (Bool-cases (is_skipped selected row)) [
    | inl e ↦ rw e k
    | inr e ↦
        let h = upsert-IsKeyed lower now (encrypt row.id) (request_of row) db k in
        rw e (record {
          domains = h.domains;
          credentials = h.credentials;
          mailboxes = h.mailboxes;
          sync_jobs = h.sync_jobs;
          past = h.past;
        })
  ]

  commit_rows-IsKeyed :
      (rows : List ImportRow) (s : Db × Counts)
      → IsKeyed s.0
      → IsKeyed (commit_rows lower now encrypt selected rows s).0
  unfolding commit_rows
  commit_rows-IsKeyed [] s k = k
  commit_rows-IsKeyed (row ∷ rows) s k =
      commit_rows-IsKeyed rows (commit_next lower now encrypt selected row s)
        (commit_next-IsKeyed row s k)

  -- What a committed batch leaves: the keys hold, each row of the batch is counted once, and the batch
  -- is committed in the table.
  pub record Committed (batch : ImportBatch) (before : Db) (after : Db × Counts) : Type 0 where
    pub keyed : IsKeyed after.0
    pub counted :
        after.1.created + after.1.updated + after.1.skipped
        ≡ length (select (λ r. r.import_batch_id == batch.id) before.import_rows.rows)
    pub closed : All (λ b. b.id ≡ batch.id → is_parsed b.status ≡ false) after.0.import_batches.rows

  -- A batch that is parsed is committed: the keys of the tables are kept, the counters add up to the
  -- rows of the batch, and no row of the batch's id is parsed any more.
  pub commit_batch-Committed :
      (batch : ImportBatch) (db : Db)
      → is_parsed batch.status ≡ true
      → IsKeyed db
      → (after : Db × Counts) × (commit_batch lower now encrypt selected batch db ≡ some after)
        × Committed batch db after
  unfolding commit_batch total
  commit_batch-Committed batch db open_batch k =
      let rows = select (λ r. r.import_batch_id == batch.id) db.import_rows.rows in
      let s = commit_rows lower now encrypt selected rows (db, no_counts) in
      let h = commit_rows-IsKeyed rows (db, no_counts) k in
      (
        (
          record s.0 {
            import_batches =
                update (λ b. b.id == batch.id) (λ b. record b { status = committed })
                  s.0.import_batches;
          },
          s.1,
        ),
        rw open_batch refl,
        record {
          keyed = record {
            domains = h.domains;
            credentials = h.credentials;
            mailboxes = h.mailboxes;
            sync_jobs = h.sync_jobs;
            past = h.past;
          };
          counted = omega (arith, commit_rows-total rows (db, no_counts));
          closed =
              unfold update in
              All-update (λ b. Unit {0}) (λ b. b.id ≡ batch.id → is_parsed b.status ≡ false)
                (λ b. b.id == batch.id) _ s.0.import_batches.rows (λ b e u q. refl)
                (λ b e u q. absurd (false≢true (sym e ∙ rw q (==_refl batch.id))))
                (All-trivial s.0.import_batches.rows);
        },
      )

-- A batch that is not parsed is refused, so no batch is committed twice.
pub commit_batch-refused :
    (lower : String → String) (now : ℕ) (encrypt : ℕ → String → String) (selected : ℕ → Bool)
    (batch : ImportBatch) (db : Db)
    → (commit_batch lower now encrypt selected batch db ≡ none) ↔ (is_parsed batch.status ≡ false)
unfolding commit_batch
commit_batch-refused lower now encrypt selected batch db = (λ e. ground arith, λ e. rw e refl)
