-- ===== src/Panel/Mailboxes/Laws.antt =====
-- The pending synchronisations, the deletion on VM2 and the flags of imapsync under the requests.
use mail_sync_portal.Base.{
  ℕ, ◌+◌, ◌≡◌, refl, sym, ==→eq, subst, max, String, Bool, true, false, List, inl, inr, arith, ◌==◌,
  ◌&&◌, not, str_eq, All, All-update_where, is_none, of_if, of_test, Bool-cases, if◌then◌else◌,
  count_where,
}
use mail_sync_portal.Db.{Db, SyncJob, insert, update}
use mail_sync_portal.Imapsync.Flags.{ok, validate_custom_flags}
use mail_sync_portal.Queue.Query.{pending_sync}
use mail_sync_portal.Queue.Handlers.{get_mailbox}
use mail_sync_portal.Queue.Scheduler.{already_pending}
use mail_sync_portal.Queue.Scheduler.Pending.{pending_count, count_where-append, any-zero, any-pos}
use mail_sync_portal.Panel.Client.{Reply, audited}
use mail_sync_portal.Panel.Mailboxes.{
  Asking, enqueue_manual, sync_now, SyncForm, configure, is_chosen, is_empty, confirm_phrase,
  bulk_sync_config,
}

count-manual :
    (asking : Asking) (k m : ℕ) (db : Db)
    → pending_count m (enqueue_manual asking k db) ≡ pending_count m db + (if k == m then 1 else 0)
unfolding pending_count enqueue_manual insert count_where audited
count-manual asking k m db = rw (count_where-append (pending_sync m) db.job_queue.rows) refl

pending-pos :
    (k : ℕ) (db : Db)
    → already_pending k db ≡ true
    → max 1 (pending_count k db) ≡ pending_count k db
unfolding already_pending pending_count
pending-pos k db e = omega (arith, any-pos (pending_sync k) db.job_queue.rows e)

pending-zero : (k : ℕ) (db : Db) → already_pending k db ≡ false → pending_count k db ≡ 0
unfolding already_pending pending_count
pending-zero k db e = any-zero (pending_sync k) db.job_queue.rows e

-- "Synchronizuj teraz" of a mailbox that is there leaves at least one pending synchronisation of it,
-- and adds one only where there was none; those of the other mailboxes stay as they are.
pub pending-sync_now :
    (asking : Asking) (k m : ℕ) (db : Db)
    → is_none (get_mailbox k db) ≡ false
    → pending_count m (sync_now asking k db).0
      ≡ (if k == m then max 1 (pending_count m db) else pending_count m db)
unfolding sync_now
pending-sync_now asking k m db h = elim (Bool-cases (already_pending k db)) [
  | inl e ↦
      rw (sync_now, h, e)
        (elim (Bool-cases (k == m)) [
          | inl q ↦
              rw q
                (sym (pending-pos m db (subst (λ j. already_pending j db ≡ true) (==→eq k m q) e)))
          | inr q ↦ rw q refl
        ])
  | inr e ↦
      rw (sync_now, h, e)
        (rw (count-manual asking k m db) (elim (Bool-cases (k == m)) [
          | inl q ↦
              let z =
                pending-zero m db (subst (λ j. already_pending j db ≡ false) (==→eq k m q) e) in
              rw (q, z) refl
          | inr q ↦ rw q (omega arith)
        ]))
]

-- A synchronisation that deletes on VM2 what the source no longer has is one that `Q` allows.
abbrev pub DeletesOnly : (ℕ → Type 0) → Db → Type 0
DeletesOnly Q db =
    All (λ (s : SyncJob). s.delete_on_dest_when_missing_from_source ≡ true → Q s.id)
      db.sync_jobs.rows

-- Without the typed phrase the form lets no other synchronisation delete than those that do already.
pub bulk-DeletesOnly :
    (Q : ℕ → Type 0) (actor : ℕ) (form : SyncForm) (db : Db)
    → str_eq form.confirm_text confirm_phrase ≡ false
    → DeletesOnly Q db
    → DeletesOnly Q (bulk_sync_config actor form db).0
unfolding bulk_sync_config audited update
bulk-DeletesOnly Q actor form db other h =
    let P = λ (r : Db × Reply). DeletesOnly Q r.0 in
    of_test P (form.delete_on_dest && not (str_eq form.confirm_text confirm_phrase)) (λ e. h)
      (λ e. of_if P (is_empty form.mailbox_ids) h (
        All-update_where
          (λ (s : SyncJob). s.delete_on_dest_when_missing_from_source ≡ true → Q s.id)
          (is_chosen form.mailbox_ids) (configure form) db.sync_jobs.rows
          (λ s c q d.
            absurd (both form.delete_on_dest (str_eq form.confirm_text confirm_phrase) d other e))
          h))
  where
    both : (a b : Bool) → a ≡ true → b ≡ false → (a && not b) ≡ false → ⊥
    both a b d n e = ground arith

-- The flags of a mailbox are ones that the runs of imapsync take.
abbrev pub AreTaken : String → Type 0
AreTaken text = (argv : List String) × (validate_custom_flags text ≡ ok argv)

abbrev pub HasFlags : Db → Type 0
HasFlags db = All (λ (s : SyncJob). AreTaken s.custom_flags) db.sync_jobs.rows
