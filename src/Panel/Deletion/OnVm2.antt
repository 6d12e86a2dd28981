-- ===== src/Panel/Deletion/OnVm2.antt =====
-- What a deletion that VM2 has answered leaves of VM2's tables.
use mail_sync_portal.Base.{
  ℕ, ◌≡◌, ◌≢◌, refl, String, true, none, some, ◌==◌, first-deleted, arith, inl, inr, Bool-cases,
  Option-cases,
}
use mail_sync_portal.MailDb
use mail_sync_portal.MailDb.{MailDb, VirtualMailbox}
use mail_sync_portal.Panel.Client.{
  Delivery, lost, answered, answer_lost, Vm2, call, at_id, remove_mailbox,
}
use mail_sync_portal.Panel.Deletion.{delete}

-- VM2's tables without the mailbox `j`.
unfoldable pub without : ℕ → MailDb → MailDb
without j db = record db {
  virtual_mailboxes = delete (λ (x : VirtualMailbox). x.id == j) db.virtual_mailboxes;
}

pub get-without : (j : ℕ) (db : MailDb) → MailDb.get_mailbox j (without j db) ≡ none
unfolding MailDb.get_mailbox without delete
get-without j db =
    rw
      (
        MailDb.get_mailbox,
        first-deleted (λ (x : VirtualMailbox). x.id == j) db.virtual_mailboxes.rows,
      )
      refl

-- The path is that of a mailbox of VM2, which is gone in `after`; nothing else has changed.
pub record IsGone (vm2 : Vm2) (path : String) (before after : MailDb) : Type 0 where
  pub id : ℕ
  pub at_path : vm2.path_id path ≡ some id
  pub was_there : MailDb.get_mailbox id before ≢ none
  pub gone : MailDb.get_mailbox id after ≡ none
  pub rest : after ≡ without id before

-- A call for a deletion that returns has deleted.
pub call-IsGone :
    (vm2 : Vm2) (net : Delivery) (path : String) (db : MailDb)
    → (call net db (remove_mailbox vm2 path db)).1 ≡ true
    → IsGone vm2 path db (call net db (remove_mailbox vm2 path db)).0
unfolding call remove_mailbox at_id MailDb.delete_mailbox without delete
call-IsGone vm2 lost path db = λ e. absurd (ground arith)
call-IsGone vm2 answer_lost path db = λ e. absurd (ground arith)
call-IsGone vm2 answered path db = elim (Option-cases (vm2.path_id path)) [
  | inl p ↦ rw (at_id, p) (λ q. absurd (ground arith))
  | inr (j, p) ↦ elim (Option-cases (MailDb.get_mailbox j db)) [
    | inl g ↦ rw (at_id, p, MailDb.delete_mailbox, g) (λ q. absurd (ground arith))
    | inr ((row, name), g) ↦ elim (Bool-cases (vm2.removed name row.local_part)) [
      | inr r ↦ rw (at_id, p, MailDb.delete_mailbox, g, r) (λ q. absurd (ground arith))
      | inl r ↦
          rw (at_id, p, MailDb.delete_mailbox, g, r)
            (λ q. record {
              id = j;
              at_path = p;
              was_there = λ h. (let bad = h in ground arith);
              gone = get-without j db;
              rest = refl;
            })
    ]
  ]
]
