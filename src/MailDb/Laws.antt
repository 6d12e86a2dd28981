-- ===== src/MailDb/Laws.antt =====
-- `create_mailbox` of VM2 is idempotent.
use mail_sync_portal.Base.{
  ℕ, ◌≡◌, refl, String, true, false, some, inl, inr, ==_refl, str_eq, eq_iff, first,
  first-append_new, Option-cases,
}
use mail_sync_portal.Db.{insert}
use mail_sync_portal.MailDb.{
  VirtualDomain, VirtualMailbox, MailDb, get_domain, ensure_domain, is_mailbox, new_mailbox,
  create_mailbox,
}

pub ensure_known :
    (name : String) (db : MailDb) (d : VirtualDomain)
    → get_domain name db ≡ some d
    → ensure_domain name db ≡ (db, d)
unfolding ensure_domain
ensure_known name db d e = rw (e, ensure_domain) refl

pub str_eq_refl : (s : String) → str_eq s s ≡ true
str_eq_refl s = (eq_iff s s).1 refl

pub ensure-found :
    (name : String) (db : MailDb)
    → get_domain name (ensure_domain name db).0 ≡ some (ensure_domain name db).1
ensure-found name db = elim (Option-cases (get_domain name db)) [
  | inl e ↦
      unfold ensure_domain in
      rw (e, ensure_domain)
        (unfold get_domain insert in
          first-append_new (λ (d : VirtualDomain). str_eq d.name name) db.virtual_domains.rows _
            (unfold get_domain in e) (str_eq_refl name))
  | inr (d, e) ↦ rw (ensure_known name db d e) e
]

is_mailbox-new :
    (name part hash : String) (quota id : ℕ) (d : VirtualDomain)
    → is_mailbox d.id part (new_mailbox name d part hash quota id) ≡ true
is_mailbox-new name part hash quota id d = rw (==_refl d.id, str_eq_refl part) refl

pub create_old :
    (name part hash : String) (quota : ℕ) (db : MailDb) (d : VirtualDomain) (m : VirtualMailbox)
    → get_domain name db ≡ some d
    → first (is_mailbox d.id part) db.virtual_mailboxes.rows ≡ some m
    → create_mailbox name part hash quota db ≡ (db, m, false)
unfolding create_mailbox
create_old name part hash quota db d m found e =
    rw (ensure_known name db d found, e, create_mailbox) refl

-- A mailbox that is created again is found as it is, whatever the second password and quota are: the
-- answer is the first one, told to be old, and the database stays the same.
pub create_again :
    (name part hash hash' : String) (quota quota' : ℕ) (db : MailDb)
    → create_mailbox name part hash' quota' (create_mailbox name part hash quota db).0 ≡ (
      (create_mailbox name part hash quota db).0,
      (create_mailbox name part hash quota db).1,
      false,
    )
unfolding create_mailbox
create_again name part hash hash' quota quota' db =
    let db' = (ensure_domain name db).0 in
    let d = (ensure_domain name db).1 in
    let found = ensure-found name db in
    elim (Option-cases (first (is_mailbox d.id part) db'.virtual_mailboxes.rows)) [
      | inl e ↦
          let make = new_mailbox name d part hash quota in
          let grown = record db' { virtual_mailboxes = insert make db'.virtual_mailboxes } in
          let m = make db'.virtual_mailboxes.next_id in
          rw (e, create_mailbox)
            (create_old name part hash' quota' grown d m (unfold get_domain in found) (
              unfold insert in
              first-append_new (is_mailbox d.id part) db'.virtual_mailboxes.rows m e
                (is_mailbox-new name part hash quota db'.virtual_mailboxes.next_id d)))
      | inr (m, e) ↦ rw (e, create_mailbox) (create_old name part hash' quota' db' d m found e)
    ]
