-- ===== src/Panel/Deletion/Stuck.antt =====
-- A mailbox that VM2 has no more cannot be deleted, and the deletion of an imported one ends there.
use mail_sync_portal.Base.{
  any, ℕ, ◌≡◌, ◌≢◌, refl, String, true, false, none, some, ◌==◌, str_eq, strip, not, of_if, of_test,
  is_none, or_else, arith, sym, subst, ◌∙◌,
}
use mail_sync_portal.Db.{Mailbox}
use mail_sync_portal.MailDb.{MailDb, VirtualMailbox, Answer, failure, answer, mailbox_not_found}
use mail_sync_portal.MailDb
use mail_sync_portal.Queue.Handlers.{get_credential, get_mailbox, is_blank}
use mail_sync_portal.Panel.Client.{
  Delivery, lost, answered, answer_lost, Vm2, call, at_id, remove_mailbox, Reply, accepted, http,
  World,
}
use mail_sync_portal.Panel.Deletion.OnVm2.{without, get-without}
use mail_sync_portal.Panel.Deletion.{
  delete, delete_rows, delete_credential, is_imported, delete_local, finish_deletion, delete_on_vm2,
  delete_known, delete_mailbox,
}

-- The mailbox `k` of the portal has the id `j` on VM2.
pub record IsOnVm2 (vm2 : Vm2) (k j : ℕ) (m : Mailbox) (w : World) : Type 0 where
  pub found : get_mailbox k w.portal ≡ some m
  pub provisioned : is_blank m.vm2_mailbox_id ≡ false
  pub path : vm2.path_id (or_else "" m.vm2_mailbox_id) ≡ some j

-- An answer that changes nothing.
abbrev pub Refuses : World → World × Reply → Type 0
Refuses w r = (r.0 ≡ w) × (r.1 ≢ accepted)

remove_missing :
    (vm2 : Vm2) (path : String) (j : ℕ) (db : MailDb)
    → vm2.path_id path ≡ some j
    → MailDb.get_mailbox j db ≡ none
    → remove_mailbox vm2 path db ≡ failure mailbox_not_found
unfolding remove_mailbox at_id MailDb.delete_mailbox
remove_missing vm2 path j db p g = rw (p, at_id, MailDb.delete_mailbox, g) refl

call_missing :
    (vm2 : Vm2) (net : Delivery) (path : String) (j : ℕ) (db : MailDb)
    → vm2.path_id path ≡ some j
    → MailDb.get_mailbox j db ≡ none
    → call net db (remove_mailbox vm2 path db) ≡ (db, false)
unfolding call
call_missing vm2 lost path j db p g = refl
call_missing vm2 answered path j db p g = rw (remove_missing vm2 path j db p g) refl
call_missing vm2 answer_lost path j db p g = rw (remove_missing vm2 path j db p g) refl

remove_found :
    (vm2 : Vm2) (path : String) (j : ℕ) (db : MailDb) (row : VirtualMailbox) (name : String)
    → vm2.path_id path ≡ some j
    → MailDb.get_mailbox j db ≡ some (row, name)
    → vm2.removed name row.local_part ≡ true
    → remove_mailbox vm2 path db ≡ answer (without j db) (name, row.local_part)
unfolding remove_mailbox without delete at_id MailDb.delete_mailbox
remove_found vm2 path j db row name p g r = rw (p, at_id, MailDb.delete_mailbox, g, r) refl

vm2-Refuses :
    (vm2 : Vm2) (net : Delivery) (actor : ℕ) (m : Mailbox) (w : World)
    → call net w.vm2 (remove_mailbox vm2 (or_else "" m.vm2_mailbox_id) w.vm2) ≡ (w.vm2, false)
    → Refuses w (delete_on_vm2 vm2 net actor m w)
unfolding delete_on_vm2
vm2-Refuses vm2 net actor m w e =
    of_if (Refuses w) (is_none w.portal.vm2_host) (refl, (λ q. ground arith))
      (rw (e, Refuses) (refl, (λ q. ground arith)))

known-Refuses :
    (vm2 : Vm2) (net : Delivery) (actor : ℕ) (text : String) (m : Mailbox) (w : World)
    → is_blank m.vm2_mailbox_id ≡ false
    → call net w.vm2 (remove_mailbox vm2 (or_else "" m.vm2_mailbox_id) w.vm2) ≡ (w.vm2, false)
    → Refuses w (delete_known vm2 net actor text w m)
unfolding delete_known
known-Refuses vm2 net actor text m w b e =
    let P = Refuses w in
    of_if P (not (str_eq (strip text) m.destination_address)) (refl, (λ q. ground arith))
      (of_test P (is_blank m.vm2_mailbox_id) (λ t. absurd (ground arith))
        (λ f. vm2-Refuses vm2 net actor m w e))

-- Where VM2 has no row of the mailbox any more, a deletion is refused and changes nothing on either
-- machine, whatever the network does and the administrator types: the panel keeps the mailbox.
pub missing-Refuses :
    (vm2 : Vm2) (net : Delivery) (actor k j : ℕ) (text : String) (m : Mailbox) (w : World)
    → IsOnVm2 vm2 k j m w
    → MailDb.get_mailbox j w.vm2 ≡ none
    → Refuses w (delete_mailbox vm2 net actor k text w)
unfolding delete_mailbox
missing-Refuses vm2 net actor k j text m w h g =
    rw (delete_mailbox, h.found)
      (known-Refuses vm2 net actor text m w h.provisioned (call_missing vm2 net _ j w.vm2 h.path g))

-- An imported mailbox that VM2 can delete: a row of an import refers to its credential, which no other
-- mailbox has.
pub record IsImported (vm2 : Vm2) (k j : ℕ) (m : Mailbox) (text : String) (w : World) : Type 0 where
  pub on_vm2 : IsOnVm2 vm2 k j m w
  pub typed : str_eq (strip text) m.destination_address ≡ true
  pub connected : is_none w.portal.vm2_host ≡ false
  pub row : VirtualMailbox
  pub domain : String
  pub there : MailDb.get_mailbox j w.vm2 ≡ some (row, domain)
  pub removed : vm2.removed domain row.local_part ≡ true
  pub alone :
      any
        (λ (x : Mailbox). x.credential_id == m.credential_id)
        (delete_rows m.id w.portal).mailboxes.rows
      ≡ false
  pub credential : is_none (get_credential m.credential_id w.portal) ≡ false
  pub referred : is_imported m.credential_id w.portal ≡ true

referred_kept :
    (vm2 : Vm2) (k j : ℕ) (m : Mailbox) (text : String) (w : World)
    → IsImported vm2 k j m text w
    → delete_credential m.credential_id (delete_rows m.id w.portal) ≡ none
unfolding delete_credential delete_rows get_credential
referred_kept vm2 k j m text w h = rw (delete_credential, h.alone, h.credential, h.referred) refl

imported-found :
    (vm2 : Vm2) (actor k j : ℕ) (text : String) (m : Mailbox) (w : World)
    → IsImported vm2 k j m text w
    → delete_mailbox vm2 answered actor k text w ≡ delete_on_vm2 vm2 answered actor m w
unfolding delete_mailbox delete_known
imported-found vm2 actor k j text m w h =
    rw (delete_mailbox, h.on_vm2.found, delete_known, h.typed, h.on_vm2.provisioned) refl

imported-vm2 :
    (vm2 : Vm2) (actor k j : ℕ) (text : String) (m : Mailbox) (w : World)
    → IsImported vm2 k j m text w
    → delete_on_vm2 vm2 answered actor m w
      ≡ (record { portal = w.portal; vm2 = without j w.vm2 }, http 500)
unfolding delete_on_vm2 call finish_deletion delete_local
imported-vm2 vm2 actor k j text m w h =
    let e = remove_found vm2 _ j w.vm2 h.row h.domain h.on_vm2.path h.there h.removed in
    rw
      (
        delete_on_vm2,
        h.connected,
        e,
        finish_deletion,
        delete_local,
        referred_kept vm2 k j m text w h,
      )
      (rw e refl)

-- What the first deletion leaves, and that no later one ends otherwise.
pub record IsStuck (vm2 : Vm2) (k j : ℕ) (w : World) (r : World × Reply) : Type 0 where
  pub failed : r.1 ≡ http 500
  pub kept : r.0.portal ≡ w.portal
  pub lost : MailDb.get_mailbox j r.0.vm2 ≡ none
  pub retried :
      (net : Delivery) (actor : ℕ) (text : String)
      → Refuses r.0 (delete_mailbox vm2 net actor k text r.0)

-- The deletion of an imported mailbox, with its address typed and VM2 answering, fails with status 500:
-- VM2 has deleted the mailbox, the portal keeps it as it was, and every later deletion of it is refused
-- and changes nothing.
pub imported-IsStuck :
    (vm2 : Vm2) (actor k j : ℕ) (text : String) (m : Mailbox) (w : World)
    → IsImported vm2 k j m text w
    → IsStuck vm2 k j w (delete_mailbox vm2 answered actor k text w)
imported-IsStuck vm2 actor k j text m w h =
    let w' : World = record { portal = w.portal; vm2 = without j w.vm2 } in
    let r : World × Reply = (w', http 500) in
    let gone = get-without j w.vm2 in
    subst (IsStuck vm2 k j w)
      (sym (imported-found vm2 actor k j text m w h ∙ imported-vm2 vm2 actor k j text m w h))
      (record {
        failed = refl;
        kept = refl;
        lost = gone;
        retried = λ net actor' text'.
            missing-Refuses vm2 net actor' k j text' m w'
              (record {
                found = h.on_vm2.found;
                provisioned = h.on_vm2.provisioned;
                path = h.on_vm2.path;
              })
              gone;
      })
