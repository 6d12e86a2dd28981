-- ===== src/Panel/Passwords.antt =====
-- routers/mailboxes.py: the passwords of a mailbox on the source and on VM2.
use mail_sync_portal.Base.{
  ℕ, ◌==◌, String, Bool, true, false, not, none, some, ◌||◌, str_eq, is_none, or_else,
  if◌then◌else◌,
}
use mail_sync_portal.Db.{update, Db, Mailbox, Credential}
use mail_sync_portal.Queue.Handlers.{get_mailbox, get_credential, modify_mailbox, is_blank}
use mail_sync_portal.Panel.Client.{
  Delivery, Vm2, call, post_password, Reply, accepted, refused, http, World, stop, audited,
}
use mail_sync_portal.Panel.Mailboxes.{confirm_phrase}

-- `encrypt` is the cipher of the portal.
module _ (encrypt : String → String) where
  abbrev pub set_source : String → Credential → Credential
  set_source cipher c = record c { source_password_encrypted = cipher }

  unfoldable pub save_source : ℕ → Mailbox → String → Db → Db
  save_source actor m password db =
      audited actor "mailbox.source_password_update" (some m.id) (record db {
        credentials =
            update (λ (c : Credential). c.id == m.credential_id) (set_source (encrypt password))
              db.credentials;
      })

  -- the password of the mailbox on VM2, and whether it is another than that of the source
  abbrev pub set_destination : Bool → String → Mailbox → Mailbox
  set_destination override cipher m = record m {
    password_override = override;
    destination_password_encrypted = some cipher;
  }

  unfoldable pub save_destination : ℕ → Bool → Mailbox → String → Db → Db
  save_destination actor override m password db =
      audited actor "mailbox.reset_password" (some m.id)
        (modify_mailbox m.id (set_destination override (encrypt password)) db)

  -- `also_destination`: an error of VM2 is shown, and what is saved of the source stays.
  unfoldable pub mirror : Vm2 → Delivery → ℕ → Mailbox → String → World → World × Reply
  mirror vm2 net actor m password w =
      if is_blank m.vm2_mailbox_id || is_blank w.portal.vm2_host
      then (w, accepted)
      else let (vm2_db, returned) =
          call net w.vm2 (post_password vm2 (or_else "" m.vm2_mailbox_id) password w.vm2) in
        if returned
        then (
          record { portal = save_destination actor false m password w.portal; vm2 = vm2_db },
          accepted,
        )
        else (record w { vm2 = vm2_db }, refused)

  unfoldable pub change_source :
      Vm2 → Delivery → ℕ → Mailbox → String → Bool → World → World × Reply
  change_source vm2 net actor m password also_destination w =
      let w' = record w { portal = save_source actor m password w.portal } in
      if also_destination then mirror vm2 net actor m password w' else (w', accepted)

  unfoldable pub update_source_password :
      Vm2 → Delivery → ℕ → ℕ → String → Bool → World → World × Reply
  update_source_password vm2 net actor mailbox_id password also_destination w =
      elim (get_mailbox mailbox_id w.portal) [
        | none ↦ stop (http 404) w
        | some m ↦
            (if is_none (get_credential m.credential_id w.portal)
              then stop (http 404) w
              else change_source vm2 net actor m password also_destination w)
      ]

  unfoldable pub reset_known : Vm2 → Delivery → ℕ → Mailbox → String → World → World × Reply
  reset_known vm2 net actor m password w =
      let (vm2_db, returned) =
        call net w.vm2 (post_password vm2 (or_else "" m.vm2_mailbox_id) password w.vm2) in
      if returned
      then (
        record { portal = save_destination actor true m password w.portal; vm2 = vm2_db },
        accepted,
      )
      else (record w { vm2 = vm2_db }, http 500)

  unfoldable pub reset_password : Vm2 → Delivery → ℕ → ℕ → String → String → World → World × Reply
  reset_password vm2 net actor mailbox_id password confirm_text w =
      elim (get_mailbox mailbox_id w.portal) [
        | none ↦ stop (http 404) w
        | some m ↦
            (if not (str_eq confirm_text confirm_phrase)
              then stop refused w
              else if is_blank m.vm2_mailbox_id
              then stop (http 400) w
              else if is_none w.portal.vm2_host
              then stop (http 503) w
              else reset_known vm2 net actor m password w)
      ]
