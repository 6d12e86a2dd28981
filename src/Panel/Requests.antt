-- ===== src/Panel/Requests.antt =====
-- The requests of routers/mailboxes.py that change something of a mailbox that is there, in any order.
pub mod Kept
use mail_sync_portal.Base.{ℕ, ℤ, String, Bool, List, [], ◌∷◌}
use mail_sync_portal.Panel.Client.{Delivery, Vm2, Reply, World}
use mail_sync_portal.Panel.Mailboxes.{
  Asking, SyncForm, update_quota, sync_now, bulk_sync_config, update_custom_flags,
}
use mail_sync_portal.Panel.Passwords.{update_source_password, reset_password}
use mail_sync_portal.Panel.Deletion.{delete_mailbox}
use mail_sync_portal.Panel.Webmail.{open_webmail}
use mail_sync_portal.Db.{Db}

-- the parts outside: VM2's, the cipher and SHA-256
pub record Library : Type 0 where
  pub vm2 : Vm2
  pub encrypt : String → String
  pub sha256 : String → String

-- The requests on a mailbox, by its id, with the fields of their forms; that of a webmail has the fresh
-- token.
pub data Request : Type 0 where
  ask_quota : ℕ → ℤ → Request
  ask_sync : ℕ → Request
  ask_config : SyncForm → Request
  ask_flags : ℕ → String → Request
  ask_source : ℕ → String → Bool → Request
  ask_password : ℕ → String → String → Request
  ask_webmail : ℕ → String → Request
  ask_delete : ℕ → String → Request

-- a request that only the portal serves
abbrev pub on_portal : World → Db × Reply → World × Reply
on_portal w (db, r) = (record w { portal = db }, r)

unfoldable pub serve : Library → Delivery → Asking → Request → World → World × Reply
serve lib net asking (ask_quota k quota_mb) w = update_quota lib.vm2 net asking.actor k quota_mb w
serve lib net asking (ask_sync k) w = on_portal w (sync_now asking k w.portal)
serve lib net asking (ask_config form) w = on_portal w (bulk_sync_config asking.actor form w.portal)
serve lib net asking (ask_flags k text) w =
    on_portal w (update_custom_flags asking.actor k text w.portal)
serve lib net asking (ask_source k password also_destination) w =
    update_source_password lib.encrypt lib.vm2 net asking.actor k password also_destination w
serve lib net asking (ask_password k password confirm_text) w =
    reset_password lib.encrypt lib.vm2 net asking.actor k password confirm_text w
serve lib net asking (ask_webmail k raw) w =
    on_portal w (open_webmail lib.sha256 asking raw k w.portal)
serve lib net asking (ask_delete k confirm_text) w =
    delete_mailbox lib.vm2 net asking.actor k confirm_text w
