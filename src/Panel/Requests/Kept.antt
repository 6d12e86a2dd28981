-- ===== src/Panel/Requests/Kept.antt =====
-- What a request of the panel that fails leaves of the portal's tables.
use mail_sync_portal.Base.{ℕ, ◌≡◌, String, some}
use mail_sync_portal.Db.{Db, Mailbox, Credential}
use mail_sync_portal.Queue.Handlers.{get_mailbox, get_credential}
use mail_sync_portal.Panel.Client.{Reply, accepted, refused, http, World}
use mail_sync_portal.Panel.Mailboxes.{Asking}
use mail_sync_portal.Panel.Passwords.{save_source}
use mail_sync_portal.Panel.Requests.{Library, Request, ask_source, on_portal}

-- With a status of an error the portal's tables are as they were, and with the text of an error they are
-- as in `saved`.
abbrev KeptOrSaved : Db → World → World × Reply → Type 0
KeptOrSaved saved w (w', http n) = w'.portal ≡ w.portal
KeptOrSaved saved w (w', accepted) = Unit
KeptOrSaved saved w (w', refused) = w'.portal ≡ saved

-- With an error, by its status or by its text, the portal's tables are as they were.
abbrev pub KeptOnError : World → World × Reply → Type 0
KeptOnError w (w', http n) = w'.portal ≡ w.portal
KeptOnError w (w', accepted) = Unit
KeptOnError w (w', refused) = w'.portal ≡ w.portal

-- The same of a request that only the portal serves.
abbrev KeptByPortal : World → Db × Reply → Type 0
KeptByPortal w r = KeptOnError w (on_portal w r)

-- The credential of the mailbox has the new password.
abbrev pub HasPassword : (String → String) → Mailbox → String → Db → Type 0
HasPassword encrypt m password db =
    (c : Credential) × (get_credential m.credential_id db ≡ some c)
    × (c.source_password_encrypted ≡ encrypt password)

-- A new source password that is answered with the text of an error is saved, and nothing else is: the
-- tables are those that `save_source` gives for the mailbox, and its credential has the password.
abbrev pub KeptButPassword : (String → String) → ℕ → ℕ → String → World → World × Reply → Type 0
KeptButPassword encrypt actor k password w (w', http n) = w'.portal ≡ w.portal
KeptButPassword encrypt actor k password w (w', accepted) = Unit
KeptButPassword encrypt actor k password w (w', refused) =
    (m : Mailbox) × (get_mailbox k w.portal ≡ some m)
    × (w'.portal ≡ save_source encrypt actor m password w.portal)
    × HasPassword encrypt m password w'.portal

-- What each request leaves.
abbrev pub Kept : Library → Asking → Request → World → World × Reply → Type 0
Kept lib asking (ask_source k password also) w r =
    KeptButPassword lib.encrypt asking.actor k password w r
Kept lib asking _ w r = KeptOnError w r
