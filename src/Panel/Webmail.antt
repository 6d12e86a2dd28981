-- ===== src/Panel/Webmail.antt =====
-- routers/mailboxes.py, `open_webmail`, and the plugin of Roundcube that takes its token
-- (templates/roundcube/plugins/portal_sso/portal_sso.php). The generator of tokens and SHA-256 are
-- parameters.
pub mod Laws
use mail_sync_portal.Base.{
  ℕ, ◌+◌, String, Bool, not, Option, none, some, ◌&&◌, ◌||◌, str_eq, ltb, is_none, first,
  if◌then◌else◌,
}
use mail_sync_portal.Db.{insert, update, Db, Mailbox, WebmailSsoToken}
use mail_sync_portal.Queue.Handlers.{get_mailbox, is_provisioned}
use mail_sync_portal.Panel.Client.{Reply, accepted, http, audited}
use mail_sync_portal.Panel.Mailboxes.{Asking}

abbrev pub sso_token_ttl_seconds : ℕ
sso_token_ttl_seconds = 60

abbrev pub new_token : Asking → String → Mailbox → ℕ → WebmailSsoToken
new_token asking token_hash m id = record {
  id = id;
  token_hash = token_hash;
  mailbox_id = m.id;
  mailbox_address = m.destination_address;
  actor_admin_user_id = some asking.actor;
  expires_at = asking.now + sso_token_ttl_seconds;
  used_at = none;
}

-- The address is for the token `raw`, whose hash is saved.
unfoldable pub open_webmail : (String → String) → Asking → String → ℕ → Db → Db × Reply
open_webmail sha256 asking raw mailbox_id db =
    if not db.webmail_sso_enabled then (db, http 403) else elim (get_mailbox mailbox_id db) [
      | none ↦ (db, http 404)
      | some m ↦
          (if not (is_provisioned m) then (db, http 400) else (
            audited asking.actor "mailbox.opened_in_roundcube" (some m.id) (record db {
              webmail_sso_tokens = insert (new_token asking (sha256 raw) m) db.webmail_sso_tokens;
            }),
            accepted,
          ))
    ]

-- UPDATE webmail_sso_tokens SET used_at = now() WHERE token_hash = … AND used_at IS NULL
-- AND expires_at > now() RETURNING mailbox_address
abbrev pub is_open : String → ℕ → WebmailSsoToken → Bool
is_open token_hash now t =
    str_eq t.token_hash token_hash && (is_none t.used_at && ltb now t.expires_at)

abbrev pub use_at : ℕ → WebmailSsoToken → WebmailSsoToken
use_at now t = record t { used_at = some now }

unfoldable pub consume_token : (String → String) → String → ℕ → Db → Db × Option String
consume_token sha256 token now db =
    let test = is_open (sha256 token) now in
    (
      record db { webmail_sso_tokens = update test (use_at now) db.webmail_sso_tokens },
      elim (first test db.webmail_sso_tokens.rows) [
        | none ↦ none
        | some t ↦ some t.mailbox_address
      ],
    )

-- `empty($token)`
abbrev pub is_no_token : String → Bool
is_no_token token = str_eq token "" || str_eq token "0"

-- `startup` on a request with the token, without the end of older sessions: the mailbox that is logged
-- in. The token is used up before the address of the client is looked at, which is a parameter.
unfoldable pub startup : (String → String) → Bool → String → ℕ → Db → Db × Option String
startup sha256 ip_allowed token now db =
    if is_no_token token
    then (db, none)
    else let (db', mailbox) = consume_token sha256 token now db in
      if ip_allowed then (db', mailbox) else (db', none)
