-- ===== src/Panel/Client.antt =====
-- services/vm2_client.py with the routers of vm2_api/vm2_api/routers: the calls that the panel makes on
-- VM2's mail database. The network, the parsing of a path, the hash of a password and the helper that
-- removes a directory are parameters.
use mail_sync_portal.Base.{
  ℕ, ◌*◌, String, Bool, true, false, Option, none, some, [], ◌∷◌, ◌++◌, str_eq, if◌then◌else◌,
}
use mail_sync_portal.Db.{Db}
use mail_sync_portal.MailDb.{
  MailDb, Answer, answer, failure, invalid_request, VirtualMailbox, update_mailbox, delete_mailbox,
  reset_password, after,
}

-- What the network does with a call: it never arrives, it is answered, or VM2 serves it and the answer
-- is lost.
pub data Delivery : Type 0 where
  lost answered answer_lost : Delivery

-- `path_id` is the mailbox id that a path has, `hash` that of a password, `removed` tells whether the
-- directory of a domain and a local part is removed.
pub record Vm2 : Type 0 where
  pub path_id : String → Option ℕ
  pub hash : String → String
  pub removed : String → String → Bool

-- `_request`: VM2's tables after the call, and whether it returns; otherwise it raises Vm2ApiError.
unfoldable pub call : {A : Type 0} → Delivery → MailDb → Answer A → MailDb × Bool
call lost db a = (db, false)
call answered db (answer db' a) = (db', true)
call answered db (failure e) = (db, false)
call answer_lost db a = (after db a, false)

-- the id in the path of a request, else 422
unfoldable pub at_id : {A : Type 0} → Option ℕ → (ℕ → Answer A) → Answer A
at_id none f = failure invalid_request
at_id (some k) f = f k

-- PATCH /mailboxes/{id} with a quota
unfoldable pub patch_mailbox : Vm2 → String → ℕ → MailDb → Answer (VirtualMailbox × String)
patch_mailbox vm2 path quota_mb db =
    at_id (vm2.path_id path) (λ k. update_mailbox k (some (quota_mb * 1024 * 1024)) none db)

-- POST /mailboxes/{id}/reset-password; the schema asks for a password of at least one character.
unfoldable pub post_password : Vm2 → String → String → MailDb → Answer (VirtualMailbox × String)
post_password vm2 path new_password db =
    if str_eq new_password ""
    then failure invalid_request
    else at_id (vm2.path_id path) (λ k. reset_password k (vm2.hash new_password) db)

-- DELETE /mailboxes/{id}
unfoldable pub remove_mailbox : Vm2 → String → MailDb → Answer (String × String)
remove_mailbox vm2 path db = at_id (vm2.path_id path) (λ k. delete_mailbox vm2.removed k db)

-- What a request of the panel answers: a page or a redirection, a redirection with the text of an
-- error, or a status of HTTP, where 500 is an exception that nothing catches. Texts are left out.
pub data Reply : Type 0 where
  accepted refused : Reply
  http : ℕ → Reply

-- The databases of the two machines.
pub record World : Type 0 where
  pub portal : Db
  pub vm2 : MailDb

-- An exception rolls the portal's transaction back, not what VM2 has committed.
abbrev pub stop : Reply → World → World × Reply
stop r w = (w, r)

unfoldable pub audited : ℕ → String → Option ℕ → Db → Db
audited actor action target db = record db {
  audit =
      db.audit
      ++ (record { actor_admin_user_id = some actor; action = action; target_id = target }) ∷ [];
}
