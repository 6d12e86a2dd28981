-- ===== src/Accounts.antt =====
-- models/admin.py and routers/settings_users.py: the accounts of the panel's administrators. Hashing a
-- password is library code, `hash` and `verify`; so is the deletion of a row together with what the
-- object-relational mapper does to the rows that refer to it, `delete_row`, which may raise.
pub mod Login
pub mod Laws
use Prim.Native.String.{count as string_length}
use mail_sync_portal.Base.{
  ℕ, ◌==◌, String, Bool, true, false, not, Option, none, some, List, [], ◌∷◌, ◌++◌, ◌&&◌, ◌||◌,
  str_eq, first, any, delete_where, count_where, if◌then◌else◌, ltb, leb,
}
use mail_sync_portal.Db.{Table, insert, update, AuditCall}

pub record AdminUser : Type 0 where
  pub id : ℕ
  pub username : String
  pub email : String
  pub password_hash : String
  pub role : String
  pub is_active : Bool
  pub last_login_at : Option ℕ

pub record TotpCredential : Type 0 where
  pub id : ℕ
  pub admin_user_id : ℕ
  pub secret_encrypted : String
  pub confirmed_at : Option ℕ
  pub recovery_codes_hashed : List String

pub record Accounts : Type 0 where
  pub admin_users : Table AdminUser
  pub totp_credentials : Table TotpCredential
  pub audit : List AuditCall

-- `db.get(AdminUser, id)`, and `user.totp`
unfoldable pub get_user : ℕ → Accounts → Option AdminUser
get_user k a = first (λ (u : AdminUser). u.id == k) a.admin_users.rows

unfoldable pub totp_of : ℕ → Accounts → Option TotpCredential
totp_of k a = first (λ (t : TotpCredential). t.admin_user_id == k) a.totp_credentials.rows

-- `record(db, …)` of the audit, with the user as the target
abbrev pub audited : ℕ → String → ℕ → Accounts → Accounts
audited actor action target a = record a {
  audit =
      a.audit
      ++ (record { actor_admin_user_id = some actor; action = action; target_id = some target })
        ∷ [];
}

unfoldable pub modify_user : ℕ → (AdminUser → AdminUser) → Accounts → Accounts
modify_user k f a = record a { admin_users = update (λ (u : AdminUser). u.id == k) f a.admin_users }

-- deps.py, `require_login`: the user of the session, if there is one and it is active.
unfoldable pub require_login : Option ℕ → Accounts → Option AdminUser
require_login none a = none
require_login (some k) a = elim (get_user k a) [
  | none ↦ none
  | some u ↦ (if u.is_active then some u else none)
]

-- The new row of `create_user`.
abbrev pub new_user : String → String → String → ℕ → AdminUser
new_user username email password_hash id = record {
  id = id;
  username = username;
  email = email;
  password_hash = password_hash;
  role = "admin";
  is_active = true;
  last_login_at = none;
}

-- The column `username` is unique: the flush raises where the name is taken (`none`).
unfoldable pub create_user : String → String → String → ℕ → Accounts → Option Accounts
create_user username email password_hash current a =
    if any (λ (u : AdminUser). str_eq u.username username) a.admin_users.rows
    then none
    else some (
        audited current "admin_user.create" a.admin_users.next_id
          (record a { admin_users = insert (new_user username email password_hash) a.admin_users }))

pub data PasswordError : Type 0 where
  wrong_password not_identical too_short same_password : PasswordError

-- The checks of `change_password`, in their order.
unfoldable pub check_password :
    (String → String → Bool) → AdminUser → String → String → String → Option PasswordError
check_password verify current current_password new_password new_password2 =
    if not (verify current_password current.password_hash)
    then some wrong_password
    else if not (str_eq new_password new_password2)
    then some not_identical
    else if ltb (string_length new_password) 10
    then some too_short
    else if str_eq new_password current_password
    then some same_password
    else none

unfoldable pub change_password :
    (String → String)
    → (String → String → Bool)
    → AdminUser
    → String
    → String
    → String
    → Accounts
    → Accounts × Option PasswordError
change_password hash verify current current_password new_password new_password2 a =
    elim (check_password verify current current_password new_password new_password2) [
      | some e ↦ (a, some e)
      | none ↦ (
        audited current.id "admin_user.change_password" current.id (
            modify_user current.id
              (λ (u : AdminUser). record u { password_hash = hash new_password }) a),
        none,
      )
    ]

abbrev pub set_active : Bool → AdminUser → AdminUser
set_active b u = record u { is_active = b }

unfoldable pub deactivate_user : ℕ → ℕ → Accounts → Accounts
deactivate_user current k a = elim (get_user k a) [
  | none ↦ a
  | some u ↦
      (if u.id == current
        then a
        else audited current "admin_user.deactivate" k (modify_user k (set_active false) a))
]

unfoldable pub activate_user : ℕ → ℕ → Accounts → Accounts
activate_user current k a = elim (get_user k a) [
  | none ↦ a
  | some u ↦
      (if u.is_active
        then a
        else audited current "admin_user.activate" k (modify_user k (set_active true) a))
]

pub data DeleteError : Type 0 where
  own_account last_active : DeleteError

-- The error of the page with the status 400, if there is one.
unfoldable pub refuse_delete : ℕ → AdminUser → Accounts → Option DeleteError
refuse_delete current u a =
    if u.id == current
    then some own_account
    else if u.is_active && leb (count_where (λ (v : AdminUser). v.is_active) a.admin_users.rows) 1
    then some last_active
    else none

unfoldable pub delete_user : (ℕ → Accounts → Option Accounts) → ℕ → ℕ → Accounts → Option Accounts
delete_user delete_row current k a = elim (get_user k a) [
  | none ↦ some a
  | some u ↦ elim (refuse_delete current u a) [
    | some e ↦ some a
    | none ↦ elim (delete_row k a) [
      | none ↦ none
      | some a' ↦ some (audited current "admin_user.delete" k a')
    ]
  ]
]

unfoldable pub reset_totp : ℕ → ℕ → Accounts → Accounts
reset_totp current k a = elim (get_user k a) [
  | none ↦ a
  | some u ↦ elim (totp_of k a) [
    | none ↦ a
    | some t ↦
        let table = a.totp_credentials in
        audited current "admin_user.reset_totp" k (record a {
          totp_credentials = record table {
            rows = delete_where (λ (c : TotpCredential). c.id == t.id) table.rows;
          };
        })
  ]
]

-- The requests of the page, with the form's fields.
pub data Request : Type 0 where
  ask_create : String → String → String → Request
  ask_password : String → String → String → Request
  ask_deactivate ask_activate ask_delete ask_reset : ℕ → Request

pub record Library : Type 0 where
  pub hash : String → String
  pub verify : String → String → Bool
  pub delete_row : ℕ → Accounts → Option Accounts

-- An exception rolls the transaction back.
abbrev pub or_rollback : Accounts → Option Accounts → Accounts
or_rollback a none = a
or_rollback a (some a') = a'

unfoldable pub answer : Library → AdminUser → Request → Accounts → Accounts
answer lib current (ask_create username email password) a =
    or_rollback a (create_user username email (lib.hash password) current.id a)
answer lib current (ask_password old new new2) a =
    (change_password lib.hash lib.verify current old new new2 a).0
answer lib current (ask_deactivate k) a = deactivate_user current.id k a
answer lib current (ask_activate k) a = activate_user current.id k a
answer lib current (ask_delete k) a = or_rollback a (delete_user lib.delete_row current.id k a)
answer lib current (ask_reset k) a = reset_totp current.id k a

-- A request of a session: it is answered where `require_login` lets it through.
unfoldable pub serve : Library → Option ℕ → Request → Accounts → Accounts
serve lib session r a = elim (require_login session a) [
  | none ↦ a
  | some current ↦ answer lib current r a
]

-- Requests of any sessions, one after another.
unfoldable pub serve_all : Library → List (Option ℕ × Request) → Accounts → Accounts
serve_all lib [] a = a
serve_all lib ((session, r) ∷ rs) a = serve_all lib rs (serve lib session r a)
