-- ===== src/MailDb.antt =====
-- vm2_api/vm2_api/services/postfix_dovecot_admin.py: the mail database of VM2 that Postfix and Dovecot
-- read. Hashing a password and removing a directory are library code and a helper program: parameters.
pub mod Laws
pub mod Keys
pub mod Directory
use Prim.Native.String.{◌++◌}
use mail_sync_portal.Base.{
  ℕ, ◌*◌, ◌==◌, String, Bool, true, false, Option, none, some, List, [], ◌∷◌, ◌&&◌, str_eq, first,
  any, select, delete_where, count_where, if◌then◌else◌, or_else,
}
use mail_sync_portal.Db.{Table, insert, update}

-- the tables of sql/vm2/001_schema.sql
pub record VirtualDomain : Type 0 where
  pub id : ℕ
  pub name : String

pub record DomainAlias : Type 0 where
  pub id : ℕ
  pub domain_id : ℕ
  pub alias_name : String

pub record VirtualMailbox : Type 0 where
  pub id : ℕ
  pub domain_id : ℕ
  pub local_part : String
  pub password_hash : String
  pub quota_bytes : ℕ
  pub maildir : String
  pub is_active : Bool
  pub password_overridden : Bool

pub record MailDb : Type 0 where
  pub virtual_domains : Table VirtualDomain
  pub virtual_domain_aliases : Table DomainAlias
  pub virtual_mailboxes : Table VirtualMailbox

-- DomainNotFound and AliasConflict of the module, the 404 of `get_mailbox`, the CalledProcessError of
-- the helper, and the 422 of the routers for a request that is not valid
pub data MailError : Type 0 where
  domain_not_found alias_conflict mailbox_not_found helper_failed invalid_request : MailError

-- An exception rolls the transaction back.
pub data Answer (A : Type 0) : Type 0 where
  answer : MailDb → A → Answer A
  failure : MailError → Answer A

unfoldable pub get_domain : String → MailDb → Option VirtualDomain
get_domain name db = first (λ d. str_eq d.name name) db.virtual_domains.rows

abbrev pub new_domain : String → ℕ → VirtualDomain
new_domain name id = record { id = id; name = name }

add_domain : String → MailDb → Option VirtualDomain → MailDb × VirtualDomain
add_domain name db (some d) = (db, d)
add_domain name db none = (
  record db { virtual_domains = insert (new_domain name) db.virtual_domains },
  new_domain name db.virtual_domains.next_id,
)

unfoldable pub ensure_domain : String → MailDb → MailDb × VirtualDomain
unfolding add_domain
ensure_domain name db = add_domain name db (get_domain name db)

abbrev pub find_alias : String → MailDb → Option DomainAlias
find_alias alias_name db =
    first (λ a. str_eq a.alias_name alias_name) db.virtual_domain_aliases.rows

abbrev pub new_alias : ℕ → String → ℕ → DomainAlias
new_alias domain_id alias_name id = record {
  id = id;
  domain_id = domain_id;
  alias_name = alias_name;
}

put_alias : String → MailDb → VirtualDomain → Option DomainAlias → Answer DomainAlias
put_alias alias_name db dom (some a) =
    if a.domain_id == dom.id then answer db a else failure alias_conflict
put_alias alias_name db dom none =
    let table = db.virtual_domain_aliases in
    answer (record db { virtual_domain_aliases = insert (new_alias dom.id alias_name) table })
      (new_alias dom.id alias_name table.next_id)

unfoldable pub add_domain_alias : String → String → MailDb → Answer DomainAlias
unfolding put_alias
add_domain_alias domain_name alias_name db = elim (get_domain domain_name db) [
  | none ↦ failure domain_not_found
  | some dom ↦ put_alias alias_name db dom (find_alias alias_name db)
]

-- The aliases that DELETE … USING joins to a domain of the name.
abbrev pub is_alias_of : String → String → MailDb → DomainAlias → Bool
is_alias_of domain_name alias_name db a =
    str_eq a.alias_name alias_name
    && any (λ (d : VirtualDomain). d.id == a.domain_id && str_eq d.name domain_name)
        db.virtual_domains.rows

unfoldable pub remove_domain_alias : String → String → MailDb → MailDb × ℕ
remove_domain_alias domain_name alias_name db =
    let table = db.virtual_domain_aliases in
    let test = is_alias_of domain_name alias_name db in
    (
      record db { virtual_domain_aliases = record table { rows = delete_where test table.rows } },
      count_where test table.rows,
    )

abbrev pub is_mailbox : ℕ → String → VirtualMailbox → Bool
is_mailbox domain_id local_part m = m.domain_id == domain_id && str_eq m.local_part local_part

-- The INSERT of `create_mailbox`, with the defaults of the columns.
abbrev pub new_mailbox : String → VirtualDomain → String → String → ℕ → ℕ → VirtualMailbox
new_mailbox domain_name dom local_part password_hash quota_bytes id = record {
  id = id;
  domain_id = dom.id;
  local_part = local_part;
  password_hash = password_hash;
  quota_bytes = quota_bytes;
  maildir = domain_name ++ ("/" ++ local_part);
  is_active = true;
  password_overridden = false;
}

put_mailbox : (ℕ → VirtualMailbox) → MailDb → Option VirtualMailbox → MailDb × VirtualMailbox × Bool
put_mailbox make db (some m) = (db, m, false)
put_mailbox make db none =
    let table = db.virtual_mailboxes in
    (record db { virtual_mailboxes = insert make table }, make table.next_id, true)

-- The flag tells whether the mailbox is new.
unfoldable pub create_mailbox :
    String → String → String → ℕ → MailDb → MailDb × VirtualMailbox × Bool
unfolding put_mailbox
create_mailbox domain_name local_part password_hash quota_bytes db =
    let (db', dom) = ensure_domain domain_name db in
    put_mailbox (new_mailbox domain_name dom local_part password_hash quota_bytes) db'
      (first (is_mailbox dom.id local_part) db'.virtual_mailboxes.rows)

-- The row with the name of its domain, which the JOIN asks for.
unfoldable pub get_mailbox : ℕ → MailDb → Option (VirtualMailbox × String)
get_mailbox mailbox_id db =
    elim (first (λ (m : VirtualMailbox). m.id == mailbox_id) db.virtual_mailboxes.rows) [
      | none ↦ none
      | some m ↦ elim (first (λ (d : VirtualDomain). d.id == m.domain_id) db.virtual_domains.rows) [
        | none ↦ none
        | some d ↦ some (m, d.name)
      ]
    ]

-- `get_mailbox(conn, mailbox_id)` that ends an operation
unfoldable pub answer_mailbox : ℕ → MailDb → Answer (VirtualMailbox × String)
answer_mailbox mailbox_id db = elim (get_mailbox mailbox_id db) [
  | none ↦ failure mailbox_not_found
  | some r ↦ answer db r
]

-- UPDATE virtual_mailboxes SET … WHERE id = …
unfoldable pub modify_mailbox : ℕ → (VirtualMailbox → VirtualMailbox) → MailDb → MailDb
modify_mailbox mailbox_id f db = record db {
  virtual_mailboxes = update (λ (m : VirtualMailbox). m.id == mailbox_id) f db.virtual_mailboxes;
}

-- the fields that are given
abbrev pub set_fields : Option ℕ → Option Bool → VirtualMailbox → VirtualMailbox
set_fields quota_bytes is_active m = record m {
  quota_bytes = or_else m.quota_bytes quota_bytes;
  is_active = or_else m.is_active is_active;
}

unfoldable pub update_mailbox :
    ℕ → Option ℕ → Option Bool → MailDb → Answer (VirtualMailbox × String)
update_mailbox mailbox_id quota_bytes is_active db = elim (get_mailbox mailbox_id db) [
  | none ↦ failure mailbox_not_found
  | some r ↦
      answer_mailbox mailbox_id (modify_mailbox mailbox_id (set_fields quota_bytes is_active) db)
]

-- `removed` tells whether the helper removed the directory of a domain and a local part.
unfoldable pub delete_mailbox : (String → String → Bool) → ℕ → MailDb → Answer (String × String)
delete_mailbox removed mailbox_id db = elim (get_mailbox mailbox_id db) [
  | none ↦ failure mailbox_not_found
  | some (m, domain_name) ↦
      (if removed domain_name m.local_part
        then (let table = db.virtual_mailboxes in
            answer
              (record db {
                virtual_mailboxes = record table {
                  rows = delete_where (λ (m : VirtualMailbox). m.id == mailbox_id) table.rows;
                };
              })
              (domain_name, m.local_part))
        else failure helper_failed)
]

abbrev pub set_password : String → VirtualMailbox → VirtualMailbox
set_password password_hash m = record m {
  password_hash = password_hash;
  password_overridden = true;
}

unfoldable pub reset_password : ℕ → String → MailDb → Answer (VirtualMailbox × String)
reset_password mailbox_id password_hash db = elim (get_mailbox mailbox_id db) [
  | none ↦ failure mailbox_not_found
  | some r ↦ answer_mailbox mailbox_id (modify_mailbox mailbox_id (set_password password_hash) db)
]

-- The requests that change the tables, with what the libraries answer.
pub data Request : Type 0 where
  ask_domain : String → Request
  ask_alias drop_alias : String → String → Request
  ask_mailbox : String → String → String → ℕ → Request
  ask_fields : ℕ → Option ℕ → Option Bool → Request
  ask_delete : (String → String → Bool) → ℕ → Request
  ask_password : ℕ → String → Request

-- The tables after an operation, which an exception rolls back.
abbrev pub after : {A : Type 0} → MailDb → Answer A → MailDb
after db (answer db' a) = db'
after db (failure e) = db

unfoldable pub serve : Request → MailDb → MailDb
serve (ask_domain name) db = (ensure_domain name db).0
serve (ask_alias name alias_name) db = after db (add_domain_alias name alias_name db)
serve (drop_alias name alias_name) db = (remove_domain_alias name alias_name db).0
serve (ask_mailbox name part hash quota) db = (create_mailbox name part hash quota db).0
serve (ask_fields id quota active) db = after db (update_mailbox id quota active db)
serve (ask_delete removed id) db = after db (delete_mailbox removed id db)
serve (ask_password id hash) db = after db (reset_password id hash db)

unfoldable pub serve_all : List Request → MailDb → MailDb
serve_all [] db = db
serve_all (r ∷ rs) db = serve_all rs (serve r db)
