-- ===== src/MailDb/Directory.antt =====
-- VM2's mail database as a directory: a map from a domain and a local part to what a mailbox has,
-- without the ids of rows and their order.
pub mod Domains
pub mod Refinement
use mathlib.Core.Path.{fun_ext}
use mathlib.Core.Option
use mathlib.Core.Bool.{false≢true}
use mail_sync_portal.Base.{
  ℕ, ◌+◌, ◌<◌, ◌≡◌, ◌≢◌, refl, sym, ap, subst, ◌∙◌, String, Bool, true, false, Option, none, some,
  List, [], ◌∷◌, ◌++◌, ◌&&◌, ◌==◌, ==→eq, ==_refl, ==_ne, inl, inr, arith, str_eq, eq_iff, first,
  first-append, or_first, first-In, In, All, All-In, All-snoc, All-map_to, Distinct,
  Distinct-append, Bool-cases, Option-cases, some_eq, if◌then◌else◌,
}
use mail_sync_portal.Db.{insert}
use mail_sync_portal.MailDb.{
  VirtualDomain, VirtualMailbox, MailDb, get_domain, ensure_domain, new_domain, is_mailbox,
  new_mailbox, create_mailbox,
}
use mail_sync_portal.MailDb.Laws.{ensure_known, ensure-found, str_eq_refl}

pub record Entry : Type 0 where
  pub password_hash : String
  pub quota_bytes : ℕ
  pub is_active : Bool
  pub password_overridden : Bool

abbrev pub Directory : Type 0
Directory = String → String → Option Entry

abbrev pub entry : VirtualMailbox → Entry
entry m = record {
  password_hash = m.password_hash;
  quota_bytes = m.quota_bytes;
  is_active = m.is_active;
  password_overridden = m.password_overridden;
}

-- The mailbox that Postfix and Dovecot find.
abbrev pub find_mailbox :
    List VirtualMailbox → String → Option VirtualDomain → Option VirtualMailbox
find_mailbox rows part none = none
find_mailbox rows part (some d) = first (is_mailbox d.id part) rows

unfoldable pub view : MailDb → Directory
view db name part =
    Option.map entry (find_mailbox db.virtual_mailboxes.rows part (get_domain name db))

-- The directory after a mailbox is asked for: one that is there stays as it is.
abbrev pub put : String → String → String → ℕ → Directory → Directory
put name part hash quota dir name' part' =
    if str_eq name name' && str_eq part part'
    then or_first (dir name' part') (
        some (record {
          password_hash = hash;
          quota_bytes = quota;
          is_active = true;
          password_overridden = false;
        }))
    else dir name' part'

-- No two domains have one id, and every id that is in use was given by the sequence of domains.
pub record IsNumbered (db : MailDb) : Type 0 where
  pub ids : Distinct (λ (a b : VirtualDomain). a.id == b.id) db.virtual_domains.rows
  pub past : All (λ (d : VirtualDomain). d.id < db.virtual_domains.next_id) db.virtual_domains.rows
  pub linked :
      All
        (λ (m : VirtualMailbox). m.domain_id < db.virtual_domains.next_id)
        db.virtual_mailboxes.rows

-- The mailbox of a request for a new one.
abbrev pub Wanted : Type 0
Wanted = String × String × String × ℕ

unfoldable pub create_all : List Wanted → MailDb → MailDb
create_all [] db = db
create_all ((name, part, hash, quota) ∷ rs) db =
    create_all rs (create_mailbox name part hash quota db).0

abbrev pub put_all : List Wanted → Directory → Directory
put_all [] dir = dir
put_all ((name, part, hash, quota) ∷ rs) dir = put_all rs (put name part hash quota dir)
