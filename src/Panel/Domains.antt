-- ===== src/Panel/Domains.antt =====
-- routers/domains.py, with the domain routes of vm2_api/vm2_api/routers/domains.py that it calls. The
-- lower-casing of the language is a parameter; a quota is a number that is not negative, and a name
-- stands in the path of a request as it is.
pub mod Laws
pub mod Stranded
pub mod Names
use Prim.Native.Char.{Char, code}
use Prim.Native.String.{count, ◌++◌}
use mail_sync_portal.Base.{
  ℕ, ◌+◌, ◌==◌, ◌≡◌, refl, String, Bool, true, false, not, Option, none, some, List, [], ◌∷◌, ◌&&◌,
  ◌||◌, str_eq, ltb, leb, first, select, is_some, is_none, or_else, if◌then◌else◌, strip, split_at,
}
use mail_sync_portal.Db.{insert, update, Db, Domain, DomainLoginAlias, Mailbox}
use mail_sync_portal.MailDb.{
  MailDb, DomainAlias, Answer, answer, failure, invalid_request, add_domain_alias,
  remove_domain_alias,
}
use mail_sync_portal.Queue.Handlers.{get_domain, modify_mailbox, is_blank}
use mail_sync_portal.Panel.Client.{
  Delivery, Vm2, call, patch_mailbox, Reply, accepted, refused, http, World, stop, audited,
}
use mail_sync_portal.Panel.Mailboxes.{set_quota}
use mail_sync_portal.Panel.Deletion.{delete}
use mail_sync_portal.Panel.Domains.Names.{is_domain_name, strip_dots}

module _ (lower : String → String) where
  -- alias.strip().lower().rstrip(".")
  unfoldable pub normalize : String → String
  normalize alias_name = strip_dots (lower (strip alias_name))

  -- POST /domains/{name}/aliases
  unfoldable pub post_alias : String → String → MailDb → Answer DomainAlias
  post_alias name alias_name db =
      let alias_n = normalize alias_name in
      if not (is_domain_name alias_n) || str_eq alias_n (lower name)
      then failure invalid_request
      else add_domain_alias name alias_n db

  -- DELETE /domains/{name}/aliases/{alias}
  unfoldable pub remove_alias : String → String → MailDb → Answer ℕ
  remove_alias name alias_name db =
      let (db', removed) = remove_domain_alias name (lower (strip alias_name)) db in
      answer db' removed

  abbrev pub new_login_alias : ℕ → String → ℕ → DomainLoginAlias
  new_login_alias domain_id alias_name id = record {
    id = id;
    domain_id = domain_id;
    alias_name = alias_name;
  }

  abbrev pub find_login_alias : String → Db → Option DomainLoginAlias
  find_login_alias alias_n db =
      first (λ (a : DomainLoginAlias). str_eq a.alias_name alias_n) db.domain_login_aliases.rows

  -- The alias is refused before VM2 is asked.
  abbrev pub is_bad_alias : Domain → String → Db → Bool
  is_bad_alias d alias_n db =
      not (is_domain_name alias_n)
      || (str_eq alias_n (lower d.destination_domain)
          || (is_some (find_login_alias alias_n db) || is_blank db.vm2_host))

  unfoldable pub save_alias : ℕ → Domain → String → Db → Db
  save_alias actor d alias_n db = audited actor "domain.alias.add" (some d.id) (record db {
    domain_login_aliases = insert (new_login_alias d.id alias_n) db.domain_login_aliases;
  })

  unfoldable pub add_known_alias : Delivery → ℕ → String → World → Domain → World × Reply
  add_known_alias net actor alias_n w d =
      if is_bad_alias d alias_n w.portal
      then stop refused w
      else let (vm2_db, returned) =
          call net w.vm2 (post_alias d.destination_domain alias_n w.vm2) in
        if returned
        then (record { portal = save_alias actor d alias_n w.portal; vm2 = vm2_db }, accepted)
        else (record w { vm2 = vm2_db }, refused)

  unfoldable pub add_alias : Delivery → ℕ → ℕ → String → World → World × Reply
  add_alias net actor domain_id alias_name w = elim (get_domain domain_id w.portal) [
    | none ↦ stop refused w
    | some d ↦ add_known_alias net actor (normalize alias_name) w d
  ]

  unfoldable pub drop_alias : ℕ → Domain → ℕ → Db → Db
  drop_alias actor d alias_id db = audited actor "domain.alias.remove" (some d.id) (record db {
    domain_login_aliases =
        delete (λ (a : DomainLoginAlias). a.id == alias_id) db.domain_login_aliases;
  })

  unfoldable pub delete_known_alias :
      Delivery → ℕ → ℕ → World → Domain → DomainLoginAlias → World × Reply
  delete_known_alias net actor alias_id w d a =
      if not (a.domain_id == d.id) || is_blank w.portal.vm2_host
      then stop refused w
      else let (vm2_db, returned) =
          call net w.vm2 (remove_alias d.destination_domain a.alias_name w.vm2) in
        if returned
        then (record { portal = drop_alias actor d alias_id w.portal; vm2 = vm2_db }, accepted)
        else (record w { vm2 = vm2_db }, refused)

  unfoldable pub delete_alias : Delivery → ℕ → ℕ → ℕ → World → World × Reply
  delete_alias net actor domain_id alias_id w = elim (get_domain domain_id w.portal) [
    | none ↦ stop refused w
    | some d ↦
        elim (first (λ (a : DomainLoginAlias). a.id == alias_id)
          w.portal.domain_login_aliases.rows) [
            | none ↦ stop refused w
            | some a ↦ delete_known_alias net actor alias_id w d a
          ]
  ]

-- `update_domain`: the fields of the form
pub record DomainForm : Type 0 where
  pub destination_domain : String
  pub source_imap_host : String
  pub source_imap_port : ℕ
  pub default_quota_mb : ℕ
  pub total_quota_mb : ℕ
  pub apply_quota_to_all : Bool
  pub is_active : Bool

abbrev pub set_domain : DomainForm → Domain → Domain
set_domain form d = record d {
  destination_domain = form.destination_domain;
  source_imap_host = form.source_imap_host;
  source_imap_port = form.source_imap_port;
  default_quota_mb = form.default_quota_mb;
  total_quota_mb = form.total_quota_mb;
  is_active = form.is_active;
}

-- The new quota of one mailbox: on VM2 where it is there, then in the portal. `none` is the exception
-- for which the loop goes on.
unfoldable pub push_quota : Vm2 → Delivery → ℕ → Mailbox → World → World × Bool
push_quota vm2 net quota_mb m w =
    let saved = λ (vm2_db : MailDb).
      let w' : World = record {
        portal = modify_mailbox m.id (set_quota quota_mb) w.portal;
        vm2 = vm2_db;
      } in
      w' in
    if is_none w.portal.vm2_host || is_blank m.vm2_mailbox_id
    then (saved w.vm2, true)
    else let (vm2_db, returned) =
        call net w.vm2 (patch_mailbox vm2 (or_else "" m.vm2_mailbox_id) quota_mb w.vm2) in
      if returned then (saved vm2_db, true) else (record w { vm2 = vm2_db }, false)

-- The loop over the mailboxes, each with what the network does with its call; the count of the audit.
unfoldable pub push_quotas : Vm2 → (ℕ → Delivery) → ℕ → List Mailbox → World → World × ℕ
push_quotas vm2 net quota_mb [] w = (w, 0)
push_quotas vm2 net quota_mb (m ∷ ms) w =
    let (w', pushed) = push_quota vm2 (net m.id) quota_mb m w in
    let (w'', applied) = push_quotas vm2 net quota_mb ms w' in
    (w'', if pushed then applied + 1 else applied)

unfoldable pub save_domain : DomainForm → ℕ → World → World
save_domain form domain_id w = record w {
  portal = record (w.portal) {
    domains = update (λ (d : Domain). d.id == domain_id) (set_domain form) w.portal.domains;
  };
}

unfoldable pub update_domain : Vm2 → (ℕ → Delivery) → ℕ → ℕ → DomainForm → World → World
update_domain vm2 net actor domain_id form w =
    if is_none (get_domain domain_id w.portal)
    then w
    else let saved = save_domain form domain_id w in
      let ms = select (λ (m : Mailbox). m.domain_id == domain_id) w.portal.mailboxes.rows in
      let (w', applied) = push_quotas vm2 net form.default_quota_mb ms saved in
      let last = if form.apply_quota_to_all then w' else saved in
      record last { portal = audited actor "domain.update" (some domain_id) last.portal }
