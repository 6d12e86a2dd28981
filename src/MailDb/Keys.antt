-- ===== src/MailDb/Keys.antt =====
-- The unique constraints of VM2's mail database under all its operations.
use mail_sync_portal.MailDb.Laws.{ensure_known}
use mail_sync_portal.Base.{
  ℕ, ◌≡◌, refl, String, Bool, Option, inl, inr, List, [], ◌∷◌, ◌&&◌, ◌==◌, str_eq, first,
  first-none, Option-cases, Distinct, Distinct-append, Distinct-update_where, Bool-cases,
  Distinct-delete_where,
}
use mail_sync_portal.Db.{insert, update}
use mail_sync_portal.MailDb.{
  VirtualDomain, DomainAlias, VirtualMailbox, MailDb, get_domain, ensure_domain, is_mailbox,
  create_mailbox, add_domain_alias, find_alias, modify_mailbox, set_fields, set_password,
  is_alias_of, remove_domain_alias, update_mailbox, delete_mailbox, reset_password, answer_mailbox,
  get_mailbox, Request, ask_domain, ask_alias, drop_alias, ask_mailbox, ask_fields, ask_delete,
  ask_password, after, serve, serve_all,
}

abbrev same_name : VirtualDomain → VirtualDomain → Bool
same_name a b = str_eq a.name b.name

abbrev same_alias : DomainAlias → DomainAlias → Bool
same_alias a b = str_eq a.alias_name b.alias_name

abbrev same_mailbox : VirtualMailbox → VirtualMailbox → Bool
same_mailbox a b = a.domain_id == b.domain_id && str_eq a.local_part b.local_part

-- The unique constraints of the schema.
pub record IsKeyed (db : MailDb) : Type 0 where
  pub domains : Distinct same_name db.virtual_domains.rows
  pub aliases : Distinct same_alias db.virtual_domain_aliases.rows
  pub mailboxes : Distinct same_mailbox db.virtual_mailboxes.rows

ensure-IsKeyed : (name : String) (db : MailDb) → IsKeyed db → IsKeyed (ensure_domain name db).0
unfolding ensure_domain insert
ensure-IsKeyed name db k = elim (Option-cases (get_domain name db)) [
  | inl e ↦
      rw (e, ensure_domain)
        (record {
          domains =
              Distinct-append same_name db.virtual_domains.rows _
                (unfold get_domain in first-none _ db.virtual_domains.rows (unfold get_domain in e))
                k.domains;
          aliases = k.aliases;
          mailboxes = k.mailboxes;
        })
  | inr (d, e) ↦ rw (ensure_known name db d e) k
]

create-IsKeyed :
    (name part hash : String) (quota : ℕ) (db : MailDb)
    → IsKeyed db
    → IsKeyed (create_mailbox name part hash quota db).0
unfolding create_mailbox insert
create-IsKeyed name part hash quota db k =
    let db' = (ensure_domain name db).0 in
    let d = (ensure_domain name db).1 in
    let k' = ensure-IsKeyed name db k in
    elim (Option-cases (first (is_mailbox d.id part) db'.virtual_mailboxes.rows)) [
      | inl e ↦
          rw (e, create_mailbox)
            (record {
              domains = k'.domains;
              aliases = k'.aliases;
              mailboxes =
                  Distinct-append same_mailbox db'.virtual_mailboxes.rows _
                    (first-none _ db'.virtual_mailboxes.rows e) k'.mailboxes;
            })
      | inr (m, e) ↦ rw (e, create_mailbox) k'
    ]

alias-IsKeyed :
    (name alias_name : String) (db : MailDb)
    → IsKeyed db
    → IsKeyed (after db (add_domain_alias name alias_name db))
unfolding add_domain_alias insert
alias-IsKeyed name alias_name db k = elim (Option-cases (get_domain name db)) [
  | inl e ↦ rw (e, after) k
  | inr (dom, e) ↦ elim (Option-cases (find_alias alias_name db)) [
    | inl f ↦
        rw (e, f, add_domain_alias, after)
          (record {
            domains = k.domains;
            aliases =
                Distinct-append same_alias db.virtual_domain_aliases.rows _
                  (first-none _ db.virtual_domain_aliases.rows f) k.aliases;
            mailboxes = k.mailboxes;
          })
    | inr (a, f) ↦ elim (Bool-cases (a.domain_id == dom.id)) [
      | inl g ↦ rw (e, f, add_domain_alias, g, after) k
      | inr g ↦ rw (e, f, add_domain_alias, g, after) k
    ]
  ]
]

remove-IsKeyed :
    (name alias_name : String) (db : MailDb)
    → IsKeyed db
    → IsKeyed (remove_domain_alias name alias_name db).0
unfolding remove_domain_alias
remove-IsKeyed name alias_name db k = record {
  domains = k.domains;
  aliases =
      Distinct-delete_where same_alias (is_alias_of name alias_name db)
        db.virtual_domain_aliases.rows k.aliases;
  mailboxes = k.mailboxes;
}

-- A change that keeps the domain and the local part.
modify-IsKeyed :
    (id : ℕ) (f : VirtualMailbox → VirtualMailbox) (db : MailDb)
    → ((a b : VirtualMailbox) → same_mailbox (f a) b ≡ same_mailbox a b)
    → ((a b : VirtualMailbox) → same_mailbox a (f b) ≡ same_mailbox a b)
    → IsKeyed db
    → IsKeyed (modify_mailbox id f db)
unfolding modify_mailbox update
modify-IsKeyed id f db left right k = record {
  domains = k.domains;
  aliases = k.aliases;
  mailboxes =
      Distinct-update_where same_mailbox _ f left right db.virtual_mailboxes.rows k.mailboxes;
}

answer-IsKeyed :
    (id : ℕ) (old db : MailDb)
    → IsKeyed old
    → IsKeyed db
    → IsKeyed (after old (answer_mailbox id db))
unfolding answer_mailbox
answer-IsKeyed id old db h k = elim (Option-cases (get_mailbox id db)) [
  | inl e ↦ rw (e, after) h
  | inr (m, e) ↦ rw (e, after) k
]

update-IsKeyed :
    (id : ℕ) (quota : Option ℕ) (active : Option Bool) (db : MailDb)
    → IsKeyed db
    → IsKeyed (after db (update_mailbox id quota active db))
unfolding update_mailbox
update-IsKeyed id quota active db k = elim (Option-cases (get_mailbox id db)) [
  | inl e ↦ rw (e, after) k
  | inr (m, e) ↦
      rw (e, after)
        (answer-IsKeyed id db _ k
          (modify-IsKeyed id (set_fields quota active) db (λ a b. refl) (λ a b. refl) k))
]

password-IsKeyed :
    (id : ℕ) (hash : String) (db : MailDb)
    → IsKeyed db
    → IsKeyed (after db (reset_password id hash db))
unfolding reset_password
password-IsKeyed id hash db k = elim (Option-cases (get_mailbox id db)) [
  | inl e ↦ rw (e, after) k
  | inr (m, e) ↦
      rw (e, after)
        (answer-IsKeyed id db _ k
          (modify-IsKeyed id (set_password hash) db (λ a b. refl) (λ a b. refl) k))
]

delete-IsKeyed :
    (removed : String → String → Bool) (id : ℕ) (db : MailDb)
    → IsKeyed db
    → IsKeyed (after db (delete_mailbox removed id db))
unfolding delete_mailbox
delete-IsKeyed removed id db k = elim (Option-cases (get_mailbox id db)) [
  | inl e ↦ rw (e, after) k
  | inr ((m, name), e) ↦ elim (Bool-cases (removed name m.local_part)) [
    | inl g ↦
        rw (e, g, after)
          (record {
            domains = k.domains;
            aliases = k.aliases;
            mailboxes = Distinct-delete_where same_mailbox _ db.virtual_mailboxes.rows k.mailboxes;
          })
    | inr g ↦ rw (e, g, after) k
  ]
]

serve-IsKeyed : (r : Request) (db : MailDb) → IsKeyed db → IsKeyed (serve r db)
unfolding serve
serve-IsKeyed (ask_domain name) db k = ensure-IsKeyed name db k
serve-IsKeyed (ask_alias name alias_name) db k = alias-IsKeyed name alias_name db k
serve-IsKeyed (drop_alias name alias_name) db k = remove-IsKeyed name alias_name db k
serve-IsKeyed (ask_mailbox name part hash quota) db k = create-IsKeyed name part hash quota db k
serve-IsKeyed (ask_fields id quota active) db k = update-IsKeyed id quota active db k
serve-IsKeyed (ask_delete removed id) db k = delete-IsKeyed removed id db k
serve-IsKeyed (ask_password id hash) db k = password-IsKeyed id hash db k

-- Any requests, in any order, keep the unique constraints of the schema of VM2: no two domains of one
-- name, no two aliases of one name, no two mailboxes of one domain and local part.
pub serve_all-IsKeyed : (rs : List Request) (db : MailDb) → IsKeyed db → IsKeyed (serve_all rs db)
unfolding serve_all
serve_all-IsKeyed [] db k = k
serve_all-IsKeyed (r ∷ rs) db k = serve_all-IsKeyed rs (serve r db) (serve-IsKeyed r db k)
