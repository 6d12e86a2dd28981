-- ===== src/Panel/Domains/Stranded.antt =====
-- An alias whose domain got another destination is deleted in the portal only.
use mail_sync_portal.Base.{
  ℕ, ◌==◌, ◌≡◌, refl, ap, ◌∙◌, String, Bool, true, false, none, some, List, [], ◌∷◌, ◌&&◌, arith,
  str_eq, strip, any, first, first-none, first-In, first-update_where, first-deleted, delete_where,
  All,
}
use mail_sync_portal.Db.{Db, Domain, DomainLoginAlias, update}
use mail_sync_portal.MailDb
use mail_sync_portal.MailDb.{MailDb, VirtualDomain, DomainAlias, is_alias_of, remove_domain_alias}
use mail_sync_portal.Queue.Handlers.{get_domain, is_blank}
use mail_sync_portal.Panel.Client.{Delivery, answered, call, Vm2, Reply, accepted, World, audited}
use mail_sync_portal.Panel.Deletion.{delete}
use mail_sync_portal.Panel.Domains.{
  DomainForm, set_domain, save_domain, update_domain, remove_alias, drop_alias, delete_known_alias,
  delete_alias,
}

and_false : (a : Bool) → (a && false) ≡ false
and_false a = ground arith

delete_where-none :
    {A : Type 0} (p : A → Bool) (xs : List A) → All (λ x. p x ≡ false) xs → delete_where p xs ≡ xs
unfolding delete_where
delete_where-none p [] h = refl
delete_where-none p (x ∷ xs) h = rw h.0 (ap (λ ys. x ∷ ys) (delete_where-none p xs h.1))

any-none :
    {A : Type 0} (p q : A → Bool) (xs : List A)
    → All (λ x. q x ≡ false) xs
    → any (λ x. p x && q x) xs ≡ false
unfolding any
any-none p q [] h = refl
any-none p q (x ∷ xs) h = rw (h.0, and_false (p x)) (any-none p q xs h.1)

-- VM2 has no domain of the name, so no alias of it.
none_linked :
    (name alias_name : String) (db : MailDb) (rows : List DomainAlias)
    → MailDb.get_domain name db ≡ none
    → All (λ a. is_alias_of name alias_name db a ≡ false) rows
unfolding MailDb.get_domain
none_linked name alias_name db [] e = tt
none_linked name alias_name db (a ∷ rows) e = (
  rw
      (any-none (λ (d : VirtualDomain). d.id == a.domain_id) (λ d. str_eq d.name name)
        db.virtual_domains.rows (first-none _ db.virtual_domains.rows e))
      (and_false (str_eq a.alias_name alias_name)),
  none_linked name alias_name db rows e,
)

remove-none :
    (name alias_name : String) (db : MailDb)
    → MailDb.get_domain name db ≡ none
    → (remove_domain_alias name alias_name db).0 ≡ db
unfolding remove_domain_alias
remove-none name alias_name db e =
    ap
      (λ rows. record db {
        virtual_domain_aliases = record (db.virtual_domain_aliases) { rows = rows };
      })
      (delete_where-none (is_alias_of name alias_name db) db.virtual_domain_aliases.rows
        (none_linked name alias_name db db.virtual_domain_aliases.rows e))

-- The portal has dropped the alias, VM2 is as before.
pub record IsStranded (alias_id : ℕ) (old : MailDb) (r : World × Reply) : Type 0 where
  pub done : r.1 ≡ accepted
  pub dropped :
      first (λ (a : DomainLoginAlias). a.id == alias_id) r.0.portal.domain_login_aliases.rows ≡ none
  pub kept : r.0.vm2 ≡ old

known-IsStranded :
    (lower : String → String) (actor alias_id : ℕ) (w : World) (d : Domain) (a : DomainLoginAlias)
    → (a.domain_id == d.id) ≡ true
    → is_blank w.portal.vm2_host ≡ false
    → MailDb.get_domain d.destination_domain w.vm2 ≡ none
    → IsStranded alias_id w.vm2 (delete_known_alias lower answered actor alias_id w d a)
unfolding delete_known_alias call remove_alias drop_alias delete audited
known-IsStranded lower actor alias_id w d a l b e =
    rw (delete_known_alias, l, b)
      (record {
        done = refl;
        dropped =
            first-deleted (λ (x : DomainLoginAlias). x.id == alias_id)
              w.portal.domain_login_aliases.rows;
        kept = remove-none d.destination_domain (lower (strip a.alias_name)) w.vm2 e;
      })

get-saved :
    (form : DomainForm) (k : ℕ) (d : Domain) (db : Db)
    → get_domain k db ≡ some d
    → get_domain k
        (record db { domains = update (λ (x : Domain). x.id == k) (set_domain form) db.domains })
      ≡ some (set_domain form d)
unfolding get_domain update
get-saved form k d db e =
    let q = first-In (λ (x : Domain). x.id == k) db.domains.rows d e in
    first-update_where (λ (x : Domain). x.id == k) (λ (x : Domain). x.id == k) (set_domain form)
      db.domains.rows d (λ x. refl) e
    ∙ rw (q.1) refl

alias-IsStranded :
    (lower : String → String) (actor k alias_id : ℕ) (w : World) (d : Domain) (a : DomainLoginAlias)
    → get_domain k w.portal ≡ some d
    → first (λ (x : DomainLoginAlias). x.id == alias_id) w.portal.domain_login_aliases.rows ≡ some a
    → (a.domain_id == d.id) ≡ true
    → is_blank w.portal.vm2_host ≡ false
    → MailDb.get_domain d.destination_domain w.vm2 ≡ none
    → IsStranded alias_id w.vm2 (delete_alias lower answered actor k alias_id w)
unfolding delete_alias
alias-IsStranded lower actor k alias_id w d a found alias_found linked host gone =
    rw (delete_alias, found, alias_found)
      (known-IsStranded lower actor alias_id w d a linked host gone)

-- An administrator gives a domain another destination, which VM2 has not, then deletes an alias of the
-- domain: the panel tells that it is deleted and drops it, and VM2 keeps all its aliases, so logins
-- under the alias still work, for the old destination.
pub delete-IsStranded :
    (lower : String → String) (vm2 : Vm2) (net : ℕ → Delivery) (actor k alias_id : ℕ)
    (form : DomainForm) (d : Domain) (a : DomainLoginAlias) (w : World)
    → get_domain k w.portal ≡ some d
    → first (λ (x : DomainLoginAlias). x.id == alias_id) w.portal.domain_login_aliases.rows ≡ some a
    → (a.domain_id == d.id) ≡ true
    → is_blank w.portal.vm2_host ≡ false
    → form.apply_quota_to_all ≡ false
    → MailDb.get_domain form.destination_domain w.vm2 ≡ none
    → IsStranded alias_id w.vm2
        (delete_alias lower answered actor k alias_id (update_domain vm2 net actor k form w))
delete-IsStranded lower vm2 net actor k alias_id form d a w found alias_found linked host only
      gone =
    rw updated (
      alias-IsStranded lower actor k alias_id w' (set_domain form d) a
        (unfold save_domain audited get_domain in
          unfold get_domain in get-saved form k d w.portal found)
        (unfold save_domain audited in alias_found) linked (unfold save_domain audited in host)
        gone)
  where
    w' : World
    w' = record {
      portal = audited actor "domain.update" (some k) (save_domain form k w).portal;
      vm2 = w.vm2;
    }

    updated : update_domain vm2 net actor k form w ≡ w'
    updated = unfold update_domain save_domain in rw (update_domain, found, only) refl
