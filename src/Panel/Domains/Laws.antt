-- ===== src/Panel/Domains/Laws.antt =====
-- The aliases of domains on both machines.
use mail_sync_portal.Base.{
  ℕ, subst, ◌==◌, ==→eq, ◌≡◌, refl, String, Bool, true, false, not, Option, none, some, ◌||◌, inl,
  inr, arith, str_eq, eq_iff, is_some, first-append_new, Bool-cases, Option-cases, of_if, of_test,
}
use mail_sync_portal.Db.{Domain, DomainLoginAlias, insert}
use mail_sync_portal.MailDb
use mail_sync_portal.MailDb.{
  MailDb, VirtualDomain, DomainAlias, Answer, answer, failure, find_alias, add_domain_alias,
}
use mail_sync_portal.Queue.Handlers.{get_domain}
use mail_sync_portal.Panel.Client.{
  Delivery, lost, answered, answer_lost, call, Reply, accepted, World, audited,
}
use mail_sync_portal.Panel.Domains.{
  normalize, post_alias, find_login_alias, is_bad_alias, save_alias, add_known_alias, add_alias,
  new_login_alias,
}
use mail_sync_portal.Panel.Domains.Names.{is_domain_name}

-- A call that returns was answered.
call-Answered :
    {A : Type 0} (net : Delivery) (db : MailDb) (a : Answer A)
    → (call net db a).1 ≡ true
    → (db' : MailDb) × (x : A) × (a ≡ answer db' x) × ((call net db a).0 ≡ db')
unfolding call
call-Answered lost db a e = absurd (ground arith)
call-Answered answered db (answer db' x) e = (db', x, refl, refl)
call-Answered answered db (failure f) e = absurd (ground arith)
call-Answered answer_lost db a e = absurd (ground arith)

-- VM2 has the alias, of the domain of the name.
pub record HasAlias (name alias_name : String) (db : MailDb) : Type 0 where
  pub domain : VirtualDomain
  pub row : DomainAlias
  pub domain_found : MailDb.get_domain name db ≡ some domain
  pub row_found : find_alias alias_name db ≡ some row
  pub linked : row.domain_id ≡ domain.id

OfAnswer : {A : Type 0} → (MailDb → Type 0) → Answer A → Type 0
OfAnswer P (answer db a) = P db
OfAnswer P (failure e) = Unit

add-HasAlias :
    (name alias_name : String) (db : MailDb)
    → OfAnswer (HasAlias name alias_name) (add_domain_alias name alias_name db)
unfolding OfAnswer add_domain_alias insert MailDb.get_domain
add-HasAlias name alias_name db = elim (Option-cases (MailDb.get_domain name db)) [
  | inl e ↦ rw (add_domain_alias, e, OfAnswer) tt
  | inr (dom, e) ↦ elim (Option-cases (find_alias alias_name db)) [
    | inl f ↦
        rw (add_domain_alias, e, f, OfAnswer)
          (record {
            domain = dom;
            row = MailDb.new_alias dom.id alias_name db.virtual_domain_aliases.next_id;
            domain_found = e;
            row_found =
                first-append_new (λ (a : DomainAlias). str_eq a.alias_name alias_name)
                  db.virtual_domain_aliases.rows _ f ((eq_iff alias_name alias_name).1 refl);
            linked = refl;
          })
    | inr (a, f) ↦ elim (Bool-cases (a.domain_id == dom.id)) [
      | inl g ↦
          rw (add_domain_alias, e, f, g, OfAnswer)
            (record {
              domain = dom;
              row = a;
              domain_found = e;
              row_found = f;
              linked = ==→eq a.domain_id dom.id g;
            })
      | inr g ↦ rw (add_domain_alias, e, f, g, OfAnswer) tt
    ]
  ]
]

post-HasAlias :
    (lower : String → String) (name alias_name : String) (db : MailDb)
    → OfAnswer (HasAlias name (normalize lower alias_name)) (post_alias lower name alias_name db)
unfolding post_alias OfAnswer
post-HasAlias lower name alias_name db =
    let a = normalize lower alias_name in
    of_if (OfAnswer (HasAlias name a)) (not (is_domain_name a) || str_eq a (lower name)) tt
      (add-HasAlias name a db)

call-OfAnswer :
    {A : Type 0} (P : MailDb → Type 0) (net : Delivery) (db : MailDb) (a : Answer A)
    → OfAnswer P a
    → (call net db a).1 ≡ true
    → P (call net db a).0
unfolding OfAnswer call
call-OfAnswer P lost db a h e = absurd (ground arith)
call-OfAnswer P answered db (answer db' x) h e = h
call-OfAnswer P answered db (failure f) h e = absurd (ground arith)
call-OfAnswer P answer_lost db a h e = absurd (ground arith)

-- The portal has the alias of the domain `d`, whose name was free, and VM2 has it under the same name, of
-- the domain with the name of the destination.
pub record IsAdded (lower : String → String) (d : Domain) (alias_n : String) (w w' : World)
    : Type 0 where
  pub valid : is_domain_name alias_n ≡ true
  pub free : find_login_alias lower alias_n w.portal ≡ none
  pub row : DomainLoginAlias
  pub found : find_login_alias lower alias_n w'.portal ≡ some row
  pub linked : row.domain_id ≡ d.id
  pub on_vm2 : HasAlias d.destination_domain alias_n w'.vm2

good_alias :
    (v e : Bool) (f : Option DomainLoginAlias) (b : Bool)
    → (not v || (e || (is_some f || b))) ≡ false
    → (v ≡ true) × (f ≡ none)
good_alias v e none b h = (ground arith, refl)
good_alias v e (some a) b h = absurd (ground arith)

known-IsAdded :
    (lower : String → String) (net : Delivery) (actor : ℕ) (alias_n : String) (w : World)
    (d : Domain)
    → normalize lower alias_n ≡ alias_n
    → (add_known_alias lower net actor alias_n w d).1 ≡ accepted
    → IsAdded lower d alias_n w (add_known_alias lower net actor alias_n w d).0
unfolding add_known_alias save_alias insert audited
known-IsAdded lower net actor alias_n w d same =
    let P = λ (r : World × Reply). r.1 ≡ accepted → IsAdded lower d alias_n w r.0 in
    let a = post_alias lower d.destination_domain alias_n w.vm2 in
    of_test P (is_bad_alias lower d alias_n w.portal) (λ e q. absurd (ground arith))
      (λ e.
        let g = good_alias _ _ (find_login_alias lower alias_n w.portal) _ e in
        of_test P (call net w.vm2 a).1
          (λ t q. record {
            valid = g.0;
            free = g.1;
            row = new_login_alias lower d.id alias_n w.portal.domain_login_aliases.next_id;
            found =
                first-append_new (λ (x : DomainLoginAlias). str_eq x.alias_name alias_n)
                  w.portal.domain_login_aliases.rows _ g.1 ((eq_iff alias_n alias_n).1 refl);
            linked = refl;
            on_vm2 =
                subst (λ n. HasAlias d.destination_domain n (call net w.vm2 a).0) same
                  (call-OfAnswer (HasAlias d.destination_domain (normalize lower alias_n)) net w.vm2
                    a (post-HasAlias lower d.destination_domain alias_n w.vm2) t);
          })
          (λ t q. absurd (ground arith)))

-- An alias that the panel accepts is a domain name that no domain of the portal had as an alias, and
-- both machines have it under one name: the portal for its domain, VM2 for the domain of the destination.
-- The condition is that the name is one that its normalization, which VM2 makes once more, leaves as it is.
pub add_alias-IsAdded :
    (lower : String → String) (net : Delivery) (actor domain_id : ℕ) (text : String) (d : Domain)
    (w : World)
    → get_domain domain_id w.portal ≡ some d
    → normalize lower (normalize lower text) ≡ normalize lower text
    → (add_alias lower net actor domain_id text w).1 ≡ accepted
    → IsAdded lower d (normalize lower text) w (add_alias lower net actor domain_id text w).0
unfolding add_alias
add_alias-IsAdded lower net actor domain_id text d w found same =
    rw (add_alias, found) (known-IsAdded lower net actor (normalize lower text) w d same)
