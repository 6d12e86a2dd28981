-- ===== src/MailDb/Directory/Domains.antt =====
-- A new domain leaves the directory as it is, and domains of one id are one domain.
use mathlib.Core.Option
use mathlib.Core.Bool.{false≢true}
use mail_sync_portal.Base.{
  ℕ, ◌+◌, ◌<◌, ◌≡◌, refl, sym, ap, ◌∙◌, String, Bool, true, false, Option, none, some, List, [],
  ◌∷◌, ◌==◌, ==→eq, ==_refl, ==_ne, inl, inr, arith, str_eq, eq_iff, first, first-append, or_first,
  first-In, In, All, All-In, All-snoc, All-map_to, Distinct, Distinct-append, Bool-cases,
  Option-cases, some_eq, if◌then◌else◌,
}
use mail_sync_portal.Db.{insert}
use mail_sync_portal.MailDb.{
  VirtualDomain, VirtualMailbox, MailDb, get_domain, ensure_domain, new_domain, is_mailbox,
}
use mail_sync_portal.MailDb.Laws.{ensure_known}
use mail_sync_portal.MailDb.Directory.{entry, find_mailbox, view, IsNumbered}

get-new :
    (name name' : String) (db : MailDb)
    → get_domain name db ≡ none
    → get_domain name' (ensure_domain name db).0
      ≡ or_first
          (get_domain name' db)
          (if str_eq name name' then some (new_domain name db.virtual_domains.next_id) else none)
unfolding ensure_domain get_domain insert first
get-new name name' db e =
    rw (ensure_domain, e)
      (first-append (λ (d : VirtualDomain). str_eq d.name name') db.virtual_domains.rows _)

first-past :
    (n : ℕ) (part : String) (rows : List VirtualMailbox)
    → All (λ (m : VirtualMailbox). m.domain_id < n) rows
    → first (is_mailbox n part) rows ≡ none
unfolding first
first-past n part [] h = refl
first-past n part (m ∷ ms) h = rw (other) (first-past n part ms h.1)
  where
    other : is_mailbox n part m ≡ false
    other = rw (==_ne m.domain_id n (λ e. omega (arith, h.0, e))) refl

same_mailboxes :
    (name : String) (db : MailDb)
    → (ensure_domain name db).0.virtual_mailboxes ≡ db.virtual_mailboxes
unfolding ensure_domain
same_mailboxes name db = elim (Option-cases (get_domain name db)) [
  | inr (d, e) ↦ rw (ensure_known name db d e) refl
  | inl e ↦ rw (ensure_domain, e) refl
]

pub ensure-view :
    (name name' part : String) (db : MailDb)
    → IsNumbered db
    → view (ensure_domain name db).0 name' part ≡ view db name' part
unfolding view
ensure-view name name' part db k = elim (Option-cases (get_domain name db)) [
  | inr (d, e) ↦ rw (ensure_known name db d e) refl
  | inl e ↦
      rw (same_mailboxes name db, get-new name name' db e)
        (by_name (get_domain name' db) (str_eq name name'))
]
  where
    rows : List VirtualMailbox
    rows = db.virtual_mailboxes.rows

    by_name :
        (o : Option VirtualDomain) (b : Bool)
        → Option.map entry (
            find_mailbox rows part
              (or_first o (if b then some (new_domain name db.virtual_domains.next_id) else none)))
          ≡ Option.map entry (find_mailbox rows part o)
    by_name (some d) b = refl
    by_name none false = refl
    by_name none true = rw (first-past db.virtual_domains.next_id part rows k.linked) refl

pub ensure-IsNumbered :
    (name : String) (db : MailDb) → IsNumbered db → IsNumbered (ensure_domain name db).0
unfolding insert ensure_domain
ensure-IsNumbered name db k = elim (Option-cases (get_domain name db)) [
  | inr (d, e) ↦ rw (ensure_known name db d e) k
  | inl e ↦
      rw (ensure_domain, e)
        (record {
          ids =
              Distinct-append (λ (a b : VirtualDomain). a.id == b.id) db.virtual_domains.rows _
                (All-map_to (λ (d : VirtualDomain). (d.id == db.virtual_domains.next_id) ≡ false)
                  (λ d lt. ==_ne d.id db.virtual_domains.next_id (λ q. omega (arith, lt, q)))
                  db.virtual_domains.rows k.past)
                k.ids;
          past =
              All-snoc (λ (d : VirtualDomain). d.id < db.virtual_domains.next_id + 1)
                db.virtual_domains.rows _
                (All-map_to (λ (d : VirtualDomain). d.id < db.virtual_domains.next_id + 1)
                  (λ d lt. omega (arith, lt)) db.virtual_domains.rows k.past)
                (omega arith);
          linked =
              All-map_to (λ (m : VirtualMailbox). m.domain_id < db.virtual_domains.next_id + 1)
                (λ m lt. omega (arith, lt)) db.virtual_mailboxes.rows k.linked;
        })
]

-- Two rows with one id are one row.
same_row :
    (ds : List VirtualDomain) (a b : VirtualDomain)
    → Distinct (λ (x y : VirtualDomain). x.id == y.id) ds
    → In a ds
    → In b ds
    → a.id ≡ b.id
    → a ≡ b
same_row [] a b k i j e = elim i [ ]
same_row (d ∷ ds) a b k (inl p) (inl q) e = p ∙ sym q
same_row (d ∷ ds) a b k (inl p) (inr j) e = absurd (
    false≢true (
      sym (All-In _ ds b k.0 j) ∙ rw (ap (λ (x : VirtualDomain). x.id) (sym p) ∙ e) (==_refl b.id)))
same_row (d ∷ ds) a b k (inr i) (inl q) e = absurd (
    false≢true (
      sym (All-In _ ds a k.0 i)
      ∙ rw (ap (λ (x : VirtualDomain). x.id) (sym q) ∙ sym e) (==_refl a.id)))
same_row (d ∷ ds) a b k (inr i) (inr j) e = same_row ds a b k.1 i j e

pub get-row :
    (name : String) (db : MailDb) (d : VirtualDomain)
    → get_domain name db ≡ some d
    → In d db.virtual_domains.rows × (d.name ≡ name)
unfolding get_domain
get-row name db d e =
    let r = first-In (λ (x : VirtualDomain). str_eq x.name name) db.virtual_domains.rows d e in
    (r.0, (eq_iff d.name name).0 r.1)

pub id-name :
    (name name' : String) (db : MailDb) (d d' : VirtualDomain)
    → IsNumbered db
    → get_domain name db ≡ some d
    → get_domain name' db ≡ some d'
    → (d.id == d'.id) ≡ str_eq name name'
id-name name name' db d d' k e e' =
    let r = get-row name db d e in
    let r' = get-row name' db d' e' in
    elim (Bool-cases (d.id == d'.id)) [
      | inl q ↦
          let s = same_row db.virtual_domains.rows d d' k.ids r.0 r'.0 (==→eq d.id d'.id q) in
          q ∙ sym ((eq_iff name name').1 (sym r.1 ∙ ap (λ (x : VirtualDomain). x.name) s ∙ r'.1))
      | inr q ↦ elim (Bool-cases (str_eq name name')) [
        | inr n ↦ q ∙ sym n
        | inl n ↦
            let s : d ≡ d' =
              some_eq d d' (sym e ∙ ap (λ n. get_domain n db) ((eq_iff name name').0 n) ∙ e') in
            absurd (false≢true (sym q ∙ rw s (==_refl d'.id)))
      ]
    ]
