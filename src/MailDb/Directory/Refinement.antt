-- ===== src/MailDb/Directory/Refinement.antt =====
-- Creating mailboxes on VM2 implements the specification on the directory.
use mathlib.Core.Path.{fun_ext}
use mathlib.Core.Option
use mail_sync_portal.Base.{
  ℕ, ◌<◌, ◌≡◌, refl, sym, ap, ◌∙◌, String, Bool, true, false, Option, none, some, List, [], ◌∷◌,
  ◌++◌, ◌&&◌, inl, inr, arith, str_eq, eq_iff, first, first-append, or_first, All-In, All-snoc,
  Bool-cases, Option-cases, if◌then◌else◌,
}
use mail_sync_portal.Db.{insert}
use mail_sync_portal.MailDb.{
  VirtualDomain, VirtualMailbox, MailDb, get_domain, ensure_domain, is_mailbox, new_mailbox,
  create_mailbox,
}
use mail_sync_portal.MailDb.Laws.{ensure-found}
use mail_sync_portal.MailDb.Directory.{
  entry, find_mailbox, view, put, IsNumbered, Wanted, create_all, put_all,
}
use mail_sync_portal.MailDb.Directory.Domains.{ensure-view, ensure-IsNumbered, get-row, id-name}

-- A row that is appended is found where no row before it is.
append-first :
    (p : VirtualMailbox → Bool) (rows : List VirtualMailbox) (x : VirtualMailbox) (b : Bool)
    → p x ≡ b
    → Option.map entry (first p (rows ++ x ∷ [])) ≡ (
        if b
        then or_first (Option.map entry (first p rows)) (some (entry x))
        else Option.map entry (first p rows))
append-first p rows x b e =
    rw (first-append p rows (x ∷ [])) (unfold first in rw e (by_cases (first p rows) b))
  where
    by_cases :
        (o : Option VirtualMailbox) (b : Bool)
        → Option.map entry (or_first o (if b then some x else none))
          ≡ (if b then or_first (Option.map entry o) (some (entry x)) else Option.map entry o)
    by_cases none true = refl
    by_cases none false = refl
    by_cases (some m) true = refl
    by_cases (some m) false = refl

append-found :
    (name part hash : String) (quota : ℕ) (db : MailDb) (d : VirtualDomain) (name' part' : String)
    → IsNumbered db
    → get_domain name db ≡ some d
    → (o : Option VirtualDomain) → get_domain name' db ≡ o
    → Option.map entry (
        find_mailbox
          (db.virtual_mailboxes.rows
            ++ new_mailbox name d part hash quota db.virtual_mailboxes.next_id ∷ [])
          part'
          o)
      ≡ put name part hash quota
          (λ n p. Option.map entry (find_mailbox db.virtual_mailboxes.rows p o))
          name'
          part'
append-found name part hash quota db d name' part' k e none f =
    elim (Bool-cases (str_eq name name')) [
      | inr n ↦ rw n refl
      | inl n ↦
          let bad : some d ≡ none =
            sym e ∙ ap (λ x. get_domain x db) ((eq_iff name name').0 n) ∙ f in
          absurd (ground arith)
    ]
append-found name part hash quota db d name' part' k e (some d') f =
    append-first (is_mailbox d'.id part') db.virtual_mailboxes.rows _
      (str_eq name name' && str_eq part part') (rw (id-name name name' db d d' k e f) refl)

append-view :
    (name part hash : String) (quota : ℕ) (db : MailDb) (d : VirtualDomain) (name' part' : String)
    → IsNumbered db
    → get_domain name db ≡ some d
    → view
        (record db {
          virtual_mailboxes = insert (new_mailbox name d part hash quota) db.virtual_mailboxes;
        })
        name'
        part'
      ≡ put name part hash quota (view db) name' part'
unfolding view insert get_domain
append-view name part hash quota db d name' part' k e =
    append-found name part hash quota db d name' part' k e (get_domain name' db) refl

view-there :
    (name part : String) (db : MailDb) (d : VirtualDomain) (m : VirtualMailbox)
    → get_domain name db ≡ some d
    → first (is_mailbox d.id part) db.virtual_mailboxes.rows ≡ some m
    → view db name part ≡ some (entry m)
unfolding view
view-there name part db d m e f = rw (e, f) refl

keep-view :
    (name part hash : String) (quota : ℕ) (db : MailDb) (d : VirtualDomain) (m : VirtualMailbox)
    (name' part' : String)
    → get_domain name db ≡ some d
    → first (is_mailbox d.id part) db.virtual_mailboxes.rows ≡ some m
    → view db name' part' ≡ put name part hash quota (view db) name' part'
keep-view name part hash quota db d m name' part' e f = elim (Bool-cases (str_eq name name')) [
  | inr n ↦ rw n refl
  | inl n ↦ elim (Bool-cases (str_eq part part')) [
    | inr q ↦ rw (n, q) refl
    | inl q ↦ rw (n, q) (rw (there ((eq_iff name name').0 n) ((eq_iff part part').0 q)) refl)
  ]
]
  where
    there : name ≡ name' → part ≡ part' → view db name' part' ≡ some (entry m)
    there n q =
        ap (λ x. view db x part') (sym n)
        ∙ ap (view db name) (sym q)
        ∙ view-there name part db d m e f

create-view :
    (name part hash : String) (quota : ℕ) (db : MailDb) (name' part' : String)
    → IsNumbered db
    → view (create_mailbox name part hash quota db).0 name' part'
      ≡ put name part hash quota (view db) name' part'
unfolding create_mailbox
create-view name part hash quota db name' part' k =
    let db' = (ensure_domain name db).0 in
    let d = (ensure_domain name db).1 in
    let k' = ensure-IsNumbered name db k in
    let found = ensure-found name db in
    let old = ensure-view name name' part' db k in
    elim (Option-cases (first (is_mailbox d.id part) db'.virtual_mailboxes.rows)) [
      | inl e ↦
          rw (create_mailbox, e)
            (append-view name part hash quota db' d name' part' k' found ∙ rw old refl)
      | inr (m, e) ↦
          rw (create_mailbox, e)
            (keep-view name part hash quota db' d m name' part' found e ∙ rw old refl)
    ]

create-IsNumbered :
    (name part hash : String) (quota : ℕ) (db : MailDb)
    → IsNumbered db
    → IsNumbered (create_mailbox name part hash quota db).0
unfolding create_mailbox insert
create-IsNumbered name part hash quota db k =
    let db' = (ensure_domain name db).0 in
    let d = (ensure_domain name db).1 in
    let k' = ensure-IsNumbered name db k in
    let row = get-row name db' d (ensure-found name db) in
    elim (Option-cases (first (is_mailbox d.id part) db'.virtual_mailboxes.rows)) [
      | inl e ↦
          rw (create_mailbox, e)
            (record {
              ids = k'.ids;
              past = k'.past;
              linked =
                  All-snoc (λ (m : VirtualMailbox). m.domain_id < db'.virtual_domains.next_id)
                    db'.virtual_mailboxes.rows _ k'.linked
                    (All-In (λ (x : VirtualDomain). x.id < db'.virtual_domains.next_id)
                      db'.virtual_domains.rows d k'.past row.0);
            })
      | inr (m, e) ↦ rw (create_mailbox, e) k'
    ]

-- Any requests for new mailboxes, in any order, change the directory as the specification does: each
-- puts the mailbox under its domain and its local part with its password and quota, unless one is
-- there. This asks that no two domains have one id, and that their sequence is past every id in use.
pub create_all-view :
    (rs : List Wanted) (db : MailDb)
    → IsNumbered db
    → view (create_all rs db) ≡ put_all rs (view db)
unfolding create_all
create_all-view [] db k = refl
create_all-view ((name, part, hash, quota) ∷ rs) db k =
    create_all-view rs (create_mailbox name part hash quota db).0
      (create-IsNumbered name part hash quota db k)
    ∙ ap (put_all rs)
        (fun_ext (λ name'. fun_ext (λ part'. create-view name part hash quota db name' part' k)))
