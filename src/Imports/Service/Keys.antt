-- ===== src/Imports/Service/Keys.antt =====
-- The keys of the tables under `upsert_mailbox`: what the unique constraints of the models ask for.
use mail_sync_portal.Base.{
  ℕ, ◌+◌, ◌<◌, ◌≡◌, refl, String, Bool, false, inl, inr, ◌&&◌, arith, ◌==◌, str_eq, first,
  first-none, Option-cases, Distinct, Distinct-append, Distinct-update_where, All, All-map_to,
  All-snoc,
}
use mail_sync_portal.Db.{insert, update, Db, Domain, Credential, Mailbox, SyncJob}
use mail_sync_portal.Imports.Service.{
  Request, domain_name, user_name, is_domain, is_credential, is_mailbox_of, new_domain,
  ensure_domain, new_credential, set_password, ensure_credential, new_mailbox, new_sync_job,
  ensure_mailbox, queue_provision, upsert_mailbox,
}
use mail_sync_portal.Imports.Service.Upsert.{domain-known, credential-known, mailbox-known}

abbrev same_domain : Domain → Domain → Bool
same_domain a b = str_eq a.source_domain b.source_domain

abbrev same_credential : Credential → Credential → Bool
same_credential a b = a.domain_id == b.domain_id && str_eq a.source_username b.source_username

abbrev same_credential_id : Mailbox → Mailbox → Bool
same_credential_id a b = a.credential_id == b.credential_id

abbrev same_mailbox_id : SyncJob → SyncJob → Bool
same_mailbox_id a b = a.mailbox_id == b.mailbox_id

-- One domain for each name, one credential for each domain and user, one mailbox for each credential,
-- one sync job for each mailbox, and no sync job of a mailbox that is still to be made.
pub record IsKeyed (db : Db) : Type 0 where
  pub domains : Distinct same_domain db.domains.rows
  pub credentials : Distinct same_credential db.credentials.rows
  pub mailboxes : Distinct same_credential_id db.mailboxes.rows
  pub sync_jobs : Distinct same_mailbox_id db.sync_jobs.rows
  pub past : All (λ s. s.mailbox_id < db.mailboxes.next_id) db.sync_jobs.rows

ensure_domain-IsKeyed :
    (name : String) (r : Request) (db : Db) → IsKeyed db → IsKeyed (ensure_domain name r db).0
ensure_domain-IsKeyed name r db k = elim (Option-cases (first (is_domain name) db.domains.rows)) [
  | inl e ↦
      unfold ensure_domain insert in
      rw (e, ensure_domain)
        (record {
          domains =
              Distinct-append same_domain db.domains.rows _
                (unfold new_domain in first-none (is_domain name) db.domains.rows e) k.domains;
          credentials = k.credentials;
          mailboxes = k.mailboxes;
          sync_jobs = k.sync_jobs;
          past = k.past;
        })
  | inr (d, e) ↦ rw (domain-known name r db d e) k
]

ensure_credential-IsKeyed :
    (domain_id : ℕ) (cipher : String) (r : Request) (db : Db)
    → IsKeyed db
    → IsKeyed (ensure_credential domain_id cipher r db).0
ensure_credential-IsKeyed domain_id cipher r db k =
    elim (Option-cases (first (is_credential domain_id (user_name r)) db.credentials.rows)) [
      | inl e ↦
          unfold ensure_credential insert in
          rw (e, ensure_credential)
            (record {
              domains = k.domains;
              credentials =
                  Distinct-append same_credential db.credentials.rows _
                    (unfold new_credential in
                      first-none (is_credential domain_id (user_name r)) db.credentials.rows e)
                    k.credentials;
              mailboxes = k.mailboxes;
              sync_jobs = k.sync_jobs;
              past = k.past;
            })
      | inr (c, e) ↦ rw (credential-known domain_id cipher r db c e) (
          unfold update in
          record {
            domains = k.domains;
            credentials =
                Distinct-update_where same_credential (λ x. x.id == c.id) (set_password cipher)
                  (λ a b. refl) (λ a b. refl) db.credentials.rows k.credentials;
            mailboxes = k.mailboxes;
            sync_jobs = k.sync_jobs;
            past = k.past;
          })
    ]

other_mailbox :
    (s : SyncJob) (n id : ℕ) → s.mailbox_id < n → same_mailbox_id s (new_sync_job n id) ≡ false
unfolding new_sync_job
other_mailbox s n id lt = ground arith

ensure_mailbox-IsKeyed :
    (name : String) (d : Domain) (credential_id : ℕ) (r : Request) (db : Db)
    → IsKeyed db
    → IsKeyed (ensure_mailbox name d credential_id r db).0
ensure_mailbox-IsKeyed name d credential_id r db k =
    elim (Option-cases (first (is_mailbox_of credential_id) db.mailboxes.rows)) [
      | inl e ↦
          unfold ensure_mailbox insert in
          rw (e, ensure_mailbox)
            (record {
              domains = k.domains;
              credentials = k.credentials;
              mailboxes =
                  Distinct-append same_credential_id db.mailboxes.rows _
                    (unfold new_mailbox in
                      first-none (is_mailbox_of credential_id) db.mailboxes.rows e)
                    k.mailboxes;
              sync_jobs =
                  Distinct-append same_mailbox_id db.sync_jobs.rows _
                    (All-map_to
                      (λ s.
                        same_mailbox_id s (new_sync_job db.mailboxes.next_id db.sync_jobs.next_id)
                        ≡ false)
                      (λ s lt. other_mailbox s _ _ lt) db.sync_jobs.rows k.past)
                    k.sync_jobs;
              past =
                  All-snoc (λ s. s.mailbox_id < db.mailboxes.next_id + 1) db.sync_jobs.rows _
                    (All-map_to (λ s. s.mailbox_id < db.mailboxes.next_id + 1) (λ s lt. omega arith)
                      db.sync_jobs.rows k.past)
                    (unfold new_sync_job in omega arith);
            })
      | inr (m, e) ↦ rw (mailbox-known name d credential_id r db m e) k
    ]

-- A call keeps the keys of the tables: one domain for each name, one credential for each domain and
-- user, one mailbox for each credential, one sync job for each mailbox.
pub upsert-IsKeyed :
    (lower : String → String) (now : ℕ) (encrypt : String → String) (r : Request) (db : Db)
    → IsKeyed db
    → IsKeyed (upsert_mailbox lower now encrypt r db).0
unfolding upsert_mailbox queue_provision
upsert-IsKeyed lower now encrypt r db k =
    let s1 = ensure_domain (domain_name lower r) r db in
    let s2 = ensure_credential s1.1.id (encrypt r.source_password) r s1.0 in
    let h = ensure_mailbox-IsKeyed (domain_name lower r) s1.1 s2.1.id r s2.0 (
      ensure_credential-IsKeyed s1.1.id (encrypt r.source_password) r s1.0
        (ensure_domain-IsKeyed (domain_name lower r) r db k)) in
    record {
      domains = h.domains;
      credentials = h.credentials;
      mailboxes = h.mailboxes;
      sync_jobs = h.sync_jobs;
      past = h.past;
    }
