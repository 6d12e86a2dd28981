-- ===== src/Imports/Service/Upsert.antt =====
-- What `upsert_mailbox` leaves in the tables.
use text.Mathlib.TextPositions.{eq_refl}
use mail_sync_portal.Base.{
  ℕ, ◌≡◌, refl, sym, ◌∙◌, subst, String, Bool, false, some, inl, inr, arith, ◌==◌, ==_refl, first,
  first-append_new, first-update_where, Option-cases, map, List, [], ◌∷◌, ◌++◌, update_where, of_if,
}
use mail_sync_portal.Db.{insert, update, Job, Db, Domain, Credential, Mailbox}
use mail_sync_portal.Imports.Service.{
  Request, domain_name, user_name, is_domain, is_credential, is_mailbox_of, new_domain,
  ensure_domain, new_credential, set_password, ensure_credential, new_mailbox, ensure_mailbox,
  provision_job, queue_provision, upsert_mailbox,
}

module _ (name : String) (r : Request) where
  pub domain-known :
      (db : Db) (d : Domain)
      → first (is_domain name) db.domains.rows ≡ some d
      → ensure_domain name r db ≡ (db, d)
  unfolding ensure_domain
  domain-known db d e = rw (e, ensure_domain) refl

  domain-found :
      (db : Db)
      → first (is_domain name) (ensure_domain name r db).0.domains.rows
        ≡ some (ensure_domain name r db).1
  domain-found db = elim (Option-cases (first (is_domain name) db.domains.rows)) [
    | inl e ↦
        unfold ensure_domain in
        rw (e, ensure_domain)
          (unfold insert in
            first-append_new (is_domain name) db.domains.rows (new_domain name r db.domains.next_id)
              e (unfold new_domain in eq_refl name))
    | inr (d, e) ↦ rw (domain-known db d e) e
  ]

module _ (domain_id : ℕ) (cipher : String) (r : Request) where
  pub credential-known :
      (db : Db) (c : Credential)
      → first (is_credential domain_id (user_name r)) db.credentials.rows ≡ some c
      → ensure_credential domain_id cipher r db ≡ (
        record db { credentials = update (λ x. x.id == c.id) (set_password cipher) db.credentials },
        set_password cipher c,
        false,
      )
  unfolding ensure_credential
  credential-known db c e = rw (e, ensure_credential) refl

  -- The row of the credential has the new password.
  credential-found :
      (db : Db)
      → first
          (is_credential domain_id (user_name r))
          (ensure_credential domain_id cipher r db).0.credentials.rows
        ≡ some (ensure_credential domain_id cipher r db).1
  credential-found db =
      elim (Option-cases (first (is_credential domain_id (user_name r)) db.credentials.rows)) [
        | inl e ↦
            unfold ensure_credential in
            rw (e, ensure_credential)
              (unfold insert in
                first-append_new (is_credential domain_id (user_name r)) db.credentials.rows
                  (new_credential domain_id cipher r db.credentials.next_id) e
                  (unfold new_credential in rw (==_refl domain_id) (eq_refl (user_name r))))
        | inr (c, e) ↦ rw (credential-known db c e) (
            unfold update in
            first-update_where (is_credential domain_id (user_name r)) (λ x. x.id == c.id)
              (set_password cipher) db.credentials.rows c (λ a. refl) e
            ∙ rw (==_refl c.id) refl)
      ]

module _ (name : String) (d : Domain) (credential_id : ℕ) (r : Request) where
  pub mailbox-known :
      (db : Db) (m : Mailbox)
      → first (is_mailbox_of credential_id) db.mailboxes.rows ≡ some m
      → ensure_mailbox name d credential_id r db ≡ (db, m, false)
  unfolding ensure_mailbox
  mailbox-known db m e = rw (e, ensure_mailbox) refl

  mailbox-found :
      (db : Db)
      → first
          (is_mailbox_of credential_id)
          (ensure_mailbox name d credential_id r db).0.mailboxes.rows
        ≡ some (ensure_mailbox name d credential_id r db).1
  mailbox-found db = elim (Option-cases (first (is_mailbox_of credential_id) db.mailboxes.rows)) [
    | inl e ↦
        unfold ensure_mailbox in
        rw (e, ensure_mailbox)
          (unfold insert in
            first-append_new (is_mailbox_of credential_id) db.mailboxes.rows _ e
              (unfold new_mailbox in ==_refl credential_id))
    | inr (m, e) ↦ rw (mailbox-known db m e) e
  ]

-- The tables know the mailbox of a request: its domain, its credential with the given password, and
-- the mailbox of the credential are the rows that the queries find.
pub record IsRegistered (lower : String → String) (cipher : String) (r : Request) (m : Mailbox)
    (db : Db) : Type 0 where
  pub domain : Domain
  pub credential : Credential
  pub domain_found : first (is_domain (domain_name lower r)) db.domains.rows ≡ some domain
  pub credential_found :
      first (is_credential domain.id (user_name r)) db.credentials.rows ≡ some credential
  pub password : credential.source_password_encrypted ≡ cipher
  pub mailbox_found : first (is_mailbox_of credential.id) db.mailboxes.rows ≡ some m

module _ (domain_id : ℕ) (cipher : String) (r : Request) (db : Db) where
  domains-credential : (ensure_credential domain_id cipher r db).0.domains ≡ db.domains
  unfolding ensure_credential
  domains-credential = ground arith

  password-credential :
      (ensure_credential domain_id cipher r db).1.source_password_encrypted ≡ cipher
  unfolding ensure_credential new_credential
  password-credential = ground arith

module _ (name : String) (d : Domain) (credential_id : ℕ) (r : Request) (db : Db) where
  domains-mailbox : (ensure_mailbox name d credential_id r db).0.domains ≡ db.domains
  unfolding ensure_mailbox
  domains-mailbox = ground arith

  credentials-mailbox : (ensure_mailbox name d credential_id r db).0.credentials ≡ db.credentials
  unfolding ensure_mailbox
  credentials-mailbox = ground arith

module _ (lower : String → String) (now : ℕ) (encrypt : String → String) (r : Request) where
  -- After the call the tables know the mailbox that it returns, under the new password.
  pub upsert-IsRegistered :
      (db : Db)
      → IsRegistered lower
          (encrypt r.source_password)
          r
          (upsert_mailbox lower now encrypt r db).1
          (upsert_mailbox lower now encrypt r db).0
  unfolding upsert_mailbox queue_provision
  upsert-IsRegistered db =
      let name = domain_name lower r in
      let cipher = encrypt r.source_password in
      let s1 = ensure_domain name r db in
      let s2 = ensure_credential s1.1.id cipher r s1.0 in
      record {
        domain = s1.1;
        credential = s2.1;
        domain_found =
            rw (domains-mailbox name s1.1 s2.1.id r s2.0, domains-credential s1.1.id cipher r s1.0)
              (domain-found name r db);
        credential_found =
            rw (credentials-mailbox name s1.1 s2.1.id r s2.0)
              (credential-found s1.1.id cipher r s1.0);
        password = password-credential s1.1.id cipher r s1.0;
        mailbox_found = mailbox-found name s1.1 s2.1.id r s2.0;
      }

  -- Where the tables know the mailbox, a call changes the password and queues a job, and no more.
  pub upsert-known :
      (db : Db) (cipher : String) (m : Mailbox) (k : IsRegistered lower cipher r m db)
      → upsert_mailbox lower now encrypt r db ≡ (
        queue_provision now m.id (record db {
          credentials =
              update
                (λ x. x.id == k.credential.id)
                (set_password (encrypt r.source_password))
                db.credentials;
        }),
        m,
        false,
      )
  unfolding upsert_mailbox
  upsert-known db cipher m k =
      let db' : Db = record db {
        credentials =
            update (λ x. x.id == k.credential.id) (set_password (encrypt r.source_password))
              db.credentials;
      } in
      rw (domain-known (domain_name lower r) r db k.domain k.domain_found) (
        rw
          (credential-known k.domain.id (encrypt r.source_password) r db k.credential
            k.credential_found)
          (rw (mailbox-known (domain_name lower r) k.domain k.credential.id r db' m k.mailbox_found)
            refl))

-- A credential but for its password.
abbrev pub without_password : Credential → Credential
without_password c = record c { source_password_encrypted = "" }

-- A new password changes nothing else of the rows.
update-without_password :
    (p : Credential → Bool) (cipher : String) (cs : List Credential)
    → map without_password (update_where p (set_password cipher) cs) ≡ map without_password cs
unfolding update_where
update-without_password p cipher [] = refl
update-without_password p cipher (c ∷ cs) = rw (update-without_password p cipher cs) (
    of_if
      (λ (x : Credential).
        without_password x ∷ map without_password cs ≡ without_password c ∷ map without_password cs)
      (p c) refl refl)

-- The outcome of a call that finds everything in place: the given mailbox, not created, the same domains,
-- mailboxes and sync jobs, the same credentials but for passwords, and one more job, which provisions the
-- mailbox.
pub record IsRepeat (before : Db) (m : Mailbox) (outcome : Db × Mailbox × Bool) : Type 0 where
  pub mailbox : outcome.1 ≡ m
  pub not_created : outcome.2 ≡ false
  pub domains : outcome.0.domains ≡ before.domains
  pub mailboxes : outcome.0.mailboxes ≡ before.mailboxes
  pub sync_jobs : outcome.0.sync_jobs ≡ before.sync_jobs
  pub credentials :
      map without_password outcome.0.credentials.rows ≡ map without_password before.credentials.rows
  pub job : Job
  pub queue : outcome.0.job_queue.rows ≡ before.job_queue.rows ++ job ∷ []
  pub provisions : (job.job_type ≡ "provision") × (job.payload.mailbox_id ≡ some m.id)

known-IsRepeat :
    (lower : String → String) (now : ℕ) (encrypt : String → String) (r : Request) (db : Db)
    (cipher : String) (m : Mailbox)
    → IsRegistered lower cipher r m db
    → IsRepeat db m (upsert_mailbox lower now encrypt r db)
unfolding provision_job
known-IsRepeat lower now encrypt r db cipher m k =
    subst (IsRepeat db m) (sym (upsert-known lower now encrypt r db cipher m k)) (
      unfold queue_provision update insert in
      record {
        mailbox = refl;
        not_created = refl;
        domains = refl;
        mailboxes = refl;
        sync_jobs = refl;
        credentials = update-without_password _ _ db.credentials.rows;
        job = provision_job now m.id db.job_queue.next_id;
        queue = refl;
        provisions = (refl, refl);
      })

-- A second call with the same arguments, at whatever time and with whatever nonce, returns the same
-- mailbox as not created, and adds no domain, credential, mailbox or sync job: it changes passwords only,
-- and adds one job that provisions the mailbox.
pub upsert_twice :
    (lower : String → String) (now later : ℕ) (encrypt again : String → String) (r : Request)
    (db : Db)
    → IsRepeat
        (upsert_mailbox lower now encrypt r db).0
        (upsert_mailbox lower now encrypt r db).1
        (upsert_mailbox lower later again r (upsert_mailbox lower now encrypt r db).0)
upsert_twice lower now later encrypt again r db =
    known-IsRepeat lower later again r _ _ _ (upsert-IsRegistered lower now encrypt r db)
