-- ===== src/Panel/Deletion/Laws.antt =====
-- What the deletion of a mailbox removes, and what it leaves.
use mail_sync_portal.Base.{
  ◌⊎◌, true, List, Bool, ℕ, ◌≡◌, ◌≢◌, false, Option, none, some, ◌==◌, ==→eq, All, In, any,
  first-In, or_else,
}
use mail_sync_portal.Db.{Db, Mailbox, SyncJob, Job, JobRun}
use mail_sync_portal.Queue.Handlers.{get_mailbox, get_credential, is_blank}
use mail_sync_portal.Panel.Client.{Vm2, Reply, accepted, World}
use mail_sync_portal.MailDb.{MailDb}
use mail_sync_portal.Panel.Deletion.OnVm2.{IsGone}
use mail_sync_portal.Panel.Deletion.{is_sync_of, unlink}

-- The jobs, the synchronisations and the runs that are not of the mailbox `k` stay, runs perhaps without
-- their synchronisation, and no job or synchronisation is new.
pub record OthersKept (k : ℕ) (jobs : List Job) (syncs : List SyncJob) (runs : List JobRun)
    (jobs' : List Job) (syncs' : List SyncJob) (runs' : List JobRun) : Type 0 where
  pub jobs_kept : (j : Job) → In j jobs → is_sync_of k j ≡ false → In j jobs'
  pub jobs_old : (j : Job) → In j jobs' → In j jobs
  pub syncs_kept : (s : SyncJob) → In s syncs → (s.mailbox_id == k) ≡ false → In s syncs'
  pub syncs_old : (s : SyncJob) → In s syncs' → In s syncs
  pub runs_kept :
      (r : JobRun) → In r runs → (r.mailbox_id == k) ≡ false → In r runs' ⊎ In (unlink r) runs'

-- The mailbox `k` is in `a`, and `b` has nothing of it: no row, no synchronisation, no run, no job of a
-- synchronisation. The other mailboxes are in `b` as in `a`, and so are the credentials they use, their
-- jobs, synchronisations and runs.
pub record IsRemoved (k : ℕ) (a b : Db) : Type 0 where
  pub mailbox : get_mailbox k b ≡ none
  pub sync_jobs : All (λ (s : SyncJob). (s.mailbox_id == k) ≡ false) b.sync_jobs.rows
  pub runs : All (λ (r : JobRun). (r.mailbox_id == k) ≡ false) b.job_runs.rows
  pub jobs : All (λ (j : Job). is_sync_of k j ≡ false) b.job_queue.rows
  pub others : (j : ℕ) → j ≢ k → get_mailbox j b ≡ get_mailbox j a
  pub used :
      (m : Mailbox)
      → In m b.mailboxes.rows
      → get_credential m.credential_id b ≡ get_credential m.credential_id a
  pub kept :
      OthersKept k a.job_queue.rows a.sync_jobs.rows a.job_runs.rows b.job_queue.rows
        b.sync_jobs.rows b.job_runs.rows

-- What holds of the result where the deletion of the credential has one.
OnSome : (Db → Type 0) → Option Db → Type 0
OnSome P none = Unit
OnSome P (some db) = P db

-- The credential is gone, unless a mailbox has it.
abbrev pub IsFree : ℕ → Db → Type 0
IsFree c db =
    (get_credential c db ≡ none)
    ⊎ (any (λ (m : Mailbox). m.credential_id == c) db.mailboxes.rows ≡ true)

-- The mailbox is gone on both machines: VM2 is asked where it has one.
pub record IsDeleted (vm2 : Vm2) (m : Mailbox) (w w' : World) : Type 0 where
  pub removed : IsRemoved m.id w.portal w'.portal
  pub credential : IsFree m.credential_id w'.portal
  pub on_vm2 :
      (is_blank m.vm2_mailbox_id ≡ true) × (w'.vm2 ≡ w.vm2)
      ⊎ IsGone vm2 (or_else "" m.vm2_mailbox_id) w.vm2 w'.vm2

abbrev OnVm2 : Vm2 → Mailbox → MailDb → MailDb → Type 0
OnVm2 vm2 m before after =
    (is_blank m.vm2_mailbox_id ≡ true) × (after ≡ before)
    ⊎ IsGone vm2 (or_else "" m.vm2_mailbox_id) before after

-- What a request does where it ends on the list of mailboxes.
record Deletes (vm2 : Vm2) (m : Mailbox) (w : World) (r : World × Reply) : Type 0 where
  deletes : r.1 ≡ accepted → IsDeleted vm2 m w r.0

pub get-id : (k : ℕ) (db : Db) (m : Mailbox) → get_mailbox k db ≡ some m → m.id ≡ k
unfolding get_mailbox
get-id k db m e = ==→eq m.id k (first-In (λ (x : Mailbox). x.id == k) db.mailboxes.rows m e).1
