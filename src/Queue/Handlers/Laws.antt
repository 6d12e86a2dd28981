-- ===== src/Queue/Handlers/Laws.antt =====
-- The handlers of the worker append to the queue only, and each ends its run.
use mail_sync_portal.Base.{
  ℕ, ◌≡◌, refl, sym, ap, ◌∙◌, subst, String, Bool, Option, none, some, [], ◌∷◌, ◌==◌, str_eq, not,
  ◌||◌, arith, inl, inr, ◌⊎◌, or_else, append-nil, Bool-cases, Option-cases, first,
}
use mail_sync_portal.Db.{
  Table, insert, Db, Job, Payload, Mailbox, Credential, Domain, SyncJob, JobRun,
}
use mail_sync_portal.Queue.Worker.{Handlers}
use mail_sync_portal.Queue.Worker.Lifecycle.{Appends, OnlyAppends, AllAppend}
use mail_sync_portal.Queue.Handlers.{
  Outside, get_mailbox, get_credential, get_domain, modify_mailbox, is_blank, is_provisioned,
  assess_job, complete_provision, call_vm2, provision_known, provision_mailbox, provision,
}
use mail_sync_portal.Queue.Handlers.Updates.{Machines, system_update}
use mail_sync_portal.Queue.Handlers.Updates.Ends.{system_update-queue}
use mail_sync_portal.Queue.Handlers.Sync.{
  Start, skip, raise, go, Plan, Outcome, open_run, start_known, start_mailbox, start_sync,
  finish_sync, sync, outcome, perform, passwords, is_assess,
}

-- Nothing is added where the queue stays the same.
Appends-none : (old new : Db) → new.job_queue ≡ old.job_queue → Appends old new
Appends-none old new e = record {
  added = [];
  rows = ap (λ (t : Table Job). t.rows) e ∙ sym (append-nil old.job_queue.rows);
  idle = tt;
  fresh = tt;
  grows = omega (arith, ap (λ (t : Table Job). t.next_id) e);
}

sum-cases : {A B : Type 0} (x : A ⊎ B) → ((a : A) × (x ≡ inl a)) ⊎ ((b : B) × (x ≡ inr b))
sum-cases (inl a) = inl (a, refl)
sum-cases (inr b) = inr (b, refl)

complete-Appends :
    (out : Outside) (now : ℕ) (m : Mailbox) (plain vm2_id : String) (db : Db)
    → Appends db (complete_provision out now m plain vm2_id db)
unfolding complete_provision modify_mailbox insert
complete-Appends out now m plain vm2_id db = record {
  added = assess_job now m.id db.job_queue.next_id ∷ [];
  rows = refl;
  idle = (refl, tt);
  fresh = (omega arith, tt);
  grows = omega arith;
}

known-Appends :
    (out : Outside) (now : ℕ) (m : Mailbox) (c : Option Credential) (d : Option Domain) (db : Db)
    → Appends db (provision_known out now m c d db).0
unfolding provision_known
known-Appends out now m none d db = Appends-none db db refl
known-Appends out now m (some c) none db = Appends-none db db refl
known-Appends out now m (some c) (some d) db = elim (Bool-cases (is_blank db.vm2_host)) [
  | inl e ↦ rw (provision_known, e) (Appends-none db db refl)
  | inr e ↦ elim (sum-cases (call_vm2 out (or_else "" db.vm2_host) c d m)) [
    | inl (x, f) ↦ rw (provision_known, e, f) (Appends-none db db refl)
    | inr ((plain, vm2_id), f) ↦
        rw (provision_known, e, f) (complete-Appends out now m plain vm2_id db)
  ]
]

mailbox-Appends :
    (out : Outside) (now : ℕ) (m : Option Mailbox) (db : Db)
    → Appends db (provision_mailbox out now m db).0
unfolding provision_mailbox
mailbox-Appends out now none db = Appends-none db db refl
mailbox-Appends out now (some m) db = elim (Bool-cases (is_provisioned m)) [
  | inl e ↦ rw (provision_mailbox, e) (Appends-none db db refl)
  | inr e ↦
      rw (provision_mailbox, e)
        (known-Appends out now m (get_credential m.credential_id db) (get_domain m.domain_id db) db)
]

provision-OnlyAppends : (out : Outside) (now : ℕ) → OnlyAppends (provision out now)
unfolding provision
provision-OnlyAppends out now = record {
  appends = λ p db. elim (Option-cases p.mailbox_id) [
    | inl e ↦ rw (e, provision) (Appends-none db db refl)
    | inr (k, e) ↦ rw (e, provision) (mailbox-Appends out now (get_mailbox k db) db)
  ];
}

-- A start leaves the queue as it is.
abbrev Keeps : Db → Start → Type 0
Keeps db (go db' plan) = db'.job_queue ≡ db.job_queue
Keeps db _ = Unit

known-Keeps :
    (out : Outside) (now : ℕ) (assess : Bool) (m : Mailbox) (c : Option Credential)
    (d : Option Domain) (s : SyncJob) (db : Db)
    → Keeps db (start_known out now assess m c d s db)
unfolding start_known open_run
known-Keeps out now assess m none d s db = tt
known-Keeps out now assess m (some c) none s db = tt
known-Keeps out now assess m (some c) (some d) s db = elim (Option-cases (passwords out c m)) [
  | inl e ↦ rw (start_known, e, Keeps) tt
  | inr (x, e) ↦ rw (start_known, e, Keeps) refl
]

mailbox-Keeps :
    (out : Outside) (now : ℕ) (assess : Bool) (m : Option Mailbox) (db : Db)
    → Keeps db (start_mailbox out now assess m db)
unfolding start_mailbox
mailbox-Keeps out now assess none db = tt
mailbox-Keeps out now assess (some m) db =
    elim (Bool-cases (not (str_eq m.provisioning_status "active"))) [
      | inl e ↦ rw (start_mailbox, e, Keeps) tt
      | inr e ↦
          elim (Option-cases (first (λ (s : SyncJob). s.mailbox_id == m.id) db.sync_jobs.rows)) [
            | inl f ↦ rw (start_mailbox, e, f, Keeps) tt
            | inr (s, f) ↦ elim (Bool-cases (not s.is_enabled || is_blank db.vm2_host)) [
              | inl g ↦ rw (start_mailbox, e, f, g, Keeps) tt
              | inr g ↦
                  rw (start_mailbox, e, f, g)
                    (known-Keeps out now assess m (get_credential m.credential_id db)
                      (get_domain m.domain_id db) s db)
            ]
          ]
    ]

start-Keeps : (out : Outside) (now : ℕ) (p : Payload) (db : Db) → Keeps db (start_sync out now p db)
unfolding start_sync
start-Keeps out now p db = elim (Option-cases p.mailbox_id) [
  | inl e ↦ rw (e, start_sync, Keeps) tt
  | inr (k, e) ↦ rw (e, start_sync) (mailbox-Keeps out now (is_assess p.mode) (get_mailbox k db) db)
]

finish-queue :
    (out : Outside) (now : ℕ) (plan : Plan) (o : Outcome) (db : Db)
    → (finish_sync out now plan o db).0.job_queue ≡ db.job_queue
unfolding finish_sync modify_mailbox
finish-queue out now plan o db =
    elim (Option-cases (first (λ (r : JobRun). r.id == plan.job_run_id) db.job_runs.rows)) [
      | inl e ↦ rw (e, finish_sync) refl
      | inr (r, e) ↦ rw (e, finish_sync) refl
    ]

sync-queue :
    (out : Outside) (started finished : ℕ) (failure : String) (p : Payload) (db : Db)
    → (sync out started finished failure p db).0.job_queue ≡ db.job_queue
unfolding sync
sync-queue out started finished failure p db =
    by_start (start_sync out started p db) refl (start-Keeps out started p db)
  where
    by_start :
        (s : Start)
        → start_sync out started p db ≡ s
        → Keeps db (start_sync out started p db)
        → (sync out started finished failure p db).0.job_queue ≡ db.job_queue
    by_start skip e k = rw (e, sync) refl
    by_start (raise x) e k = rw (e, sync) refl
    by_start (go db' plan) e k =
        rw (e, sync)
          (finish-queue out finished plan (outcome failure (perform out plan)) db'
            ∙ subst (Keeps db) e k)

sync-OnlyAppends :
    (out : Outside) (started finished : ℕ) (failure : String)
    → OnlyAppends (sync out started finished failure)
sync-OnlyAppends out started finished failure = record {
  appends = λ p db. Appends-none db _ (sync-queue out started finished failure p db);
}

-- HANDLERS of the worker: `started` and `finished` are the readings of the clock, `failure` the text of
-- an exception of a synchronisation.
unfoldable pub portal_handlers : Outside → Machines → String → ℕ → ℕ → Handlers
portal_handlers out ms failure started finished = record {
  provision = provision out started;
  sync = sync out started finished failure;
  system_update = system_update ms started finished;
}

-- Each handler of the worker appends at most jobs that do not run, under new ids, to the queue, and
-- leaves the rows that stand in it as they are, whatever VM2, imapsync and the helpers answer.
pub portal_handlers-AllAppend :
    (out : Outside) (ms : Machines) (failure : String) (started finished : ℕ)
    → AllAppend (portal_handlers out ms failure started finished)
unfolding portal_handlers
portal_handlers-AllAppend out ms failure started finished = record {
  provision = provision-OnlyAppends out started;
  sync = sync-OnlyAppends out started finished failure;
  system_update = record {
    appends = λ p db. Appends-none db _ (system_update-queue ms started finished p db);
  };
}
