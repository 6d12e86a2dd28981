-- ===== src/Queue/Scheduler/Pending.antt =====
-- The pending synchronisations of a mailbox under the scheduler.
use mail_sync_portal.Base.{
  ℕ, ◌+◌, ◌≤◌, ◌<◌, ◌≡◌, ◌⊎◌, refl, subst, Bool, true, false, not, inl, inr, List, [], ◌∷◌, ◌++◌,
  arith, All, All-append, In, any, length, length-append, ◌==◌, ==→eq, ==_refl, Bool-cases,
  count_where, if◌then◌else◌, In-select_of, &&_right,
}
use mail_sync_portal.Db.{Db, Job, SyncJob, insert}
use mail_sync_portal.Queue.Query.{pending_sync}
use mail_sync_portal.Queue.Scheduler.{
  interval, enqueued_lately, already_pending, scheduled_job, enqueue, is_due, enqueue_all, run_once,
}

-- How many synchronisations of a mailbox are queued, running or to be retried.
unfoldable pub pending_count : ℕ → Db → ℕ
pending_count m db = count_where (pending_sync m) db.job_queue.rows

pub count_where-append :
    (p : Job → Bool) (xs ys : List Job)
    → count_where p (xs ++ ys) ≡ count_where p xs + count_where p ys
unfolding count_where
count_where-append p [] ys = omega arith
count_where-append p (x ∷ xs) ys = elim (Bool-cases (p x)) [
  | inl e ↦ rw e (omega (arith, count_where-append p xs ys))
  | inr e ↦ rw e (count_where-append p xs ys)
]

pub any-pos : (p : Job → Bool) (xs : List Job) → any p xs ≡ true → 0 < count_where p xs
unfolding any count_where
any-pos p [] h = ground arith
any-pos p (x ∷ xs) h = elim (Bool-cases (p x)) [
  | inl e ↦ rw e (omega arith)
  | inr e ↦ rw e (any-pos p xs (rw e at h))
]

pub any-zero : (p : Job → Bool) (xs : List Job) → any p xs ≡ false → count_where p xs ≡ 0
unfolding any count_where
any-zero p [] h = refl
any-zero p (x ∷ xs) h = elim (Bool-cases (p x)) [
  | inl e ↦ (let bad : true ≡ false = (rw e at h) in absurd (ground arith))
  | inr e ↦ rw e (any-zero p xs (rw e at h))
]

-- Adding a mailbox's job adds one to its own count and nothing to the others'.
pub count-enqueue :
    (now m : ℕ) (s : SyncJob) (db : Db)
    → pending_count m (enqueue now s db) ≡ pending_count m db + (if s.mailbox_id == m then 1 else 0)
unfolding pending_count enqueue insert count_where
count-enqueue now m s db = rw (count_where-append (pending_sync m) db.job_queue.rows) refl

due-zero :
    (now gap : ℕ) (s : SyncJob) (db : Db)
    → is_due now gap s db ≡ true
    → pending_count s.mailbox_id db ≡ 0
unfolding is_due already_pending pending_count
due-zero now gap s db h =
    any-zero (pending_sync s.mailbox_id) db.job_queue.rows (not_true_eq _ (&&_right _ _ h))
  where
    not_true_eq : (b : Bool) → not b ≡ true → b ≡ false
    not_true_eq b e = ground arith

-- Where nothing of the mailbox was pending there may be one job after a run, else the number stays.
pending-enqueue_all :
    (now gap m : ℕ) (ss : List SyncJob) (db : Db)
    → (pending_count m (enqueue_all now gap ss db).0 ≡ pending_count m db)
      ⊎ (pending_count m db ≡ 0) × (pending_count m (enqueue_all now gap ss db).0 ≡ 1)
unfolding enqueue_all
pending-enqueue_all now gap m [] db = inl refl
pending-enqueue_all now gap m (s ∷ ss) db = elim (Bool-cases (is_due now gap s db)) [
  | inl e ↦
      rw (e, enqueue_all)
        (added (s.mailbox_id == m) refl (pending-enqueue_all now gap m ss (enqueue now s db))
          (due-zero now gap s db e))
  | inr e ↦ rw (e, enqueue_all) (pending-enqueue_all now gap m ss db)
]
  where
    last : ℕ
    last = pending_count m (enqueue_all now gap ss (enqueue now s db)).0

    added :
        (b : Bool)
        → (s.mailbox_id == m) ≡ b
        → (last ≡ pending_count m (enqueue now s db))
          ⊎ (pending_count m (enqueue now s db) ≡ 0) × (last ≡ 1)
        → pending_count s.mailbox_id db ≡ 0
        → (last ≡ pending_count m db) ⊎ (pending_count m db ≡ 0) × (last ≡ 1)
    added true e r z =
        let q : s.mailbox_id ≡ m = ==→eq _ _ e in
        let z' : pending_count m db ≡ 0 = subst (λ k. pending_count k db ≡ 0) q z in
        let c : pending_count m (enqueue now s db) ≡ pending_count m db + 1 =
          rw e at (count-enqueue now m s db) in
        inr (z', omega arith)
    added false e r z =
        let c : pending_count m (enqueue now s db) ≡ pending_count m db + 0 =
          rw e at (count-enqueue now m s db) in
        elim r [ inl k ↦ inl (omega arith) | inr k ↦ inr (omega (arith, k.0), k.1) ]

-- The scheduler adds at most one synchronisation of a mailbox, and only where none is pending.
pub pending-run_once :
    (now m : ℕ) (db : Db)
    → (pending_count m (run_once now db).0 ≡ pending_count m db)
      ⊎ (pending_count m db ≡ 0) × (pending_count m (run_once now db).0 ≡ 1)
unfolding run_once
pending-run_once now m db = pending-enqueue_all now (interval db) m _ db

pending_mono :
    (now gap m : ℕ) (ss : List SyncJob) (db : Db)
    → pending_count m db ≤ pending_count m (enqueue_all now gap ss db).0
pending_mono now gap m ss db = omega (arith, pending-enqueue_all now gap m ss db)

not_due :
    (now gap : ℕ) (s : SyncJob) (db : Db)
    → is_due now gap s db ≡ false
    → (enqueued_lately now gap s ≡ true) ⊎ (0 < pending_count s.mailbox_id db)
unfolding is_due already_pending pending_count
not_due now gap s db h = elim (Bool-cases (enqueued_lately now gap s)) [
  | inl e ↦ inl e
  | inr e ↦ elim (Bool-cases (any (pending_sync s.mailbox_id) db.job_queue.rows)) [
    | inl a ↦ inr (any-pos _ _ a)
    | inr a ↦ (let bad : true ≡ false = (rw (e, a) at h) in absurd (ground arith))
  ]
]

enqueue-pos : (now : ℕ) (s : SyncJob) (db : Db) → 0 < pending_count s.mailbox_id (enqueue now s db)
enqueue-pos now s db = rw (count-enqueue now s.mailbox_id s db, ==_refl s.mailbox_id) (omega arith)

-- Each of the jobs in the loop was enqueued lately, or its mailbox has a pending job afterwards.
served-enqueue_all :
    (now gap : ℕ) (ss : List SyncJob) (db : Db) (s : SyncJob)
    → In s ss
    → (enqueued_lately now gap s ≡ true)
      ⊎ (0 < pending_count s.mailbox_id (enqueue_all now gap ss db).0)
unfolding enqueue_all
served-enqueue_all now gap [] db s m = elim m [ ]
served-enqueue_all now gap (t ∷ ts) db s (inr m) = elim (Bool-cases (is_due now gap t db)) [
  | inl e ↦ rw (e, enqueue_all) (served-enqueue_all now gap ts (enqueue now t db) s m)
  | inr e ↦ rw (e, enqueue_all) (served-enqueue_all now gap ts db s m)
]
served-enqueue_all now gap (t ∷ ts) db s (inl q) = elim (Bool-cases (is_due now gap s db)) [
  | inl e ↦
      rw (← q, e, enqueue_all)
        (inr (
          omega (
            arith,
            pending_mono now gap s.mailbox_id ts (enqueue now t db),
            subst (λ (x : SyncJob). 0 < pending_count s.mailbox_id (enqueue now x db)) q
                (enqueue-pos now s db),
          )))
  | inr e ↦
      rw (← q, e, enqueue_all)
        (elim (not_due now gap s db e) [
          | inl a ↦ inl a
          | inr a ↦ inr (omega (arith, pending_mono now gap s.mailbox_id ts db))
        ])
]

-- After a run of the scheduler every enabled mailbox was enqueued less than the interval ago, or has
-- a synchronisation that is queued, running or to be retried.
pub run_once-serves :
    (now : ℕ) (db : Db) (s : SyncJob)
    → In s db.sync_jobs.rows
    → s.is_enabled ≡ true
    → (enqueued_lately now (interval db) s ≡ true)
      ⊎ (0 < pending_count s.mailbox_id (run_once now db).0)
unfolding run_once
run_once-serves now db s m e =
    served-enqueue_all now (interval db) _ db s (In-select_of (λ t. t.is_enabled) _ s m e)

length-enqueue :
    (now : ℕ) (s : SyncJob) (db : Db)
    → length (enqueue now s db).job_queue.rows ≡ length db.job_queue.rows + 1
unfolding enqueue insert
length-enqueue now s db = omega (
  arith,
  length-append db.job_queue.rows (scheduled_job now s.mailbox_id db.job_queue.next_id ∷ []),
)

enqueue_all-All :
    (P : Job → Type 0) (now gap : ℕ) (ss : List SyncJob) (db : Db)
    → ((m id : ℕ) → db.job_queue.next_id ≤ id → P (scheduled_job now m id))
    → All P db.job_queue.rows
    → All P (enqueue_all now gap ss db).0.job_queue.rows
      × (db.job_queue.next_id ≤ (enqueue_all now gap ss db).0.job_queue.next_id)
unfolding enqueue_all enqueue insert
enqueue_all-All P now gap [] db new h = (h, omega arith)
enqueue_all-All P now gap (s ∷ ss) db new h = elim (Bool-cases (is_due now gap s db)) [
  | inl e ↦
      let r =
        enqueue_all-All P now gap ss (enqueue now s db) (λ m id le. new m id (omega arith))
          (All-append P db.job_queue.rows _ h
            (new s.mailbox_id db.job_queue.next_id (omega arith), tt)) in
      rw (e, enqueue_all) (r.0, omega (arith, r.1))
  | inr e ↦ rw (e, enqueue_all) (enqueue_all-All P now gap ss db new h)
]

enqueue_all-count :
    (now gap : ℕ) (ss : List SyncJob) (db : Db)
    → length (enqueue_all now gap ss db).0.job_queue.rows
      ≡ length db.job_queue.rows + (enqueue_all now gap ss db).1
unfolding enqueue_all
enqueue_all-count now gap [] db = omega arith
enqueue_all-count now gap (s ∷ ss) db = elim (Bool-cases (is_due now gap s db)) [
  | inl e ↦
      rw (e, enqueue_all)
        (omega (arith, enqueue_all-count now gap ss (enqueue now s db), length-enqueue now s db))
  | inr e ↦ rw (e, enqueue_all) (enqueue_all-count now gap ss db)
]

-- The number that a run of the scheduler returns is the number of jobs that it adds.
pub run_once-count :
    (now : ℕ) (db : Db)
    → length (run_once now db).0.job_queue.rows ≡ length db.job_queue.rows + (run_once now db).1
unfolding run_once
run_once-count now db = enqueue_all-count now (interval db) _ db

-- A predicate that the new jobs have is kept, and the sequence only grows.
pub run_once-All :
    (P : Job → Type 0) (now : ℕ) (db : Db)
    → ((m id : ℕ) → db.job_queue.next_id ≤ id → P (scheduled_job now m id))
    → All P db.job_queue.rows
    → All P (run_once now db).0.job_queue.rows
      × (db.job_queue.next_id ≤ (run_once now db).0.job_queue.next_id)
unfolding run_once
run_once-All P now db = enqueue_all-All P now (interval db) _ db
