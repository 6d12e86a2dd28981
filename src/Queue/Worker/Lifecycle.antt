-- ===== src/Queue/Worker/Lifecycle.antt =====
-- The life of a job under the worker's loop: no job is left running between two passes of the loop or
-- by a restart, and a job that is to be retried is never taken up again.
use mathlib.Core.Bool.{false≢true}
use mail_sync_portal.Base.{
  ℕ, ◌≤◌, ◌<◌, ◌≡◌, ◌≢◌, refl, sym, subst, ap, ◌∙◌, String, Bool, true, false, Option, none, some,
  inl, inr, List, [], ◌∷◌, ◌++◌, arith, All, In, Bool-cases, All-update, &&_left, All-append,
  All-of_In, All-In, In-select, In-take, str_eq, not_true,
}
use mail_sync_portal.Db.{Db, Job, Payload, update}
use mail_sync_portal.Queue.Query.{modify_job, is_running, is_retrying, is_queued}
use mail_sync_portal.Queue.Worker.{
  handled, handle_claimed, killed, admit, run_with, run_claimed, claim_from, claim_next_job,
  candidates, is_candidate, start_job, put_off, Handler, Handlers, handler_for, run_job, finish_job,
  ended, iteration, Round, reap_orphans, requeue,
}
use mail_sync_portal.Queue.Worker.Order.{order_by-In}
use mail_sync_portal.Queue.Worker.Claim.{claim-Claimed}
use mail_sync_portal.Queue.Worker.Rows.{
  Rows, Rows-change, Rows-admit, Rows-modify, Rows-claim_from, next_id-claim_from,
}

-- What the queue may see of a handler: it appends jobs that do not run, under new ids.
pub record Appends (old new : Db) : Type 0 where
  pub added : List Job
  pub rows : new.job_queue.rows ≡ old.job_queue.rows ++ added
  pub idle : All (λ j. is_running j.status ≡ false) added
  pub fresh : All (λ j. old.job_queue.next_id ≤ j.id) added
  pub grows : old.job_queue.next_id ≤ new.job_queue.next_id

pub record OnlyAppends (h : Handler) : Type 0 where
  pub appends : (p : Payload) (db : Db) → Appends db (h p db).0

pub record AllAppend (h : Handlers) : Type 0 where
  pub provision : OnlyAppends h.provision
  pub sync : OnlyAppends h.sync
  pub system_update : OnlyAppends h.system_update

-- The job `k`, and no other, may be running.
abbrev RunsOnly : ℕ → Job → Type 0
RunsOnly k j = is_running j.status ≡ true → j.id ≡ k

abbrev Idle : Job → Type 0
Idle j = is_running j.status ≡ false

-- No job is running.
pub record AtRest (db : Db) : Type 0 where
  pub idle : Rows Idle db

-- Every row with this id waits for a retry, and the sequence is past the id.
pub record AwaitsRetry (k : ℕ) (db : Db) : Type 0 where
  pub waiting : Rows (λ j. j.id ≡ k → is_retrying j.status ≡ true) db
  pub past : k < db.job_queue.next_id

candidates-All :
    (P : Job → Type 0) (now : ℕ) (locked : ℕ → Bool) (db : Db)
    → ((j : Job) → In j db.job_queue.rows → is_candidate now locked j ≡ true → P j)
    → All P (candidates now locked db)
unfolding candidates
candidates-All P now locked db f = All-of_In P _ λ j m.
    let r =
      In-select (is_candidate now locked) db.job_queue.rows j (order_by-In j _ (In-take 5 _ j m)) in
    f j r.0 r.1

-- After a claim only the claimed job runs.
abbrev RunsAfter : Option Job → Db → Type 0
RunsAfter none = Rows Idle
RunsAfter (some j) = Rows (RunsOnly j.id)

claim_from-RunsAfter :
    (now : ℕ) (worker : String) (js : List Job) (db : Db)
    → Rows Idle db
    → RunsAfter (claim_from now worker js db).1 (claim_from now worker js db).0
unfolding claim_from
claim_from-RunsAfter now worker [] db h = h
claim_from-RunsAfter now worker (c ∷ cs) db h =
    let db' = (admit now c db).0 in
    let h' : Rows Idle db' = Rows-admit Idle now c db h in
    elim (Bool-cases (admit now c db).1) [
      | inl e ↦ rw e (
          Rows-change Idle (RunsOnly c.id) c.id (start_job now worker) db' (λ j q i r. q)
            (λ j q i r. absurd (false≢true (sym i ∙ r))) h')
      | inr e ↦ rw e (
          claim_from-RunsAfter now worker cs _
            (Rows-modify Idle c.id (put_off now) db' (λ j q i. i) h'))
    ]

ended-Idle : (now : ℕ) (success : Bool) (j : Job) → Idle (ended now success j)
unfolding ended
ended-Idle now success j = ground arith

ended-id : (now : ℕ) (success : Bool) (j : Job) → (ended now success j).id ≡ j.id
unfolding ended
ended-id now success j = ground arith

finish-Idle :
    (now k : ℕ) (success : Bool) (db : Db)
    → Rows (RunsOnly k) db
    → Rows Idle (finish_job now k success db)
unfolding finish_job
finish-Idle now k success db h =
    Rows-change (RunsOnly k) Idle k (ended now success) db (λ j q r. ended-Idle now success j)
      (λ j q r. not_true _ (λ t. q (r t))) h

requeue-Idle : (now : ℕ) (j : Job) → Idle (requeue now j)
unfolding requeue
requeue-Idle now j = ground arith

queued-ne-retrying : (j : Job) → is_queued j.status ≡ true → is_retrying j.status ≡ true → ⊥
queued-ne-retrying j h k = ground arith

-- What a handler that only appends keeps.
module _ (P : Job → Type 0) (f : Handler) (law : OnlyAppends f) (p : Payload) (db : Db) where
  Rows-handler :
      ((j : Job) → Idle j → db.job_queue.next_id ≤ j.id → P j) → Rows P db → Rows P (f p db).0
  Rows-handler new h = subst (All P) (sym (law.appends p db).rows) (
      All-append P db.job_queue.rows (law.appends p db).added h (
        All-of_In P _ λ j m.
          new j (All-In _ _ j (law.appends p db).idle m) (All-In _ _ j (law.appends p db).fresh m)))

-- A handler of the worker, or none, appends only.
abbrev MayAppend : Option Handler → Type 0
MayAppend none = Unit
MayAppend (some f) = OnlyAppends f

handler_for-MayAppend : (h : Handlers) → AllAppend h → (t : String) → MayAppend (handler_for h t)
unfolding handler_for
handler_for-MayAppend h laws t = elim (Bool-cases (str_eq t "provision")) [
  | inl a ↦ rw a laws.provision
  | inr a ↦ elim (Bool-cases (str_eq t "sync")) [
    | inl b ↦ rw (a, b) laws.sync
    | inr b ↦ elim (Bool-cases (str_eq t "system_update")) [
      | inl c ↦ rw (a, b, c) laws.system_update
      | inr c ↦ rw (a, b, c) tt
    ]
  ]
]

run_with-Idle :
    (f : Option Handler)
    → MayAppend f
    → (now : ℕ) (j : Job) (db : Db) → Rows (RunsOnly j.id) db
    → Rows Idle (run_with f now j db)
unfolding run_with
run_with-Idle none law now j db r = finish-Idle now j.id false db r
run_with-Idle (some f) law now j db r =
    finish-Idle now j.id _ (f j.payload db).0 (
      Rows-handler (RunsOnly j.id) f law j.payload db (λ i e _ t. absurd (false≢true (sym e ∙ t)))
        r)

module _ (h : Handlers) (laws : AllAppend h) where
  run_claimed-Idle :
      (now : ℕ) (o : Option Job) (db : Db) → RunsAfter o db → Rows Idle (run_claimed h now o db)
  unfolding run_claimed run_job
  run_claimed-Idle now none db r = r
  run_claimed-Idle now (some j) db r =
      run_with-Idle (handler_for h j.job_type) (handler_for-MayAppend h laws j.job_type) now j db r

  -- A pass of the loop that starts with no running job ends with none, whatever the handler does.
  pub iteration-AtRest : (r : Round) (db : Db) → AtRest db → AtRest (iteration h r db)
  unfolding iteration claim_next_job
  iteration-AtRest r db rest = record {
    idle = run_claimed-Idle r.finished_at _ _ (
        claim_from-RunsAfter r.claimed_at r.worker_id (candidates r.claimed_at r.locked db) db
          rest.idle);
  }

-- A restart leaves no job running, from any state.
pub reap-AtRest :
    (now : ℕ) (read : String → Option String) (db : Db) → AtRest (reap_orphans now read db)
unfolding reap_orphans update
reap-AtRest now read db = record {
  idle =
      All-update (λ _. Unit {0}) Idle (λ j. is_running j.status) (requeue now) db.job_queue.rows
        (λ j e u. requeue-Idle now j) (λ j e u. e) (All-of_In _ _ (λ j m. tt));
}

-- A job that awaits a retry is not among the candidates.
awaits-ne-candidate :
    (k : ℕ) (db : Db)
    → AwaitsRetry k db
    → (now : ℕ) (locked : ℕ → Bool) (j : Job) → In j db.job_queue.rows
    → is_candidate now locked j ≡ true
    → j.id ≢ k
awaits-ne-candidate k db a now locked j m c e =
    queued-ne-retrying j (&&_left _ _ c) (All-In _ db.job_queue.rows j a.waiting m e)

claim-AwaitsRetry :
    (k now : ℕ) (worker : String) (locked : ℕ → Bool) (db : Db)
    → AwaitsRetry k db
    → AwaitsRetry k (claim_next_job now worker locked db).0
unfolding claim_next_job
claim-AwaitsRetry k now worker locked db a = record {
  waiting =
      Rows-claim_from (λ j. j.id ≡ k → is_retrying j.status ≡ true) now worker
        (candidates now locked db) db
        (candidates-All _ now locked db (λ c m due.
          λ j e p. ((λ q. absurd (awaits-ne-candidate k db a now locked c m due (sym e ∙ q))), p)))
        a.waiting;
  past = rw next_id-claim_from a.past;
}

-- Every row with the id `k` awaits a retry.
abbrev Waits : ℕ → Job → Type 0
Waits k j = j.id ≡ k → is_retrying j.status ≡ true

finish-AwaitsRetry :
    (k now i : ℕ) (success : Bool) (db : Db)
    → i ≢ k
    → AwaitsRetry k db
    → AwaitsRetry k (finish_job now i success db)
unfolding finish_job
finish-AwaitsRetry k now i success db ne a = record {
  waiting =
      Rows-modify (Waits k) i (ended now success) db
        (λ j e p q. absurd (ne (sym e ∙ sym (ended-id now success j) ∙ q))) a.waiting;
  past = unfold modify_job update in a.past;
}

-- A handler leaves the job waiting, as it appends jobs with later ids.
handled-AwaitsRetry :
    (f : Option Handler)
    → MayAppend f
    → (k : ℕ) (j : Job) (db : Db) → AwaitsRetry k db
    → AwaitsRetry k (handled f j db)
unfolding handled
handled-AwaitsRetry none law k j db a = a
handled-AwaitsRetry (some f) law k j db a = record {
  waiting =
      Rows-handler (Waits k) f law j.payload db (λ i idle new e. absurd (past_id i new e))
        a.waiting;
  past = omega (arith, a.past, (law.appends j.payload db).grows);
}
  where
    past_id : (i : Job) → db.job_queue.next_id ≤ i.id → i.id ≡ k → ⊥
    past_id i new e = omega (arith, a.past)

run_with-AwaitsRetry :
    (f : Option Handler)
    → MayAppend f
    → (k now : ℕ) (j : Job) (db : Db) → j.id ≢ k
    → AwaitsRetry k db
    → AwaitsRetry k (run_with f now j db)
unfolding run_with handled
run_with-AwaitsRetry none law k now j db ne a = finish-AwaitsRetry k now j.id false db ne a
run_with-AwaitsRetry (some f) law k now j db ne a =
    finish-AwaitsRetry k now j.id _ (f j.payload db).0 ne
      (handled-AwaitsRetry (some f) law k j db a)

-- The claimed job is another one.
pub claim-ne :
    (k now : ℕ) (worker : String) (locked : ℕ → Bool) (db : Db) (j : Job)
    → AwaitsRetry k db
    → (claim_next_job now worker locked db).1 ≡ some j
    → j.id ≢ k
claim-ne k now worker locked db j a e =
    let c = claim-Claimed now worker locked db j e in
    λ q.
      awaits-ne-candidate k db a now locked c.job c.in_queue c.due
        (sym (ap (λ (i : Job). i.id) c.started) ∙ q)

module _ (h : Handlers) (laws : AllAppend h) where
  -- A job that awaits a retry stays so in a pass of the loop: no pass takes it up.
  pub iteration-AwaitsRetry :
      (k : ℕ) (r : Round) (db : Db) → AwaitsRetry k db → AwaitsRetry k (iteration h r db)
  unfolding iteration run_claimed run_job
  iteration-AwaitsRetry k r db a = go _ refl
    where
      claimed : AwaitsRetry k (claim_next_job r.claimed_at r.worker_id r.locked db).0
      claimed = claim-AwaitsRetry k r.claimed_at r.worker_id r.locked db a

      go :
          (o : Option Job)
          → (claim_next_job r.claimed_at r.worker_id r.locked db).1 ≡ o
          → AwaitsRetry k (
              run_claimed h r.finished_at
                (claim_next_job r.claimed_at r.worker_id r.locked db).1
                (claim_next_job r.claimed_at r.worker_id r.locked db).0)
      go none e = rw (e, run_claimed) claimed
      go (some j) e =
          rw (e, run_claimed, run_job)
            (run_with-AwaitsRetry (handler_for h j.job_type)
              (handler_for-MayAppend h laws j.job_type) k r.finished_at j _
              (claim-ne k _ _ _ db j a e) claimed)

  handle-AwaitsRetry :
      (k : ℕ) (o : Option Job) (db : Db) → AwaitsRetry k db → AwaitsRetry k (handle_claimed h o db)
  unfolding handle_claimed
  handle-AwaitsRetry k none db a = a
  handle-AwaitsRetry k (some j) db a =
      handled-AwaitsRetry (handler_for h j.job_type) (handler_for-MayAppend h laws j.job_type) k j
        db a

  -- So it does in a pass that ends with the process.
  pub killed-AwaitsRetry :
      (k : ℕ) (r : Round) (db : Db) → AwaitsRetry k db → AwaitsRetry k (killed h r db)
  unfolding killed
  killed-AwaitsRetry k r db a =
      handle-AwaitsRetry k (claim_next_job r.claimed_at r.worker_id r.locked db).1
        (claim_next_job r.claimed_at r.worker_id r.locked db).0
        (claim-AwaitsRetry k r.claimed_at r.worker_id r.locked db a)

requeue-Waits :
    (k now : ℕ) (j : Job) → is_running j.status ≡ true → Waits k j → Waits k (requeue now j)
unfolding requeue
requeue-Waits k now j r p q = ground arith

-- Nor does a restart take it up: only running jobs are put back.
pub reap-AwaitsRetry :
    (k now : ℕ) (read : String → Option String) (db : Db)
    → AwaitsRetry k db
    → AwaitsRetry k (reap_orphans now read db)
unfolding reap_orphans update
reap-AwaitsRetry k now read db a = record {
  waiting =
      All-update (Waits k) (Waits k) (λ j. is_running j.status) (requeue now) db.job_queue.rows
        (λ j e p. requeue-Waits k now j e p) (λ j e p. p) a.waiting;
  past = a.past;
}
