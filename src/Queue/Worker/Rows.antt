-- ===== src/Queue/Worker/Rows.antt =====
-- What the worker's writes do to the rows of `job_queue`: rules for a predicate of every row.
use mathlib.Core.Bool.{false≢true}
use mail_sync_portal.Base.{
  ℕ, ◌≡◌, refl, String, inl, inr, ◌≢◌, ==_refl, All-update, sym, subst, ap, ◌∙◌, List, [], ◌∷◌,
  arith, All, ◌==◌, ==→eq, Bool-cases, All-update_where,
}
use mail_sync_portal.Db.{Db, Job, update, Table}
use mail_sync_portal.Queue.Query.{modify_job}
use mail_sync_portal.Queue.Throttle.{get_global_policy}
use mail_sync_portal.Queue.Worker.{admit, claim_from, start_job, put_off}

-- Every row of the queue has `P`.
abbrev pub Rows : (Job → Type 0) → Db → Type 0
Rows P db = All P db.job_queue.rows

queue-admit : (now : ℕ) (j : Job) (db : Db) → (admit now j db).0.job_queue ≡ db.job_queue
unfolding admit get_global_policy
queue-admit now j db = ground arith

pub Rows-change :
    (P Q : Job → Type 0) (k : ℕ) (f : Job → Job) (db : Db)
    → ((j : Job) → j.id ≡ k → P j → Q (f j))
    → ((j : Job) → j.id ≢ k → P j → Q j)
    → Rows P db
    → Rows Q (modify_job k f db)
unfolding modify_job update
Rows-change P Q k f db hit miss h =
    All-update P Q (λ j. j.id == k) f db.job_queue.rows (λ j e. hit j (==→eq _ _ e))
      (λ j e. miss j (λ q. false≢true (sym e ∙ rw q (==_refl k)))) h

module _ (P : Job → Type 0) where
  pub Rows-modify :
      (k : ℕ) (f : Job → Job) (db : Db)
      → ((j : Job) → j.id ≡ k → P j → P (f j))
      → Rows P db
      → Rows P (modify_job k f db)
  unfolding modify_job update
  Rows-modify k f db keep h =
      All-update_where P (λ j. j.id == k) f db.job_queue.rows (λ j e. keep j (==→eq _ _ e)) h

  pub Rows-admit : (now : ℕ) (c : Job) (db : Db) → Rows P db → Rows P (admit now c db).0
  Rows-admit now c db h = subst (λ (q : Table Job). All P q.rows) (sym (queue-admit now c db)) h

  -- A claim keeps what the writes to the candidates keep.
  pub Rows-claim_from :
      (now : ℕ) (worker : String) (js : List Job) (db : Db)
      → All (λ c. (j : Job) → j.id ≡ c.id → P j → P (start_job now worker j) × P (put_off now j)) js
      → Rows P db
      → Rows P (claim_from now worker js db).0
  unfolding claim_from
  Rows-claim_from now worker [] db keep h = h
  Rows-claim_from now worker (c ∷ cs) db keep h =
      let db' = (admit now c db).0 in
      let h' : Rows P db' = Rows-admit now c db h in
      elim (Bool-cases (admit now c db).1) [
        | inl e ↦ rw e (Rows-modify c.id (start_job now worker) db' (λ j q p. (keep.0 j q p).0) h')
        | inr e ↦ rw e (
            Rows-claim_from now worker cs _ keep.1
              (Rows-modify c.id (put_off now) db' (λ j q p. (keep.0 j q p).1) h'))
      ]

-- The id sequence does not move in a claim.
pub next_id-claim_from :
    (now : ℕ) (worker : String) (js : List Job) (db : Db)
    → (claim_from now worker js db).0.job_queue.next_id ≡ db.job_queue.next_id
unfolding claim_from
next_id-claim_from now worker [] db = refl
next_id-claim_from now worker (c ∷ cs) db = elim (Bool-cases (admit now c db).1) [
  | inl e ↦
      rw e (unfold modify_job update in ap (λ (q : Table Job). q.next_id) (queue-admit now c db))
  | inr e ↦ rw e (
      next_id-claim_from now worker cs _
      ∙ (unfold modify_job update in ap (λ (q : Table Job). q.next_id) (queue-admit now c db)))
]
