-- ===== src/Queue/Worker/Claim.antt =====
-- What `_claim_next_job` returns, and when.
use mathlib.Core.Option
use mathlib.Core.Path.{fun_ext}
use mail_sync_portal.Base.{
  ℕ, ◌≡◌, refl, sym, ◌∙◌, String, Bool, true, not, none, some, inl, inr, List, [], ◌∷◌, ◌||◌, arith,
  In, take, first, select, Bool-cases, map-some, In-take, In-select_of, In-select, first-In,
  is_none, str_eq, Option, Option-cases, or_else, first-append,
}
use mail_sync_portal.Db.{Db, Job, insert, ThrottlePolicy}
use mail_sync_portal.Queue.Query.{modify_job}
use mail_sync_portal.Queue.Throttle.{
  get_global_policy, can_start_sync_now, default_policy, count_running, count_runs_since,
}
use mail_sync_portal.Queue.Worker.{
  before, candidates, is_candidate, order_by, admit, claim_from, claim_next_job, start_job, put_off,
}
use mail_sync_portal.Queue.Worker.Order.{
  order_by-IsOrdered, In-order_by, first-take_least, order_by-In,
}

abbrev global_row : Db → Option ThrottlePolicy
global_row db = first (λ p. str_eq p.scope "global") db.throttle_policies.rows

-- The policy that holds, whether or not its row is there already.
pub policy_of : Db → ThrottlePolicy
policy_of db = or_else (default_policy db.throttle_policies.next_id) (global_row db)

-- The throttle lets a synchronisation start.
pub sync_allowed : ℕ → Db → Bool
unfolding policy_of
sync_allowed now db = is_none (can_start_sync_now db (policy_of db) now)

pub is_sync : Job → Bool
is_sync j = str_eq j.job_type "sync"

-- A job that the worker may take: one that is no synchronisation, or any where the throttle allows.
pub may_start : ℕ → Db → Job → Bool
unfolding is_sync sync_allowed
may_start now db j = not (is_sync j) || sync_allowed now db

default_policy-global : (id : ℕ) → str_eq (default_policy id).scope "global" ≡ true
unfolding default_policy
default_policy-global id = refl

policy_found : (db : Db) → (get_global_policy db).1 ≡ policy_of db
unfolding get_global_policy policy_of
policy_found db = ground arith

policy_kept :
    (db : Db) (p : ThrottlePolicy) → global_row db ≡ some p → (get_global_policy db).0 ≡ db
unfolding get_global_policy
policy_kept db p e = rw (e, get_global_policy) refl

policy_added :
    (db : Db)
    → global_row db ≡ none
    → (get_global_policy db).0.throttle_policies ≡ insert default_policy db.throttle_policies
unfolding get_global_policy
policy_added db e = ground arith

-- The policy that a first call creates is the one that a second call finds.
policy_again : (db : Db) → policy_of (get_global_policy db).0 ≡ policy_of db
policy_again db = elim (Option-cases (global_row db)) [
  | inl e ↦
      unfold policy_of in
      rw (policy_added db e, e) (unfold insert first default_policy in rw (first-append, e) refl)
  | inr (p, e) ↦ rw (policy_kept db p e) refl
]

runs_again : (db : Db) → (get_global_policy db).0.job_runs ≡ db.job_runs
unfolding get_global_policy
runs_again db = ground arith

can_start_again :
    (db : Db) (policy : ThrottlePolicy) (now : ℕ)
    → can_start_sync_now (get_global_policy db).0 policy now ≡ can_start_sync_now db policy now
unfolding can_start_sync_now count_running count_runs_since
can_start_again db policy now = rw (runs_again db) refl

admit-allows : (now : ℕ) (j : Job) (db : Db) → (admit now j db).1 ≡ may_start now db j
unfolding admit may_start is_sync sync_allowed
admit-allows now j db = elim (Bool-cases (str_eq j.job_type "sync")) [
  | inl e ↦ rw (e, policy_found, can_start_again) refl
  | inr e ↦ rw e refl
]

sync_allowed-admit :
    (now : ℕ) (j : Job) (db : Db) → sync_allowed now (admit now j db).0 ≡ sync_allowed now db
unfolding sync_allowed admit
sync_allowed-admit now j db = elim (Bool-cases (str_eq j.job_type "sync")) [
  | inl e ↦ rw (e, policy_again, can_start_again) refl
  | inr e ↦ rw e refl
]

sync_allowed-modify :
    (now k : ℕ) (f : Job → Job) (db : Db)
    → sync_allowed now (modify_job k f db) ≡ sync_allowed now db
unfolding sync_allowed modify_job policy_of can_start_sync_now count_running count_runs_since
sync_allowed-modify now k f db = refl

may_start-step :
    (now k : ℕ) (f : Job → Job) (j : Job) (db : Db) (c : Job)
    → may_start now (modify_job k f (admit now j db).0) c ≡ may_start now db c
unfolding may_start
may_start-step now k f j db c = rw (sync_allowed-modify, sync_allowed-admit) refl

claim_from-first :
    (now : ℕ) (worker : String) (js : List Job) (db : Db)
    → (claim_from now worker js db).1
      ≡ Option.map (start_job now worker) (first (may_start now db) js)
unfolding claim_from first
claim_from-first now worker [] db = refl
claim_from-first now worker (j ∷ js) db = elim (Bool-cases (may_start now db j)) [
  | inl e ↦ rw (admit-allows, e) refl
  | inr e ↦
      rw (admit-allows, e)
        (claim_from-first now worker js (modify_job j.id (put_off now) (admit now j db).0)
          ∙ rw (fun_ext (may_start-step now j.id (put_off now) j db)) refl)
]

-- The worker takes the first of the candidates that may start, and no other.
pub claim-first :
    (now : ℕ) (worker : String) (locked : ℕ → Bool) (db : Db)
    → (claim_next_job now worker locked db).1
      ≡ Option.map (start_job now worker) (first (may_start now db) (candidates now locked db))
unfolding claim_next_job
claim-first now worker locked db = claim_from-first now worker (candidates now locked db) db

-- The job that a claim returns, seen from the database before it.
pub record Claimed (now : ℕ) (worker : String) (locked : ℕ → Bool) (db : Db) (taken : Job)
    : Type 0 where
  pub job : Job
  pub in_queue : In job db.job_queue.rows
  pub due : is_candidate now locked job ≡ true
  pub allowed : may_start now db job ≡ true
  pub started : taken ≡ start_job now worker job
  pub least :
      (c : Job)
      → In c db.job_queue.rows
      → is_candidate now locked c ≡ true
      → may_start now db c ≡ true
      → before job c ≡ true

-- A claimed job stood in the queue, queued, due and unlocked, and the throttle allows it if it is a
-- synchronisation; it is returned as started; and no job that could be claimed as well has a
-- smaller (priority, id).
pub claim-Claimed :
    (now : ℕ) (worker : String) (locked : ℕ → Bool) (db : Db) (taken : Job)
    → (claim_next_job now worker locked db).1 ≡ some taken
    → Claimed now worker locked db taken
unfolding candidates
claim-Claimed now worker locked db taken e =
    let rows = db.job_queue.rows in
    let due = select (is_candidate now locked) rows in
    let (job, hit, image) =
      map-some (start_job now worker) _ taken (sym (claim-first now worker locked db) ∙ e) in
    let (shown, allowed) = first-In (may_start now db) (take 5 (order_by due)) job hit in
    let (stands, candidate) =
      In-select (is_candidate now locked) rows job (order_by-In job due (In-take 5 _ job shown)) in
    record {
      job = job;
      in_queue = stands;
      due = candidate;
      allowed = allowed;
      started = image;
      least = λ c m d a.
          first-take_least (may_start now db) 5 (order_by due) job c (order_by-IsOrdered due) hit
            (In-order_by c due (In-select_of (is_candidate now locked) rows c m d)) a;
    }
