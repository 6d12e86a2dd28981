-- ===== src/Tests.antt =====
-- The theorems at concrete inputs: the queue here, the other parts in the modules below.
mod Data
mod Imapsync
mod Imports
mod Logs
mod Accounts
mod World
mod Panel
mod Machine
mod Findings
use mail_sync_portal.Base.{
  ℕ, ◌≡◌, ◌≢◌, ◌≤◌, ◌<◌, refl, inl, Option, none, some, Bool, true, false, String, ◌⊎◌, ◌+◌, arith,
  length, first, select, update_where, List, [], ◌∷◌, ◌||◌,
}
use mathlib.Core.Option
use mail_sync_portal.Db.{Db, Payload, SyncJob, insert, update}
use mail_sync_portal.Queue.Query.{modify_job}
use mail_sync_portal.Queue.Throttle.{get_global_policy, can_start_sync_now}
use mail_sync_portal.Queue.Scheduler.{
  run_once, interval, enqueued_lately, enqueue_all, is_due, already_pending, enqueue,
}
use mail_sync_portal.Queue.Scheduler.Pending.{
  pending_count, pending-run_once, run_once-serves, run_once-count,
}
use mail_sync_portal.Queue.Worker.{
  Round, killed, candidates, claim_next_job, claim_from, start_job, finish_job, reap_orphans,
  order_by, place, admit, ended,
}
use mail_sync_portal.Queue.Worker.Claim.{Claimed, claim-Claimed, claim-first, may_start}
use mail_sync_portal.Queue.Worker.Lifecycle.{AtRest, reap-AtRest, AllAppend}
use mail_sync_portal.Queue.Handlers.Laws.{portal_handlers, portal_handlers-AllAppend}
use mail_sync_portal.Queue.Handlers.Updates.{system_update}
use mail_sync_portal.Queue.Handlers.Updates.Ends.{AllEnded, system_update-AllEnded}
use mail_sync_portal.Queue.System.{here, next, die, restart, Reach-AtRest, failed-never_retried}
use mail_sync_portal.Tests.Data.{
  unlocked, portal, first_job, failing_job, waiting_job, two_jobs, after_failure, sync_job, outside,
  machines, update_payload, update_db,
}

abbrev round : Round
round = record { claimed_at = 10; finished_at = 20; worker_id = "w"; locked = unlocked }

-- The worker ends behind the claim of job 1 and is started again.
Reach-AtRest_example : AtRest (
    reap_orphans 7200
      (λ _. none)
      (killed (portal_handlers outside machines "timeout" 10 20) round two_jobs))
Reach-AtRest_example =
    Reach-AtRest {was = true} (record { idle = (refl, (refl, tt)) })
      (next
        (next here (
          die (portal_handlers outside machines "timeout" 10 20)
            (portal_handlers-AllAppend outside machines "timeout" 10 20) round two_jobs))
        (restart false 7200 (λ _. none)
          (killed (portal_handlers outside machines "timeout" 10 20) round two_jobs)))

claimed_first : (claim_next_job 10 "w" unlocked two_jobs).1 ≡ some (start_job 10 "w" first_job)
unfolding claim_next_job claim_from candidates select order_by place admit
claimed_first = refl

claim-Claimed_example : Claimed 10 "w" unlocked two_jobs (start_job 10 "w" first_job)
claim-Claimed_example =
    claim-Claimed 10 "w" unlocked two_jobs (start_job 10 "w" first_job) claimed_first

claim-first_example :
    (claim_next_job 10 "w" unlocked two_jobs).1
    ≡ Option.map
        (start_job 10 "w")
        (first (may_start 10 two_jobs) (candidates 10 unlocked two_jobs))
claim-first_example = claim-first 10 "w" unlocked two_jobs

claimed_other :
    (claim_next_job 90000 "w" unlocked (finish_job 20 1 false after_failure)).1
    ≡ some (start_job 90000 "w" waiting_job)
unfolding claim_next_job claim_from candidates select order_by place admit finish_job ended
    modify_job update update_where
claimed_other = refl

-- Job 1 failed on its first attempt of five; long after its time came, job 2 is claimed.
failed-never_retried_example : (start_job 90000 "w" waiting_job).id ≢ 1
failed-never_retried_example =
    failed-never_retried 1 20 after_failure 90000 "w" unlocked (start_job 90000 "w" waiting_job)
      ((λ e. omega arith), ((λ e. omega (arith, e)), tt)) (omega arith) here claimed_other

pending-run_once_example :
    (pending_count 4 (run_once 9000 portal).0 ≡ pending_count 4 portal)
    ⊎ (pending_count 4 portal ≡ 0) × (pending_count 4 (run_once 9000 portal).0 ≡ 1)
pending-run_once_example = pending-run_once 9000 4 portal

run_once-serves_example :
    (enqueued_lately 9000 (interval portal) sync_job ≡ true)
    ⊎ (0 < pending_count 4 (run_once 9000 portal).0)
run_once-serves_example = run_once-serves 9000 portal sync_job (inl refl) refl

portal_handlers-AllAppend_example : AllAppend (portal_handlers outside machines "timeout" 10 20)
portal_handlers-AllAppend_example = portal_handlers-AllAppend outside machines "timeout" 10 20

system_update-AllEnded_example :
    AllEnded 3 update_db (system_update machines 10 20 update_payload update_db)
system_update-AllEnded_example =
    system_update-AllEnded machines 10 20 3 update_payload update_db refl
