-- ===== src/Queue/Throttle.antt =====
-- services/throttle_service.py: how many synchronisations may start.
use mail_sync_portal.Base.{
  ℕ, ◌+◌, Bool, true, false, Option, none, some, leb, str_eq, first, count_where, if◌then◌else◌,
}
use mail_sync_portal.Db.{insert, Db, ThrottlePolicy, JobRun, RunStatus}

-- the column defaults of `ThrottlePolicy(scope="global")`
unfoldable pub default_policy : ℕ → ThrottlePolicy
default_policy id = record {
  id = id;
  scope = "global";
  max_connections_per_minute = 10;
  max_connections_per_hour = 100;
  max_connections_per_day = 500;
  concurrent_job_limit = 3;
}

or_create_policy : Db → Option ThrottlePolicy → Db × ThrottlePolicy
or_create_policy db (some policy) = (db, policy)
or_create_policy db none = (
  record db { throttle_policies = insert default_policy db.throttle_policies },
  default_policy db.throttle_policies.next_id,
)

-- The first policy of scope "global", which is created where there is none.
unfoldable pub get_global_policy : Db → Db × ThrottlePolicy
unfolding or_create_policy
get_global_policy db =
    or_create_policy db (first (λ p. str_eq p.scope "global") db.throttle_policies.rows)

abbrev pub is_active_run : JobRun → Bool
is_active_run r = elim r.status [ RunStatus.running ↦ true | _ ↦ false ]

-- The runs with `now - window <= started_at`.
unfoldable pub count_runs_since : Db → ℕ → ℕ → ℕ
count_runs_since db now window = count_where (λ r. leb now (r.started_at + window)) db.job_runs.rows

unfoldable pub count_running : Db → ℕ
count_running db = count_where is_active_run db.job_runs.rows

pub data Reason : Type 0 where
  concurrent_job_limit max_connections_per_minute : Reason
  max_connections_per_hour max_connections_per_day : Reason

-- `none` is (True, None); a reason goes with False.
unfoldable pub can_start_sync_now : Db → ThrottlePolicy → ℕ → Option Reason
can_start_sync_now db policy now =
    if leb policy.concurrent_job_limit (count_running db)
    then some concurrent_job_limit
    else if leb policy.max_connections_per_minute (count_runs_since db now 60)
    then some max_connections_per_minute
    else if leb policy.max_connections_per_hour (count_runs_since db now 3600)
    then some max_connections_per_hour
    else if leb policy.max_connections_per_day (count_runs_since db now 86400)
    then some max_connections_per_day
    else none
