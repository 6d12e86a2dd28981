-- ===== src/Tests/Data.antt =====
-- Test data.
use mail_sync_portal.Base.{ℕ, pos, Bool, true, false, none, some, [], ◌∷◌}
use mail_sync_portal.Db.{Db, empty_db, Job, queued, running, Payload, SyncJob, RunStatus}
use mail_sync_portal.Queue.Query.{no_payload}
use mail_sync_portal.Queue.Handlers.{Outside}
use mail_sync_portal.Queue.Handlers.Updates.{Machines, crashed}

abbrev pub unlocked : ℕ → Bool
unlocked k = false

abbrev pub sync_job : SyncJob
sync_job = record {
  id = 1;
  mailbox_id = 4;
  days_back = pos 0;
  preserve_folder_structure = true;
  delete_on_dest_when_missing_from_source = false;
  is_enabled = true;
  last_enqueued_at = some 3600;
  custom_flags = "";
}

abbrev pub portal : Db
portal = record empty_db { sync_jobs = record { rows = sync_job ∷ []; next_id = 2 } }

abbrev pub first_job : Job
first_job = record {
  id = 1;
  job_type = "provision";
  payload = record no_payload { mailbox_id = some 4 };
  status = queued;
  priority = 100;
  run_after = 5;
  locked_by = none;
  locked_at = none;
  attempts = 0;
  max_attempts = 5;
}

abbrev pub waiting_job : Job
waiting_job = record first_job { id = 2 }

abbrev pub failing_job : Job
failing_job = record first_job {
  status = running;
  attempts = 1;
  locked_by = some "w";
  locked_at = some 10;
}

abbrev pub two_jobs : Db
two_jobs = record empty_db {
  job_queue = record { rows = waiting_job ∷ first_job ∷ []; next_id = 3 };
}

-- Job 1 runs on its first attempt.
abbrev pub after_failure : Db
after_failure = record empty_db {
  job_queue = record { rows = failing_job ∷ waiting_job ∷ []; next_id = 3 };
}

abbrev pub outside : Outside
outside = record {
  decrypt = λ s. some s;
  encrypt = λ s. s;
  create_mailbox = λ host domain part password quota. some "7";
  is_letter = λ c. false;
  passfile = λ s. "/run/passfile";
  new_log_path = λ k. "/var/log/mailbox.log";
  run = λ argv. none;
  quota = λ k. none;
  imapsync_config = none;
}

-- The helper that installs packages raises.
abbrev pub machines : Machines
machines = record {
  run_backup = some ("copied", some "/backup");
  run_dnf = λ security_only. none;
  run_health = some ("fine", true);
  check_reboot = some none;
  vm2_update = λ security_only. crashed "no route";
  run_upgrade = none;
  write_log = λ r. none;
  exception = "timed out";
}

abbrev pub update_payload : Payload
update_payload = record no_payload { run_id = some 3; host = some "vm1" }

abbrev pub update_db : Db
update_db = record empty_db {
  system_update_runs = record {
    rows =
        (record {
          id = 3;
          actor_admin_user_id = some 1;
          host = "vm1";
          mode = "security";
          status = RunStatus.running;
          phase = "queued";
          started_at = none;
          finished_at = none;
          output = "";
          reboot_needed = none;
          healthy = none;
          backup_path = none;
          log_path = none;
          reboot_token = none;
          error = none;
        })
        ∷ [];
    next_id = 4;
  };
}
