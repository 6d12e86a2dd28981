-- ===== src/Panel/Updates.antt =====
-- routers/settings_updates.py: starting the updates of a machine, and its restart.
pub mod Laws
use Prim.Native.String.{◌++◌}
use mail_sync_portal.Base.{
  ℕ, String, Bool, true, false, Option, none, some, List, [], ◌∷◌, ◌&&◌, str_eq, if◌then◌else◌,
}
use mail_sync_portal.Db.{insert, update, Db, Job, UpdateRun, RunStatus, queued}
use mail_sync_portal.Queue.Handlers.{is_blank}
use mail_sync_portal.Panel.Client.{Reply, accepted, http, audited}
use mail_sync_portal.Panel.Mailboxes.{Asking}

abbrev pub is_running : RunStatus → Bool
is_running RunStatus.running = true
is_running _ = false

-- the filter of `_running_run`
abbrev pub is_running_on : String → UpdateRun → Bool
is_running_on host r = str_eq r.host host && is_running r.status

-- ORDER BY id DESC LIMIT 1, where rows stand in the order of their ids
unfoldable pub last {ℓ} : {A : Type ℓ} → (A → Bool) → List A → Option A
last p [] = none
last p (x ∷ xs) = elim (last p xs) [ some y ↦ some y | none ↦ (if p x then some x else none) ]

-- `_running_run`
unfoldable pub running_run : Db → String → Option UpdateRun
running_run db host = last (is_running_on host) db.system_update_runs.rows

-- `_last_run`
unfoldable pub last_run : Db → String → Option UpdateRun
last_run db host = last (λ (r : UpdateRun). str_eq r.host host) db.system_update_runs.rows

abbrev pub mode_for : String → String → String
mode_for host mode =
    if str_eq host "webmail" then "branch" else if str_eq mode "all" then "all" else "security"

abbrev pub new_run : ℕ → String → String → ℕ → UpdateRun
new_run actor host mode id = record {
  id = id;
  actor_admin_user_id = some actor;
  host = host;
  mode = mode;
  status = RunStatus.running;
  phase = "queued";
  started_at = none;
  finished_at = none;
  output = "";
  reboot_needed = none;
  healthy = none;
  backup_path = none;
  log_path = none;
  reboot_token = none;
  error = none;
}

abbrev pub update_job : ℕ → ℕ → String → String → ℕ → Job
update_job now run_id host mode id = record {
  id = id;
  job_type = "system_update";
  payload = record {
    mailbox_id = none;
    run_id = some run_id;
    trigger = none;
    mode = some mode;
    host = some host;
  };
  status = queued;
  priority = 10;
  run_after = now;
  locked_by = none;
  locked_at = none;
  attempts = 0;
  max_attempts = 1;
}

unfoldable pub enqueue_update : Asking → String → String → Db → Db
enqueue_update asking host mode db =
    audited asking.actor ("system.update." ++ (host ++ ".start")) none (record db {
      system_update_runs = insert (new_run asking.actor host mode) db.system_update_runs;
      job_queue =
          insert (update_job asking.now db.system_update_runs.next_id host mode) db.job_queue;
    })

-- `_start_run`: the run's id, and whether it was running already
unfoldable pub start_run : Asking → String → String → Db → Db × ℕ × Bool
start_run asking host mode db = elim (running_run db host) [
  | some r ↦ (db, r.id, true)
  | none ↦
      (enqueue_update asking host (mode_for host mode) db, db.system_update_runs.next_id, false)
]

-- `apply_vm1`, `apply_vm2` and `apply_webmail`: `none` is the 400 without a connection to VM2.
unfoldable pub apply_vm1 : Asking → String → Db → Db × Option (ℕ × Bool)
apply_vm1 asking mode db =
    let (db', run_id, already_running) = start_run asking "vm1" mode db in
    (db', some (run_id, already_running))

unfoldable pub apply_vm2 : Asking → String → Db → Db × Option (ℕ × Bool)
apply_vm2 asking mode db =
    if is_blank db.vm2_host
    then (db, none)
    else let (db', run_id, already_running) = start_run asking "vm2" mode db in
      (db', some (run_id, already_running))

unfoldable pub apply_webmail : Asking → Db → Db × Option (ℕ × Bool)
apply_webmail asking db =
    let (db', run_id, already_running) = start_run asking "webmail" "branch" db in
    (db', some (run_id, already_running))

-- `_clear_reboot_flag`
abbrev pub needs_reboot : String → UpdateRun → Bool
needs_reboot host r =
    str_eq r.host host
    && elim r.reboot_needed [ some true ↦ true | some false ↦ false | none ↦ false ]

unfoldable pub clear_reboot_flag : String → Db → Db
clear_reboot_flag host db = record db {
  system_update_runs =
      update (needs_reboot host) (λ (r : UpdateRun). record r { reboot_needed = some false })
        db.system_update_runs;
}

-- `trigger` tells whether the helper is started; an exception of it is not caught.
unfoldable pub reboot_vm1 : Bool → ℕ → Db → Db × Reply
reboot_vm1 trigger actor db =
    if trigger
    then (clear_reboot_flag "vm1" (audited actor "system.reboot.vm1" none db), accepted)
    else (db, http 500)

-- `returned` tells whether the call of VM2 returns.
unfoldable pub reboot_vm2 : Bool → ℕ → Db → Db × Reply
reboot_vm2 returned actor db =
    if is_blank db.vm2_host
    then (db, http 400)
    else if returned
    then (clear_reboot_flag "vm2" (audited actor "system.reboot.vm2" none db), accepted)
    else (db, http 400)
