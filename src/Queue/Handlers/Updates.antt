-- ===== src/Queue/Handlers/Updates.antt =====
-- workers/handlers/system_update_handler.py: the update of a machine, phase by phase, each write a
-- transaction of its own. The helper programs, the API of VM2 and the log file are outside: parameters.
pub mod Ends
use Prim.Native.String.{◌++◌, count}
use mail_sync_portal.Base.{
  ℕ, zero, suc, ◌-◌, ◌==◌, String, Bool, true, false, not, Option, none, some, List, [], ◌∷◌,
  ◌++◌ as append, ◌&&◌, ◌||◌, str_eq, first, if◌then◌else◌, or_else, show_ℕ,
}
use mail_sync_portal.Db.{update, Db, UpdateRun, RunStatus, Payload, AuditCall}
use mail_sync_portal.Queue.Handlers.{is_blank}

pub record Vm2Result : Type 0 where
  pub dnf_output_tail : String
  pub healthy : Option (Option Bool)
  pub reboot_needed : Option Bool
  pub backup_path : Option String
  pub log_path : Option String
  pub reboot_confirm_token : Option String

-- What the call of VM2 gives: a result, a Vm2ApiError without or with the status, or another exception.
pub data Vm2Answer : Type 0 where
  updated : Vm2Result → Vm2Answer
  unreachable : String → Vm2Answer
  refused : ℕ → String → Vm2Answer
  crashed : String → Vm2Answer

-- The helpers: `none` is an exception. The flag of the packages says whether only security counts.
pub record Machines : Type 0 where
  pub run_backup : Option (String × Option String)
  pub run_dnf : Bool → Option (String × Bool)
  pub run_health : Option (String × Bool)
  pub check_reboot : Option (Option Bool)
  pub vm2_update : Bool → Vm2Answer
  pub run_upgrade : Option (String × Option String × Bool)
  pub write_log : UpdateRun → Option String
  pub exception : String

drop_chars : ℕ → String → String
drop_chars zero s = s
drop_chars (suc n) String.[] = ""
drop_chars (suc n) (String.◌∷◌ c s) = drop_chars n s

-- `output[-_MAX_OUTPUT:]` where it is longer
unfoldable pub keep_tail : ℕ → String → String
unfolding drop_chars
keep_tail limit s = drop_chars (count s - limit) s

unfoldable pub add_output : String → UpdateRun → UpdateRun
add_output text r = record r { output = keep_tail 200000 (r.output ++ text) }

abbrev pub has_id : ℕ → UpdateRun → Bool
has_id k r = r.id == k

-- `_update`: nothing where the run is gone
unfoldable pub update_run : ℕ → String → (UpdateRun → UpdateRun) → Db → Db
update_run k text f db = record db {
  system_update_runs =
      update (has_id k) (λ r. f (if str_eq text "" then r else add_output text r))
        db.system_update_runs;
}

abbrev pub end_run : ℕ → RunStatus → Option String → UpdateRun → UpdateRun
end_run now status error r = record r {
  status = status;
  phase = "done";
  finished_at = some now;
  error = error;
}

abbrev pub set_log : (UpdateRun → Option String) → UpdateRun → UpdateRun
set_log write_log r = record r {
  log_path =
      if str_eq r.host "vm1"
      then write_log r
      else if is_blank r.log_path
      then write_log r
      else r.log_path;
}

-- `_finish`: the end of the run, then its log and the audit.
unfoldable pub finish : Machines → ℕ → ℕ → RunStatus → Option String → Db → Db
finish ms now k status error db =
    let ended = update_run k "" (end_run now status error) db in
    elim (first (has_id k) ended.system_update_runs.rows) [
      | none ↦ ended
      | some r ↦ record ended {
        system_update_runs = update (has_id k) (set_log ms.write_log) ended.system_update_runs;
        audit = append ended.audit (
            (record {
              actor_admin_user_id = none;
              action = "system.update." ++ r.host;
              target_id = none;
            })
            ∷ []);
      }
    ]

-- A handler's part: the database, and the exception that it raises, if it does.
abbrev pub Part : Type 0
Part = Db × Option String

abbrev pub verdict : Bool → RunStatus
verdict ok = if ok then RunStatus.success else RunStatus.failed

abbrev pub unless : Bool → String → Option String
unless ok text = if ok then none else some text

abbrev pub set_phase : String → UpdateRun → UpdateRun
set_phase phase r = record r { phase = phase }

unfoldable pub check_vm1 : Machines → ℕ → ℕ → Bool → Bool → Db → Part
check_vm1 ms now k dnf_ok healthy db =
    let asked = update_run k "" (set_phase "reboot-check") db in
    elim (ms.check_reboot) [
      | none ↦ (asked, some ms.exception)
      | some needed ↦
          let ok = dnf_ok && healthy in
          (
            finish ms now k (verdict ok)
                (unless ok "dnf lub health-check zgłosił problem — sprawdź wyjście.")
                (update_run k "" (λ r. record r { reboot_needed = needed }) asked),
            none,
          )
    ]

unfoldable pub health_vm1 : Machines → ℕ → ℕ → Bool → Db → Part
health_vm1 ms now k dnf_ok db =
    let asked = update_run k "\n### Test kluczowych usług...\n" (set_phase "health") db in
    elim (ms.run_health) [
      | none ↦ (asked, some ms.exception)
      | some (output, healthy) ↦
          check_vm1 ms now k dnf_ok healthy
            (update_run k output (λ r. record r { healthy = some healthy }) asked)
    ]

unfoldable pub dnf_vm1 : Machines → ℕ → ℕ → Bool → Db → Part
dnf_vm1 ms now k security_only db =
    let asked = update_run k "\n### Instalacja aktualizacji (dnf)...\n" (set_phase "dnf") db in
    elim (ms.run_dnf security_only) [
      | none ↦ (asked, some ms.exception)
      | some (output, ok) ↦ health_vm1 ms now k ok (update_run k output (λ r. r) asked)
    ]

unfoldable pub handle_vm1 : Machines → ℕ → ℕ → Bool → Db → Part
handle_vm1 ms now k security_only db =
    let asked = update_run k "### Kopia zapasowa konfiguracji...\n" (set_phase "backup") db in
    elim (ms.run_backup) [
      | none ↦ (asked, some ms.exception)
      | some (output, path) ↦
          dnf_vm1 ms now k security_only
            (update_run k output (λ r. record r { backup_path = path }) asked)
    ]

-- `health.get("healthy")`, and `bool(health.get("healthy", True))`
abbrev pub healthy_value : Option (Option Bool) → Option Bool
healthy_value none = none
healthy_value (some v) = v

abbrev pub is_healthy : Option (Option Bool) → Bool
is_healthy none = true
is_healthy (some v) = or_else false v

abbrev pub take_result : Vm2Result → UpdateRun → UpdateRun
take_result v r = record r {
  healthy = healthy_value v.healthy;
  reboot_needed = v.reboot_needed;
  backup_path = v.backup_path;
  log_path = v.log_path;
  reboot_token = v.reboot_confirm_token;
}

unfoldable pub answer_vm2 : Machines → ℕ → ℕ → Vm2Answer → Db → Part
answer_vm2 ms now k (updated v) db =
    let ok = is_healthy v.healthy in
    (
      finish ms now k (verdict ok) (unless ok "health-check VM2 zgłosił problem po aktualizacji.")
          (update_run k v.dnf_output_tail (take_result v) db),
      none,
    )
answer_vm2 ms now k (unreachable e) db = (
  finish ms now k RunStatus.failed (some ("VM2 nieosiągalna: " ++ e))
      (update_run k ("\nBŁĄD łączności z VM2: " ++ (e ++ "\n")) (λ r. r) db),
  none,
)
answer_vm2 ms now k (refused code e) db = (
  finish ms now k RunStatus.failed
      (some (
        "Aktualizacja na VM2 nie powiodła się (HTTP "
        ++ (show_ℕ code ++ ") — przyczyna w wyjściu powyżej.")))
      (update_run k ("\nVM2 zgłosiła błąd aktualizacji — " ++ (e ++ "\n")) (λ r. r) db),
  none,
)
answer_vm2 ms now k (crashed e) db = (db, some e)

unfoldable pub handle_vm2 : Machines → ℕ → ℕ → Bool → Db → Part
handle_vm2 ms now k security_only db =
    if is_blank db.vm2_host
    then (
      finish ms now k RunStatus.failed (some "Brak skonfigurowanego połączenia z VM2.") db,
      none,
    )
    else answer_vm2 ms now k (ms.vm2_update security_only) (
        update_run k "### Aktualizacja VM2 (kopia + pakiety + test usług)...\n" (set_phase "dnf")
          db)

unfoldable pub handle_webmail : Machines → ℕ → ℕ → Db → Part
handle_webmail ms now k db =
    let asked =
      update_run k "### Aktualizacja Roundcube (podpis paczki → kopia → instalacja → test)...\n"
        (set_phase "webmail") db in
    elim (ms.run_upgrade) [
      | none ↦ (asked, some ms.exception)
      | some (output, path, ok) ↦ (
        finish ms now k (verdict ok)
            (unless ok
              "Aktualizacja Roundcube nie powiodła się — przyczyna i informacja o cofnięciu zmian w wyjściu powyżej.")
            (update_run k output
              (λ r. record r { backup_path = path; healthy = if ok then some true else none })
              asked),
        none,
      )
    ]

-- The `except` clause: the run fails, and the exception goes on.
unfoldable pub rescue : Machines → ℕ → ℕ → Part → Part
rescue ms now k (db, none) = (db, none)
rescue ms now k (db, some e) = (finish ms now k RunStatus.failed (some e) db, some e)

unfoldable pub handle_run : Machines → ℕ → ℕ → String → Bool → Db → Part
handle_run ms now k host security_only db = rescue ms now k (
    if str_eq host "webmail"
    then handle_webmail ms now k db
    else if str_eq host "vm2"
    then handle_vm2 ms now k security_only db
    else handle_vm1 ms now k security_only db)

abbrev pub begin_run : ℕ → UpdateRun → UpdateRun
begin_run now r = record r { started_at = some now; status = RunStatus.running }

unfoldable pub system_update : Machines → ℕ → ℕ → Payload → Db → Part
system_update ms started finished p db = elim p.run_id [
  | none ↦ (db, some "'run_id'")
  | some k ↦
      handle_run ms finished k (or_else "vm1" p.host)
        (not (str_eq (or_else "security" p.mode) "all")) (update_run k "" (begin_run started) db)
]
