-- ===== src/Panel/Settings.antt =====
-- routers/settings_schedule.py, settings_throttle.py, settings_imapsync.py and settings_scanning.py: the
-- settings that the scheduler, the throttle, the runner of imapsync and VM2's timers read.
pub mod Laws
use mail_sync_portal.Base.{
  ℕ, ◌*◌, min, max, ℤ, pos, negsuc, String, Bool, Option, none, some, List, ◌||◌, str_eq, strip,
  or_else, if◌then◌else◌,
}
use mail_sync_portal.Db.{Db}
use mail_sync_portal.Imapsync.Flags.{Result, ok, err, validate_custom_flags, ImapsyncConfig}
use mail_sync_portal.Queue.Handlers.{is_blank}
use mail_sync_portal.Queue.Handlers.Sync.{default_config}
use mail_sync_portal.Panel.Client.{Reply, accepted, refused, http, audited}

-- max(0, n)
abbrev pub at_least_0 : ℤ → ℕ
at_least_0 (pos n) = n
at_least_0 (negsuc n) = 0

-- max(5, min(interval_minutes, 60 * 24 * 7))
abbrev pub interval_within : ℤ → ℕ
interval_within (pos n) = max 5 (min n (60 * 24 * 7))
interval_within (negsuc n) = 5

unfoldable pub save_schedule : ℕ → ℤ → Db → Db
save_schedule actor interval_minutes db =
    audited actor "sync_schedule.update" none
      (record db { sync_interval_minutes = some (interval_within interval_minutes) })

-- the fields of the form of imapsync's settings
pub record ImapsyncForm : Type 0 where
  pub verify_source_ssl : Bool
  pub add_missing_headers : Bool
  pub allow_size_mismatch : Bool
  pub max_size_mb : ℤ
  pub timeout_seconds : ℤ
  pub max_bandwidth_mbit : ℤ
  pub custom_flags : String

abbrev pub config_of : ImapsyncForm → ImapsyncConfig
config_of form = record {
  verify_source_ssl = form.verify_source_ssl;
  add_missing_headers = form.add_missing_headers;
  max_size_mb = at_least_0 form.max_size_mb;
  timeout_seconds = at_least_0 form.timeout_seconds;
  allow_size_mismatch = form.allow_size_mismatch;
  max_bandwidth_mbit = at_least_0 form.max_bandwidth_mbit;
  custom_flags = strip form.custom_flags;
}

-- `save_imapsync` on the row of the configuration, made with its defaults where there is none
unfoldable pub save_checked :
    ℕ
    → ImapsyncForm
    → Db
    → Option ImapsyncConfig
    → Result (List String)
    → Db × Option ImapsyncConfig × Reply
save_checked actor form db cfg (err e) = (db, some (or_else default_config cfg), http 400)
save_checked actor form db cfg (ok argv) =
    (audited actor "imapsync_config.update" none db, some (config_of form), accepted)

unfoldable pub save_imapsync :
    ℕ → ImapsyncForm → Db → Option ImapsyncConfig → Db × Option ImapsyncConfig × Reply
save_imapsync actor form db cfg =
    save_checked actor form db cfg (validate_custom_flags form.custom_flags)

-- models/settings.py, ScanScheduleConfig
pub record ScanSchedule : Type 0 where
  pub clamav_incremental_minutes : ℕ
  pub clamav_full_mode : String
  pub clamav_full_dow : ℕ
  pub clamav_full_hour : ℕ
  pub rspamd_incremental_minutes : ℕ
  pub rspamd_full_mode : String
  pub rspamd_full_dow : ℕ
  pub rspamd_full_hour : ℕ

pub record ScanForm : Type 0 where
  pub clamav_incremental_minutes : ℤ
  pub clamav_full_mode : String
  pub clamav_full_dow : ℤ
  pub clamav_full_hour : ℤ
  pub rspamd_incremental_minutes : ℤ
  pub rspamd_full_mode : String
  pub rspamd_full_dow : ℤ
  pub rspamd_full_hour : ℤ

abbrev pub is_mode : String → Bool
is_mode s = str_eq s "off" || (str_eq s "daily" || str_eq s "weekly")

abbrev pub mode_or : String → String → String
mode_or default s = if is_mode s then s else default

-- max(0, min(top, n))
abbrev pub within : ℕ → ℤ → ℕ
within top (pos n) = min top n
within top (negsuc n) = 0

unfoldable pub schedule_of : ScanForm → ScanSchedule
schedule_of form = record {
  clamav_incremental_minutes = at_least_0 form.clamav_incremental_minutes;
  clamav_full_mode = mode_or "daily" form.clamav_full_mode;
  clamav_full_dow = within 6 form.clamav_full_dow;
  clamav_full_hour = within 23 form.clamav_full_hour;
  rspamd_incremental_minutes = at_least_0 form.rspamd_incremental_minutes;
  rspamd_full_mode = mode_or "off" form.rspamd_full_mode;
  rspamd_full_dow = within 6 form.rspamd_full_dow;
  rspamd_full_hour = within 23 form.rspamd_full_hour;
}

-- The saved schedule, what VM2 is sent where it has a host, and the answer; `applied` tells whether the
-- call returns.
unfoldable pub save_scanning :
    (ScanSchedule → Bool) → ℕ → ScanForm → Db → Db × ScanSchedule × Option ScanSchedule × Reply
save_scanning applied actor form db =
    let cfg = schedule_of form in
    let db' = audited actor "scan_schedule.update" none db in
    if is_blank db.vm2_host
    then (db', cfg, none, accepted)
    else (db', cfg, some cfg, if applied cfg then accepted else refused)
