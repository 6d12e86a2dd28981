-- ===== src/Tests/Machine.antt =====
-- The theorems on VM2's directory and its system control at concrete inputs.
use Prim.Native.String.{◌++◌}
use mail_sync_portal.Base.{
  ◌≡◌, refl, pos, negsuc, String, some, List, [], ◌∷◌, arith, starts_with, strip, any, split_at,
  show_ℕ,
}
use mail_sync_portal.MailDb.Directory.{IsNumbered, Wanted, create_all, put_all, view}
use mail_sync_portal.MailDb.Directory.Refinement.{create_all-view}
use mail_sync_portal.Panel.Settings.{ScanForm, schedule_of}
use mail_sync_portal.SystemControl.{
  oncalendar, Completed, Tools, scan_args, interval_arg, get_available_updates, package_of,
  packages, contains, app_update, key_values, value_of, failed,
}
use mail_sync_portal.SystemControl.Laws.{request_of, calendar, every, scan_args-schedule_of}
use mail_sync_portal.Panel.AppUpdate.{app_status, is_yes, helper_values}
use mail_sync_portal.Panel.AppUpdate.Laws.{IsHonest, app_status-IsHonest}
use mail_sync_portal.Tests.World.{vm2_db}

abbrev wanted : List Wanted
wanted = ("a.pl", "v", "first", 10) ∷ ("b.pl", "v", "second", 20) ∷ ("a.pl", "v", "third", 30) ∷ []

vm2-IsNumbered : IsNumbered vm2_db
vm2-IsNumbered = record { ids = (tt, tt); past = (omega arith, tt); linked = (omega arith, tt) }

create_all-view_example : view (create_all wanted vm2_db) ≡ put_all wanted (view vm2_db)
create_all-view_example = create_all-view wanted vm2_db vm2-IsNumbered

abbrev form : ScanForm
form = record {
  clamav_incremental_minutes = pos 3;
  clamav_full_mode = "weekly";
  clamav_full_dow = pos 9;
  clamav_full_hour = negsuc 1;
  rspamd_incremental_minutes = negsuc 0;
  rspamd_full_mode = "hourly";
  rspamd_full_dow = pos 0;
  rspamd_full_hour = pos 25;
}

scan_args-schedule_of_example :
    scan_args (request_of (schedule_of form))
    ≡ ("clamav_inc=" ++ every (schedule_of form).clamav_incremental_minutes)
      ∷ ("clamav_full="
          ++ calendar
              (schedule_of form).clamav_full_mode
              (schedule_of form).clamav_full_dow
              (schedule_of form).clamav_full_hour)
      ∷ ("rspamd_inc=" ++ every (schedule_of form).rspamd_incremental_minutes)
      ∷ ("rspamd_full="
          ++ calendar
              (schedule_of form).rspamd_full_mode
              (schedule_of form).rspamd_full_dow
              (schedule_of form).rspamd_full_hour)
      ∷ []
scan_args-schedule_of_example = scan_args-schedule_of form

abbrev done : Completed
done = record {
  returncode = pos 0;
  lines = "backup_path=/b" ∷ [];
  output = "Complete!";
  errors = "";
}

abbrev tools : Tools
tools = record {
  backup = some done;
  dnf = λ security_only. some done;
  is_active = λ unit. "active";
  reboot_check = "reboot_needed=yes";
  write_log = λ security_only healthy needed. some "/log";
  fresh_token = "token";
  now = 100;
  confirm_ttl = 60;
}

-- A weekly scan on the last day of the week, and an interval that VM2 raises to five minutes.
form_args :
    scan_args (request_of (schedule_of form))
    ≡ "clamav_inc=5" ∷ "clamav_full=Sun *-*-* 00:00:00" ∷ "rspamd_inc=off" ∷ "rspamd_full=off" ∷ []
unfolding scan_args interval_arg schedule_of oncalendar show_ℕ
form_args = refl

abbrev words : String → List String
words line = line ∷ "1.0" ∷ "repo" ∷ []

counted :
    get_available_updates words
      (record {
        returncode = pos 100;
        lines = "glibc.x86" ∷ "Security: 1" ∷ [];
        output = "";
        errors = "";
      })
      (record { returncode = negsuc 8; lines = "glibc.x86" ∷ []; output = ""; errors = "" })
    ≡ ("glibc.x86" ∷ [], 0)
unfolding get_available_updates packages package_of any starts_with contains
counted = refl

busy :
    app_update (
      some (record {
        returncode = pos 1;
        lines = "state=run" ∷ "error = już trwa" ∷ [];
        output = "";
        errors = "";
      }))
    ≡ failed 409 "już trwa"
unfolding app_update value_of key_values split_at strip any contains starts_with
busy = refl

-- The process is gone and told no end.
abbrev interrupted : Completed
interrupted = record {
  returncode = pos 0;
  lines = "state=running" ∷ "active=no" ∷ "step=vm1" ∷ [];
  output = "";
  errors = "";
}

app_status-IsHonest_example :
    IsHonest (app_status interrupted) (is_yes (value_of "active" (helper_values interrupted)))
app_status-IsHonest_example = app_status-IsHonest interrupted
