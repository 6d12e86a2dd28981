-- ===== src/Tests/Findings.antt =====
-- The theorems on the findings of VM2's scanners at concrete inputs.
use mail_sync_portal.Base.{
  ◌≡◌, refl, pos, String, true, false, Option, none, some, List, [], ◌∷◌, All, min, length,
  if◌then◌else◌, select, strip, any, starts_with,
}
use mail_sync_portal.ScanFindings.{
  Finding, Entry, get_findings, read_all, read_from, is_after, classify, ends_with, sorted,
  insert_row,
}
use mail_sync_portal.ScanFindings.Order.{IsTop}
use mail_sync_portal.ScanFindings.Laws.{
  HasGrade, IsCounted, get_findings-IsTop, get_findings-IsCounted,
}
use mail_sync_portal.ScanFindings.Alerts.{Check, check_one, check_all, check_scan_findings, served}
use mail_sync_portal.ScanFindings.Alerts.Once.{IsNewer, check_once, told-check, told, new_rows}

-- Lines that hold a signature after the name of an engine.
abbrev line_of : String → Option Entry
line_of s =
    if starts_with s "rspamd"
    then some (record { engine = some "rspamd"; signature = some "reject" })
    else if starts_with s "{"
    then none
    else some (record { engine = none; signature = some s })

abbrev same_text : String → String
same_text s = s

abbrev log : List String
log = "Win.Test" ∷ "" ∷ " rspamd" ∷ "{" ∷ "Sane.X.UNOFFICIAL" ∷ []

abbrev log_rows : List Finding
log_rows =
    record {
      id = 1;
      entry = record { engine = none; signature = some "Win.Test" };
      severity = "malware";
    }
    ∷ record {
      id = 3;
      entry = record { engine = some "rspamd"; signature = some "reject" };
      severity = "spam";
    }
    ∷ record {
      id = 5;
      entry = record { engine = none; signature = some "Sane.X.UNOFFICIAL" };
      severity = "suspicious";
    }
    ∷ []

log_read : read_all same_text line_of log ≡ log_rows
unfolding read_all read_from strip any classify ends_with starts_with
log_read = refl

shown_first : (get_findings log_rows (pos 1) (pos 1)).recent ≡ (
    record {
      id = 1;
      entry = record { engine = none; signature = some "Win.Test" };
      severity = "malware";
    }
    ∷ [])
unfolding get_findings sorted insert_row
shown_first = refl

get_findings-IsTop_example :
    IsTop 2 log_rows (get_findings log_rows (pos 1) (pos 2)).recent
    × IsTop 2 (select (is_after (pos 1)) log_rows) (get_findings log_rows (pos 1) (pos 2)).new
get_findings-IsTop_example = get_findings-IsTop log_rows (pos 1) 2

get_findings-IsCounted_example :
    All (HasGrade same_text) (read_all same_text line_of log)
    × IsCounted
        (read_all same_text line_of log)
        (get_findings (read_all same_text line_of log) (pos 0) (pos 8))
get_findings-IsCounted_example = get_findings-IsCounted same_text line_of log (pos 0) (pos 8)

told-check_example :
    told (check_scan_findings (served true log_rows) (some 1)).1
    ≡ min 50 (length (new_rows 1 log_rows))
told-check_example = told-check log_rows 1

-- VM2 is not reached, then a run is not committed, then one is.
abbrev later_checks : List Check
later_checks =
    record { reached = false; rows = []; committed = true }
    ∷ record { reached = true; rows = log_rows; committed = false }
    ∷ record { reached = true; rows = log_rows; committed = true }
    ∷ []

check_once_example :
    All
      (λ (r : Finding).
        All
          (IsNewer r.id)
          (check_all later_checks
            (check_one
              (record { reached = true; rows = read_all same_text line_of log; committed = true })
              (some 1)).0).1)
      (read_all same_text line_of log)
check_once_example = check_once same_text line_of log 1 later_checks
