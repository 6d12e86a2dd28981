-- ===== src/ScanFindings/Alerts.antt =====
-- workers/environment_check_main.py, `_check_scan_findings`: the alert of the panel on what VM2's
-- scanners found since the last one.
pub mod Once
use mail_sync_portal.Base.{
  ℕ, ℤ, pos, Option, none, some, List, [], ◌∷◌, length, take, ltb, or_else, if◌then◌else◌, Bool,
}
use mail_sync_portal.ScanFindings.{Finding, Findings, get_findings}

-- what `dispatch_alert` is given: the number in the subject and the rows in the details
pub record Alert : Type 0 where
  pub count : ℕ
  pub items : List Finding

abbrev pub alert_of : List Finding → Option Alert
alert_of [] = none
alert_of (r ∷ rows) = some (record { count = length (r ∷ rows); items = take 20 (r ∷ rows) })

-- `state.last_scan_finding_id` after the answer; a state that is missing stays so.
abbrev pub moved : Option ℕ → ℕ → ℕ → Option ℕ
moved none since top = none
moved (some cursor) since top = if ltb since top then some top else some cursor

abbrev pub on_answer : Option ℕ → ℕ → Option Findings → Option ℕ × Option Alert
on_answer state since none = (state, none)
on_answer state since (some answer) = (moved state since answer.max_id, alert_of answer.new)

-- `_check_scan_findings`, by the cursor of the state and the call of VM2, `none` where it raises
unfoldable pub check_scan_findings : (ℤ → ℤ → Option Findings) → Option ℕ → Option ℕ × Option Alert
check_scan_findings av_findings state =
    let since = or_else 0 state in on_answer state since (av_findings (pos since) (pos 50))

-- The call of VM2 over the network, by whether it is reached.
abbrev pub served : Bool → List Finding → ℤ → ℤ → Option Findings
served reached rows since_id limit =
    if reached then some (get_findings rows since_id limit) else none

-- One run of the checks: whether VM2 is reached, what its log holds, and whether the transaction of the
-- run is committed, which an exception in a later check prevents after the alert is sent.
pub record Check : Type 0 where
  pub reached : Bool
  pub rows : List Finding
  pub committed : Bool

unfoldable pub check_one : Check → Option ℕ → Option ℕ × Option Alert
check_one c state =
    let (state', alert) = check_scan_findings (served c.reached c.rows) state in
    (if c.committed then state' else state, alert)

-- Runs of the checks one after the other, with the alerts that they send.
unfoldable pub check_all : List Check → Option ℕ → Option ℕ × List (Option Alert)
check_all [] state = (state, [])
check_all (c ∷ cs) state =
    let (state', alert) = check_one c state in
    let (last, alerts) = check_all cs state' in (last, alert ∷ alerts)
