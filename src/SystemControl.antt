-- ===== src/SystemControl.antt =====
-- vm2_api/vm2_api/services/system_control.py: packages, health, scans and restarts of VM2. The helper
-- programs, the clock and the generator of tokens are parameters; what a helper prints is given by its
-- text or by its lines, and a line by its words.
pub mod Laws
use Prim.Native.String.{◌++◌, count}
use mail_sync_portal.Base.{
  ℕ, zero, suc, ◌+◌, ◌-◌, ◌*◌, ◌/◌, ◌%◌, min, max, ◌==◌, ℤ, pos, negsuc, String, Bool, true, false,
  not, Option, none, some, List, [], ◌∷◌, ◌&&◌, ◌||◌, str_eq, all, any, first, map, length, select,
  ltb, leb, is_none, if◌then◌else◌, show_ℕ, starts_with, split_at, strip, delete_where,
}
use mail_sync_portal.Panel.Settings.{within, ScanForm}

-- What a helper leaves, by its exit code and its lines; `none` in place of it is an exception.
pub record Completed : Type 0 where
  pub returncode : ℤ
  pub lines : List String
  pub output : String
  pub errors : String

-- `returncode == n`
abbrev pub is_code : ℕ → ℤ → Bool
is_code n (pos k) = k == n
is_code n (negsuc k) = false

-- `_config_backup`: the text behind the first "backup_path="
abbrev pub backup_line : String → Bool
backup_line line = starts_with line "backup_path="

abbrev pub after_equals : Option (String × String) → Option String
after_equals none = none
after_equals (some (key, value)) = some (strip value)

unfoldable pub config_backup : Option Completed → Option String
config_backup none = none
config_backup (some res) = elim (first backup_line res.lines) [
  | none ↦ none
  | some line ↦ after_equals (split_at b'=' line)
]

abbrev pub health_units : List String
health_units = "postgresql-17" ∷ "dovecot" ∷ "postfix" ∷ "clamd@scan" ∷ "vm2-provisioning-api" ∷ []

-- `run_health_check`: each unit with whether it is active, by what systemctl prints, and all of them
unfoldable pub run_health_check : (String → String) → List (String × Bool) × Bool
run_health_check is_active =
    let units = map (λ unit. (unit, str_eq (strip (is_active unit)) "active")) health_units in
    (units, all (λ (u : String × Bool). u.1) units)

-- `_reboot_pending`: whether the token stands in what the helper prints
unfoldable pub contains : String → String → Bool
contains String.[] p = str_eq p ""
contains (String.◌∷◌ c s) p = let rest = contains s p in starts_with (String.◌∷◌ c s) p || rest

unfoldable pub reboot_pending : String → Bool
reboot_pending output = contains output "reboot_needed=yes"

-- `line.split()` is a parameter. A line names a package where it has three words and the first a dot.
abbrev pub first_word : List String → Option String
first_word [] = none
first_word (w ∷ ws) = some w

unfoldable pub package_of : (String → List String) → List String → String → Option String
package_of words skipped line =
    if str_eq line "" || any (λ p. starts_with line p) skipped || ltb (length (words line)) 3
    then none
    else elim (first_word (words line)) [
      | none ↦ none
      | some w ↦ (if contains w "." then some w else none)
    ]

unfoldable pub packages : (String → List String) → List String → List String → List String
packages words skipped [] = []
packages words skipped (line ∷ rest) = elim (package_of words skipped line) [
  | none ↦ packages words skipped rest
  | some w ↦ w ∷ packages words skipped rest
]

-- 0 and 100 are no errors of `check-update`.
abbrev pub listed : Completed → List String
listed res = if is_code 0 res.returncode || is_code 100 res.returncode then res.lines else []

-- `get_available_updates`, without the sorting of the names: how many packages wait for security, and
-- how many in all. The lines stand without the white space at their ends.
unfoldable pub get_available_updates :
    (String → List String) → Completed → Completed → List String × ℕ
get_available_updates words sec allpkgs = (
  packages words (" " ∷ "Obsoleting" ∷ "Last metadata" ∷ "Security:" ∷ []) (listed sec),
  length (packages words (" " ∷ "Obsoleting" ∷ "Last metadata" ∷ []) (listed allpkgs)),
)

-- The tokens of restarts that wait to be confirmed, each with the time until which it is good.
abbrev pub Tokens : Type 0
Tokens = List (String × ℕ)

-- what `run_dnf_update` calls; the helper's answer about a restart is asked for twice and is one
pub record Tools : Type 0 where
  pub backup : Option Completed
  pub dnf : Bool → Option Completed
  pub is_active : String → String
  pub reboot_check : String
  pub write_log : Bool → Bool → Option Bool → Option String
  pub fresh_token : String
  pub now : ℕ
  pub confirm_ttl : ℕ

pub record Updated : Type 0 where
  pub dnf_output : String
  pub healthy : Bool
  pub reboot_needed : Bool
  pub reboot_confirm_token : Option String
  pub security_only : Bool
  pub backup_path : Option String
  pub log_path : Option String

-- An exception, the 502 with the path of the log, or the result; the code cuts long outputs.
pub data UpdateAnswer : Type 0 where
  crashed : UpdateAnswer
  dnf_failed : Option String → String → UpdateAnswer
  updated : Updated → UpdateAnswer

-- `pending[token] = until`
unfoldable pub issue : Bool → Tools → Tokens → Tokens
issue needed tools tokens =
    if needed then (tools.fresh_token, tools.now + tools.confirm_ttl) ∷ tokens else tokens

unfoldable pub finish_update : Bool → Tools → Completed → Tokens → UpdateAnswer × Tokens
finish_update security_only tools res tokens =
    let healthy = (run_health_check tools.is_active).1 in
    let needed = reboot_pending tools.reboot_check in
    let text = res.output ++ res.errors in
    if is_code 0 res.returncode
    then (
      updated (record {
        dnf_output = text;
        healthy = healthy;
        reboot_needed = needed;
        reboot_confirm_token = if needed then some tools.fresh_token else none;
        security_only = security_only;
        backup_path = config_backup tools.backup;
        log_path = tools.write_log security_only healthy (some needed);
      }),
      issue needed tools tokens,
    )
    else (dnf_failed (tools.write_log security_only false none) text, tokens)

unfoldable pub run_dnf_update : Bool → Tools → Tokens → UpdateAnswer × Tokens
run_dnf_update security_only tools tokens = elim (tools.dnf security_only) [
  | none ↦ (crashed, tokens)
  | some res ↦ finish_update security_only tools res tokens
]

-- `reboot`: the token is used up, and the restart follows with or without one.
unfoldable pub reboot : Option String → Tokens → Tokens
reboot none tokens = tokens
reboot (some token) tokens = delete_where (λ (t : String × ℕ). str_eq t.0 token) tokens

-- int(dow) % 7
abbrev pub day_of : ℤ → ℕ
day_of (pos n) = n % 7
day_of (negsuc n) = 6 - n % 7

abbrev pub day_name : ℕ → String
day_name zero = "Mon"
day_name (suc zero) = "Tue"
day_name (suc (suc zero)) = "Wed"
day_name (suc (suc (suc zero))) = "Thu"
day_name (suc (suc (suc (suc zero)))) = "Fri"
day_name (suc (suc (suc (suc (suc zero))))) = "Sat"
day_name _ = "Sun"

-- f"{n:02d}"
abbrev pub two_digits : ℕ → String
two_digits n = if ltb n 10 then "0" ++ show_ℕ n else show_ℕ n

-- `_oncalendar`
abbrev pub at_hour : ℕ → String
at_hour hour = "*-*-* " ++ (two_digits hour ++ ":00:00")

unfoldable pub oncalendar : String → ℤ → ℤ → String
oncalendar mode dow hour =
    if str_eq mode "daily"
    then at_hour (within 23 hour)
    else if str_eq mode "weekly"
    then day_name (day_of dow) ++ (" " ++ at_hour (within 23 hour))
    else "off"

-- `_interval_arg`
unfoldable pub interval_arg : ℤ → String
interval_arg (negsuc n) = "off"
interval_arg (pos n) = if n == 0 then "off" else show_ℕ (max 5 (min 1440 n))

-- the arguments that `apply_scan_schedule` gives the helper
unfoldable pub scan_args : ScanForm → List String
scan_args cfg =
    ("clamav_inc=" ++ interval_arg cfg.clamav_incremental_minutes)
    ∷ ("clamav_full=" ++ oncalendar cfg.clamav_full_mode cfg.clamav_full_dow cfg.clamav_full_hour)
    ∷ ("rspamd_inc=" ++ interval_arg cfg.rspamd_incremental_minutes)
    ∷ ("rspamd_full=" ++ oncalendar cfg.rspamd_full_mode cfg.rspamd_full_dow cfg.rspamd_full_hour)
    ∷ []

-- `none` is the 502 where the helper fails.
unfoldable pub apply_scan_schedule : (List String → Completed) → ScanForm → Option String
apply_scan_schedule helper cfg =
    let res = helper (scan_args cfg) in
    if is_code 0 res.returncode then some (strip res.output) else none

-- `_app_update`: the head of what the helper prints, by its lines as keys with values; the last value
-- of a key counts.
abbrev pub KeyValues : Type 0
KeyValues = List (String × String)

unfoldable pub key_values : List String → KeyValues
key_values [] = []
key_values (line ∷ rest) = elim (split_at b'=' line) [
  | none ↦ key_values rest
  | some (key, value) ↦ (strip key, strip value) ∷ key_values rest
]

unfoldable pub value_of : String → KeyValues → Option String
value_of key [] = none
value_of key ((k, v) ∷ rest) = elim (value_of key rest) [
  | some later ↦ some later
  | none ↦ (if str_eq k key then some v else none)
]

-- a status of HTTP with its text, or the values
pub data AppAnswer : Type 0 where
  failed : ℕ → String → AppAnswer
  values : KeyValues → AppAnswer

-- `stdout` and `stderr` in the text of a 502 are cut by the code.
unfoldable pub app_update : Option Completed → AppAnswer
app_update none = failed 501 "Brak helpera aktualizacji aplikacji na VM2."
app_update (some res) =
    let kv = key_values res.lines in
    elim (value_of "error" kv) [
      | some text ↦ failed (if contains text "już trwa" then 409 else 400) text
      | none ↦
          (if is_code 0 res.returncode
            then values kv
            else failed 502 (if str_eq res.errors "" then res.output else res.errors))
    ]
