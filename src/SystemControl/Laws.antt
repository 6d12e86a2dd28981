-- ===== src/SystemControl/Laws.antt =====
-- What VM2 promises about its updates and its scans.
use Prim.Native.String.{◌++◌}
use mail_sync_portal.Base.{
  ℕ, zero, suc, ◌+◌, ◌<◌, sym, ap, subst, ltb, ltb→lt, ==→eq, eq_iff, &&_left, &&_right, ◌&&◌, List,
  ◌≤◌, ◌≡◌, ◌⊎◌, refl, inl, inr, max, min, ◌%◌, ◌==◌, pos, String, Bool, true, false, none, some,
  [], ◌∷◌, arith, show_ℕ, str_eq, Bool-cases, if◌then◌else◌,
}
use mail_sync_portal.Panel.Settings.{ScanForm, ScanSchedule, schedule_of}
use mail_sync_portal.Panel.Settings.Laws.{schedule_of-IsSchedule}
use mail_sync_portal.SystemControl.{
  Completed, is_code, contains, Updated, two_digits, Tools, Tokens, UpdateAnswer, crashed,
  dnf_failed, updated, day_name, oncalendar, interval_arg, scan_args,
}

-- What goes with an update that needs a restart, and with one that needs none.
abbrev WithToken : Tools → Tokens → Updated → Tokens → Type 0
WithToken tools tokens u tokens' =
    (u.reboot_needed ≡ true)
      × (u.reboot_confirm_token ≡ some tools.fresh_token)
      × (tokens' ≡ (tools.fresh_token, tools.now + tools.confirm_ttl) ∷ tokens)
    ⊎ (u.reboot_needed ≡ false) × (u.reboot_confirm_token ≡ none) × (tokens' ≡ tokens)

-- The answer to an update and the tokens that wait after it, by what the run of `dnf` leaves.
abbrev pub Issued : Tools → Bool → Tokens → UpdateAnswer × Tokens → Type 0
Issued tools security_only tokens (crashed, tokens') =
    (tools.dnf security_only ≡ none) × (tokens' ≡ tokens)
Issued tools security_only tokens (dnf_failed log text, tokens') =
    (res : Completed) × (tools.dnf security_only ≡ some res)
    × (is_code 0 res.returncode ≡ false)
    × (tokens' ≡ tokens)
Issued tools security_only tokens (updated u, tokens') =
    (res : Completed) × (tools.dnf security_only ≡ some res)
    × (is_code 0 res.returncode ≡ true)
    × (u.reboot_needed ≡ contains tools.reboot_check "reboot_needed=yes")
    × WithToken tools tokens u tokens'

-- what the panel sends of a saved schedule
abbrev pub request_of : ScanSchedule → ScanForm
request_of cfg = record {
  clamav_incremental_minutes = pos cfg.clamav_incremental_minutes;
  clamav_full_mode = cfg.clamav_full_mode;
  clamav_full_dow = pos cfg.clamav_full_dow;
  clamav_full_hour = pos cfg.clamav_full_hour;
  rspamd_incremental_minutes = pos cfg.rspamd_incremental_minutes;
  rspamd_full_mode = cfg.rspamd_full_mode;
  rspamd_full_dow = pos cfg.rspamd_full_dow;
  rspamd_full_hour = pos cfg.rspamd_full_hour;
}

-- The days and the hours of a calendar of systemd, in their order.
abbrev week : List String
week = "Mon" ∷ "Tue" ∷ "Wed" ∷ "Thu" ∷ "Fri" ∷ "Sat" ∷ "Sun" ∷ []

abbrev hours : List String
hours =
    "00" ∷ "01" ∷ "02" ∷ "03" ∷ "04" ∷ "05" ∷ "06" ∷ "07" ∷ "08" ∷ "09" ∷ "10" ∷ "11" ∷ "12" ∷ "13"
    ∷ "14" ∷ "15" ∷ "16" ∷ "17" ∷ "18" ∷ "19" ∷ "20" ∷ "21" ∷ "22" ∷ "23" ∷ []

entry : ℕ → List String → String
entry n [] = ""
entry zero (x ∷ xs) = x
entry (suc n) (x ∷ xs) = entry n xs

-- The time of a timer as a schedule says it: every day, or every week on its day, at its hour.
unfoldable pub calendar : String → ℕ → ℕ → String
unfolding entry
calendar mode dow hour =
    let time = "*-*-* " ++ (entry hour hours ++ ":00:00") in
    if str_eq mode "daily"
    then time
    else if str_eq mode "weekly"
    then entry dow week ++ (" " ++ time)
    else "off"

-- An interval in minutes as VM2 takes it: none for 0, at least 5 and at most 1440.
unfoldable pub every : ℕ → String
every minutes =
    if minutes == 0
    then "off"
    else if ltb minutes 5
    then "5"
    else if ltb 1440 minutes
    then "1440"
    else show_ℕ minutes

-- Two tables that agree below a bound.
agree : ℕ → (ℕ → String) → (ℕ → String) → Bool
agree zero f g = true
agree (suc n) f g = str_eq (f n) (g n) && agree n f g

agree-below : (n : ℕ) (f g : ℕ → String) → agree n f g ≡ true → (k : ℕ) → k < n → f k ≡ g k
unfolding agree
agree-below zero f g e k lt = absurd (omega (arith, lt))
agree-below (suc n) f g e k lt = elim (Bool-cases (k == n)) [
  | inl h ↦ subst (λ i. f i ≡ g i) (sym (==→eq k n h)) ((eq_iff (f n) (g n)).0 (&&_left _ _ e))
  | inr h ↦ agree-below n f g (&&_right _ _ e) k (ground arith)
]

day_name-entry : (dow : ℕ) → dow < 7 → day_name dow ≡ entry dow week
unfolding agree entry
day_name-entry = agree-below 7 day_name (λ n. entry n week) refl

two_digits-entry : (hour : ℕ) → hour < 24 → two_digits hour ≡ entry hour hours
unfolding agree entry show_ℕ
two_digits-entry = agree-below 24 two_digits (λ n. entry n hours) refl

oncalendar-within :
    (mode : String) (dow hour : ℕ)
    → dow ≤ 6
    → hour ≤ 23
    → oncalendar mode (pos dow) (pos hour) ≡ calendar mode dow hour
unfolding oncalendar calendar
oncalendar-within mode dow hour d h =
    rw
      (
        same_hour,
        same_day,
        day_name-entry dow (omega (arith, d)),
        two_digits-entry hour (omega (arith, h)),
      )
      refl
  where
    same_hour : min 23 hour ≡ hour
    same_hour = omega (arith, h)

    same_day : dow % 7 ≡ dow
    same_day = omega (arith, d)

raised : (n : ℕ) → ltb n 5 ≡ true → max 5 (min 1440 n) ≡ 5
raised n e = (let lt = ltb→lt n 5 e in omega (arith, lt))

lowered : (n : ℕ) → ltb 1440 n ≡ true → max 5 (min 1440 n) ≡ 1440
lowered n e = (let lt = ltb→lt 1440 n e in omega (arith, lt))

not_less : (m n : ℕ) → ltb m n ≡ false → n ≤ m
not_less m n e = ground arith

kept : (n : ℕ) → ltb n 5 ≡ false → ltb 1440 n ≡ false → max 5 (min 1440 n) ≡ n
kept n e f = omega (arith, not_less n 5 e, not_less 1440 n f)

interval_arg-every : (minutes : ℕ) → interval_arg (pos minutes) ≡ every minutes
unfolding interval_arg every show_ℕ
interval_arg-every n = elim (Bool-cases (n == 0)) [
  | inl e ↦ rw e refl
  | inr e ↦ elim (Bool-cases (ltb n 5)) [
    | inl f ↦ rw (e, f) (ap show_ℕ (raised n f))
    | inr f ↦ elim (Bool-cases (ltb 1440 n)) [
      | inl g ↦ rw (e, f, g) (ap show_ℕ (lowered n g))
      | inr g ↦ rw (e, f, g) (ap show_ℕ (kept n f g))
    ]
  ]
]

-- VM2's timers are given what the saved schedule says: its hour and its day, by their names in a
-- calendar of systemd, and its interval, which VM2 raises to 5 minutes and lowers to 1440.
pub scan_args-schedule_of :
    (form : ScanForm)
    → let cfg = schedule_of form in
      scan_args (request_of cfg)
      ≡ ("clamav_inc=" ++ every cfg.clamav_incremental_minutes)
        ∷ ("clamav_full=" ++ calendar cfg.clamav_full_mode cfg.clamav_full_dow cfg.clamav_full_hour)
        ∷ ("rspamd_inc=" ++ every cfg.rspamd_incremental_minutes)
        ∷ ("rspamd_full=" ++ calendar cfg.rspamd_full_mode cfg.rspamd_full_dow cfg.rspamd_full_hour)
        ∷ []
unfolding scan_args
scan_args-schedule_of form =
    let cfg = schedule_of form in
    let k = schedule_of-IsSchedule form in
    rw
      (
        interval_arg-every cfg.clamav_incremental_minutes,
        interval_arg-every cfg.rspamd_incremental_minutes,
        oncalendar-within cfg.clamav_full_mode cfg.clamav_full_dow cfg.clamav_full_hour k.clamav_dow
            k.clamav_hour,
        oncalendar-within cfg.rspamd_full_mode cfg.rspamd_full_dow cfg.rspamd_full_hour k.rspamd_dow
            k.rspamd_hour,
      )
      refl
