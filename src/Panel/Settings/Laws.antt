-- ===== src/Panel/Settings/Laws.antt =====
-- The settings that are saved stay within what the scheduler and the timers take.
use mail_sync_portal.Base.{
  Option, List, [], ◌++◌ as append, ap, ◌∙◌, strip, or_else, ℕ, ◌≤◌, ◌≡◌, refl, ℤ, pos, negsuc,
  String, true, none, some, arith, of_test,
}
use mail_sync_portal.Db.{Db}
use mail_sync_portal.Imapsync.Flags.{
  Result, ok, err, validate_custom_flags, build_global_flags, option_flags, ImapsyncConfig,
}
use mail_sync_portal.Queue.Handlers.Sync.{default_config}
use mail_sync_portal.Panel.Settings.{
  ImapsyncForm, config_of, save_checked, save_imapsync, ScanForm, ScanSchedule, schedule_of, within,
  is_mode, mode_or,
}

at_most : (top : ℕ) (n : ℤ) → within top n ≤ top
at_most top (pos n) = omega arith
at_most top (negsuc n) = omega arith

mode_known : (d s : String) → is_mode d ≡ true → is_mode (mode_or d s) ≡ true
mode_known d s h = of_test (λ x. is_mode x ≡ true) (is_mode s) (λ e. e) (λ e. h)

-- What a form of the panel saves is a schedule that VM2's timers take: a day of the week, an hour of the
-- day and a mode that they know.
pub record IsSchedule (cfg : ScanSchedule) : Type 0 where
  pub clamav_dow : cfg.clamav_full_dow ≤ 6
  pub clamav_hour : cfg.clamav_full_hour ≤ 23
  pub clamav_mode : is_mode cfg.clamav_full_mode ≡ true
  pub rspamd_dow : cfg.rspamd_full_dow ≤ 6
  pub rspamd_hour : cfg.rspamd_full_hour ≤ 23
  pub rspamd_mode : is_mode cfg.rspamd_full_mode ≡ true

pub schedule_of-IsSchedule : (form : ScanForm) → IsSchedule (schedule_of form)
unfolding schedule_of
schedule_of-IsSchedule form = record {
  clamav_dow = at_most 6 form.clamav_full_dow;
  clamav_hour = at_most 23 form.clamav_full_hour;
  clamav_mode = mode_known "daily" form.clamav_full_mode refl;
  rspamd_dow = at_most 6 form.rspamd_full_dow;
  rspamd_hour = at_most 23 form.rspamd_full_hour;
  rspamd_mode = mode_known "off" form.rspamd_full_mode refl;
}

-- The global flags of a saved configuration are ones that the runs of imapsync take.
abbrev pub Builds : Option ImapsyncConfig → Type 0
Builds none = Unit
Builds (some cfg) = (argv : List String) × (build_global_flags cfg ≡ ok argv)

config-Builds :
    (cfg : ImapsyncConfig) (r : Result (List String))
    → validate_custom_flags cfg.custom_flags ≡ r
    → (argv : List String) → r ≡ ok argv
    → Builds (some cfg)
unfolding build_global_flags
config-Builds cfg r e argv q = (append (option_flags cfg) argv, rw (build_global_flags, e ∙ q) refl)

default-Builds :
    (cfg : Option ImapsyncConfig) → Builds cfg → Builds (some (or_else default_config cfg))
default-Builds none h =
    config-Builds default_config (ok []) (unfold validate_custom_flags in refl) [] refl
default-Builds (some cfg) h = h

checked-Builds :
    (actor : ℕ) (form : ImapsyncForm) (db : Db) (cfg : Option ImapsyncConfig)
    (r : Result (List String))
    → validate_custom_flags form.custom_flags ≡ r
    → strip form.custom_flags ≡ form.custom_flags
    → Builds cfg
    → Builds (save_checked actor form db cfg r).1
unfolding save_checked
checked-Builds actor form db cfg (err e) v s h = default-Builds cfg h
checked-Builds actor form db cfg (ok argv) v s h =
    config-Builds (config_of form) (ok argv) (ap validate_custom_flags s ∙ v) argv refl

-- Custom flags without white space at their ends are saved only where imapsync's global flags can be
-- built with them; a configuration that could be built before can be built after the request.
pub save_imapsync-Builds :
    (actor : ℕ) (form : ImapsyncForm) (db : Db) (cfg : Option ImapsyncConfig)
    → strip form.custom_flags ≡ form.custom_flags
    → Builds cfg
    → Builds (save_imapsync actor form db cfg).1
unfolding save_imapsync
save_imapsync-Builds actor form db cfg s h =
    checked-Builds actor form db cfg (validate_custom_flags form.custom_flags) refl s h
