-- ===== src/Panel/AppUpdate/Laws.antt =====
-- What the page says of an update of the application.
use mail_sync_portal.Base.{
  ◌≡◌, refl, String, Bool, true, false, not, Option, none, some, ◌&&◌, ◌||◌, str_eq, arith, is_some,
  of_test, of_option, if◌then◌else◌,
}
use mail_sync_portal.SystemControl.{Completed, KeyValues, value_of}
use mail_sync_portal.Panel.AppUpdate.{
  AppStatus, judge, status_of, app_status, helper_values, is_known, is_ended, is_yes,
}

-- What a status may say: an error goes with a failure, and a failure with an error; a run that goes on
-- has an active process or an answer of the helper that did not come.
pub record IsHonest (s : AppStatus) (active : Bool) : Type 0 where
  pub failed : str_eq s.status "failed" ≡ true → is_some s.error ≡ true
  pub goes_on : str_eq s.status "running" ≡ true → (s.unavailable || active) ≡ true
  pub ended : is_some s.finished_at ≡ true → is_ended s.status ≡ true

-- The state and the error that go together.
abbrev Judged : Bool → String × Option String → Type 0
Judged active (state, error) =
    (str_eq state "failed" ≡ true → is_some error ≡ true)
    × (str_eq state "running" ≡ true → active ≡ true)

still_active : (a b : Bool) → (a && not b) ≡ false → a ≡ true → b ≡ true
still_active a b e h = ground arith

other_state : (a : Bool) {P : Type 0} → a ≡ false → a ≡ true → P
other_state a e h = absurd (ground arith)

judge-Judged :
    (state : String) (active : Bool) (kv : KeyValues) → Judged active (judge state active kv)
unfolding judge
judge-Judged state active kv =
    let P = Judged active in
    let on = still_active (str_eq state "running") active in
    of_test P (str_eq state "running" && not active)
      (λ e. ((λ f. refl), (λ f. absurd (ground arith))))
      (λ e.
        of_test P (str_eq state "failed") (λ f. ((λ g. refl), on e))
          (λ f.
            of_option P (value_of "error" kv) (other_state (str_eq state "failed") f, on e)
              (λ text. ((λ g. refl), (λ g. absurd (ground arith))))))

shown-ended :
    (state : String)
    → is_ended state ≡ true
    → is_ended (if is_known state then state else "none") ≡ true
shown-ended state e =
    of_test (λ s. is_ended s ≡ true) (is_known state) (λ k. e) (λ k. absurd (ground arith))

status_of-IsHonest :
    (told : Option String) (kv : KeyValues)
    → IsHonest (status_of told kv) (is_yes (value_of "active" kv))
unfolding status_of
status_of-IsHonest none kv = record {
  failed = λ e. absurd (ground arith);
  goes_on = λ e. refl;
  ended = λ e. absurd (ground arith);
}
status_of-IsHonest (some told) kv =
    let active = is_yes (value_of "active" kv) in
    let state = (judge told active kv).0 in
    let error = (judge told active kv).1 in
    let j = judge-Judged told active kv in
    let nothing_told = λ (k : is_ended state ≡ false) (e : is_some {A = String} none ≡ true).
      absurd {A = is_ended (if is_known state then state else "none") ≡ true} (ground arith) in
    record {
      failed =
          of_test (λ s. str_eq s "failed" ≡ true → is_some error ≡ true) (is_known state) (λ k. j.0)
            (λ k e. absurd (ground arith));
      goes_on =
          of_test (λ s. str_eq s "running" ≡ true → active ≡ true) (is_known state) (λ k. j.1)
            (λ k e. absurd (ground arith));
      ended =
          of_test
            (λ (o : Option String).
              is_some o ≡ true → is_ended (if is_known state then state else "none") ≡ true)
            (is_ended state) (λ k e. shown-ended state k) nothing_told;
    }

-- The status of an update of the application names an error where it failed, says that it goes on only
-- while its process is active or the helper gave no state, and tells an end only of a run that ended.
pub app_status-IsHonest :
    (res : Completed) → IsHonest (app_status res) (is_yes (value_of "active" (helper_values res)))
unfolding app_status
app_status-IsHonest res =
    status_of-IsHonest (value_of "state" (helper_values res)) (helper_values res)
