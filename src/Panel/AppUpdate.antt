-- ===== src/Panel/AppUpdate.antt =====
-- services/app_update.py, with `apply_app` of routers/settings_updates.py: the update of the application
-- itself, by what its helper prints. The call of VM2 is a parameter.
pub mod Laws
use Prim.Native.String.{◌++◌}
use mail_sync_portal.Base.{
  ℕ, ◌==◌, String, Bool, true, false, not, Option, none, some, List, [], ◌∷◌, ◌++◌ as append, ◌&&◌,
  ◌||◌, str_eq, is_none, is_some, or_else, if◌then◌else◌, strip,
}
use mail_sync_portal.Db.{Db}
use mail_sync_portal.Panel.Client.{Reply, accepted, http, audited}
use mail_sync_portal.SystemControl.{Completed, is_code, KeyValues, key_values, value_of, contains}

-- x or y
abbrev pub or_text : String → String → String
or_text x y = if str_eq x "" then y else x

-- x or None
abbrev pub or_none : Option String → Option String
or_none none = none
or_none (some s) = if str_eq s "" then none else some s

-- `_helper`: the values, with an error of its own where the helper fails without one; the code keeps
-- the last 500 characters of its text.
unfoldable pub helper_values : Completed → KeyValues
helper_values res =
    let kv = key_values res.lines in
    if is_code 0 res.returncode || is_some (value_of "error" kv)
    then kv
    else append kv (
        (
          "error",
          or_text (strip (or_text res.errors res.output)) "Błąd helpera aktualizacji aplikacji.",
        )
        ∷ [])

-- `start`: the text of the RuntimeError
unfoldable pub start : Completed → Option String
start res = value_of "error" (helper_values res)

-- `apply_app`
unfoldable pub apply_app : Completed → ℕ → Db → Db × Reply
apply_app res actor db = elim (start res) [
  | some text ↦ (db, http (if contains text "już trwa" then 409 else 400))
  | none ↦ (audited actor "app.update.start" none db, accepted)
]

-- The parts of the status that the page decides by.
pub record AppStatus : Type 0 where
  pub status : String
  pub phase : String
  pub unavailable : Bool
  pub finished_at : Option String
  pub error : Option String

abbrev pub is_known : String → Bool
is_known s = str_eq s "running" || (str_eq s "success" || str_eq s "failed")

abbrev pub is_ended : String → Bool
is_ended s = str_eq s "success" || str_eq s "failed"

abbrev pub is_yes : Option String → Bool
is_yes none = false
is_yes (some s) = str_eq s "yes"

abbrev pub failure_text : Option String → String
failure_text step =
    "Aktualizacja aplikacji nieudana (etap: "
    ++ (or_else "?" step ++ ") — przyczyna w wyjściu powyżej.")

-- The state and the error, by the state that the helper tells and whether the process is active.
unfoldable pub judge : String → Bool → KeyValues → String × Option String
judge state active kv =
    if str_eq state "running" && not active
    then ("failed", some "Przebieg przerwany — proces aktualizacji nie działa. Sprawdź log na VM1.")
    else if str_eq state "failed"
    then (state, some (failure_text (or_none (value_of "step" kv))))
    else elim (value_of "error" kv) [ none ↦ (state, none) | some e ↦ ("failed", some e) ]

unfoldable pub status_of : Option String → KeyValues → AppStatus
status_of none kv = record {
  status = "running";
  phase = "vm1";
  unavailable = true;
  finished_at = none;
  error = value_of "error" kv;
}
status_of (some told) kv =
    let (state, error) = judge told (is_yes (value_of "active" kv)) kv in
    record {
      status = if is_known state then state else "none";
      phase = or_else "start" (or_none (value_of "step" kv));
      unavailable = false;
      finished_at = if is_ended state then value_of "updated" kv else none;
      error = error;
    }

-- `status`
unfoldable pub app_status : Completed → AppStatus
app_status res = let kv = helper_values res in status_of (value_of "state" kv) kv
