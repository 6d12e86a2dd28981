-- ===== src/Tests/Accounts.antt =====
-- The theorems on accounts and recovery codes at concrete inputs.
use mail_sync_portal.Base.{
  ℕ, ◌≡◌, refl, sym, none, some, true, false, ◌==◌, [], ◌∷◌, str_eq, ap, delete_where, some_eq,
  first, update_where,
}
use mail_sync_portal.Db.{empty_table, update}
use mail_sync_portal.Accounts.{
  Accounts, TotpCredential, totp_of, modify_user, serve_all, AdminUser, Library, get_user,
  ask_deactivate, ask_delete as ask_delete_user,
}
use mail_sync_portal.Accounts.Login.{
  Factor, State, cleared, totp_submit, totp_known, use_recovery, verify_recovery_code, pop, enter,
}
use mail_sync_portal.Accounts.Login.Factors.{Submitted, find_totp, totp_submit-Submitted}
use mail_sync_portal.Accounts.Laws.{SomeActive, serve_all-SomeActive}

abbrev admin : AdminUser
admin = record {
  id = 1;
  username = "anna";
  email = "anna@example.com";
  password_hash = "hash";
  role = "admin";
  is_active = true;
  last_login_at = none;
}

abbrev panel : Accounts
panel = record {
  admin_users = record {
    rows = admin ∷ (record admin { id = 2; username = "jan" }) ∷ [];
    next_id = 3;
  };
  totp_credentials = empty_table;
  audit = [];
}

abbrev removed : ℕ → Accounts → Accounts
removed k a =
    let table = a.admin_users in
    record a {
      admin_users = record table { rows = delete_where (λ (u : AdminUser). u.id == k) table.rows };
    }

abbrev library : Library
library = record { hash = λ s. s; verify = str_eq; delete_row = λ k a. some (removed k a) }

panel_found : get_user 1 panel ≡ some admin
unfolding get_user first
panel_found = refl

serve_all-SomeActive_example :
    SomeActive
      (serve_all library ((some 1, ask_deactivate 2) ∷ (some 2, ask_delete_user 1) ∷ []) panel)
serve_all-SomeActive_example =
    serve_all-SomeActive library ((some 1, ask_deactivate 2) ∷ (some 2, ask_delete_user 1) ∷ [])
      panel
      (record {
        rows = λ k a a' e.
            ap (λ (b : Accounts). b.admin_users.rows) (sym (some_eq (removed k a) a' e));
      })
      (record { id = 1; one = record { user = admin; found = panel_found; active = refl } })

abbrev factor : Factor
factor = record {
  verify = str_eq;
  check_code = λ secret code. false;
  encrypt = λ s. s;
  decrypt = λ s. s;
  hash = λ s. s;
  fresh_secret = "secret";
  fresh_codes = "a" ∷ [];
}

abbrev enrolled : TotpCredential
enrolled = record {
  id = 7;
  admin_user_id = 1;
  secret_encrypted = "secret";
  confirmed_at = some 5;
  recovery_codes_hashed = "a" ∷ "b" ∷ "c" ∷ [];
}

-- The first administrator has typed the password.
abbrev half_way : State
half_way = record {
  session = record cleared { pending_totp_user_id = some 1 };
  accounts = record panel { totp_credentials = record { rows = enrolled ∷ []; next_id = 8 } };
}

enrolled_found : find_totp enrolled half_way ≡ some enrolled
unfolding first
enrolled_found = refl

half_way_found :
    (get_user 1 half_way.accounts ≡ some admin) × (totp_of 1 half_way.accounts ≡ some enrolled)
unfolding get_user totp_of first
half_way_found = (refl, refl)

one_left :
    find_totp enrolled (totp_submit factor 9 "b" half_way)
    ≡ some (record enrolled { recovery_codes_hashed = "a" ∷ "c" ∷ [] })
unfolding totp_submit totp_known use_recovery verify_recovery_code pop enter get_user totp_of first
    modify_user update update_where
one_left = refl

totp_submit-Submitted_example :
    Submitted factor "b" admin enrolled half_way (totp_submit factor 9 "b" half_way)
totp_submit-Submitted_example =
    totp_submit-Submitted factor 9 "b" 1 admin enrolled half_way refl half_way_found.0
      half_way_found.1 refl enrolled_found
