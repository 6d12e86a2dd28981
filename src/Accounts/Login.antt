-- ===== src/Accounts/Login.antt =====
-- routers/auth.py: the login in two steps, over the session and the accounts. The one-time codes, their
-- cipher and the generators are library code: parameters.
pub mod Factors
use mail_sync_portal.Base.{
  ℕ, ◌+◌, ◌-◌, ◌==◌, String, Bool, true, false, not, Option, none, some, List, [], ◌∷◌, ◌++◌, ◌&&◌,
  ◌||◌, str_eq, first, any, if◌then◌else◌, is_none, map,
}
use mail_sync_portal.Db.{Table, insert, update, AuditCall}
use mail_sync_portal.Accounts.{AdminUser, TotpCredential, Accounts, get_user, totp_of, modify_user}

-- the keys of `request.session`
pub record Session : Type 0 where
  pub pending_totp_user_id : Option ℕ
  pub pending_totp_enroll_secret : Option String
  pub pending_recovery_codes : Option (List String)
  pub admin_user_id : Option ℕ

abbrev pub cleared : Session
cleared = record {
  pending_totp_user_id = none;
  pending_totp_enroll_secret = none;
  pending_recovery_codes = none;
  admin_user_id = none;
}

pub record State : Type 0 where
  pub session : Session
  pub accounts : Accounts

pub record Factor : Type 0 where
  pub verify : String → String → Bool
  pub check_code : String → String → Bool
  pub encrypt : String → String
  pub decrypt : String → String
  pub hash : String → String
  pub fresh_secret : String
  pub fresh_codes : List String

abbrev pub clear : State → State
clear st = record st { session = cleared }

abbrev pub audited : ℕ → String → Accounts → Accounts
audited actor action a = record a {
  audit =
      a.audit
      ++ (record { actor_admin_user_id = some actor; action = action; target_id = none }) ∷ [];
}

unfoldable pub login_submit : Factor → String → String → State → State
login_submit lib username password st =
    elim (first (λ (u : AdminUser). str_eq u.username username && u.is_active)
      st.accounts.admin_users.rows) [
        | none ↦ st
        | some u ↦
            (if lib.verify password u.password_hash
              then record st { session = record (st.session) { pending_totp_user_id = some u.id } }
              else st)
      ]

-- GET /admin/login/totp-enroll/qr: the secret is made once.
unfoldable pub enroll_qr : Factor → State → State
enroll_qr lib st = elim (st.session.pending_totp_user_id) [
  | none ↦ st
  | some k ↦ elim (st.session.pending_totp_enroll_secret) [
    | some secret ↦ st
    | none ↦ record st {
      session = record (st.session) { pending_totp_enroll_secret = some lib.fresh_secret };
    }
  ]
]

abbrev pub new_totp : Factor → ℕ → ℕ → String → ℕ → TotpCredential
new_totp lib now user_id secret id = record {
  id = id;
  admin_user_id = user_id;
  secret_encrypted = lib.encrypt secret;
  confirmed_at = some now;
  recovery_codes_hashed = map lib.hash lib.fresh_codes;
}

-- The column `admin_user_id` is unique: where the user has a row, the commit raises, and neither the
-- tables nor the session change.
unfoldable pub enroll_known : Factor → ℕ → String → String → AdminUser → State → State
enroll_known lib now code secret u st =
    if not (lib.check_code secret code) then st else elim (totp_of u.id st.accounts) [
      | some t ↦ st
      | none ↦ record {
        session = record (st.session) {
          pending_totp_enroll_secret = none;
          pending_recovery_codes = some lib.fresh_codes;
        };
        accounts = record (st.accounts) {
          totp_credentials = insert (new_totp lib now u.id secret) st.accounts.totp_credentials;
        };
      }
    ]

unfoldable pub enroll_submit : Factor → ℕ → String → State → State
enroll_submit lib now code st = elim (st.session.pending_totp_user_id) [
  | none ↦ st
  | some k ↦ elim (st.session.pending_totp_enroll_secret) [
    | none ↦ st
    | some secret ↦ elim (get_user k st.accounts) [
      | none ↦ clear st
      | some u ↦ enroll_known lib now code secret u st
    ]
  ]
]

-- The user is logged in: the end of both second steps.
unfoldable pub enter : ℕ → ℕ → String → State → State
enter now k action st = record {
  session = record (st.session) { pending_totp_user_id = none; admin_user_id = some k };
  accounts =
      audited k action
        (modify_user k (λ (u : AdminUser). record u { last_login_at = some now }) st.accounts);
}

-- GET …/recovery-codes: the codes are shown once, and the login is complete. A user that is gone raises.
unfoldable pub recovery_codes : ℕ → State → State
recovery_codes now st = elim (st.session.pending_recovery_codes) [
  | none ↦ st
  | some codes ↦
      let popped = record st { session = record (st.session) { pending_recovery_codes = none } } in
      elim (st.session.pending_totp_user_id) [
        | none ↦ popped
        | some k ↦ elim (get_user k st.accounts) [
          | none ↦ st
          | some u ↦ enter now u.id "auth.totp_enrolled" popped
        ]
      ]
]

-- services/totp_service.py, `verify_recovery_code`: the index of the first hash that fits
unfoldable pub verify_recovery_code : Factor → List String → String → Option ℕ
verify_recovery_code lib [] code = none
verify_recovery_code lib (h ∷ hs) code =
    let rest = verify_recovery_code lib hs code in
    if lib.verify code h then some 0 else elim rest [ none ↦ none | some i ↦ some (i + 1) ]

-- `remaining.pop(index)`; the index of a code is never past the list, where it would raise.
unfoldable pub pop : ℕ → List String → List String
pop i [] = []
pop i (h ∷ hs) = let rest = pop (i - 1) hs in if i == 0 then hs else h ∷ rest

-- The end of the second step with a recovery code, by its index: the code is taken out of the row.
unfoldable pub use_recovery : ℕ → AdminUser → TotpCredential → State → Option ℕ → State
use_recovery now u t st none = st
use_recovery now u t st (some i) = enter now u.id "auth.login_success" (record st {
  accounts = record (st.accounts) {
    totp_credentials =
        update (λ (c : TotpCredential). c.id == t.id)
          (λ (c : TotpCredential). record c {
            recovery_codes_hashed = pop i t.recovery_codes_hashed;
          })
          st.accounts.totp_credentials;
  };
})

unfoldable pub totp_known : Factor → ℕ → String → AdminUser → TotpCredential → State → State
totp_known lib now code u t st =
    if lib.check_code (lib.decrypt t.secret_encrypted) code
    then enter now u.id "auth.login_success" st
    else use_recovery now u t st (verify_recovery_code lib t.recovery_codes_hashed code)

unfoldable pub totp_submit : Factor → ℕ → String → State → State
totp_submit lib now code st = elim (st.session.pending_totp_user_id) [
  | none ↦ st
  | some k ↦ elim (get_user k st.accounts) [
    | none ↦ clear st
    | some u ↦ elim (totp_of u.id st.accounts) [
      | none ↦ clear st
      | some t ↦ (if is_none t.confirmed_at then clear st else totp_known lib now code u t st)
    ]
  ]
]

unfoldable pub logout : State → State
logout st = elim (st.session.admin_user_id) [
  | none ↦ clear st
  | some k ↦ record { session = cleared; accounts = audited k "auth.logout" st.accounts }
]
