-- ===== src/Accounts/Login/Factors.antt =====
-- A recovery code is used up.
use mail_sync_portal.Base.{
  ℕ, ◌+◌, ◌-◌, ◌==◌, ==_refl, arith, All, sym, ◌∙◌, false, is_none, first, first-update_where,
  of_test, ◌≡◌, refl, String, true, Option, none, some, List, [], ◌∷◌, ◌++◌, subst, inl, inr,
  Bool-cases, Option-cases, ap,
}
use mail_sync_portal.Accounts.Login.{
  Factor, State, verify_recovery_code, pop, use_recovery, enter, totp_known, totp_submit,
}
use mail_sync_portal.Accounts.{AdminUser, TotpCredential, get_user, totp_of, modify_user}
use mail_sync_portal.Db.{update}

-- Where a recovery code is accepted, one stored hash that fits it goes: what stays, with that hash put
-- back at its place, is what was stored.
pub record UsedUp (lib : Factor) (code : String) (hashes left : List String) : Type 0 where
  pub earlier : List String
  pub used : String
  pub later : List String
  pub stored : hashes ≡ earlier ++ used ∷ later
  pub kept : left ≡ earlier ++ later
  pub fits : lib.verify code used ≡ true

UsedUp-later :
    (lib : Factor) (code h : String) (hs left : List String)
    → UsedUp lib code hs left
    → UsedUp lib code (h ∷ hs) (h ∷ left)
UsedUp-later lib code h hs left u = record {
  earlier = h ∷ u.earlier;
  used = u.used;
  later = u.later;
  stored = ap (λ t. h ∷ t) u.stored;
  kept = ap (λ t. h ∷ t) u.kept;
  fits = u.fits;
}

-- What the index of a recovery code says of the stored hashes.
abbrev Spent : Factor → String → List String → Option ℕ → Type 0
Spent lib code hashes none = All (λ h. lib.verify code h ≡ false) hashes
Spent lib code hashes (some i) = UsedUp lib code hashes (pop i hashes)

pop-later : (i : ℕ) (h : String) (hs : List String) → pop (i + 1) (h ∷ hs) ≡ h ∷ pop i hs
unfolding pop
pop-later i h hs = rw (later, before) refl
  where
    later : ((i + 1) == 0) ≡ false
    later = ground arith

    before : (i + 1) - 1 ≡ i
    before = omega arith

verify-Spent :
    (lib : Factor) (code : String) (hashes : List String)
    → Spent lib code hashes (verify_recovery_code lib hashes code)
unfolding verify_recovery_code
verify-Spent lib code [] = tt
verify-Spent lib code (h ∷ hs) = elim (Bool-cases (lib.verify code h)) [
  | inl e ↦
      rw (verify_recovery_code, e, Spent)
        (unfold pop in
          record { earlier = []; used = h; later = hs; stored = refl; kept = refl; fits = e })
  | inr e ↦ elim (Option-cases (verify_recovery_code lib hs code)) [
    | inl f ↦
        rw (verify_recovery_code, e, f, Spent)
          (e, subst (Spent lib code hs) f (verify-Spent lib code hs))
    | inr (i, f) ↦
        rw (verify_recovery_code, e, f, Spent)
          (subst (UsedUp lib code (h ∷ hs)) (sym (pop-later i h hs)) (
            UsedUp-later lib code h hs (pop i hs)
              (subst (Spent lib code hs) f (verify-Spent lib code hs))))
  ]
]

-- The rows of the second factor with the id of `t`, as a query finds them.
abbrev pub find_totp : TotpCredential → State → Option TotpCredential
find_totp t st = first (λ (c : TotpCredential). c.id == t.id) st.accounts.totp_credentials.rows

-- What the second step of a login does with a code: the code of the time logs the user in and keeps the
-- recovery codes; a recovery code logs the user in and is used up in the saved row; and any other code,
-- which fits no saved hash, changes nothing.
pub data Submitted (lib : Factor) (code : String) (u : AdminUser) (t : TotpCredential)
    (st st' : State) : Type 0 where
  by_time :
      lib.check_code (lib.decrypt t.secret_encrypted) code ≡ true
      → st'.session.admin_user_id ≡ some u.id
      → st'.accounts.totp_credentials ≡ st.accounts.totp_credentials
      → Submitted lib code u t st st'
  by_recovery :
      (left : List String)
      → lib.check_code (lib.decrypt t.secret_encrypted) code ≡ false
      → UsedUp lib code t.recovery_codes_hashed left
      → st'.session.admin_user_id ≡ some u.id
      → find_totp t st' ≡ some (record t { recovery_codes_hashed = left })
      → Submitted lib code u t st st'
  refused :
      lib.check_code (lib.decrypt t.secret_encrypted) code ≡ false
      → All (λ h. lib.verify code h ≡ false) t.recovery_codes_hashed
      → st' ≡ st
      → Submitted lib code u t st st'

recovery-Submitted :
    (lib : Factor) (now : ℕ) (code : String) (u : AdminUser) (t : TotpCredential) (st : State)
    (o : Option ℕ)
    → lib.check_code (lib.decrypt t.secret_encrypted) code ≡ false
    → find_totp t st ≡ some t
    → Spent lib code t.recovery_codes_hashed o
    → Submitted lib code u t st (use_recovery now u t st o)
unfolding use_recovery enter update modify_user
recovery-Submitted lib now code u t st none e found s = refused e s refl
recovery-Submitted lib now code u t st (some i) e found s =
    by_recovery (pop i t.recovery_codes_hashed) e s refl (
      first-update_where (λ (x : TotpCredential). x.id == t.id)
        (λ (x : TotpCredential). x.id == t.id)
        (λ (x : TotpCredential). record x { recovery_codes_hashed = pop i t.recovery_codes_hashed })
        st.accounts.totp_credentials.rows t (λ a. refl) found
      ∙ rw (==_refl t.id) refl)

known-Submitted :
    (lib : Factor) (now : ℕ) (code : String) (u : AdminUser) (t : TotpCredential) (st : State)
    → find_totp t st ≡ some t
    → Submitted lib code u t st (totp_known lib now code u t st)
unfolding totp_known enter modify_user
known-Submitted lib now code u t st found =
    of_test (Submitted lib code u t st) (lib.check_code (lib.decrypt t.secret_encrypted) code)
      (λ e. by_time e refl refl)
      (λ e.
        recovery-Submitted lib now code u t st
          (verify_recovery_code lib t.recovery_codes_hashed code) e found
          (verify-Spent lib code t.recovery_codes_hashed))

-- Where the pending user has a confirmed second factor, the code of the time logs the user in and keeps
-- the recovery codes; a recovery code that fits one of the saved hashes logs the user in, and exactly
-- that hash is missing in the row that is saved; any other code fits no hash and changes nothing.
pub totp_submit-Submitted :
    (lib : Factor) (now : ℕ) (code : String) (k : ℕ) (u : AdminUser) (t : TotpCredential)
    (st : State)
    → st.session.pending_totp_user_id ≡ some k
    → get_user k st.accounts ≡ some u
    → totp_of u.id st.accounts ≡ some t
    → is_none t.confirmed_at ≡ false
    → find_totp t st ≡ some t
    → Submitted lib code u t st (totp_submit lib now code st)
unfolding totp_submit
totp_submit-Submitted lib now code k u t st pending user factor confirmed found =
    simp (totp_submit, pending, user, factor, confirmed) (known-Submitted lib now code u t st found)
