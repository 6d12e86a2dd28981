-- ===== src/Accounts/Laws.antt =====
-- Nobody can lock the administrators out.
use mathlib.Core.Bool.{false≢true}
use mail_sync_portal.Base.{
  ℕ, ◌==◌, ==→eq, ==_refl, ==_ne, ◌≡◌, refl, sym, ◌∙◌, ap, String, Bool, true, false, Option, none,
  some, List, [], ◌∷◌, first, any, delete_where, Bool-cases, Option-cases, first-append,
  first-delete_apart, first-In, first-update_where, inl, inr, arith, some_eq, str_eq, if◌then◌else◌,
}
use mail_sync_portal.Db.{insert, update}
use mail_sync_portal.Accounts.{
  AdminUser, Accounts, get_user, totp_of, modify_user, require_login, new_user, create_user,
  check_password, change_password, set_active, deactivate_user, activate_user, refuse_delete,
  delete_user, reset_totp, own_account, Request, ask_create, ask_password, ask_deactivate,
  ask_activate, ask_delete, ask_reset, Library, or_rollback, answer, serve, serve_all,
}

-- The account is there and active.
pub record IsActive (k : ℕ) (a : Accounts) : Type 0 where
  pub user : AdminUser
  pub found : get_user k a ≡ some user
  pub active : user.is_active ≡ true

-- Where the mapper deletes an account, the row is gone and the other accounts stay.
pub record Deletes (delete_row : ℕ → Accounts → Option Accounts) : Type 0 where
  pub rows :
      (k : ℕ) (a a' : Accounts)
      → delete_row k a ≡ some a'
      → a'.admin_users.rows ≡ delete_where (λ (u : AdminUser). u.id == k) a.admin_users.rows

first-delete_where :
    {A : Type 0} (p q : A → Bool) (xs : List A) (x : A)
    → ((a : A) → p a ≡ true → q a ≡ false)
    → first p xs ≡ some x
    → first p (delete_where q xs) ≡ some x
unfolding first delete_where
first-delete_where p q [] x apart e = absurd (ground arith)
first-delete_where p q (a ∷ xs) x apart e = elim (Bool-cases (p a)) [
  | inl h ↦ rw (apart a h, h) (rw h at e)
  | inr h ↦ elim (Bool-cases (q a)) [
    | inl g ↦ rw g (first-delete_where p q xs x apart (rw h at e))
    | inr g ↦ rw (g, h) (first-delete_where p q xs x apart (rw h at e))
  ]
]

get-id : (k : ℕ) (a : Accounts) (u : AdminUser) → get_user k a ≡ some u → u.id ≡ k
get-id k a u e =
    ==→eq u.id k
      (first-In (λ (v : AdminUser). v.id == k) a.admin_users.rows u (unfold get_user in e)).1

-- A change of an account that keeps its id, and keeps it active if it is the account `k`.
modify-IsActive :
    (k j : ℕ) (f : AdminUser → AdminUser) (a : Accounts)
    → ((u : AdminUser) → (f u).id ≡ u.id)
    → ((u : AdminUser)
        → u.id ≡ k
        → u.is_active ≡ true
        → (u.id == j) ≡ true
        → (f u).is_active ≡ true)
    → IsActive k a
    → IsActive k (modify_user j f a)
modify-IsActive k j f a keep_id keep_active l =
    let u = l.user in
    record {
      user = if u.id == j then f u else u;
      found =
          unfold get_user modify_user update in
          first-update_where (λ (v : AdminUser). v.id == k) (λ (v : AdminUser). v.id == j) f
            a.admin_users.rows u (λ v. ap (λ i. i == k) (keep_id v)) (unfold get_user in l.found);
      active = elim (Bool-cases (u.id == j)) [
        | inl h ↦ rw h (keep_active u (get-id k a u l.found) l.active h)
        | inr h ↦ rw h l.active
      ];
    }

-- The audit does not touch the accounts.
same_rows :
    (k : ℕ) (a b : Accounts) → a.admin_users.rows ≡ b.admin_users.rows → IsActive k a → IsActive k b
same_rows k a b e l = record {
  user = l.user;
  found =
      unfold get_user in
      (ap (first (λ (v : AdminUser). v.id == k)) (sym e) ∙ unfold get_user in l.found);
  active = l.active;
}

create-IsActive :
    (k : ℕ) (username email hash : String) (current : ℕ) (a : Accounts)
    → IsActive k a
    → IsActive k (or_rollback a (create_user username email hash current a))
unfolding create_user insert
create-IsActive k username email hash current a l =
    elim (Bool-cases (any (λ (u : AdminUser). str_eq u.username username) a.admin_users.rows)) [
      | inl e ↦ rw (e, or_rollback) l
      | inr e ↦
          let there : first (λ (v : AdminUser). v.id == k) a.admin_users.rows ≡ some l.user =
            (unfold get_user in l.found) in
          rw (e, or_rollback)
            (record {
              user = l.user;
              found =
                  unfold get_user in
                  rw
                    (
                      first-append (λ (v : AdminUser). v.id == k) a.admin_users.rows
                          (new_user username email hash a.admin_users.next_id ∷ []),
                      there,
                    )
                    refl;
              active = l.active;
            })
    ]

password-IsActive :
    (k : ℕ) (hash : String → String) (verify : String → String → Bool) (current : AdminUser)
    (old new new2 : String) (a : Accounts)
    → IsActive k a
    → IsActive k (change_password hash verify current old new new2 a).0
unfolding change_password
password-IsActive k hash verify current old new new2 a l =
    elim (Option-cases (check_password verify current old new new2)) [
      | inl e ↦
          rw (e, change_password)
            (same_rows k
              (modify_user current.id (λ (u : AdminUser). record u { password_hash = hash new }) a)
              _ refl (modify-IsActive k current.id _ a (λ u. refl) (λ u i h q. h) l))
      | inr (x, e) ↦ rw (e, change_password) l
    ]

deactivate-IsActive : (k j : ℕ) (a : Accounts) → IsActive k a → IsActive k (deactivate_user k j a)
unfolding deactivate_user
deactivate-IsActive k j a l = elim (Option-cases (get_user j a)) [
  | inl e ↦ rw (e, deactivate_user) l
  | inr (u, e) ↦ elim (Bool-cases (u.id == k)) [
    | inl h ↦ rw (e, deactivate_user, h) l
    | inr h ↦
        rw (e, deactivate_user, h)
          (same_rows k (modify_user j (set_active false) a) _ refl (
            modify-IsActive k j (set_active false) a (λ v. refl)
              (λ v i active q. absurd (apart u v e h i q)) l))
  ]
]
  where
    apart :
        (u v : AdminUser)
        → get_user j a ≡ some u
        → (u.id == k) ≡ false
        → v.id ≡ k
        → (v.id == j) ≡ true
        → ⊥
    apart u v e h i q =
        let uj = get-id j a u e in
        let vj = ==→eq v.id j q in
        false≢true (sym h ∙ ap (λ n. n == k) (uj ∙ sym vj ∙ i) ∙ ==_refl k)

activate-IsActive :
    (k j current : ℕ) (a : Accounts) → IsActive k a → IsActive k (activate_user current j a)
unfolding activate_user
activate-IsActive k j current a l = elim (Option-cases (get_user j a)) [
  | inl e ↦ rw (e, activate_user) l
  | inr (u, e) ↦ elim (Bool-cases u.is_active) [
    | inl h ↦ rw (e, activate_user, h) l
    | inr h ↦
        rw (e, activate_user, h)
          (same_rows k (modify_user j (set_active true) a) _ refl
            (modify-IsActive k j (set_active true) a (λ v. refl) (λ v i active q. refl) l))
  ]
]

reset-IsActive :
    (k j current : ℕ) (a : Accounts) → IsActive k a → IsActive k (reset_totp current j a)
unfolding reset_totp
reset-IsActive k j current a l = elim (Option-cases (get_user j a)) [
  | inl e ↦ rw (e, reset_totp) l
  | inr (u, e) ↦ elim (Option-cases (totp_of j a)) [
    | inl g ↦ rw (e, reset_totp, g) l
    | inr (t, g) ↦ rw (e, reset_totp, g) (same_rows k a _ refl l)
  ]
]

other_user :
    (k : ℕ) (u : AdminUser) (a : Accounts) → refuse_delete k u a ≡ none → (u.id == k) ≡ false
unfolding refuse_delete
other_user k u a f = elim (Bool-cases (u.id == k)) [
  | inl h ↦ (let bad : some own_account ≡ none = (rw h at f) in absurd (ground arith))
  | inr h ↦ h
]

delete-IsActive :
    (k j : ℕ) (delete_row : ℕ → Accounts → Option Accounts) (a : Accounts)
    → Deletes delete_row
    → IsActive k a
    → IsActive k (or_rollback a (delete_user delete_row k j a))
unfolding delete_user
delete-IsActive k j delete_row a law l = elim (Option-cases (get_user j a)) [
  | inl e ↦ rw (e, delete_user, or_rollback) l
  | inr (u, e) ↦ elim (Option-cases (refuse_delete k u a)) [
    | inr (x, f) ↦ rw (e, delete_user, f, or_rollback) l
    | inl f ↦ elim (Option-cases (delete_row j a)) [
      | inl g ↦ rw (e, delete_user, f, g, or_rollback) l
      | inr (a', g) ↦
          rw (e, delete_user, f, g, or_rollback) (same_rows k a' _ refl (stays u a' e f g))
    ]
  ]
]
  where
    stays :
        (u : AdminUser) (a' : Accounts)
        → get_user j a ≡ some u
        → refuse_delete k u a ≡ none
        → delete_row j a ≡ some a'
        → IsActive k a'
    stays u a' e f g = record {
      user = l.user;
      found =
          unfold get_user in
          (ap (first (λ (v : AdminUser). v.id == k)) (law.rows j a a' g)
            ∙ first-delete_apart (λ (v : AdminUser). v.id == k) (λ (v : AdminUser). v.id == j)
                a.admin_users.rows
                (λ v h. ==_ne v.id j λ q.
                  false≢true
                    (sym (other_user k u a f) ∙ ap (λ n. n == k) (get-id j a u e ∙ sym q) ∙ h))
            ∙ (unfold get_user in l.found));
      active = l.active;
    }

answer-IsActive :
    (lib : Library) (current : AdminUser) (r : Request) (a : Accounts)
    → Deletes lib.delete_row
    → IsActive current.id a
    → IsActive current.id (answer lib current r a)
unfolding answer
answer-IsActive lib u (ask_create name email password) a law l =
    create-IsActive u.id name email (lib.hash password) u.id a l
answer-IsActive lib u (ask_password old new new2) a law l =
    password-IsActive u.id lib.hash lib.verify u old new new2 a l
answer-IsActive lib u (ask_deactivate k) a law l = deactivate-IsActive u.id k a l
answer-IsActive lib u (ask_activate k) a law l = activate-IsActive u.id k u.id a l
answer-IsActive lib u (ask_delete k) a law l = delete-IsActive u.id k lib.delete_row a law l
answer-IsActive lib u (ask_reset k) a law l = reset-IsActive u.id k u.id a l

-- Some administrator is active.
pub record SomeActive (a : Accounts) : Type 0 where
  pub id : ℕ
  pub one : IsActive id a

chosen : (b : Bool) (v u : AdminUser) → b ≡ true → (if b then some v else none) ≡ some u → v ≡ u
chosen true v u h e = some_eq v u e
chosen false v u h e = absurd (false≢true h)

login-IsActive :
    (session : Option ℕ) (a : Accounts) (u : AdminUser)
    → require_login session a ≡ some u
    → IsActive u.id a
unfolding require_login
login-IsActive none a u e = absurd (ground arith)
login-IsActive (some k) a u e = elim (Option-cases (get_user k a)) [
  | inl f ↦ (let bad : none ≡ some u = (rw (f, require_login) at e) in absurd (ground arith))
  | inr (v, f) ↦ elim (Bool-cases v.is_active) [
    | inr h ↦ (let bad : none ≡ some u = (rw (f, require_login, h) at e) in absurd (ground arith))
    | inl h ↦
        let kept : (if v.is_active then some v else none) ≡ some u = (rw (f, require_login) at e) in
        let same = chosen v.is_active v u h kept in
        let there : get_user k a ≡ some u = f ∙ ap some same in
        let kid = get-id k a u there in
        record {
          user = u;
          found = ap (λ i. get_user i a) kid ∙ there;
          active = ap (λ (w : AdminUser). w.is_active) (sym same) ∙ h;
        }
  ]
]

serve-SomeActive :
    (lib : Library) (session : Option ℕ) (r : Request) (a : Accounts)
    → Deletes lib.delete_row
    → SomeActive a
    → SomeActive (serve lib session r a)
unfolding serve
serve-SomeActive lib session r a law s = elim (Option-cases (require_login session a)) [
  | inl e ↦ rw (e, serve) s
  | inr (u, e) ↦
      rw (e, serve)
        (record { id = u.id; one = answer-IsActive lib u r a law (login-IsActive session a u e) })
]

-- Whatever requests the administrators send, in any order and from any sessions, some administrator
-- stays active, where one was.
pub serve_all-SomeActive :
    (lib : Library) (rs : List (Option ℕ × Request)) (a : Accounts)
    → Deletes lib.delete_row
    → SomeActive a
    → SomeActive (serve_all lib rs a)
unfolding serve_all
serve_all-SomeActive lib [] a law s = s
serve_all-SomeActive lib ((session, r) ∷ rs) a law s =
    serve_all-SomeActive lib rs (serve lib session r a) law (serve-SomeActive lib session r a law s)
