-- ===== src/Panel/Updates/Laws.antt =====
-- At most one running update of a machine.
use mail_sync_portal.Base.{
  ℕ, ◌+◌, ◌<◌, ap, ◌≡◌, refl, sym, max, String, Bool, true, false, none, some, List, [], ◌∷◌, ◌++◌,
  inl, inr, arith, ◌&&◌, str_eq, count_where, Bool-cases, Option-cases, if◌then◌else◌, In, of_found,
  eq_iff, some_eq, subst, ◌∙◌,
}
use mail_sync_portal.Db.{Db, UpdateRun, insert}
use mail_sync_portal.Panel.Client.{audited}
use mail_sync_portal.Panel.Mailboxes.{Asking}
use mail_sync_portal.Panel.Updates.{
  is_running_on, last, running_run, mode_for, new_run, enqueue_update, start_run,
}

-- How many updates of a machine run.
pub running_count : String → Db → ℕ
running_count host db = count_where (is_running_on host) db.system_update_runs.rows

last-none : {A : Type 0} (p : A → Bool) (xs : List A) → last p xs ≡ none → count_where p xs ≡ 0
unfolding last count_where
last-none p [] e = refl
last-none p (x ∷ xs) e = elim (Option-cases (last p xs)) [
  | inl f ↦ elim (Bool-cases (p x)) [
    | inl g ↦ (let bad : some x ≡ none = (rw (f, g) at e) in absurd (ground arith))
    | inr g ↦ rw g (last-none p xs f)
  ]
  | inr (y, f) ↦ (let bad : some y ≡ none = (rw f at e) in absurd (ground arith))
]

last-In :
    {A : Type 0} (p : A → Bool) (xs : List A) (a : A) → last p xs ≡ some a → In a xs × (p a ≡ true)
unfolding last
last-In p [] a e = absurd (ground arith)
last-In p (x ∷ xs) a e = elim (Option-cases (last p xs)) [
  | inl f ↦ elim (Bool-cases (p x)) [
    | inl g ↦ (
      inl (sym (some_eq x a (rw (f, g) at e))),
      subst (λ b. p b ≡ true) (some_eq x a (rw (f, g) at e)) g,
    )
    | inr g ↦ (let bad : none ≡ some a = (rw (f, g) at e) in absurd (ground arith))
  ]
  | inr (y, f) ↦ (let r = last-In p xs a (f ∙ (rw f at e)) in (inr r.0, r.1))
]

count_where-snoc :
    (p : UpdateRun → Bool) (xs : List UpdateRun) (x : UpdateRun)
    → count_where p (xs ++ x ∷ []) ≡ count_where p xs + (if p x then 1 else 0)
unfolding count_where
count_where-snoc p [] x = elim (Bool-cases (p x)) [ inl e ↦ rw e refl | inr e ↦ rw e refl ]
count_where-snoc p (y ∷ xs) x = elim (Bool-cases (p y)) [
  | inl e ↦ rw e (omega (arith, count_where-snoc p xs x))
  | inr e ↦ rw e (count_where-snoc p xs x)
]

-- The run that the answer of `start_run` names.
abbrev pub Named : String → Db × ℕ × Bool → Type 0
Named host (db, run_id, already_running) =
    (r : UpdateRun) × In r db.system_update_runs.rows
    × (r.id ≡ run_id)
    × (is_running_on host r ≡ true)

In-snoc : {A : Type 0} (xs : List A) (x : A) → In x (xs ++ x ∷ [])
In-snoc [] x = inl refl
In-snoc (y ∷ xs) x = inr (In-snoc xs x)

new-Runs :
    (actor : ℕ) (host mode : String) (id : ℕ)
    → is_running_on host (new_run actor host mode id) ≡ true
new-Runs actor host mode id = rw ((eq_iff host host).1 refl) refl

start-Named :
    (asking : Asking) (host mode : String) (db : Db) → Named host (start_run asking host mode db)
unfolding start_run running_run enqueue_update insert audited
start-Named asking host mode db =
    of_found (Named host) (running_run db host)
      (
        new_run asking.actor host (mode_for host mode) db.system_update_runs.next_id,
        In-snoc db.system_update_runs.rows _,
        refl,
        new-Runs asking.actor host (mode_for host mode) db.system_update_runs.next_id,
      )
      (λ r e.
        let i = last-In (is_running_on host) db.system_update_runs.rows r e in (r, i.0, refl, i.1))

and_true : (b : Bool) → (b && true) ≡ b
and_true b = ground arith

count-enqueue :
    (asking : Asking) (host mode other : String) (db : Db)
    → running_count other (enqueue_update asking host mode db)
      ≡ running_count other db + (if str_eq host other then 1 else 0)
unfolding running_count enqueue_update insert audited
count-enqueue asking host mode other db =
    rw
      (
        count_where-snoc (is_running_on other) db.system_update_runs.rows,
        and_true (str_eq host other),
      )
      refl

In-counted :
    {A : Type 0} (p : A → Bool) (xs : List A) (a : A) → In a xs → p a ≡ true → 0 < count_where p xs
unfolding count_where
In-counted p [] a i h = elim i [ ]
In-counted p (x ∷ xs) a i h = elim (Bool-cases (p x)) [
  | inl e ↦ rw e (omega arith)
  | inr e ↦ rw e (elim i [
    | inl q ↦ (let bad : true ≡ false = sym h ∙ ap p q ∙ e in absurd (ground arith))
    | inr j ↦ In-counted p xs a j h
  ])
]

none-count : (host : String) (db : Db) → running_run db host ≡ none → running_count host db ≡ 0
unfolding running_run running_count
none-count host db e = last-none (is_running_on host) db.system_update_runs.rows e

some-count :
    (host : String) (db : Db) (r : UpdateRun)
    → running_run db host ≡ some r
    → max 1 (running_count host db) ≡ running_count host db
unfolding running_run running_count
some-count host db r e =
    let i = last-In (is_running_on host) db.system_update_runs.rows r e in
    omega (arith, In-counted (is_running_on host) db.system_update_runs.rows r i.0 i.1)

start-count :
    (asking : Asking) (host mode other : String) (db : Db)
    → running_count other (start_run asking host mode db).0
      ≡ (if str_eq host other then max 1 (running_count other db) else running_count other db)
unfolding start_run
start-count asking host mode other db = elim (Option-cases (running_run db host)) [
  | inl e ↦
      rw (start_run, e)
        (rw (count-enqueue asking host (mode_for host mode) other db)
          (elim (Bool-cases (str_eq host other)) [
            | inl q ↦
                let z =
                  none-count other db
                    (subst (λ h. running_run db h ≡ none) ((eq_iff host other).0 q) e) in
                rw (q, z) refl
            | inr q ↦ rw q (omega arith)
          ]))
  | inr (r, e) ↦
      rw (start_run, e)
        (elim (Bool-cases (str_eq host other)) [
          | inl q ↦ rw q (
              sym (
                some-count other db r
                  (subst (λ h. running_run db h ≡ some r) ((eq_iff host other).0 q) e)))
          | inr q ↦ rw q refl
        ])
]

-- Starting an update leaves one running update of the machine where there was none and starts no second
-- one; other machines' stay as they are. The answer names a run of that machine that is running.
pub start_run_one :
    (asking : Asking) (host mode other : String) (db : Db)
    → (running_count other (start_run asking host mode db).0
        ≡ (if str_eq host other then max 1 (running_count other db) else running_count other db))
      × Named host (start_run asking host mode db)
start_run_one asking host mode other db =
    (start-count asking host mode other db, start-Named asking host mode db)
