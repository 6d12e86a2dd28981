-- ===== src/Queue/Handlers/Updates/Ends.antt =====
-- A run of an update always ends, whatever the helpers and VM2 answer.
use mathlib.Core.Bool.{false≢true}
use mail_sync_portal.Base.{
  ℕ, ◌≡◌, refl, sym, ◌∙◌, String, Bool, true, false, Option, none, some, str_eq, inl, inr,
  Bool-cases, Option-cases, arith, All, All-update, All-trivial, first, not, or_else, ◌&&◌,
}
use mail_sync_portal.Db.{update, Db, UpdateRun, RunStatus, Payload}
use mail_sync_portal.Queue.Handlers.{is_blank}
use mail_sync_portal.Queue.Worker.{is_active_update}
use mail_sync_portal.Queue.Handlers.Updates.{
  Machines, Vm2Answer, updated, unreachable, refused, crashed, Part, has_id, update_run, end_run,
  set_log, finish, verdict, check_vm1, health_vm1, dnf_vm1, handle_vm1, answer_vm2, handle_vm2,
  handle_webmail, rescue, handle_run, system_update,
}

-- The run has a final status and is in its last phase.
pub record IsEnded (r : UpdateRun) : Type 0 where
  pub status : is_active_update r ≡ false
  pub phase : r.phase ≡ "done"

-- Every row with this id has ended.
abbrev pub Ended : ℕ → Db → Type 0
Ended k db = All (λ r. has_id k r ≡ true → IsEnded r) db.system_update_runs.rows

-- A final status.
abbrev IsFinal : RunStatus → Type 0
IsFinal RunStatus.running = ⊥
IsFinal _ = Unit

end_run-IsEnded :
    (now : ℕ) (status : RunStatus) (error : Option String) (r : UpdateRun)
    → IsFinal status
    → IsEnded (end_run now status error r)
end_run-IsEnded now RunStatus.running error r f = elim f [ ]
end_run-IsEnded now RunStatus.success error r f = record { status = refl; phase = refl }
end_run-IsEnded now RunStatus.partial error r f = record { status = refl; phase = refl }
end_run-IsEnded now RunStatus.failed error r f = record { status = refl; phase = refl }

verdict-IsFinal : (ok : Bool) → IsFinal (verdict ok)
verdict-IsFinal true = tt
verdict-IsFinal false = tt

end-Ended :
    (now k : ℕ) (status : RunStatus) (error : Option String) (db : Db)
    → IsFinal status
    → Ended k (update_run k "" (end_run now status error) db)
unfolding update_run update
end-Ended now k status error db f =
    All-update (λ _. Unit {0}) (λ r. has_id k r ≡ true → IsEnded r) (has_id k)
      (end_run now status error) db.system_update_runs.rows
      (λ r e u h. end_run-IsEnded now status error r f) (λ r e u h. absurd (ne (sym h ∙ e)))
      (All-trivial _)
  where
    ne : true ≡ false → ⊥
    ne e = false≢true (sym e)

log-Ended :
    (k : ℕ) (write : UpdateRun → Option String) (db : Db)
    → Ended k db
    → All
        (λ r. has_id k r ≡ true → IsEnded r)
        (update (has_id k) (set_log write) db.system_update_runs).rows
unfolding update
log-Ended k write db h =
    All-update (λ r. has_id k r ≡ true → IsEnded r) (λ r. has_id k r ≡ true → IsEnded r) (has_id k)
      (set_log write) db.system_update_runs.rows
      (λ r e p q. record { status = (p q).status; phase = (p q).phase }) (λ r e p. p) h

-- What a part keeps: the queue stays, and the run has ended unless an exception goes on.
pub record Ends (k : ℕ) (old : Db) (p : Part) : Type 0 where
  pub queue : p.0.job_queue ≡ old.job_queue
  pub ended : p.1 ≡ none → Ended k p.0

finish-Ended :
    (ms : Machines) (now k : ℕ) (status : RunStatus) (error : Option String) (db : Db)
    → IsFinal status
    → Ended k (finish ms now k status error db)
unfolding finish
finish-Ended ms now k status error db f =
    let ended = update_run k "" (end_run now status error) db in
    let h = end-Ended now k status error db f in
    elim (Option-cases (first (has_id k) ended.system_update_runs.rows)) [
      | inl e ↦ rw (e, finish) h
      | inr (r, e) ↦ rw (e, finish) (log-Ended k ms.write_log ended h)
    ]

finish-queue :
    (ms : Machines) (now k : ℕ) (status : RunStatus) (error : Option String) (db : Db)
    → (finish ms now k status error db).job_queue ≡ db.job_queue
unfolding finish update_run
finish-queue ms now k status error db =
    elim (Option-cases
      (first (has_id k) (update_run k "" (end_run now status error) db).system_update_runs.rows)) [
        | inl e ↦ rw (e, finish) refl
        | inr (r, e) ↦ rw (e, finish) refl
      ]

-- A part that ends in `_finish`, and one that raises.
finished :
    (ms : Machines) (now k : ℕ) (status : RunStatus) (error : Option String) (old db : Db)
    → IsFinal status
    → db.job_queue ≡ old.job_queue
    → Ends k old (finish ms now k status error db, none)
finished ms now k status error old db f q = record {
  queue = finish-queue ms now k status error db ∙ q;
  ended = λ e. finish-Ended ms now k status error db f;
}

raised : (k : ℕ) (old db : Db) (x : String) → db.job_queue ≡ old.job_queue → Ends k old (db, some x)
raised k old db x q = record { queue = q; ended = λ e. absurd (ground arith) }

-- After the `except` clause the run has ended in every case.
pub record AllEnded (k : ℕ) (old : Db) (p : Part) : Type 0 where
  pub queue : p.0.job_queue ≡ old.job_queue
  pub ended : Ended k p.0

module _ (ms : Machines) (now k : ℕ) where
  check-Ends :
      (dnf_ok healthy : Bool) (old db : Db)
      → db.job_queue ≡ old.job_queue
      → Ends k old (check_vm1 ms now k dnf_ok healthy db)
  unfolding check_vm1 update_run
  check-Ends dnf_ok healthy old db q = elim (Option-cases ms.check_reboot) [
    | inl e ↦ rw (e, check_vm1) (raised k old _ ms.exception q)
    | inr (needed, e) ↦
        rw (e, check_vm1) (finished ms now k _ _ old _ (verdict-IsFinal (dnf_ok && healthy)) q)
  ]

  health-Ends :
      (dnf_ok : Bool) (old db : Db)
      → db.job_queue ≡ old.job_queue
      → Ends k old (health_vm1 ms now k dnf_ok db)
  unfolding health_vm1 update_run
  health-Ends dnf_ok old db q = elim (Option-cases ms.run_health) [
    | inl e ↦ rw (e, health_vm1) (raised k old _ ms.exception q)
    | inr ((output, healthy), e) ↦ rw (e, health_vm1) (check-Ends dnf_ok healthy old _ q)
  ]

  dnf-Ends :
      (security_only : Bool) (old db : Db)
      → db.job_queue ≡ old.job_queue
      → Ends k old (dnf_vm1 ms now k security_only db)
  unfolding dnf_vm1 update_run
  dnf-Ends security_only old db q = elim (Option-cases (ms.run_dnf security_only)) [
    | inl e ↦ rw (e, dnf_vm1) (raised k old _ ms.exception q)
    | inr ((output, ok), e) ↦ rw (e, dnf_vm1) (health-Ends ok old _ q)
  ]

  vm1-Ends :
      (security_only : Bool) (old db : Db)
      → db.job_queue ≡ old.job_queue
      → Ends k old (handle_vm1 ms now k security_only db)
  unfolding handle_vm1 update_run
  vm1-Ends security_only old db q = elim (Option-cases ms.run_backup) [
    | inl e ↦ rw (e, handle_vm1) (raised k old _ ms.exception q)
    | inr ((output, path), e) ↦ rw (e, handle_vm1) (dnf-Ends security_only old _ q)
  ]

  answer-Ends :
      (v : Vm2Answer) (old db : Db)
      → db.job_queue ≡ old.job_queue
      → Ends k old (answer_vm2 ms now k v db)
  unfolding answer_vm2 update_run
  answer-Ends (updated v) old db q = finished ms now k _ _ old _ (verdict-IsFinal _) q
  answer-Ends (unreachable e) old db q = finished ms now k RunStatus.failed _ old _ tt q
  answer-Ends (refused code e) old db q = finished ms now k RunStatus.failed _ old _ tt q
  answer-Ends (crashed e) old db q = raised k old db e q

  vm2-Ends :
      (security_only : Bool) (old db : Db)
      → db.job_queue ≡ old.job_queue
      → Ends k old (handle_vm2 ms now k security_only db)
  unfolding handle_vm2 update_run
  vm2-Ends security_only old db q = elim (Bool-cases (is_blank db.vm2_host)) [
    | inl e ↦ rw (e, handle_vm2) (finished ms now k RunStatus.failed _ old db tt q)
    | inr e ↦ rw (e, handle_vm2) (answer-Ends (ms.vm2_update security_only) old _ q)
  ]

  webmail-Ends :
      (old db : Db) → db.job_queue ≡ old.job_queue → Ends k old (handle_webmail ms now k db)
  unfolding handle_webmail update_run
  webmail-Ends old db q = elim (Option-cases ms.run_upgrade) [
    | inl e ↦ rw (e, handle_webmail) (raised k old _ ms.exception q)
    | inr ((output, path, ok), e) ↦
        rw (e, handle_webmail) (finished ms now k _ _ old _ (verdict-IsFinal ok) q)
  ]

  rescue-AllEnded : (old : Db) (p : Part) → Ends k old p → AllEnded k old (rescue ms now k p)
  unfolding rescue
  rescue-AllEnded old (db, none) h = record { queue = h.queue; ended = h.ended refl }
  rescue-AllEnded old (db, some e) h = record {
    queue = finish-queue ms now k RunStatus.failed (some e) db ∙ h.queue;
    ended = finish-Ended ms now k RunStatus.failed (some e) db tt;
  }

  run-AllEnded :
      (host : String) (security_only : Bool) (old db : Db)
      → db.job_queue ≡ old.job_queue
      → AllEnded k old (handle_run ms now k host security_only db)
  unfolding handle_run
  run-AllEnded host security_only old db q =
      rescue-AllEnded old _ (elim (Bool-cases (str_eq host "webmail")) [
        | inl e ↦ rw e (webmail-Ends old db q)
        | inr e ↦ elim (Bool-cases (str_eq host "vm2")) [
          | inl f ↦ rw (e, f) (vm2-Ends security_only old db q)
          | inr f ↦ rw (e, f) (vm1-Ends security_only old db q)
        ]
      ])

-- The handler of a job that names a run leaves the run ended, failed or successful and in the phase
-- "done", whatever the helpers and VM2 answer, exceptions included; the queue stays as it was.
pub system_update-AllEnded :
    (ms : Machines) (started finished_at k : ℕ) (p : Payload) (db : Db)
    → p.run_id ≡ some k
    → AllEnded k db (system_update ms started finished_at p db)
unfolding system_update update_run
system_update-AllEnded ms started finished_at k p db e =
    rw (e, system_update)
      (run-AllEnded ms finished_at k (or_else "vm1" p.host)
        (not (str_eq (or_else "security" p.mode) "all")) db _ refl)

pub system_update-queue :
    (ms : Machines) (started finished_at : ℕ) (p : Payload) (db : Db)
    → (system_update ms started finished_at p db).0.job_queue ≡ db.job_queue
unfolding system_update
system_update-queue ms started finished_at p db = elim (Option-cases p.run_id) [
  | inl e ↦ rw (e, system_update) refl
  | inr (k, e) ↦ (system_update-AllEnded ms started finished_at k p db e).queue
]
