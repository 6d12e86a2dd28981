-- ===== src/Panel/Webmail/Laws.antt =====
-- A token of "Otwórz w Roundcube" opens one session, of its mailbox, within a minute.
use mail_sync_portal.Base.{
  ℕ, not, of_test, of_found, subst, some_eq, sym, ◌∙◌, ◌+◌, ◌≤◌, ◌<◌, ◌≡◌, refl, String, Bool, true,
  false, none, some, List, [], ◌∷◌, inl, inr, arith, ◌&&◌, ltb, str_eq, eq_iff, is_none, first,
  first-append_new, update_where, Bool-cases, if◌then◌else◌,
}
use mail_sync_portal.Db.{Db, WebmailSsoToken, insert, update, Mailbox}
use mail_sync_portal.Queue.Handlers.{get_mailbox, is_provisioned}
use mail_sync_portal.Panel.Client.{audited, accepted, Reply}
use mail_sync_portal.Panel.Mailboxes.{Asking}
use mail_sync_portal.Panel.Webmail.{
  open_webmail, new_token, is_open, use_at, consume_token, sso_token_ttl_seconds, startup,
  is_no_token,
}

still_closed :
    (a n : Bool) (now later past : ℕ)
    → now ≤ later
    → (a && (n && ltb now past)) ≡ false
    → (a && (n && ltb later past)) ≡ false
still_closed a n now later past le e = ground arith

and_false : (a : Bool) → (a && false) ≡ false
and_false a = ground arith

-- A row that was open is used; one that was not open does not open later.
never_open :
    (h : String) (now later : ℕ) (t : WebmailSsoToken)
    → now ≤ later
    → is_open h later (if is_open h now t then use_at now t else t) ≡ false
never_open h now later t le = elim (Bool-cases (is_open h now t)) [
  | inl e ↦ rw e (and_false (str_eq t.token_hash h))
  | inr e ↦
      rw e (still_closed (str_eq t.token_hash h) (is_none t.used_at) now later t.expires_at le e)
]

none_open :
    (h : String) (now later : ℕ) (ts : List WebmailSsoToken)
    → now ≤ later
    → first (is_open h later) (update_where (is_open h now) (use_at now) ts) ≡ none
unfolding first update_where
none_open h now later [] le = refl
none_open h now later (t ∷ ts) le = rw (never_open h now later t le) (none_open h now later ts le)

-- A token that was presented once, whether it opened a session or not, opens none later.
pub consume_token_once :
    (sha256 : String → String) (token : String) (now later : ℕ) (db : Db)
    → now ≤ later
    → (consume_token sha256 token later (consume_token sha256 token now db).0).1 ≡ none
unfolding consume_token update
consume_token_once sha256 token now later db le =
    rw (consume_token, none_open (sha256 token) now later db.webmail_sso_tokens.rows le) refl

soon_open : (now past : ℕ) → now < past → ltb now past ≡ true
soon_open now past lt = ground arith

consume-saved :
    (sha256 : String → String) (asking : Asking) (raw : String) (k now : ℕ) (m : Mailbox) (db : Db)
    → db.webmail_sso_enabled ≡ true
    → get_mailbox k db ≡ some m
    → is_provisioned m ≡ true
    → now < asking.now + sso_token_ttl_seconds
    → first (is_open (sha256 raw) now) db.webmail_sso_tokens.rows ≡ none
    → (consume_token sha256 raw now (open_webmail sha256 asking raw k db).0).1
      ≡ some m.destination_address
unfolding open_webmail consume_token insert audited first get_mailbox
consume-saved sha256 asking raw k now m db on found active soon fresh =
    let t = new_token asking (sha256 raw) m db.webmail_sso_tokens.next_id in
    let o : is_open (sha256 raw) now t ≡ true =
      rw ((eq_iff (sha256 raw) (sha256 raw)).1 refl) (soon_open now (asking.now + 60) soon) in
    rw
      (
        open_webmail,
        on,
        found,
        active,
        consume_token,
        first-append_new (is_open (sha256 raw) now) db.webmail_sso_tokens.rows t fresh o,
      )
      refl

not_off : (b : Bool) → not b ≡ false → b ≡ true
not_off b e = ground arith

-- A mailbox gets a token only where the panel lets the webmail be opened and it is active on VM2.
opened-guards :
    (sha256 : String → String) (asking : Asking) (raw : String) (k : ℕ) (m : Mailbox) (db : Db)
    → get_mailbox k db ≡ some m
    → (open_webmail sha256 asking raw k db).1 ≡ accepted
    → (db.webmail_sso_enabled ≡ true) × (is_provisioned m ≡ true)
unfolding open_webmail
opened-guards sha256 asking raw k m db found =
    let P = λ (r : Db × Reply).
      r.1 ≡ accepted → (db.webmail_sso_enabled ≡ true) × (is_provisioned m ≡ true) in
    of_test P (not db.webmail_sso_enabled) (λ e q. absurd (ground arith))
      (λ on.
        of_found P (get_mailbox k db) (λ q. absurd (ground arith))
          (λ m' f.
            of_test P (not (is_provisioned m')) (λ e q. absurd (ground arith))
              (λ active q. (
                not_off db.webmail_sso_enabled on,
                subst (λ x. is_provisioned x ≡ true) (some_eq m' m (sym f ∙ found))
                    (not_off (is_provisioned m') active),
              ))))

-- Where the panel answers with a token, the webmail was allowed and the mailbox active on VM2; and within
-- the minute the plugin logs that mailbox in for the token, where it is not an empty one and the client's
-- address is allowed, and none where it is not. No open token has the hash of the fresh one.
pub startup-open_webmail :
    (sha256 : String → String) (ip_allowed : Bool) (asking : Asking) (raw : String) (k now : ℕ)
    (m : Mailbox) (db : Db)
    → get_mailbox k db ≡ some m
    → (open_webmail sha256 asking raw k db).1 ≡ accepted
    → is_no_token raw ≡ false
    → now < asking.now + sso_token_ttl_seconds
    → first (is_open (sha256 raw) now) db.webmail_sso_tokens.rows ≡ none
    → (db.webmail_sso_enabled ≡ true)
      × (is_provisioned m ≡ true)
      × ((startup sha256 ip_allowed raw now (open_webmail sha256 asking raw k db).0).1
          ≡ (if ip_allowed then some m.destination_address else none))
unfolding startup
startup-open_webmail sha256 ip_allowed asking raw k now m db found answer there soon fresh =
    let g = opened-guards sha256 asking raw k m db found answer in
    let h = consume-saved sha256 asking raw k now m db g.0 found g.1 soon fresh in
    (
      g.0,
      g.1,
      (rw (startup, there) (elim (Bool-cases ip_allowed) [ inl e ↦ rw e h | inr e ↦ rw e refl ])),
    )
