-- ===== src/Tests/Logs.antt =====
-- The theorems on the audit logs and on the mail database at concrete inputs.
use mail_sync_portal.Base.{
  ℕ, ◌≡◌, refl, none, Bool, true, false, ◌==◌, ==→eq, ==_refl, arith, [], ◌∷◌, ◌&&◌, &&_left,
  &&_right,
}
use mail_sync_portal.Db.{Table, empty_table}
use mail_sync_portal.Audit.Chain.{Hashing, AuditRow, verify_chain, verify_from}
use mail_sync_portal.Audit.Laws.{Verdict, verify_chain-Verdict, verify_chain-record_all, record_all}
use mail_sync_portal.MailDb.{MailDb, serve_all as serve_mail, ask_mailbox, ask_alias, ask_delete}
use mail_sync_portal.MailDb.Keys.{serve_all-IsKeyed, IsKeyed as IsMailKeyed}

-- Hashes that are lists of the fields so far.
data Chained : Type 0 where
  start : Chained
  link : Chained → ℕ → Chained

same_chained : Chained → Chained → Bool
same_chained start start = true
same_chained (link p f) (link q g) = same_chained p q && f == g
same_chained start (link q g) = false
same_chained (link p f) start = false

same_chained_to : (a b : Chained) → same_chained a b ≡ true → a ≡ b
unfolding same_chained
same_chained_to start start e = refl
same_chained_to start (link q g) e = absurd (ground arith)
same_chained_to (link p f) start e = absurd (ground arith)
same_chained_to (link p f) (link q g) e =
    rw (same_chained_to p q (&&_left _ _ e), ==→eq f g (&&_right (same_chained p q) _ e)) refl

same_chained_refl : (a : Chained) → same_chained a a ≡ true
unfolding same_chained
same_chained_refl start = refl
same_chained_refl (link p f) = rw (same_chained_refl p, ==_refl f) refl

abbrev chained : Hashing ℕ
chained = record {
  Hash = Chained;
  genesis = start;
  digest = link;
  stored = λ fields. fields;
  same_hash = same_chained;
  same_hash_iff = λ a b. (same_chained_to a b, λ e. rw e (same_chained_refl b));
}

abbrev no_rows : Table (AuditRow chained)
no_rows = empty_table

no_rows_verified : verify_chain chained no_rows ≡ none
unfolding verify_chain verify_from
no_rows_verified = refl

two_verified : verify_chain chained (record_all chained (1 ∷ 2 ∷ []) no_rows) ≡ none
two_verified =
    verify_chain-record_all chained (1 ∷ 2 ∷ []) no_rows ((λ p. refl), ((λ p. refl), tt))
      no_rows_verified

verify_chain-record_all_example :
    verify_chain chained (record_all chained (3 ∷ []) (record_all chained (1 ∷ 2 ∷ []) no_rows))
    ≡ none
verify_chain-record_all_example =
    verify_chain-record_all chained (3 ∷ []) (record_all chained (1 ∷ 2 ∷ []) no_rows)
      ((λ p. refl), tt) two_verified

abbrev bad_rows : Table (AuditRow chained)
bad_rows = record {
  rows = (record { id = 8; fields = 1; prev_hash = start; row_hash = link start 2 }) ∷ [];
  next_id = 9;
}

verify_chain-Verdict_example : Verdict chained start bad_rows.rows (verify_chain chained bad_rows)
verify_chain-Verdict_example = verify_chain-Verdict chained bad_rows

abbrev empty_mail : MailDb
empty_mail = record {
  virtual_domains = empty_table;
  virtual_domain_aliases = empty_table;
  virtual_mailboxes = empty_table;
}

serve_all-IsKeyed_example : IsMailKeyed (
    serve_mail
      (ask_mailbox "example.com" "jan" "hash" 0
        ∷ ask_alias "example.com" "example.net"
        ∷ ask_delete (λ d p. true) 1
        ∷ [])
      empty_mail)
serve_all-IsKeyed_example =
    serve_all-IsKeyed
      (ask_mailbox "example.com" "jan" "hash" 0
        ∷ ask_alias "example.com" "example.net"
        ∷ ask_delete (λ d p. true) 1
        ∷ [])
      empty_mail (record { domains = tt; aliases = tt; mailboxes = tt })
