-- ===== src/Tests/Panel.antt =====
-- The theorems on the panel at concrete inputs.
use mail_sync_portal.Base.{
  ◌≡◌, refl, pos, max, true, false, none, some, if◌then◌else◌, ◌==◌, [], ◌∷◌, str_eq, is_none,
  first, any, delete_where, update_where, strip, split_at, starts_with, arith,
}
use mail_sync_portal.Db.{update, Db, SyncJob, Mailbox}
use mail_sync_portal.MailDb
use mail_sync_portal.Imapsync.Flags.{
  validate_custom_flags, ok, err, not_parsed, validate_tokens, scan, parse_flag, parse_known,
  find_flag, split_flag, is_dangerous,
}
use mail_sync_portal.Imapsync.Shlex.{split}
use mail_sync_portal.Tests.Data.{sync_job}
use mail_sync_portal.Queue.Handlers.{get_mailbox, get_domain, get_credential}
use mail_sync_portal.Panel.Client.{answered, accepted, call}
use mail_sync_portal.Panel.Mailboxes.{SyncForm, bulk_sync_config}
use mail_sync_portal.Panel.Mailboxes.Laws.{bulk-DeletesOnly, DeletesOnly}
use mail_sync_portal.Panel.Requests.Kept.{Kept}
use mail_sync_portal.Panel.Deletion.{delete_mailbox, delete_rows, delete, is_imported}
use mail_sync_portal.Panel.Deletion.Stuck.{IsStuck, imported-IsStuck}
use mail_sync_portal.Panel.Webmail.{open_webmail, consume_token, startup}
use mail_sync_portal.Panel.Webmail.Laws.{consume_token_once, startup-open_webmail}
use mail_sync_portal.Panel.Updates.{start_run}
use mail_sync_portal.Panel.Updates.Laws.{running_count, start_run_one, Named}
use mail_sync_portal.Panel.Domains.{
  add_known_alias, post_alias, add_alias, normalize, DomainForm, update_domain, delete_alias,
}
use mail_sync_portal.Panel.Domains.Names.{
  is_domain_name, chop_line, are_labels, is_label, ends_label, is_top, all_chars, strip_dots,
}
use mail_sync_portal.Panel.Domains.Laws.{IsAdded, add_alias-IsAdded}
use mail_sync_portal.Panel.Domains.Stranded.{IsStranded, delete-IsStranded}
use mail_sync_portal.Tests.World.{
  the_mailbox, the_domain, the_alias, vm2_mailbox, vm2, world, imported_world, by_hand, asking,
}

by_hand_found : get_mailbox 4 by_hand ≡ some the_mailbox
unfolding get_mailbox first
by_hand_found = refl

imported_found : get_mailbox 4 imported_world.portal ≡ some the_mailbox
unfolding get_mailbox first
imported_found = refl

vm2_found : MailDb.get_mailbox 7 imported_world.vm2 ≡ some (vm2_mailbox, "a.pl")
unfolding MailDb.get_mailbox first
vm2_found = refl

credential_referred :
    (any
        (λ (x : Mailbox). x.credential_id == 2)
        (delete_rows 4 imported_world.portal).mailboxes.rows
      ≡ false)
    × (is_none (get_credential 2 imported_world.portal) ≡ false)
    × (is_imported 2 imported_world.portal ≡ true)
unfolding delete_rows delete any delete_where update update_where get_credential first
credential_referred = (refl, refl, refl)

imported-IsStuck_example :
    IsStuck vm2 4 7 imported_world (delete_mailbox vm2 answered 1 4 "u@a.pl" imported_world)
imported-IsStuck_example = imported-IsStuck vm2 1 4 7 "u@a.pl" the_mailbox imported_world (record {
  on_vm2 = record { found = imported_found; provisioned = refl; path = refl };
  typed = unfold strip any in refl;
  connected = refl;
  row = vm2_mailbox;
  domain = "a.pl";
  there = vm2_found;
  removed = refl;
  alone = credential_referred.0;
  credential = credential_referred.1;
  referred = credential_referred.2;
})

there : is_none (get_mailbox 4 by_hand) ≡ false
unfolding get_mailbox first
there = refl

abbrev form : SyncForm
form = record {
  mailbox_ids = 4 ∷ [];
  days_back = pos 30;
  preserve_folder_structure = true;
  delete_on_dest = true;
  is_enabled = true;
  confirm_text = "tak";
}

bulk-DeletesOnly_example : DeletesOnly (λ k. ⊥) (bulk_sync_config 1 form by_hand).0
bulk-DeletesOnly_example = bulk-DeletesOnly (λ k. ⊥) 1 form by_hand refl ((λ e. ground arith), tt)

-- The gate takes a value that ends with an escaped blank, but not what is saved of it.
stripped_flags :
    (validate_custom_flags "--exclude Spam\\ " ≡ ok ("--exclude" ∷ "Spam " ∷ []))
    × (strip "--exclude Spam\\ " ≡ "--exclude Spam\\")
    × (validate_custom_flags "--exclude Spam\\" ≡ err not_parsed)
unfolding validate_custom_flags validate_tokens scan parse_flag parse_known find_flag split_flag
    split_at is_dangerous starts_with any split strip
stripped_flags = (refl, refl, refl)

consume_token_once_example :
    (consume_token
      (λ s. s)
      "t"
      110
      (consume_token (λ s. s) "t" 105 (open_webmail (λ s. s) asking "t" 4 by_hand).0).0).1
    ≡ none
consume_token_once_example =
    consume_token_once (λ s. s) "t" 105 110 (open_webmail (λ s. s) asking "t" 4 by_hand).0
      (omega arith)

by_hand_opened : (open_webmail (λ s. s) asking "t" 4 by_hand).1 ≡ accepted
unfolding open_webmail get_mailbox first
by_hand_opened = refl

startup-open_webmail_example :
    (true ≡ true)
    × (true ≡ true)
    × ((startup (λ s. s) true "t" 105 (open_webmail (λ s. s) asking "t" 4 by_hand).0).1
        ≡ some "u@a.pl")
startup-open_webmail_example =
    startup-open_webmail (λ s. s) true asking "t" 4 105 the_mailbox by_hand by_hand_found
      by_hand_opened refl (omega arith) (unfold first in refl)

start_run_one_example :
    (running_count "vm1" (start_run asking "vm1" "all" by_hand).0 ≡ (
      if str_eq "vm1" "vm1"
      then max 1 (running_count "vm1" by_hand)
      else running_count "vm1" by_hand))
    × Named "vm1" (start_run asking "vm1" "all" by_hand)
start_run_one_example = start_run_one asking "vm1" "all" "vm1" by_hand

abbrev once_job : SyncJob
once_job = record sync_job { last_enqueued_at = some 1000 }

abbrev once : Db
once = record by_hand { sync_jobs = record { rows = once_job ∷ []; next_id = 2 } }

domain_found : get_domain 1 by_hand ≡ some the_domain
unfolding get_domain first
domain_found = refl

c_net_added : (add_alias (λ s. s) answered 1 1 " c.net." world).1 ≡ accepted
unfolding add_alias get_domain first normalize strip strip_dots add_known_alias is_domain_name
    chop_line any are_labels is_label ends_label is_top all_chars call post_alias
    MailDb.add_domain_alias MailDb.get_domain
c_net_added = refl

c_net_same : normalize (λ s. s) (normalize (λ s. s) " c.net.") ≡ normalize (λ s. s) " c.net."
unfolding normalize strip strip_dots any
c_net_same = refl

add_alias-IsAdded_example :
    IsAdded
      (λ s. s)
      the_domain
      (normalize (λ s. s) " c.net.")
      world
      (add_alias (λ s. s) answered 1 1 " c.net." world).0
add_alias-IsAdded_example =
    add_alias-IsAdded (λ s. s) answered 1 1 " c.net." the_domain world domain_found c_net_same
      c_net_added

-- A line feed before the last dot: the portal keeps it in the name of the alias, VM2 does not.
line_feed :
    (normalize (λ s. s) "c.net\n." ≡ "c.net\n")
    × (is_domain_name "c.net\n" ≡ true)
    × (normalize (λ s. s) "c.net\n" ≡ "c.net")
unfolding normalize strip strip_dots is_domain_name chop_line any are_labels is_label ends_label
    is_top all_chars
line_feed = (refl, refl, refl)

abbrev moved : DomainForm
moved = record {
  destination_domain = "c.pl";
  source_imap_host = "imap.a.pl";
  source_imap_port = 993;
  default_quota_mb = 0;
  total_quota_mb = 0;
  apply_quota_to_all = false;
  is_active = true;
}

delete-IsStranded_example :
    IsStranded 3 world.vm2
      (delete_alias (λ s. s) answered 1 1 3 (update_domain vm2 (λ k. answered) 1 1 moved world))
delete-IsStranded_example =
    delete-IsStranded (λ s. s) vm2 (λ k. answered) 1 1 3 moved the_domain the_alias world
      domain_found (unfold first in refl) refl refl refl (unfold MailDb.get_domain first in refl)
