-- ===== src/Tests/Imapsync.antt =====
-- The theorems on the flags and the command line of imapsync at concrete inputs.
use mail_sync_portal.Base.{
  pos, ◌≡◌, ◌↔◌, refl, none, some, true, false, any, [], ◌∷◌, ◌||◌, split_at, strip, starts_with,
  show_ℤ, show_ℕ,
}
use mail_sync_portal.Imapsync.Shlex.{split}
use mail_sync_portal.Imapsync.Flags.{
  find_flag, ok, scan, parse_flag, parse_known, split_flag, is_dangerous, validate_custom_flags,
  validate_tokens,
}
use mail_sync_portal.Imapsync.Flags.Laws.{IsAllowed, validate-IsAllowed, values}
use mail_sync_portal.Imapsync.Runner.{
  SyncArgs, build_argv, all_argv, is_forbidden, connection_argv, max_age, is_word, strip_prefix,
}
use mail_sync_portal.Imapsync.Runner.Laws.{
  build_argv-refuses, build_argv-delete2, inputs, is_delete2,
}

spam_validated :
    validate_custom_flags "--exclude ^Spam$ --addheader"
    ≡ ok ("--exclude" ∷ "^Spam$" ∷ "--addheader" ∷ [])
unfolding validate_custom_flags validate_tokens scan parse_flag parse_known find_flag split_flag
    split_at is_dangerous starts_with any split strip
spam_validated = refl

validate-IsAllowed_example : IsAllowed ("--exclude" ∷ "^Spam$" ∷ "--addheader" ∷ [])
validate-IsAllowed_example =
    validate-IsAllowed "--exclude ^Spam$ --addheader" ("--exclude" ∷ "^Spam$" ∷ "--addheader" ∷ [])
      spam_validated

abbrev args : SyncArgs
args = record {
  source_host = "imap.example.com";
  source_port = pos 993;
  source_user = "jan";
  source_passfile = "/run/a";
  dest_host = "vm2";
  dest_port = pos 993;
  dest_user = "jan@example.com";
  dest_passfile = "/run/b";
  days_back = pos 0;
  preserve_folder_structure = true;
  delete_on_dest_when_missing_from_source = true;
  dry_run = false;
  extra_flags = [];
}

build_argv-refuses_example : (build_argv (λ c. false) args ≡ none) ↔ (
    (any (is_forbidden (λ c. false)) (inputs args)
      || any (is_forbidden (λ c. false)) (values IsAllowed.end))
    ≡ true)
build_argv-refuses_example = build_argv-refuses (λ c. false) args IsAllowed.end

args_built : build_argv (λ c. false) args ≡ some (all_argv args)
unfolding build_argv all_argv connection_argv max_age is_forbidden is_word strip_prefix any show_ℤ
    show_ℕ
args_built = refl

build_argv-delete2_example :
    any is_delete2 (all_argv args)
    ≡ any is_delete2 (inputs args) || (true || any is_delete2 (values IsAllowed.end))
build_argv-delete2_example =
    build_argv-delete2 (λ c. false) args IsAllowed.end (all_argv args) args_built
