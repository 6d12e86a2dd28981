-- ===== src/Tests/World.antt =====
-- Test data: the two machines with one imported mailbox, u@a.pl.
use mail_sync_portal.Base.{true, false, none, some, [], ◌∷◌}
use mail_sync_portal.Db.{
  Db, empty_db, Domain, DomainLoginAlias, Credential, Mailbox, ImportRow, existing_updated,
}
use mail_sync_portal.MailDb.{MailDb, VirtualDomain, VirtualMailbox, DomainAlias}
use mail_sync_portal.Panel.Client.{Vm2, World}
use mail_sync_portal.Panel.Mailboxes.{Asking}
use mail_sync_portal.Panel.Requests.{Library}
use mail_sync_portal.Tests.Data.{sync_job}

abbrev pub the_mailbox : Mailbox
the_mailbox = record {
  id = 4;
  domain_id = 1;
  credential_id = 2;
  source_address = "u@a.pl";
  destination_address = "u@a.pl";
  vm2_mailbox_id = some "7";
  provisioning_status = "active";
  quota_mb = 0;
  password_override = false;
  destination_password_encrypted = some "secret";
  source_bytes = 0;
  dest_bytes = 0;
}

abbrev pub the_domain : Domain
the_domain = record {
  id = 1;
  source_domain = "a.pl";
  destination_domain = "a.pl";
  source_imap_host = "imap.a.pl";
  source_imap_port = 993;
  default_quota_mb = 0;
  total_quota_mb = 0;
  is_active = true;
}

abbrev pub the_alias : DomainLoginAlias
the_alias = record { id = 3; domain_id = 1; alias_name = "b.net" }

abbrev pub the_credential : Credential
the_credential = record {
  id = 2;
  domain_id = 1;
  source_username = "u";
  source_password_encrypted = "secret";
  destination_username = "u";
  import_batch_id = none;
  status = "active";
}

abbrev pub imported_row : ImportRow
imported_row = record {
  id = 1;
  import_batch_id = 1;
  raw_row = record {
    source_domain = none;
    source_username = none;
    source_password = none;
    destination_username = none;
    display_name = none;
  };
  match_type = existing_updated;
  is_valid = true;
  validation_errors = [];
  resulting_credential_id = some 2;
}

-- The portal before an import: the mailbox was made by hand.
abbrev pub by_hand : Db
by_hand = record empty_db {
  domains = record { rows = the_domain ∷ []; next_id = 2 };
  domain_login_aliases = record { rows = the_alias ∷ []; next_id = 4 };
  credentials = record { rows = the_credential ∷ []; next_id = 3 };
  mailboxes = record { rows = the_mailbox ∷ []; next_id = 5 };
  sync_jobs = record { rows = sync_job ∷ []; next_id = 2 };
  webmail_sso_enabled = true;
  vm2_host = some "vm2";
}

abbrev pub imported : Db
imported = record by_hand { import_rows = record { rows = imported_row ∷ []; next_id = 2 } }

abbrev pub vm2_mailbox : VirtualMailbox
vm2_mailbox = record {
  id = 7;
  domain_id = 5;
  local_part = "u";
  password_hash = "secret";
  quota_bytes = 0;
  maildir = "a.pl/u";
  is_active = true;
  password_overridden = false;
}

abbrev pub vm2_domain : VirtualDomain
vm2_domain = record { id = 5; name = "a.pl" }

abbrev pub vm2_alias : DomainAlias
vm2_alias = record { id = 9; domain_id = 5; alias_name = "b.net" }

abbrev pub vm2_db : MailDb
vm2_db = record {
  virtual_domains = record { rows = vm2_domain ∷ []; next_id = 6 };
  virtual_domain_aliases = record { rows = vm2_alias ∷ []; next_id = 10 };
  virtual_mailboxes = record { rows = vm2_mailbox ∷ []; next_id = 8 };
}

-- Every path is that of the mailbox 7, and every directory is removed.
abbrev pub vm2 : Vm2
vm2 = record { path_id = λ s. some 7; hash = λ s. s; removed = λ name part. true }

abbrev pub library : Library
library = record { vm2 = vm2; encrypt = λ s. s; sha256 = λ s. s }

abbrev pub world : World
world = record { portal = by_hand; vm2 = vm2_db }

abbrev pub imported_world : World
imported_world = record { portal = imported; vm2 = vm2_db }

abbrev pub asking : Asking
asking = record { actor = 1; now = 100 }
