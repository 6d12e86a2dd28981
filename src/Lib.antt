-- ===== src/Lib.antt =====
-- A model of the mail synchronisation portal: a panel that imports mailboxes, provisions them on a
-- mail server and copies their mail with imapsync, over two machines, VM1 and VM2.
--
-- The parts, their files here and the code:
--   Db                   app/portal_app/models: the tables as records, a table as the list of its rows
--                        in the order of insertion with the next id; the state of the database.
--   Queue/Query          queries of `job_queue` that several parts make.
--   Queue/Throttle       services/throttle_service.py: when a synchronisation may start.
--   Queue/Worker         workers/worker_main.py: `_claim_next_job` is `claim_next_job`, `_finish_job` is
--                        `finish_job`, `_reap_orphans` is `reap_orphans`, and one pass of the loop of
--                        `run_forever` is `iteration`. Its modules: Order, Claim, Rows, Lifecycle.
--   Queue/Handlers       workers/handlers: `provision`, Sync.`sync` and Updates.`system_update` are the
--                        `handle` functions; Updates/Ends and Laws say what they do to their tables.
--   Queue/Scheduler      workers/scheduler_main.py: `run_once`.
--   Queue/System         all of these as processes: any order of passes, scheduler runs and requests, with
--                        a worker that may be killed within a pass and started again, is a value of
--                        `Reach`.
--   Imapsync/Shlex       the splitting of a text as `shlex.split` does it.
--   Imapsync/Flags       services/imapsync_flags.py: the gate for the flags of the administrator.
--   Imapsync/Runner      services/imapsync_runner.py: `build_argv` with its last check.
--   Imapsync/Stats       the same file: the counts and the errors read from imapsync's log.
--   Imports/Columns      services/xls_parser.py: from a sheet to rows.
--   Imports/Service      services/import_service.py, `upsert_mailbox`, with Upsert and Keys.
--   Imports/Batch        services/import_service.py, `stage_batch` and `commit_batch`.
--   Audit/Chain          services/audit_service.py and vm2_api/vm2_api/audit.py: the chain of hashes.
--   MailDb               vm2_api/vm2_api/services/postfix_dovecot_admin.py: the mail database of VM2.
--   MailDb/Directory     the same database as a map from domains and local parts, its specification.
--   SystemControl        vm2_api/vm2_api/services/system_control.py: packages, scans and restarts of VM2.
--   ScanFindings         vm2_api/vm2_api/services/scan_findings.py: what the scanners found; in Alerts the
--                        alert of workers/environment_check_main.py on it.
--   Accounts             routers/settings_users.py and `require_login` of deps.py; in Login the requests of
--                        routers/auth.py over a session, with the recovery codes of totp_service.py.
--   Panel/Client         services/vm2_client.py, vm2_api/vm2_api/routers: the calls of VM2's mail database
--                        over a network that may lose a call or its answer.
--   Panel                routers/mailboxes.py in Mailboxes, Passwords, Deletion and Webmail (there with the
--                        plugin of Roundcube, templates/roundcube/plugins/portal_sso), all of them in
--                        Requests; routers/domains.py in Domains, with the names it takes in Domains/Names;
--                        routers/settings_updates.py in Updates, services/app_update.py in AppUpdate;
--                        the other settings in Settings; the state of running jobs in Live.
--   Base, Tests          shared tests, lists and texts; the theorems at concrete inputs.
-- Paths without a machine's folder are under app/portal_app.
--
-- The parts meet in the database: a request or an import adds a mailbox with a provision job, the
-- worker's handler calls VM2 and adds the first synchronisation, the scheduler adds the later ones, and
-- the worker runs them as far as the throttle lets it.
--
-- A transaction is a function from a database to a database; one that raises gives the old database
-- back. Numbers are the native ℕ, an int of Python that may be negative is ℤ, times are seconds,
-- and a subtraction of ℕ that stops at 0 stands only where the code takes `max(0, …)` or slices a
-- list. The only fuel is that of `show_ℕ`, which is the number itself.
--
-- Parameters, because their code is not in the repository: the cipher of passwords, SHA-256 with
-- JSON, what the database gives back of fields of a log, reading JSON, argon2 and SHA512-CRYPT,
-- lower-casing, what `\w` matches beyond ASCII, the rows that another transaction holds, the
-- deletion of an account by the object-relational mapper, the helper programs, the run of imapsync,
-- the tokens drawn at random, the addresses of clients and the network between the panel and VM2.
-- Some theorems have hypotheses on them: a comparison of hashes decides equality; an entry of a log
-- has the same hash as it is given and as it is read back; a deletion of an account removes its row
-- and no other account; and normalizing the name of an alias twice is normalizing it once.
--
-- Not modelled: the pages that only read, the texts of the answers, the lengths of columns, the
-- configuration of machines (TLS, nginx, branding, network), the archive of an import, the other
-- alerts and log lines. The transactions of other processes during the run of a handler are not
-- modelled. A worker that is killed within a pass leaves the claim and what its handler has
-- appended to the queue until then.
pub mod Base
pub mod Db
pub mod Imapsync
pub mod Audit
pub mod Imports
pub mod MailDb
pub mod Panel
pub mod SystemControl
pub mod ScanFindings
pub mod Accounts
pub mod Queue
pub mod Tests
