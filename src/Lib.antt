-- ===== src/Lib.antt =====
-- A model of messgr, a multi-tenant service that queues messages of producers and sends them to
-- customers through a provider. The crate is src/; what is modelled is its core, the way of a
-- message from the request to the provider.
--
-- The parts and how they interact. A producer's request is checked and written by the ingest
-- service (src/ingest) to three tables of the tenant's database: idempotency keys, the ledger and
-- the outbox. The dispatcher (src/dispatcher) claims rows of the outbox channel by channel, leaves
-- out what a kill switch holds (src/kill_switch, src/platform_kill_switch), takes each claimed row
-- through its gates, among them the producer's quota (src/producer_quota) and the quiet hours
-- (src/quiet_hours), and sends it or records why not. Receipts of the provider are matched with the
-- sent messages later (src/webhook_receipt, src/orphan_reconcile) and extend the suppression list.
--
-- Base: shared tests, lists and association lists. Zone: the time zones of chrono-tz.
-- Store.Tables: the tables as lists of records, and `World`, in Store.Exec, with the database, the
--   quota tracker, the messages handed to the provider, the clock, and the faults of the
--   statements to come. `Exec` is the result-and-state monad of the async functions; a statement
--   that fails changes nothing, and a transaction that fails is rolled back.
-- KillSwitch: Model is src/kill_switch/model.rs and src/platform_kill_switch/model.rs, Cache is
--   src/kill_switch/cache.rs (`refresh_with_platform`, `blocking_scope`, `exclusion_for_channel`),
--   Radius is `blast_radius` of src/kill_switch/repo.rs, Configure is src/kill_switch/configure.rs
--   (`engage`, `release`).
-- Quota: Tracker and Config are src/producer_quota/tracker.rs (`check_and_record`,
--   `refresh_config`).
-- QuietHours: Window is src/quiet_hours/window.rs (`resolve_reschedule`, `resolve_local`).
-- Dispatcher: Claim and Queries are src/dispatcher/repo.rs, Worker is src/dispatcher/worker.rs
--   (`try_process`, one function per gate), Switches and Drain are src/dispatcher/drain.rs and the
--   callback `on_delta` of src/bin/dispatcher.rs. Outcome says what a row's processing may do.
-- Ingest: Request is the checks of src/ingest/handler.rs, Repo is src/ingest/repo.rs, Create is
--   `create_comms` of src/ingest/handler.rs, from the checks to the insert.
-- Receipts: the provider's receipts. Status and Reconcile are src/orphan_reconcile/reconcile.rs and
--   src/webhook_receipt/promote.rs, Repo is src/orphan_reconcile/repo.rs and
--   src/webhook_receipt/repo.rs.
-- Template: Render is src/template/render.rs; Parts and Split say what a template consists of.
-- Customers: Deks is src/customer_dek, Repo and Resolve are src/customer (`resolve`).
-- Otp: the one-time-password service of src/otp. Service is its state, with the databases of its
--   tenants, its caches and its two files; Provider is provider.rs, Handler is handler.rs, Drain is
--   the drains of buffer.rs and pending.rs.
-- Tests: runs at concrete inputs.
--
-- Bounds and fuel. The gap search of the quiet hours has 242 rounds, one more than it can make in
-- its four hours by the minute. Rendering a template has one round per code point and one more.
-- The drain and claim loops run forever in the program and are given a number of rounds. Uuids are
-- numbers and a fresh one is an argument; instants are milliseconds after the epoch; counters do
-- not overflow within a window.
--
-- Parameters: the time zone database, `Uuid::parse_str`, the random generators, UTF-8 validation,
-- the provider, Vault with the cache of keys, and the row locks that other sessions hold.
-- Encryption and decryption (src/encryption.rs) are functions of the context; the customer keys
-- that a handler gets or creates are those of Customers.Deks, with their rows. A key's `expect`
-- that fails ends the caller with an error. A fragment of a line in a file of the OTP service is
-- taken to be no record. A handler's statements run without those of other sessions in between,
-- except where a definition takes the interference as an argument.
--
-- Not modelled: the operator commands but those on a tenant's kill switches, the approval of
-- templates, the SMS sender, the HTTP side of the webhooks, the query API, the platform console, and
-- the start-up of the processes; logging, timers and wakeups.
pub mod Base
pub mod KillSwitch
pub mod Zone
pub mod Store
pub mod Quota
pub mod QuietHours
pub mod Dispatcher
pub mod Ingest
pub mod Customers
pub mod Otp
pub mod Template
pub mod Tests
pub mod Receipts
