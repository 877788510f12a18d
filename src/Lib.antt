-- ===== src/Lib.antt =====
-- Verification of the reputation platform: the core of its API, of its workflows and of its packages.
--
-- The API (apps/api) keeps the snapshots, each of them one computation of a reputation algorithm, and
-- starts a Temporal workflow for each. The workflows (apps/workflows) compute the scores, from data
-- that packages synchronise into a database, and report to the API through activities. The parts are
-- modelled as functions on explicit states; a call that throws gives a result type or an option.
--
-- Prelude: names and helpers that the modules share.
-- Storage.Keys: packages/storage/src/shared/utils/keys.ts. `generate_key`, `parse_storage_key` and
--   the functions they call stand for those of the same names; a text is a list of code units.
-- Snapshot.Status, Repository, Service, Reconciler: apps/api/src/snapshot. The state is the table of
--   rows, each with its outputs and publications; `apply_external_update`, `upsert_publication`,
--   `create`, `delete_by_id`, `launch_snapshot_workflow` and `reconcile` stand for the methods of
--   these names. A transaction on a locked row is one function, so writers that run at the same
--   time give some sequence of them. Rows, Repeats, Progress, Stamps, Launch, Pass, Served,
--   Settling, Listed, Settled and Spared hold the proofs.
-- Sessions: apps/api/src/sessions/auth-session.repository.ts, on the list of session rows. Active
--   holds the proofs.
-- Admin.Allowlist, Service: apps/api/src/admin, and the user that `findByProviderEmail` finds. The
--   state holds the allowlist, the users and the sessions, whose `revoke_all_by_user_id` a removal
--   calls. The normalization and the test of an e-mail address are parameters. Counts, Owners,
--   Administered and Removal hold the proofs.
-- Tokens.Lots, Transfers: the token-value-over-time algorithm of apps/workflows/src/activities.
--   Amounts are doubles (Values.Numbers). `consume_loop` has one unit of fuel for each lot and two
--   more, since a turn removes a lot or uses up the amount; the loop over pages needs as much fuel as
--   there are pages. Fifo, Replay and Pages hold the proofs.
-- Tokens.Firsts, Resources, Normalize: utils/resource-catalog.ts and normalizers/evm.ts of the same
--   algorithm. `firsts` is the loop over a `seen` set that they share; lower case, and what JSON and
--   number formatting give, are parameters. Selection holds the proofs.
-- Onchain.Evm, Sync: packages/onchain-data/src/adapters/evm. A block is the number that its string
--   denotes. The provider is a parameter: the pages that it yields for a range, and whether it then
--   throws. Inserts, Batches, Synced and Again hold the proofs.
-- Onchain.Cardano, CardanoSync: packages/onchain-data/src/adapters/cardano. The provider's pages,
--   whether it then throws, and what it answers for the UTXOs of a hash, are parameters; which of
--   several requests that fail at the same time is reported is left out. CardanoPages and CardanoResume hold the
--   proofs.
-- Workflow.Readiness, Lifecycle: apps/workflows/src/workflows/encryption-readiness.ts and
--   encrypted-custom-score.ts. The timers and activities are parameters, of which it is assumed only
--   that nothing ends before it starts. A wait has 26 turns, at most one an hour after
--   the first two; a run is given 1,441 rounds, of a minute at least before the deadline. Deadline
--   and Rounds hold the proofs.
--
-- Orchestrator.Model, Presets, Targets, Community, Phases, Run: the run of one snapshot,
--   apps/workflows/src/workflows/orchestrator.workflow.ts, and the helpers in
--   apps/workflows/src/shared/utils that it calls. A computation gets and returns the state of the
--   run with the list of the calls made so far, the newest first; an activity answers as a
--   parameter says of that list, so it may answer in any way at any time. Concurrent calls
--   are listed one dependency after the other, each of them started, and a parameter says which of
--   several failures comes first. The encryption lifecycle, modelled in Workflow, is one call here.
--   Times are milliseconds since 1970. Traces, Resolving, Settled, Ordered, Gates, Described,
--   Published, Collected, Children and Windows hold the proofs.
-- Storage.Objects, Bulk: packages/storage/src/storage.ts. The client of the object store is a
--   parameter. A deletion has one unit of fuel for each batch, a listing one for each page. Checked
--   and Batches hold the proofs.
-- Values: values of JavaScript whose type the programs do not know. A number is a sign, a whole
--   part and a count of 2 ^ -1074, which every finite double is a multiple of; Numbers has the
--   arithmetic, whose subtraction rounds to 53 bits.
-- Validator.Wallets, CsvTexts, Csv, Properties, Presets, Payloads, Files, Nested:
--   packages/algorithm-validator/src/json-validation.ts, csv-validation.ts, validation.ts and
--   preset-validation.ts. An error is a constructor where the source prints a sentence. A definition
--   has the source's types, so what `getFieldOptions` and `getFieldResourceCatalog` drop as malformed
--   does not occur. The schemas, which zod interprets, patterns, `toLowerCase` and `JSON.parse` are
--   parameters. A preset is validated down to a depth of nesting. Passed, WalletFiles, CsvFiles, Keys,
--   Accepted, Opened, Selected, Offered, Valid and Depth hold the proofs.
--
-- The modules whose names end in Examples hold concrete data and tests.
--
-- Not modelled: controllers, views, listings and log lines; the object store, the databases and
-- Temporal themselves; the user interface; clients of remote services; the community datasets; the
-- schemas of payloads.
pub mod Prelude
pub mod Storage
pub mod Snapshot
pub mod Sessions
pub mod Admin
pub mod Tokens
pub mod Onchain
pub mod Workflow
pub mod Values
pub mod Orchestrator
pub mod Validator
