-- ===== src/Lib.antt =====
-- The Microtensor miner controller, src/microtensor_miner_controller: a process that watches a
-- coordinator for the current competition round, packages an artifact for it, uploads it, and
-- publishes one commitment to it on chain, with its whole state in a directory of JSON documents.
--
-- The parts and their files:
--   * Errors (errors.py): the exceptions as kinds in a result type; Errors.Ensures, what a chain of
--     checks that returned says of its inputs.
--   * Models (models.py): RoundWindow, PackagedArtifact and the other frozen dataclasses.
--   * Coordinator (coordinator.py): Fields and Signed are the readers of a served document and
--     `_validate_v030_config`; Round and History are the parts of `validate_served_round` in their
--     order; Resolve puts them together and has `resolve_round`. Sound, Strict, Profiled, Follow and Accept are
--     proofs.
--   * Redaction (redaction.py): `sanitize`; Redaction.Laws, reading a sanitized document.
--   * State (state.py): `StateStore`. Read has `_read`, `_read_marker` and `_atomic_json`; Pending
--     and Latch have the two markers; State has the status and health documents. Replace, Agree
--     and Durable are proofs.
--   * Controller (controller.py, over the `Backend` protocol of backend.py): Setup has the
--     configuration, the backend and the documents; Rounds has `_resolve_round`,
--     `_refresh_same_round` and `_assert_deadline`; Local the tests on local and persisted state;
--     Verify has `_verified` and `_reverify`; Reconcile has `_reconcile_pending`; Submit has
--     `_submit`, cut at its try blocks; Cycle has `preflight`, `cycle` and the latch; Failure has
--     the handlers that record a failure; Run has `preflight_only` and `run`. Quiet, Harmless, Loud,
--     LoudCycle and RunKeeps say which invariants the parts keep; ReadOnly, Latched, Publish, Stops,
--     Refused, Exits, Returned, Evidence, Marked, Proved, Reconciled, RunEnds and RunSafety are the properties.
--   * Config (config.py): Environment has the readers of one setting, Template the source template,
--     Source the coordinates of a release and `source_for`, Validate `_validate`, Load `from_env`.
--     Safe, Bounds, Rendered and Refusals are the properties.
--   * Protected (protected_file.py): `read_root_service_file`, with its checks as parameters so that
--     the gate's reader shares them. Content, Sound, Ends, Kinds and Root are the properties.
--   * EnvFile (envfile.py): `load_env_file`; Wins, RoundTrip and Outcome are the properties.
--   * Gate (upstream_gate.py): Status has the checks of the observer's status, Gate the reading of
--     the file; Json.Strict the rejection of a repeated key. Sound is the property.
--   * Release (github_release.py): Wire has the requests and answers, Coordinates, Prepare, Lookup
--     and Assets the steps of `publish`, which is in Publish. Keeps, Listed, Shown are the rules of
--     the steps; Careful, Proven, Complete and Source are the properties.
--   * Chain (backend.py): Objects has the chain client's objects and
--     `_authorization_integer`, Node the interface and the record of the steps, Checks and Policy the
--     live policy, the registration and the chain's identity, Envelope and Quote the tests of the
--     signed extrinsic and of the first estimate, Submit `_submit_authorized_commitment`, Publish
--     `publish` around it. Facts, Trail and Rules say what a record of steps shows; Stages, Rechecks
--     and Whole go through the stages. Client has the methods that read the chain, the round and the
--     selfcheck, Backend `MicrotensorBackend` as the backend of the controller. Answers, Methods, Reads
--     and Calls are the rules of those calls; Anchored, Fitting and Seen are what they have checked;
--     Costless, Confirmed, Receipt, Composed and Trusted are the properties, the last two of the
--     controller over this backend.
--   * Leaderboard (leaderboard.py): `parse_leaderboard`; Leaderboard.Fair is the property.
--   * Json has the values of a decoded document with Python's comparisons and truth; Base has the
--     names that all share; System has the state that an action of the controller works on.
--
-- How the state is modelled. `System.Sys` is the state directory (one `File` for each document: it
-- may be absent, no regular file, unreadable, no UTF-8, no JSON), a world behind the backend of any
-- type, and the record of the backend's calls, the latest first, each with the directory at the
-- moment of the call and whether it returned. An action returns a value or raises, and a raise does
-- not undo what was written. A replacement or removal of a file takes effect, or raises before it,
-- or raises after it (the directory's `fsync`), as the world decides.
--
-- Parameters, for what is not the program's own code: `Json.Python` (floats as bit patterns, `repr`,
-- `json.dumps`, SHA-256), `System.Host` (clock, process id, time stamps, the file system's effects),
-- `Controller.Setup.Backend` (the backend's methods and the coordinator's fetcher, any functions of
-- the world that may raise anything), the disk that a protected file is read from, the resolution of the
-- environment file's path, and
-- `Release.Wire.Services` (the transport of the release API, the assets on disk, `casefold`, `quote`
-- and the guess of a content type), `Chain.Node.Node` (the Substrate interface, the installed
-- distributions, the equality of objects that are no plain values), `Chain.Client.Client` (the chain
-- client, the subnet's schedule of rounds and verdict on provenance, the selfcheck on disk),
-- `Chain.Publish.Package` (the encoding of a commitment) and `Chain.Backend.Upstream` (the methods of
-- the backend that are not modelled; they move the world, but submit nothing). `Redaction.Redactor`
-- stands for `redact_text` and `safe_source`.
--
-- Bounds and fuel: block heights, indices and sizes are Python's unbounded integers, here ℤ. The
-- loops on fuel are the decimal print of a number, whose fuel exceeds its count of digits; the loop
-- of reads of a protected file, whose fuel is its limit and two, since every chunk but the last has
-- a byte; and the loops of `run`, whose fuel any number may stand for, since the process may go on
-- for ever: with `--once` one turn of each is enough. The lookups of releases and of assets stop
-- after 100 pages, as the code does; the reads of the commitment after `verify_attempts`.
--
-- Not modelled: the lock of the state directory, the age of the health document, the rank monitor
-- around `parse_leaderboard`, the HTTP requests of the coordinator, of the release API and of the
-- leaderboard, the rest of the chain backend (backend.py: the preflight, the packaging, the upload, the
-- verification of the source), the upstream observer, the artifact bindings, the command line and the training
-- scripts. Logging and the modes of written files are left out. Keys of documents are compared as ASCII
-- where a key is tested for a secret's name. A JSON document that was written reads back as itself.
pub mod Base
pub mod Json
pub mod Errors
pub mod Models
pub mod Coordinator
pub mod Config
pub mod Protected
pub mod Gate
pub mod EnvFile
pub mod Redaction
pub mod System
pub mod State
pub mod Controller
pub mod Release
pub mod Chain
pub mod Leaderboard
mod Tests
