-- ===== src/Lib.antt =====
-- Codex Token Meter: agents read the session files of Codex and upload counters of tokens; a server
-- keeps a ledger of what each counter added, and shows it. This library models the way of an event
-- from the agent's scan of a file over its spool and an upload to the server's ledger, and from there
-- to the browsers' notification.
--
-- The parts, and the files that model them:
--   Types       types.go, delivery_trace.go, realtime.go: the records on the wire.
--   Counts      server.go `deltaCounts`: the six columns of a counter, their deltas and sums.
--   Valid       server.go `validUsageEvent`.
--   Ident       util.go `stableID`, `tokenHash`; session_grouping.go `legacyMessageID`,
--               `nativeTaskID`.
--   Ledger      server.go `applyEvent` on the tables of database.go. Ledger.Db is the tables, a
--               record with one field for each; Ledger.Runtime is task_runtime.go `applyRuntime`;
--               Ledger.Apply the parents, baselines, estimates and what an exact usage reads;
--               Ledger.Exact the exact usage and `apply_event` itself. The other files of the
--               folder hold what is said of them: Replay, Balance, Rows, Bounds, Watermark,
--               Evidence.
--   Limiter     server.go `ingestAllowed`; handlers.go `loginAllowed`, `recordLoginFailure`.
--   Display     metadata.go `cleanDisplayName`; Projects is the names of projects and parser.go
--               `projectFor`.
--   Traces      delivery_trace.go.
--   Hub         hub.go: the marks, the one-slot channels and `publish`.
--   Fleet       realtime.go `normalized`; handlers.go `hostViews`: thresholds, states of agents.
--   Scan        agent.go `scanOneTx`: checkpoint, generations and queue of one file of an agent.
--               Scan.Private joins it with the parser.
--   Json        parser.go `findStringKey`, `number` and the keys of a decoded line; Json.Redacted is
--               about a line without its texts.
--   Parser      parser.go `parseCodexLine`; Parser.Context is `sourceIdentity` and
--               `updateParseContext`, Parser.Estimate `localEstimateTokens`; Redacted, Named,
--               Emitted, Accepted and Split hold what is said of them.
--   Schedule    agent_schedule.go `scanScheduled`, `rememberScannedFile`; agent.go
--               `scanCodexFiles`: which files a round reads. Due and Noticed are about the paths of
--               a round, Reads and Files about what is read, First about the first round.
--   Retry       agent_schedule.go `agentNetworkLoop`.
--   Upload      agent.go `flushSpool`: the queue goes to the server, in batches.
--   Ingest      server.go `ingest`, which calls the server's parts above: method, decoding,
--               authorization, limiter, one transaction over the events, names, report and
--               revision, then traces and marks.
--   Pricing     pricing.go, accounting_cache.go: price rules, costs of events and ranges
--               (Pricing.Sums), the cache of priced rows (Pricing.Cache); Reference, Coherent and
--               Answers hold what is said of the cache, Rules of the prices.
--   Range       time_range.go `resolveDashboardRange`; snapshot_cache.go `cacheKey`;
--               numeric_stream.go `queryForRange`.
--   Stream      numeric_stream.go: differences of snapshots, the views that browsers follow
--               (Stream.Views), and a browser among other readers (Stream.Sessions).
--   Partial     numeric_incremental.go: the conversations to ask for again, merged rows, totals of
--               projects.
--   Login       handlers.go `loginHandler`, `authenticated`; Login.Enroll is `createEnrollment`,
--               `enrollAgent` and `validEnrollment`.
--   Web         server.go `runServer`'s routes; handlers.go `requireAuth`, `csrf`, `clientIP`,
--               `sessionAPI`, `purchaseAPI`, with Ingest and Login.Enroll behind their routes. Guards
--               and Sound hold what is said of them.
--   Snapshots   snapshot_cache.go `snapshotCache.get`.
--   Watch       agent_watch.go: the paths that wait for a scan; agent_schedule.go `wakeAgent`.
--   Examples    a small database, file and spool, and the theorems applied to them.
--
-- How the code is rendered: a SQL table with a primary key is an association list with `upsert` for
-- INSERT ... ON CONFLICT DO UPDATE; usage_events is a list, newest row first, whose two unique
-- indexes are the test `conflicts`. A Go integer is ℤ; the ledger's sums write no wrap-around, since
-- Ledger.Bounds is about their range, and the one sum of `normalized` that can wrap writes it. A
-- time is a number of nanoseconds. The ids of usage_events are without gaps here, which SQLite's
-- sequence need not be; only their order is read. A transaction is a value that goes on or stops with an answer:
-- stopping drops it, as the rollback does. Which statements SQLite refuses is an argument. The
-- handler holds one mutex over its transaction, so uploads are one after the other; each reads the
-- clock once here, where the source reads it several times.
--
-- A float64 is a value of an abstract type with the operations that the prices use. A snapshot is a
-- record of what the stream compares, its rows being values with a test for equality; building one
-- from the database and encoding a message are arguments. `ORDER BY` and `sort.Slice` are one stable
-- sort. The texts of login are lists of code points.
--
-- Parameters: SHA-256 in hexadecimal (any function), package unicode's tests on characters, the
-- JSON decoding of a body (`none` where it fails), what publishing calls, for a scan the parser of
-- a line and what reading a file gives (the parser is filled by Scan.Private), for the parser the
-- platform's paths, git and the order in which a loop visits a map, for a round of scans the disk and
-- the transaction that reads a file, for an upload the server behind the network, Go's calendar
-- and layouts of times, and for login HMAC, base64, Argon2 and ParseInt. There are two fuels: that
-- of `digits`, 20 digits, enough for a number below 2 ^ 64, and the rounds of `flush_spool`, which
-- loses a row at least in each, so that more rounds than rows are enough.
--
-- Not modelled: the agent's baseline mode and file subscription (agent.go, agent_watch.go), the schedule
-- that the first round leaves and the agent's report of itself (agent_schedule.go), the queries of a
-- snapshot, `numericWindowDue`, the downloads of prices and rates, the commands, and the web interface.
pub mod Prelude
pub mod Types
pub mod Counts
pub mod Ident
pub mod Valid
pub mod Ledger
pub mod Limiter
pub mod Display
pub mod Hub
pub mod Fleet
pub mod Pricing
pub mod Range
pub mod Stream
pub mod Login
pub mod Partial
pub mod Scan
pub mod Upload
pub mod Watch
pub mod Json
pub mod Projects
pub mod Parser
pub mod Schedule
pub mod Retry
pub mod Snapshots
pub mod Web
pub mod Traces
pub mod Ingest
pub mod Examples
