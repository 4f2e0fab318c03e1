-- ===== src/Ingest.antt =====
-- server.go `ingest`: one upload of an agent, from the request to the response. The decoding of the
-- body is the request's (`none` where it fails, the size limit included); which statements SQLite
-- refuses is an argument. The clock is read once, and nothing else holds the locks.
pub mod Atomic
pub mod Sound
pub mod Replays
use Prim.Native.String.{len}
use codex_token_meter.Prelude.{
  ℕ, suc, ◌+◌, String, Bool, true, false, not, ◌&&◌, ◌||◌, Option, none, some, List, [], ◌∷◌, ◌++◌,
  Table, lookup, upsert, modify, length, ltb, eqb, ◌==◌, if◌then◌else◌, text_eq, pair_eq,
}
use codex_token_meter.Types.{
  Time, UsageEvent, SessionMetadata, AgentTelemetry, IngestBatch, DeliveryTrace,
}
use codex_token_meter.Ident.{token_hash, trim_prefix, nullstr}
use codex_token_meter.Valid.{valid_usage_event}
use codex_token_meter.Display.{Unicode, clean_display_name}
use codex_token_meter.Limiter.{ingest_allowed}
use codex_token_meter.Hub.{Hub, mark, mark_numbers, mark_tasks}
use codex_token_meter.Traces.{add_traces}
use codex_token_meter.Ledger.Db.{Agent, Db, TelemetryRow, max_id}
use codex_token_meter.Ledger.Exact.{apply_event}
use codex_token_meter.Ledger.Replay.{seen}

pub record Server : Type 0 where
  pub db : Db
  pub ingest_times : Table String (List Time)
  pub hub : Hub
  pub traces : List DeliveryTrace

pub record Request : Type 0 where
  pub method : String
  pub body : Option IngestBatch
  pub authorization : String

pub data Response : Type 0 where
  refused : ℕ → String → Response
  accepted : ℕ → ℕ → Response

-- The statements of a transaction that fail, if any: `query` is the question whether an event is known,
-- `begins` and `commit` stand for the queries of the ledger's last id as well. The update of `last_seen` is not looked at by the source, and succeeds.
pub record Faults : Type 0 where
  pub begins : Bool
  pub query : UsageEvent → Bool
  pub event : UsageEvent → Bool
  pub metadata : SessionMetadata → Bool
  pub telemetry : Bool
  pub state : Bool
  pub commit : Bool

-- A step of the transaction: it goes on, or the handler answers and rolls back.
pub data Outcome {ℓ} (A : Type ℓ) : Type ℓ where
  go_on : A → Outcome A
  stop : ℕ → String → Outcome A

infixl 5 ◌>>=◌
abbrev pub ◌>>=◌ {ℓ κ} : {A : Type ℓ} {B : Type κ} → Outcome A → (A → Outcome B) → Outcome B
go_on a >>= f = f a
stop status text >>= f = stop status text

abbrev pub is_empty {ℓ} : {A : Type ℓ} → List A → Bool
is_empty [] = true
is_empty (x ∷ xs) = false

-- What the loop over the events carries.
pub record Progress : Type 0 where
  pub db : Db
  pub changed : Bool
  pub fresh : List UsageEvent

module _ (sha256_hex : List ℕ → String) (u : Unicode) (faults : Faults) (now : Time) where
  unfoldable pub take_event : UsageEvent → Progress → Progress
  take_event e p =
      let exists = seen e.event_id p.db in
      record {
        db = apply_event sha256_hex now e p.db;
        changed = p.changed || not exists;
        fresh = if exists then p.fresh else p.fresh ++ e ∷ [];
      }

  unfoldable pub take_events : String → List UsageEvent → Progress → Outcome Progress
  take_events host [] p = go_on p
  take_events host (e ∷ es) p =
      let rest = take_events host es (take_event e p) in
      if not (e.host_id == host) || not (valid_usage_event e)
      then stop 403 "host mismatch"
      else if faults.query e
      then stop 500 "db"
      else if faults.event e
      then stop 500 "ingest failed"
      else rest

  -- `applySessionMetadata`; `none` is an error.
  unfoldable pub apply_session_metadata : String → SessionMetadata → Db → Option Db
  apply_session_metadata host item db =
      let name = clean_display_name u item.conversation_name 100 in
      let project = clean_display_name u item.project_name 100 in
      let row = record db {
        session_metadata =
            upsert (host, item.conversation_id)
              (λ _. record {
                conversation_name = nullstr name;
                project_name = nullstr project;
                updated_at = now;
              })
              db.session_metadata;
      } in
      if item.conversation_id == "" || ltb 256 (len item.conversation_id)
      then none
      else if name == "" && project == ""
      then some db
      else if faults.metadata item
      then none
      else some row

  unfoldable pub take_metadata : String → List SessionMetadata → Db → Outcome Db
  take_metadata host [] db = go_on db
  take_metadata host (item ∷ items) db = elim (apply_session_metadata host item db) [
    | none ↦ stop 500 "metadata ingest failed"
    | some db' ↦ take_metadata host items db'
  ]

  -- A report of another process, or a later one of the same, replaces the stored one.
  unfoldable pub newer_report : AgentTelemetry → Option TelemetryRow → Bool
  newer_report t none = true
  newer_report t (some old) =
      not (old.report.agent_epoch == t.agent_epoch) || ltb old.report.report_seq t.report_seq

  unfoldable pub store_report : String → AgentTelemetry → Db → Db
  store_report host t db = record db {
    agent_telemetry =
        upsert host (λ _. record { report = t; received_at = now }) db.agent_telemetry;
  }

  unfoldable pub take_telemetry : String → Option AgentTelemetry → Db → Outcome Db
  take_telemetry host none db = go_on db
  take_telemetry host (some t) db =
      if newer_report t (lookup host db.agent_telemetry)
      then if faults.telemetry then stop 500 "telemetry" else go_on (store_report host t db)
      else go_on db

  unfoldable pub touch_agent : String → Db → Db
  touch_agent host db = record db {
    agents = modify host (λ a. record a { last_seen = some now }) db.agents;
  }

  -- The update of realtime_state: both right-hand sides read the row as it was.
  unfoldable pub advance_ledger : Db → Db
  advance_ledger db = record db {
    last_ledger_at =
        if ltb db.ledger_revision (max_id db.usage_events) then some now else db.last_ledger_at;
    ledger_revision = max_id db.usage_events;
  }

  unfoldable pub finish : Db → Outcome Db
  finish db =
      let advanced = advance_ledger db in
      if faults.state
      then stop 500 "db"
      else if faults.commit
      then stop 500 "db"
      else go_on advanced

  -- Behind the events: the names, the agent's row and report, the revision, the commit.
  unfoldable pub take_rest : IngestBatch → Progress → Outcome Progress
  take_rest b p = do
    named ← take_metadata b.host_id b.metadata p.db
    told ← take_telemetry b.host_id b.telemetry (touch_agent b.host_id named)
    committed ← finish told
    go_on (record p { db = committed })

  -- The transaction: the new database, and what the loop found.
  unfoldable pub transaction : IngestBatch → Db → Outcome Progress
  transaction b db = do
    opened ← if faults.begins then stop 500 "db" else go_on db
    p ← take_events b.host_id b.events (record { db = opened; changed = false; fresh = [] })
    take_rest b p

  -- Heartbeats update freshness, not history; replays do not advance data.
  unfoldable pub notify : IngestBatch → Db → Progress → Hub → Hub
  notify b before p h =
      let data_marked =
        if not (is_empty b.metadata)
        then mark h
        else if not (eqb (max_id p.db.usage_events) (max_id before.usage_events))
        then mark_numbers h
        else h in
      if p.changed || not (is_empty b.metadata) then mark_tasks data_marked else data_marked

  abbrev pub conclude : Server → IngestBatch → Outcome Progress → Server × Response
  conclude s b (stop status text) = (s, refused status text)
  conclude s b (go_on p) = (
    record s {
      db = p.db;
      hub = notify b s.db p s.hub;
      traces = add_traces p.fresh now now s.traces;
    },
    accepted (length b.events) (length b.metadata),
  )

  unfoldable pub bad_batch : IngestBatch → Bool
  bad_batch b = b.host_id == "" || ltb 256 (length b.events) || ltb 256 (length b.metadata)

  unfoldable pub authorized : Option Agent → String → Bool
  authorized none authorization = false
  authorized (some a) authorization =
      not a.revoked && a.token_hash == token_hash sha256_hex (trim_prefix authorization "Bearer ")

  -- Behind the method and the decoding.
  unfoldable pub ingest_batch : Server → IngestBatch → String → Server × Response
  ingest_batch s b authorization =
      let limited = ingest_allowed b.host_id now s.ingest_times in
      let counted = record s { ingest_times = limited.0 } in
      if bad_batch b
      then (s, refused 400 "bad batch")
      else if not (authorized (lookup b.host_id s.db.agents) authorization)
      then (s, refused 401 "unauthorized")
      else if not limited.1
      then (counted, refused 429 "rate limited")
      else conclude counted b (transaction b s.db)

  unfoldable pub ingest : Server → Request → Server × Response
  ingest s r = if not (r.method == "POST") then (s, refused 405 "method") else elim r.body [
    | none ↦ (s, refused 400 "bad batch")
    | some b ↦ ingest_batch s b r.authorization
  ]
