-- ===== src/Ledger/Db.antt =====
-- database.go `migrateServer`: the tables that `ingest` reads and writes. `ingested_events` keeps
-- the event type alone; `usage_events` is newest first, and its ids are those of AUTOINCREMENT (no
-- statement of the program deletes from it).
use codex_token_meter.Prelude.{ℕ, ℤ, String, Bool, Option, List, [], ◌∷◌, Table, max}
use codex_token_meter.Types.{Time, Tally, EventType, RunState, AgentTelemetry}

pub record Agent : Type 0 where
  pub alias : String
  pub token_hash : String
  pub platform : String
  pub last_seen : Option Time
  pub revoked : Bool

-- A row of conversation_counters or of source_counters.
pub record Counter : Type 0 where
  pub epoch : ℤ
  pub tally : Tally
  pub updated_at : Time

pub record UsageRow : Type 0 where
  pub id : ℕ
  pub event_id : String
  pub dedup_key : String
  pub host_id : String
  pub conversation_id : String
  pub parent_conversation_id : Option String
  pub source_file_id : String
  pub byte_offset : ℤ
  pub event_type : EventType
  pub timestamp : Time
  pub turn_id : Option String
  pub response_id : Option String
  pub project_id : String
  pub model : String
  pub reasoning_effort : String
  pub model_context_window : ℤ
  pub raw : Tally
  pub counted : Tally
  pub cache_write_visible : Bool
  pub data_quality : String
  pub parser_version : String
  pub epoch : ℤ
  pub created_at : Time

pub record Session : Type 0 where
  pub parent_conversation_id : Option String
  pub project_id : String
  pub repo_name : String
  pub display_name : Option String
  pub model : String
  pub reasoning_effort : String
  pub model_context_window : ℤ
  pub started_at : Time
  pub last_event_at : Time
  pub status : String
  pub data_quality : String
  pub tally : Tally
  pub live_estimate : ℤ
  pub last_exact_at : Option Time

-- A row of task_runtime. `none` is the text ''.
pub record TaskRuntime : Type 0 where
  pub state : RunState
  pub turn_id : String
  pub evidence_at : Option Time
  pub received_at : Option Time
  pub live_estimate : ℤ
  pub last_exact_at : Option Time

pub record Reconciliation : Type 0 where
  pub host_id : String
  pub conversation_id : String
  pub response_id : String
  pub estimated_tokens : ℤ
  pub exact_output_tokens : ℤ
  pub error_tokens : ℤ
  pub timestamp : Time

pub record MetadataRow : Type 0 where
  pub conversation_name : Option String
  pub project_name : Option String
  pub updated_at : Time

pub record TelemetryRow : Type 0 where
  pub report : AgentTelemetry
  pub received_at : Time

pub record Db : Type 0 where
  pub agents : Table String Agent
  pub ingested_events : Table String EventType
  pub usage_events : List UsageRow
  pub conversation_counters : Table (String × String) Counter
  pub source_counters : Table (String × String) Counter
  pub sessions : Table (String × String) Session
  pub task_runtime : Table (String × String) TaskRuntime
  pub session_metadata : Table (String × String) MetadataRow
  pub reconciliation : List Reconciliation
  pub agent_telemetry : Table String TelemetryRow
  pub ledger_revision : ℕ
  pub last_ledger_at : Option Time

-- `SELECT COALESCE(MAX(id),0) FROM usage_events`.
unfoldable pub max_id : List UsageRow → ℕ
max_id [] = 0
max_id (r ∷ rs) = max r.id (max_id rs)
