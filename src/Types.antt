-- ===== src/Types.antt =====
-- types.go: what the agent sends and the server stores. A time is the number of nanoseconds since
-- Go's zero time; a text column that holds a time or '' is an `Option`. Numbers of the wire are ℤ,
-- since nothing bounds them before `validUsageEvent` does.
use codex_token_meter.Prelude.{ℕ, ℤ, String, Bool, Option, List}

abbrev pub Time : Type 0
Time = ℕ

-- The six numeric columns of a counter, a ledger row or a session.
pub record Tally : Type 0 where
  pub input_tokens : ℤ
  pub cached_input_tokens : ℤ
  pub cache_write_input_tokens : ℤ
  pub output_tokens : ℤ
  pub reasoning_output_tokens : ℤ
  pub total_tokens : ℤ

pub record TokenCounts : Type 0 where
  pub tally : Tally
  pub open tally use *
  pub cache_write_visible : Bool

-- The values of `event_type` that the source compares with; any other text is `other`.
pub data EventType : Type 0 where
  baseline exact_usage live_estimate activity runtime : EventType
  other : String → EventType

-- The values of `runtime_state`: `blank` is '', and `unknown` is stored for a task with no evidence.
pub data RunState : Type 0 where
  blank unknown running idle : RunState
  stated : String → RunState

-- Numeric evidence of a delivery, without the two durations in milliseconds (floats, display only).
pub record DeliveryTrace : Type 0 where
  pub event_id : String
  pub source_id : String
  pub conversation_id : String
  pub offset : ℤ
  pub kind : EventType
  pub source_at : Time
  pub observed_at : Time
  pub queued_at : Time
  pub sent_at : Time
  pub received_at : Time
  pub committed_at : Time

pub record UsageEvent : Type 0 where
  pub event_id : String
  pub host_id : String
  pub source_file_id : String
  pub byte_offset : ℤ
  pub source_epoch : ℤ
  pub event_type : EventType
  pub timestamp : Time
  pub conversation_id : String
  pub parent_conversation_id : String
  pub turn_id : String
  pub response_id : String
  pub project_id : String
  pub repo_name : String
  pub model : String
  pub reasoning_effort : String
  pub model_context_window : ℤ
  pub counts : TokenCounts
  pub data_quality : String
  pub parser_version : String
  pub live_estimate : ℤ
  pub run_state : RunState
  pub trace : Option DeliveryTrace

pub record SessionMetadata : Type 0 where
  pub conversation_id : String
  pub conversation_name : String
  pub project_name : String

-- The fields of `AgentTelemetry` that the server reads, and the rest of the report as a text.
pub record AgentTelemetry : Type 0 where
  pub agent_epoch : String
  pub report_seq : ℕ
  pub pending_events : ℤ
  pub retry_remaining_ms : ℤ
  pub scan_age_ms : ℤ
  pub scan_failed : Bool
  pub upload_failed : Bool
  pub remaining_fields : String

pub record IngestBatch : Type 0 where
  pub host_id : String
  pub events : List UsageEvent
  pub metadata : List SessionMetadata
  pub telemetry : Option AgentTelemetry
