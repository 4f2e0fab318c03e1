-- ===== src/Examples.antt =====
-- A small database, events and a batch, on which the theorems of the other files are applied.
pub mod Books
pub mod Uploads
pub mod Parts
pub mod Browsers
pub mod Scans
pub mod Outbox
pub mod Fleet
pub mod Logins
pub mod Rows
pub mod Streams
pub mod Ranges
pub mod Prices
pub mod Lines
pub mod Rounds
pub mod Snapshots
pub mod Access
use codex_token_meter.Prelude.{
  ℕ, zero, suc, ◌*◌, ◌%◌, ◌+◌, ℤ, pos, String, true, false, none, some, List, [], ◌∷◌, ◌++◌,
}
use codex_token_meter.Types.{
  Time, Tally, TokenCounts, exact_usage, activity, blank, UsageEvent, IngestBatch,
}
use codex_token_meter.Ident.{token_hash}
use codex_token_meter.Ledger.Db.{Agent, Counter, Db}

abbrev marks : ℕ → String
marks zero = String.[]
marks (suc n) = String.◌∷◌ "i" (marks n)

abbrev pub weigh : List ℕ → ℕ
weigh [] = 7
weigh (c ∷ cs) = (c + weigh cs * 31) % 101

-- In place of SHA-256: a number below 101, in tally marks.
abbrev pub small_hash : List ℕ → String
small_hash cs = marks (weigh cs)

abbrev pub total : ℕ → TokenCounts
total n = record {
  tally = record {
    input_tokens = pos n;
    cached_input_tokens = pos 0;
    cache_write_input_tokens = pos 0;
    output_tokens = pos 0;
    reasoning_output_tokens = pos 0;
    total_tokens = pos n;
  };
  cache_write_visible = false;
}

-- An exact usage of the task "task" in the file "file" of the host "host".
abbrev pub usage : String → String → ℕ → ℕ → Time → UsageEvent
usage id turn epoch n at = record {
  event_id = id;
  host_id = "host";
  source_file_id = "file";
  byte_offset = pos 0;
  source_epoch = pos epoch;
  event_type = exact_usage;
  timestamp = at;
  conversation_id = "task";
  parent_conversation_id = "";
  turn_id = turn;
  response_id = "";
  project_id = "p";
  repo_name = "r";
  model = "m";
  reasoning_effort = "";
  model_context_window = pos 0;
  counts = total n;
  data_quality = "EXACT";
  parser_version = "codex-jsonl-v2";
  live_estimate = pos 0;
  run_state = blank;
  trace = none;
}

abbrev pub agent : Agent
agent = record {
  alias = "laptop";
  token_hash = token_hash small_hash "t";
  platform = "linux";
  last_seen = none;
  revoked = false;
}

abbrev pub no_events : Db
no_events = record {
  agents = ("host", agent) ∷ [];
  ingested_events = [];
  usage_events = [];
  conversation_counters = [];
  source_counters = [];
  sessions = [];
  task_runtime = [];
  session_metadata = [];
  reconciliation = [];
  agent_telemetry = [];
  ledger_revision = 0;
  last_ledger_at = none;
}

-- The source stands at 100 tokens of its first epoch.
abbrev pub mark : Counter
mark = record { epoch = pos 0; tally = (total 100).tally; updated_at = 1 }

abbrev pub started : Db
started = record no_events { source_counters = (("host", "file"), mark) ∷ [] }

-- A rise, the same event again, a smaller total, and a new epoch of the file.
abbrev pub run : List (Time × UsageEvent)
run =
    (10, usage "a" "t1" 0 150 5)
    ∷ (11, usage "a" "t1" 0 150 5)
    ∷ (12, usage "b" "t2" 0 120 6)
    ∷ (13, usage "c" "t3" 1 40 7)
    ∷ []

abbrev pub batch : IngestBatch
batch = record {
  host_id = "host";
  events = record (usage "a" "t1" 0 0 5) { event_type = activity } ∷ [];
  metadata = [];
  telemetry = none;
}
