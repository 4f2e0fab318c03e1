-- ===== src/Scan.antt =====
-- agent.go `scanOneTx`, outside the baseline mode: the collector reads the complete lines behind its
-- checkpoint, queues the events that they hold, and moves the checkpoint; a scan stops at a budget of
-- lines or bytes. A file is its size and what reading from an offset gives; the parser of a line is a
-- parameter, and so is what the trace of an event says. The checkpoint and the queue change in one
-- transaction, whose failure leaves both as they were, and the clock stands still over it.
pub mod Rounds
pub mod Private
use codex_token_meter.Prelude.{
  ℕ, zero, suc, ◌+◌, ◌-◌, ℤ, pos, ltb_ℤ, String, Bool, true, false, ◌&&◌, ◌||◌, Option, none, some,
  List, [], ◌∷◌, ◌++◌, any, leb, ltb, ◌==◌, text_eq, if◌then◌else◌,
}
use codex_token_meter.Types.{
  EventType, exact_usage, activity, runtime, live_estimate, RunState, blank, idle, running,
  UsageEvent, DeliveryTrace,
}
use codex_token_meter.Ident.{codes, decimal, stable_id}
use codex_token_meter.Ledger.Runtime.{is_idle}

pub record ParseContext : Type 0 where
  pub conversation_id : String
  pub parent_id : String
  pub model : String
  pub effort : String
  pub project_id : String
  pub repo_name : String
  pub turn_id : String
  pub response_id : String
  pub context_window : ℤ

-- A row of the agent's table files, without the path, the times and the parser's version.
pub record FileRow : Type 0 where
  pub offset : ℕ
  pub size : ℕ
  pub generation : ℕ
  pub context : ParseContext
  pub last_counter_total : ℤ
  pub counter_initialized : Bool
  pub runtime_state : RunState

pub record Collected : Type 0 where
  pub row : FileRow
  pub spool : List UsageEvent

-- A complete line: its bytes, the line feed included, and its text.
pub record Line : Type 0 where
  pub bytes : ℕ
  pub text : String

pub record Source : Type 0 where
  pub size : ℕ
  pub lines_from : ℕ → List Line

abbrev pub first_row : String → ℕ → FileRow
first_row sid size = record {
  offset = 0;
  size = size;
  generation = 0;
  context = record {
    conversation_id = sid;
    parent_id = "";
    model = "";
    effort = "";
    project_id = "";
    repo_name = "";
    turn_id = "";
    response_id = "";
    context_window = pos 0;
  };
  last_counter_total = pos 0;
  counter_initialized = false;
  runtime_state = blank;
}

-- A file that is shorter than the checkpoint was rewritten: a new generation from its start.
unfoldable pub opened : ℕ → FileRow → FileRow
opened size r =
    if ltb size r.offset
    then record r {
      offset = 0;
      size = size;
      generation = r.generation + 1;
      last_counter_total = pos 0;
      counter_initialized = false;
    }
    else record r { size = size }

-- `INSERT OR IGNORE INTO spool`.
unfoldable pub enqueue : UsageEvent → List UsageEvent → List UsageEvent
enqueue e spool = if any (λ q. q.event_id == e.event_id) spool then spool else spool ++ e ∷ []

unfoldable pub note_runtime : EventType → UsageEvent → FileRow → FileRow
note_runtime activity e r = record r {
  runtime_state = if is_idle e.run_state then idle else running;
}
note_runtime runtime e r = record r {
  runtime_state = if is_idle e.run_state then idle else running;
}
note_runtime live_estimate e r = record r {
  runtime_state = if is_idle e.run_state then idle else running;
}
note_runtime _ e r = r

-- A total that falls inside an append-only file is a counter that was restarted.
unfoldable pub note_counter : EventType → ℤ → FileRow → FileRow
note_counter exact_usage total r = record r {
  generation =
      if r.counter_initialized && ltb_ℤ total r.last_counter_total
      then r.generation + 1
      else r.generation;
  last_counter_total = total;
  counter_initialized = true;
}
note_counter _ total r = r

module _ (sha256_hex : List ℕ → String)
    (parse : String → ℕ → ParseContext → Option UsageEvent × ParseContext)
    (trace_of : UsageEvent → Option DeliveryTrace) where
  abbrev pub labelled : FileRow → UsageEvent → UsageEvent
  labelled r e = record e {
    source_epoch = pos r.generation;
    event_id = stable_id sha256_hex (codes e.event_id ∷ decimal (pos r.generation) ∷ []);
    trace = trace_of e;
  }

  unfoldable pub queue_event : Option UsageEvent → Collected → Collected
  unfolding enqueue note_runtime note_counter
  queue_event none c = c
  queue_event (some e) c =
      let r = note_counter e.event_type e.counts.total_tokens (note_runtime e.event_type e c.row) in
      record { row = r; spool = enqueue (labelled r e) c.spool }

  -- The body of the loop for a complete line.
  unfoldable pub scan_line : Line → Collected → Collected
  unfolding queue_event
  scan_line line c =
      let (found, context) = parse line.text c.row.offset c.row.context in
      let queued = queue_event found (record c { row = record c.row { context = context } }) in
      record queued { row = record queued.row { offset = c.row.offset + line.bytes } }

  -- `start` and `count` are where the scan began and the lines it has read. The lines that it leaves.
  unfoldable pub scan_lines : Bool → ℕ → ℕ → List Line → Collected → Collected × List Line
  unfolding scan_line
  scan_lines limited start count [] c = (c, [])
  scan_lines limited start count (line ∷ lines) c =
      let next = scan_line line c in
      let more = scan_lines limited start (suc count) lines next in
      if limited && (leb 512 (suc count) || leb 1_048_576 (next.row.offset - start))
      then (next, lines)
      else more

  unfoldable pub scan_one : Source → Bool → Collected → Collected
  unfolding opened scan_lines
  scan_one src limited c =
      let r = opened src.size c.row in
      (scan_lines limited r.offset 0 (src.lines_from r.offset) (record c { row = r })).0

  -- A file that the table does not know is read from its start.
  unfoldable pub scan_new : String → Source → Bool → List UsageEvent → Collected
  unfolding scan_one
  scan_new sid src limited spool =
      scan_one src limited (record { row = first_row sid src.size; spool = spool })
