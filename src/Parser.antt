-- ===== src/Parser.antt =====
-- parser.go `parseCodexLine`: the event of a line, if it has one, and the context behind it. The
-- decoder of JSON and of a time, the platform, Unicode's tables and the order of a walk are parameters.
pub mod Estimate
pub mod Context
pub mod Redacted
pub mod Named
pub mod Emitted
pub mod Split
pub mod Accepted
use codex_token_meter.Prelude.{
  ℕ, ℤ, pos, String, Bool, true, false, not, ◌&&◌, ◌||◌, Option, none, some, List, [], ◌∷◌, map,
  ltb, eqb, ◌==◌, text_eq, if◌then◌else◌,
}
use codex_token_meter.Types.{
  Time, Tally, TokenCounts, EventType, exact_usage, activity, live_estimate, RunState, blank, idle,
  running, UsageEvent,
}
use codex_token_meter.Ident.{codes, decimal, stable_id}
use codex_token_meter.Projects.{Platform}
use codex_token_meter.Json.{
  Fields, end, text_at, object_at, number_at, Json, value_at, number, or_blank,
}
use codex_token_meter.Scan.{ParseContext}
use codex_token_meter.Parser.Estimate.{Scripts, local_estimate_tokens}
use codex_token_meter.Parser.Context.{Reader, update_parse_context, find_string_key, or_else}

abbrev pub parser_version : String
parser_version = "codex-jsonl-v2"

-- `c.X, _ = number(m[key])`: a key without a number counts as 0.
unfoldable pub count_at : String → Fields → ℤ
unfolding number_at
count_at key m = or_else (number_at key m) (pos 0)

abbrev pub is_known : Option ℤ → Bool
is_known (some n) = true
is_known none = false

unfoldable pub counts_from_map : Fields → TokenCounts
unfolding count_at number_at
counts_from_map m = record {
  tally = record {
    input_tokens = count_at "input_tokens" m;
    cached_input_tokens = count_at "cached_input_tokens" m;
    cache_write_input_tokens = count_at "cache_write_input_tokens" m;
    output_tokens = count_at "output_tokens" m;
    reasoning_output_tokens = count_at "reasoning_output_tokens" m;
    total_tokens = count_at "total_tokens" m;
  };
  cache_write_visible = is_known (number_at "cache_write_input_tokens" m);
}

abbrev no_counts : TokenCounts
no_counts = record {
  tally = record {
    input_tokens = pos 0;
    cached_input_tokens = pos 0;
    cache_write_input_tokens = pos 0;
    output_tokens = pos 0;
    reasoning_output_tokens = pos 0;
    total_tokens = pos 0;
  };
  cache_write_visible = false;
}

abbrev pub with_total : Fields → Option Fields → Option (Fields × Fields)
with_total info none = none
with_total info (some total) = some (info, total)

abbrev pub from_info : Option Fields → Option (Fields × Fields)
from_info none = none
from_info (some info) = with_total info (object_at "total_token_usage" info)

-- `payload["info"]["total_token_usage"]`, with the `info` that holds it.
unfoldable pub usage_of : Fields → Option (Fields × Fields)
unfolding object_at
usage_of payload = from_info (object_at "info" payload)

-- The state that an `event_msg` states.
unfoldable pub run_state_of : String → String → RunState
run_state_of record_type payload_type =
    if record_type == "event_msg"
    then (if payload_type == "task_started" || payload_type == "turn_started"
        then running
        else if payload_type == "task_complete"
            || payload_type == "turn_completed"
            || payload_type == "turn_aborted"
            || payload_type == "task_aborted"
        then idle
        else blank)
    else blank

unfoldable pub is_visible : String → String → Bool
is_visible record_type payload_type =
    record_type == "response.output_text.delta"
    || payload_type == "response.output_text.delta"
    || payload_type == "agent_message_delta"

-- What a payload is when the record has none.
unfoldable pub payload_of : String → Fields → Option Fields → Fields
payload_of record_type root (some payload) = payload
payload_of record_type root none = if record_type == "response.output_text.delta" then root else end

-- The parameters of a line: its file, its host and where it stands.
pub record Place : Type 0 where
  pub host_id : String
  pub source_id : String
  pub offset : ℕ

module _ (rd : Reader) where
  -- `stableID(hostID, sourceID, itoa(offset), e.EventType, when.Format(…), …)`.
  unfoldable pub event_id_of : Place → String → Time → List String → String
  unfolding stable_id
  event_id_of at kind stamp rest = stable_id rd.sha256_hex (
      codes at.host_id
      ∷ codes at.source_id
      ∷ decimal (pos at.offset)
      ∷ codes kind
      ∷ codes (rd.format_stamp stamp)
      ∷ map codes rest)

  -- The fields that every event has.
  unfoldable pub event_at : Place → Time → ParseContext → EventType → String → String → UsageEvent
  event_at at stamp pc kind id quality = record {
    event_id = id;
    host_id = at.host_id;
    source_file_id = at.source_id;
    byte_offset = pos at.offset;
    source_epoch = pos 0;
    event_type = kind;
    timestamp = stamp;
    conversation_id = pc.conversation_id;
    parent_conversation_id = pc.parent_id;
    turn_id = pc.turn_id;
    response_id = pc.response_id;
    project_id = pc.project_id;
    repo_name = pc.repo_name;
    model = pc.model;
    reasoning_effort = pc.effort;
    model_context_window = pc.context_window;
    counts = no_counts;
    data_quality = quality;
    parser_version = parser_version;
    live_estimate = pos 0;
    run_state = blank;
    trace = none;
  }

  unfoldable pub exact_event : Place → Time → ParseContext → Fields → UsageEvent
  unfolding event_at event_id_of counts_from_map
  exact_event at stamp pc total =
      let counts = counts_from_map total in
      let id = event_id_of at "exact_usage" stamp (pc.response_id ∷ pc.turn_id ∷ []) in
      let quality = if counts.cache_write_visible then "EXACT" else "CACHE_WRITE_UNKNOWN" in
      record (event_at at stamp pc exact_usage id quality) { counts = counts }

  abbrev pub state_text : RunState → String
  state_text running = "running"
  state_text idle = "idle"
  state_text _ = ""

  unfoldable pub state_event : Place → Time → ParseContext → RunState → UsageEvent
  unfolding event_at event_id_of
  state_event at stamp pc state =
      let id = event_id_of at "activity" stamp (state_text state ∷ []) in
      record (event_at at stamp pc activity id "UNAVAILABLE") { run_state = state }

  unfoldable pub estimate_event : Place → Time → ParseContext → ℕ → UsageEvent
  unfolding event_at event_id_of
  estimate_event at stamp pc n =
      let id = event_id_of at "live_estimate" stamp (pc.response_id ∷ pc.turn_id ∷ []) in
      record (event_at at stamp pc live_estimate id "ESTIMATED_LIVE") { live_estimate = pos n }

  unfoldable pub turn_event : Place → Time → ParseContext → String → UsageEvent
  unfolding event_at event_id_of
  turn_event at stamp pc turn =
      let id = event_id_of at "activity" stamp (turn ∷ []) in
      record (event_at at stamp pc activity id "LOWER_BOUND") { turn_id = turn; response_id = "" }

  -- A payload that names a turn which is not the one before.
  unfoldable pub turn_or_none : Place → Time → ParseContext → String → Fields → Option UsageEvent
  unfolding turn_event
  turn_or_none at stamp pc previous payload =
      let turn = text_at "turn_id" payload in
      if not (turn == "") && not (turn == previous)
      then some (turn_event at stamp pc turn)
      else none

  abbrev pub estimate : Option String → ℕ
  estimate none = 0
  estimate (some delta) = local_estimate_tokens rd.scripts delta

  -- The tokens of a visible delta, 0 if the payload has none.
  unfoldable pub delta_tokens : String → String → Fields → ℕ
  unfolding find_string_key is_visible local_estimate_tokens
  delta_tokens record_type payload_type payload =
      if is_visible record_type payload_type
      then estimate (find_string_key rd 4 payload ("text_delta" ∷ "delta" ∷ []))
      else 0

  -- The event of a state that is stated, or else `rest`.
  abbrev pub stated : Place → Time → ParseContext → RunState → Option UsageEvent → Option UsageEvent
  stated at stamp pc blank rest = rest
  stated at stamp pc state rest = some (state_event at stamp pc state)

  unfoldable pub event_without_usage :
      Place → Time → ParseContext → String → String → Fields → Option UsageEvent
  unfolding state_event estimate_event turn_or_none delta_tokens run_state_of
  event_without_usage at stamp pc previous record_type payload =
      let payload_type = text_at "type" payload in
      let n = delta_tokens record_type payload_type payload in
      stated at stamp pc (run_state_of record_type payload_type) (
        if ltb 0 n
        then some (estimate_event at stamp pc n)
        else turn_or_none at stamp pc previous payload)

  -- `parseTime`, and the clock for a line that has no time.
  abbrev pub stamp_of : Fields → Time
  stamp_of root =
      let stamp = rd.parse_stamp (text_at "timestamp" root) in if eqb stamp 0 then rd.now else stamp

  -- The context behind the payload, with the source in place of a conversation that is not known.
  unfoldable pub context_of : String → String → Fields → ParseContext → ParseContext
  unfolding update_parse_context
  context_of source_id record_type payload pc =
      let next = update_parse_context rd record_type payload pc in
      record next {
        conversation_id = if next.conversation_id == "" then source_id else next.conversation_id;
      }

  unfoldable pub with_window : Fields → ParseContext → ParseContext
  with_window info pc = record pc {
    context_window = or_else (number_at "model_context_window" info) pc.context_window;
  }

  unfoldable pub event_of :
      Place
      → Time
      → String
      → String
      → Fields
      → ParseContext
      → Option (Fields × Fields)
      → Option UsageEvent × ParseContext
  unfolding with_window exact_event event_without_usage
  event_of at stamp previous record_type payload pc none =
      (event_without_usage at stamp pc previous record_type payload, pc)
  event_of at stamp previous record_type payload pc (some (info, total)) =
      let pc' = with_window info pc in (some (exact_event at stamp pc' total), pc')

  unfoldable pub parse_root : Place → Fields → ParseContext → Option UsageEvent × ParseContext
  unfolding payload_of context_of usage_of event_of
  parse_root at root pc =
      let record_type = text_at "type" root in
      let payload = payload_of record_type root (object_at "payload" root) in
      event_of at (stamp_of root) pc.turn_id record_type payload
        (context_of at.source_id record_type payload pc) (usage_of payload)

  -- A line that is no object changes nothing.
  abbrev pub parse_decoded : Place → Option Fields → ParseContext → Option UsageEvent × ParseContext
  parse_decoded at none pc = (none, pc)
  parse_decoded at (some root) pc = parse_root at root pc

  unfoldable pub parse_codex_line : Place → String → ParseContext → Option UsageEvent × ParseContext
  unfolding parse_root
  parse_codex_line at raw pc = parse_decoded at (rd.decode raw) pc
