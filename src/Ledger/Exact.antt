-- ===== src/Ledger/Exact.antt =====
-- server.go `applyEvent`, its last part: an exact usage enters the ledger once, and moves the
-- counters and the session with it; then the whole of `applyEvent`.
use codex_token_meter.Prelude.{
  ℕ, suc, ℤ, pos, ◌-ℤ◌, ltb_ℤ, String, Bool, not, ◌&&◌, ◌||◌, Option, none, some, List, [], ◌∷◌,
  lookup, upsert, any, ◌==◌, if◌then◌else◌, text_eq, pair_eq,
}
use codex_token_meter.Types.{
  Time, EventType, baseline, exact_usage, live_estimate, activity, UsageEvent,
}
use codex_token_meter.Counts.{◌+ᵗ◌}
use codex_token_meter.Ident.{codes, decimal, stable_id, nullstr}
use codex_token_meter.Ledger.Db.{UsageRow, Session, Db, max_id}
use codex_token_meter.Ledger.Runtime.{apply_runtime}
use codex_token_meter.Ledger.Apply.{
  Opening, with_parent, apply_baseline, estimate_session, activity_session, update_session,
  session_row, refreshed, is_there, opening, resets, exact_delta, next_epoch,
}

-- The two unique indexes of usage_events; `dedup_key` is never NULL or ''.
unfoldable pub conflicts : UsageRow → List UsageRow → Bool
conflicts r =
    any
      λ q. (q.event_id == r.event_id) || ((q.host_id == r.host_id) && (q.dedup_key == r.dedup_key))

unfoldable pub count_conversation : UsageEvent → Opening → Db → Db
count_conversation e o db = record db {
  conversation_counters =
      upsert (e.host_id, e.conversation_id)
        (λ _. record { epoch = next_epoch e o; tally = e.counts.tally; updated_at = e.timestamp })
        db.conversation_counters;
}

-- The watermark of the source moves at its first event, at a reset, and forward.
unfoldable pub count_source : UsageEvent → Opening → Db → Db
unfolding resets
count_source e o db =
    if not o.source_found || resets e o || ltb_ℤ o.old.total_tokens e.counts.total_tokens
    then record db {
      source_counters =
          upsert (e.host_id, e.source_file_id)
            (λ _. record {
              epoch = e.source_epoch;
              tally = e.counts.tally;
              updated_at = e.timestamp;
            })
            db.source_counters;
    }
    else db

abbrev pub session_estimate : Option Session → ℤ
session_estimate none = pos 0
session_estimate (some s) = s.live_estimate

unfoldable pub reconcile : UsageEvent → Opening → Db → Db
reconcile e o db =
    let estimate = session_estimate (lookup (e.host_id, e.conversation_id) db.sessions) in
    let exact = (exact_delta e o).output_tokens in
    if ltb_ℤ (pos 0) estimate
    then record db {
      reconciliation =
          (record {
            host_id = e.host_id;
            conversation_id = e.conversation_id;
            response_id = e.response_id;
            estimated_tokens = estimate;
            exact_output_tokens = exact;
            error_tokens = estimate -ℤ exact;
            timestamp = e.timestamp;
          })
          ∷ db.reconciliation;
    }
    else db

unfoldable pub exact_session : UsageEvent → Opening → Option Session → Session
exact_session e o none =
    session_row e "EXACT" e.data_quality (exact_delta e o).tally (pos 0) (some e.timestamp)
exact_session e o (some s) = record (refreshed e "EXACT" e.data_quality s) {
  tally = s.tally +ᵗ (exact_delta e o).tally;
  live_estimate = pos 0;
  last_exact_at = some e.timestamp;
}

-- Behind the insertion of the ledger row.
unfoldable pub settle : UsageEvent → Opening → Db → Db
settle e o db =
    update_session e (exact_session e o)
      (reconcile e o (count_source e o (count_conversation e o db)))

-- The event is recorded as seen, and is evidence of its task, before its type is looked at.
unfoldable pub noted : Time → UsageEvent → Db → Db
unfolding apply_runtime
noted now e db = record db {
  ingested_events = upsert e.event_id (λ _. e.event_type) db.ingested_events;
  task_runtime = apply_runtime now e db.task_runtime;
}

module _ (sha256_hex : List ℕ → String) where
  -- A response (or turn) counts one total once; without either, an epoch of the conversation does.
  unfoldable pub dedup_key : UsageEvent → Opening → String
  unfolding stable_id
  dedup_key e o =
      let response = if e.response_id == "" then e.turn_id else e.response_id in
      let total = decimal e.counts.total_tokens in
      if response == ""
      then stable_id sha256_hex
          (codes "counter" ∷ codes e.conversation_id ∷ total ∷ decimal (next_epoch e o) ∷ [])
      else stable_id sha256_hex (codes "response" ∷ codes response ∷ total ∷ [])

  -- The id is the next one; SQLite's sequence can leave gaps, and only the order of the ids is read.
  unfoldable pub usage_row : Time → UsageEvent → Opening → List UsageRow → UsageRow
  usage_row now e o rows = record {
    id = suc (max_id rows);
    event_id = e.event_id;
    dedup_key = dedup_key e o;
    host_id = e.host_id;
    conversation_id = e.conversation_id;
    parent_conversation_id = nullstr e.parent_conversation_id;
    source_file_id = e.source_file_id;
    byte_offset = e.byte_offset;
    event_type = e.event_type;
    timestamp = e.timestamp;
    turn_id = nullstr e.turn_id;
    response_id = nullstr e.response_id;
    project_id = e.project_id;
    model = e.model;
    reasoning_effort = e.reasoning_effort;
    model_context_window = e.model_context_window;
    raw = e.counts.tally;
    counted = (exact_delta e o).tally;
    cache_write_visible = e.counts.cache_write_visible;
    data_quality = e.data_quality;
    parser_version = e.parser_version;
    epoch = next_epoch e o;
    created_at = now;
  }

  unfoldable pub apply_exact : Time → UsageEvent → Db → Db
  apply_exact now e db =
      let o = opening db e in
      let row = usage_row now e o db.usage_events in
      if conflicts row db.usage_events
      then db
      else settle e o (record db { usage_events = row ∷ db.usage_events })

  unfoldable pub dispatch : EventType → Time → UsageEvent → Db → Db
  dispatch baseline now e db = apply_baseline e db
  dispatch live_estimate now e db = update_session e (estimate_session e) db
  dispatch activity now e db = update_session e (activity_session e) db
  dispatch exact_usage now e db = apply_exact now e db
  dispatch _ now e db = db

  unfoldable pub apply_event : Time → UsageEvent → Db → Db
  apply_event now e₀ db =
      let e = with_parent db e₀ in
      if is_there (lookup e.event_id db.ingested_events)
      then db
      else dispatch e.event_type now e (noted now e db)
