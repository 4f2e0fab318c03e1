-- ===== src/Ledger/Apply.antt =====
-- server.go `applyEvent`: one event of a batch, inside the transaction. SHA-256 is a parameter. A
-- statement that SQLite refuses makes the caller roll the transaction back (see Ingest): here every
-- statement succeeds.
use codex_token_meter.Prelude.{
  ℤ, pos, ◌+ℤ◌, ltb_ℤ, eqb_ℤ, String, Bool, true, false, not, ◌&&◌, ◌||◌, Option, none, some,
  lookup, upsert, ◌==◌, if◌then◌else◌, text_eq, pair_eq,
}
use text.Mathlib.Text.{starts_with}
use codex_token_meter.Types.{Time, Tally, TokenCounts, UsageEvent}
use codex_token_meter.Counts.{delta_counts, no_counts, no_tally}
use codex_token_meter.Ident.{nullstr, legacy_message_id, native_task_id}
use codex_token_meter.Ledger.Db.{Counter, Session, Db}

-- `NULLIF(x,'')`, then the value or the alternative.
abbrev pub nonempty_or : Option String → String → String
nonempty_or none d = d
nonempty_or (some s) d = if s == "" then d else s

abbrev pub session_parent : Option Session → Option String
session_parent none = none
session_parent (some s) = s.parent_conversation_id

abbrev pub is_there {ℓ} : {A : Type ℓ} → Option A → Bool
is_there none = false
is_there (some a) = true

-- Old agents' message ids: the parent that is stored, or the task of the source file if it is known.
unfoldable pub legacy_parent : Db → UsageEvent → String
legacy_parent db e =
    if e.parent_conversation_id == ""
      && legacy_message_id e.conversation_id
      && native_task_id e.source_file_id
    then nonempty_or (session_parent (lookup (e.host_id, e.conversation_id) db.sessions)) (
        if is_there (lookup (e.host_id, e.source_file_id) db.sessions)
        then e.source_file_id
        else "")
    else e.parent_conversation_id

unfoldable pub with_parent : Db → UsageEvent → UsageEvent
unfolding legacy_parent
with_parent db e =
    let parent = legacy_parent db e in
    record e {
      parent_conversation_id =
          if parent == ""
            && (starts_with e.conversation_id "ctco_" || starts_with e.conversation_id "fco_")
            && not (e.source_file_id == "")
            && not (e.source_file_id == e.conversation_id)
          then e.source_file_id
          else parent;
    }

-- The upsert of a baseline into conversation_counters: the epoch of a row that is there stays.
unfoldable pub rebase_conversation : UsageEvent → Option Counter → Counter
rebase_conversation e none = record {
  epoch = pos 0;
  tally = e.counts.tally;
  updated_at = e.timestamp;
}
rebase_conversation e (some c) = record c { tally = e.counts.tally; updated_at = e.timestamp }

-- The upsert of a baseline into source_counters: neither epoch nor counter goes back.
unfoldable pub rebase_source : UsageEvent → Option Counter → Counter
rebase_source e none = record {
  epoch = e.source_epoch;
  tally = e.counts.tally;
  updated_at = e.timestamp;
}
rebase_source e (some c) = record {
  epoch = if ltb_ℤ c.epoch e.source_epoch then e.source_epoch else c.epoch;
  tally =
      if ltb_ℤ c.tally.total_tokens e.counts.total_tokens || ltb_ℤ c.epoch e.source_epoch
      then e.counts.tally
      else c.tally;
  updated_at = e.timestamp;
}

unfoldable pub apply_baseline : UsageEvent → Db → Db
unfolding rebase_conversation rebase_source
apply_baseline e db = record db {
  conversation_counters =
      upsert (e.host_id, e.conversation_id) (rebase_conversation e) db.conversation_counters;
  source_counters = upsert (e.host_id, e.source_file_id) (rebase_source e) db.source_counters;
}

-- The row that an event inserts into sessions.
abbrev pub session_row : UsageEvent → String → String → Tally → ℤ → Option Time → Session
session_row e status quality tally estimate exact = record {
  parent_conversation_id = nullstr e.parent_conversation_id;
  project_id = e.project_id;
  repo_name = e.repo_name;
  display_name = none;
  model = e.model;
  reasoning_effort = e.reasoning_effort;
  model_context_window = e.model_context_window;
  started_at = e.timestamp;
  last_event_at = e.timestamp;
  status = status;
  data_quality = quality;
  tally = tally;
  live_estimate = estimate;
  last_exact_at = exact;
}

unfoldable pub estimate_session : UsageEvent → Option Session → Session
estimate_session e none =
    session_row e "ESTIMATED_LIVE" "ESTIMATED_LIVE" no_tally e.live_estimate none
estimate_session e (some s) = record s {
  live_estimate = s.live_estimate +ℤ e.live_estimate;
  last_event_at = e.timestamp;
  status = "ESTIMATED_LIVE";
  data_quality = "ESTIMATED_LIVE";
}

-- `COALESCE(excluded.x, x)`.
abbrev pub coalesce {ℓ} : {A : Type ℓ} → Option A → Option A → Option A
coalesce none b = b
coalesce (some a) b = some a

-- The columns that an activity and an exact usage both overwrite.
abbrev pub refreshed : UsageEvent → String → String → Session → Session
refreshed e status quality s = record s {
  parent_conversation_id = coalesce (nullstr e.parent_conversation_id) s.parent_conversation_id;
  project_id = e.project_id;
  repo_name = e.repo_name;
  model = e.model;
  reasoning_effort = e.reasoning_effort;
  model_context_window = e.model_context_window;
  last_event_at = e.timestamp;
  status = status;
  data_quality = quality;
}

unfoldable pub activity_session : UsageEvent → Option Session → Session
activity_session e none = session_row e "LOWER_BOUND" "LOWER_BOUND" no_tally (pos 0) none
activity_session e (some s) = refreshed e "LOWER_BOUND" "LOWER_BOUND" s

abbrev pub update_session : UsageEvent → (Option Session → Session) → Db → Db
update_session e f db = record db { sessions = upsert (e.host_id, e.conversation_id) f db.sessions }

-- What `applyEvent` reads before it computes a delta.
pub record Opening : Type 0 where
  pub source_found : Bool
  pub epoch : ℤ
  pub old : TokenCounts

abbrev pub counted_before : Tally → TokenCounts
counted_before t = record no_counts { tally = t }

abbrev pub opening_at : Bool → Counter → Opening
opening_at found c = record { source_found = found; epoch = c.epoch; old = counted_before c.tally }

-- No counter of the source or the conversation: the parent's counter, but not its epoch.
abbrev pub inherited : Option Counter → Opening
inherited none = record { source_found = false; epoch = pos 0; old = no_counts }
inherited (some c) = record { source_found = false; epoch = pos 0; old = counted_before c.tally }

abbrev pub parent_opening : Db → UsageEvent → Opening
parent_opening db e =
    if e.parent_conversation_id == ""
    then inherited none
    else inherited (lookup (e.host_id, e.parent_conversation_id) db.conversation_counters)

abbrev pub conversation_opening : Option Counter → Opening → Opening
conversation_opening none o = o
conversation_opening (some c) o = opening_at false c

abbrev pub source_opening : Option Counter → Opening → Opening
source_opening none o = o
source_opening (some c) o = opening_at true c

unfoldable pub opening : Db → UsageEvent → Opening
opening db e = source_opening (lookup (e.host_id, e.source_file_id) db.source_counters) (
    conversation_opening (lookup (e.host_id, e.conversation_id) db.conversation_counters)
      (parent_opening db e))

unfoldable pub resets : UsageEvent → Opening → Bool
resets e o =
    (not o.source_found && ltb_ℤ e.counts.total_tokens o.old.total_tokens)
    || (o.source_found && ltb_ℤ o.epoch e.source_epoch)

-- `d`: a smaller total in the same epoch of a known source is stale, and counts nothing.
unfoldable pub exact_delta : UsageEvent → Opening → TokenCounts
unfolding resets
exact_delta e o =
    if o.source_found
      && eqb_ℤ e.source_epoch o.epoch
      && ltb_ℤ e.counts.total_tokens o.old.total_tokens
    then record no_counts { cache_write_visible = e.counts.cache_write_visible }
    else delta_counts e.counts o.old (resets e o)

unfoldable pub next_epoch : UsageEvent → Opening → ℤ
unfolding resets
next_epoch e o = if resets e o then o.epoch +ℤ pos 1 else o.epoch
