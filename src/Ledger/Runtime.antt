-- ===== src/Ledger/Runtime.antt =====
-- task_runtime.go `applyRuntime`: what an event says of the task that it belongs to.
use codex_token_meter.Prelude.{
  pos, ◌+ℤ◌, String, Bool, true, false, not, ◌&&◌, Option, none, some, Table, lookup, upsert, ltb,
  leb, eqb, ◌==◌, if◌then◌else◌, text_eq, pair_eq,
}
use codex_token_meter.Types.{
  Time, EventType, baseline, exact_usage, live_estimate, activity, runtime, other, RunState, blank,
  unknown, running, idle, UsageEvent,
}
use codex_token_meter.Ledger.Db.{TaskRuntime}

-- `parseTime` of a text column that holds a formatted time or ''.
abbrev pub parse_time : Option Time → Time
parse_time none = 0
parse_time (some t) = t

abbrev pub is_idle : RunState → Bool
is_idle idle = true
is_idle _ = false

-- `if state == "" { state = "unknown" }`.
abbrev pub known_state : RunState → RunState
known_state blank = unknown
known_state s = s

-- The variables of `applyRuntime` when no row is there.
abbrev pub no_runtime : TaskRuntime
no_runtime = record {
  state = blank;
  turn_id = "";
  evidence_at = none;
  received_at = none;
  live_estimate = pos 0;
  last_exact_at = none;
}

abbrev pub stored_runtime : Option TaskRuntime → TaskRuntime
stored_runtime none = no_runtime
stored_runtime (some r) = r

unfoldable pub new_turn : UsageEvent → TaskRuntime → Bool
new_turn e r = not (e.turn_id == "") && not (e.turn_id == r.turn_id)

-- A new turn clears the estimate and the exact time of the one before.
unfoldable pub turn_over : UsageEvent → TaskRuntime → TaskRuntime
unfolding new_turn
turn_over e r =
    if new_turn e r
    then record r { turn_id = e.turn_id; live_estimate = pos 0; last_exact_at = none }
    else r

unfoldable pub observe_run : RunState → TaskRuntime → TaskRuntime
observe_run s r =
    if is_idle s then record r { state = s; live_estimate = pos 0 } else record r { state = s }

-- The switch on the event type, behind `turn_over`; `none` is `return nil`.
unfoldable pub observe : EventType → UsageEvent → Bool → TaskRuntime → Option TaskRuntime
unfolding observe_run
observe runtime e fresh r = some (observe_run e.run_state r)
observe activity e fresh r = some (observe_run (if is_idle e.run_state then idle else running) r)
observe live_estimate e fresh r =
    let exact = parse_time r.last_exact_at in
    if (not fresh && not (eqb exact 0)) && leb e.timestamp exact
    then none
    else some (record r { state = running; live_estimate = r.live_estimate +ℤ e.live_estimate })
observe exact_usage e fresh r = some (record r {
  state = if fresh then unknown else r.state;
  live_estimate = pos 0;
  last_exact_at = some e.timestamp;
})
observe baseline e fresh r = none
observe (other _) e fresh r = none

-- The row after the event, if the event writes one.
unfoldable pub runtime_after : UsageEvent → TaskRuntime → Option TaskRuntime
unfolding turn_over observe
runtime_after e stored =
    let r = record stored { state = known_state stored.state } in
    if ltb e.timestamp (parse_time r.evidence_at)
    then none
    else observe e.event_type e (new_turn e r) (turn_over e r)

abbrev pub stamped : Time → UsageEvent → TaskRuntime → TaskRuntime
stamped now e r = record r { evidence_at = some e.timestamp; received_at = some now }

abbrev pub write_runtime :
    Time
    → UsageEvent
    → Option TaskRuntime
    → Table (String × String) TaskRuntime
    → Table (String × String) TaskRuntime
write_runtime now e none m = m
write_runtime now e (some r) m = upsert (e.host_id, e.conversation_id) (λ _. stamped now e r) m

unfoldable pub apply_runtime :
    Time → UsageEvent → Table (String × String) TaskRuntime → Table (String × String) TaskRuntime
unfolding runtime_after
apply_runtime now e m =
    write_runtime now e (runtime_after e (stored_runtime (lookup (e.host_id, e.conversation_id) m)))
      m
