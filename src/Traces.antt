-- ===== src/Traces.antt =====
-- delivery_trace.go: the last deliveries, a bounded list, oldest first.
use codex_token_meter.Prelude.{
  ℕ, ◌-◌, ◌≤◌, Option, none, some, List, ◌++◌, map, drop, length, ltb, if◌then◌else◌, ◌≡◌, refl,
  arith, length-drop, Bool-cases, inl, inr, tests,
}
use codex_token_meter.Types.{Time, UsageEvent, DeliveryTrace}

abbrev pub trace_limit : ℕ
trace_limit = 64

abbrev pub agent_time : (DeliveryTrace → Time) → Option DeliveryTrace → Time
agent_time f none = 0
agent_time f (some t) = f t

unfoldable pub traced : Time → Time → UsageEvent → DeliveryTrace
traced received committed e = record {
  event_id = e.event_id;
  source_id = e.source_file_id;
  conversation_id = e.conversation_id;
  offset = e.byte_offset;
  kind = e.event_type;
  source_at = e.timestamp;
  observed_at = agent_time (λ t. t.observed_at) e.trace;
  queued_at = agent_time (λ t. t.queued_at) e.trace;
  sent_at = agent_time (λ t. t.sent_at) e.trace;
  received_at = received;
  committed_at = committed;
}

unfoldable pub add_traces : List UsageEvent → Time → Time → List DeliveryTrace → List DeliveryTrace
unfolding traced
add_traces events received committed entries =
    let all = entries ++ map (traced received committed) events in
    if ltb trace_limit (length all) then drop (length all - trace_limit) all else all

abbrev pub latest : ℕ → List DeliveryTrace → List DeliveryTrace
latest n xs = drop (length xs - n) xs

-- The traces are the last 64 of the old ones followed by the new ones, at most 64.
pub add_traces-latest :
    (events : List UsageEvent) (received committed : Time) (entries : List DeliveryTrace)
    → (length (add_traces events received committed entries) ≤ trace_limit)
      × (add_traces events received committed entries
          ≡ latest trace_limit (entries ++ map (traced received committed) events))
unfolding add_traces
add_traces-latest events received committed entries =
    let all = entries ++ map (traced received committed) events in
    elim (Bool-cases (ltb trace_limit (length all))) [
      | inl over ↦ rw over (omega (tests, over, length-drop (length all - trace_limit) all), refl)
      | inr room ↦
          let short : length all - trace_limit ≡ 0 = ground (arith, room) in
          rw (room, short) (ground (arith, room), refl)
    ]
