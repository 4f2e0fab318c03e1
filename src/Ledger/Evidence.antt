-- ===== src/Ledger/Evidence.antt =====
-- What `applyRuntime` keeps true of the tasks' evidence.
use codex_token_meter.Prelude.{
  pos, ◌≤◌, String, Bool, Option, none, some, lookup, Table, Holds, Holds-upsert, ◌≡◌, refl,
  if◌then◌else◌, pair_eq, text_eq, arith, inl, inr, Bool-cases, lookup-upsert, Option-cases, ltb,
  leb, eqb, not, ◌&&◌,
}
use codex_token_meter.Types.{
  Time, EventType, exact_usage, live_estimate, activity, runtime, RunState, blank, unknown, running,
  idle, UsageEvent,
}
use codex_token_meter.Ledger.Db.{TaskRuntime}
use codex_token_meter.Ledger.Runtime.{
  parse_time, known_state, stored_runtime, new_turn, turn_over, observe_run, observe, runtime_after,
  write_runtime, apply_runtime,
}

-- An idle task has no estimate of text in flight.
abbrev pub IsSettled : TaskRuntime → Type 0
IsSettled r = r.state ≡ idle → r.live_estimate ≡ pos 0

abbrev pub Wrote : Option TaskRuntime → (TaskRuntime → Type 0) → Type 0
Wrote none P = Unit
Wrote (some r) P = P r

turn_over-IsSettled : (e : UsageEvent) (r : TaskRuntime) → IsSettled r → IsSettled (turn_over e r)
unfolding turn_over
turn_over-IsSettled e r h = ground (arith, h)

observe_run-IsSettled : (s : RunState) (r : TaskRuntime) → IsSettled (observe_run s r)
unfolding observe_run
observe_run-IsSettled idle r h = refl
observe_run-IsSettled s r h = ground (arith, h)

abbrev is_late : UsageEvent → Bool → TaskRuntime → Bool
is_late e fresh r =
    (not fresh && not (eqb (parse_time r.last_exact_at) 0))
    && leb e.timestamp (parse_time r.last_exact_at)

observe-IsSettled :
    (t : EventType) (e : UsageEvent) (fresh : Bool) (r : TaskRuntime)
    → IsSettled r
    → Wrote (observe t e fresh r) IsSettled
unfolding observe
observe-IsSettled runtime e fresh r h = observe_run-IsSettled e.run_state r
observe-IsSettled activity e fresh r h = observe_run-IsSettled _ r
observe-IsSettled live_estimate e fresh r h = elim (Bool-cases (is_late e fresh r)) [
  | inl late ↦ rw late tt
  | inr counts ↦ rw counts (λ (p : running ≡ idle). absurd (cc))
]
observe-IsSettled exact_usage e fresh r h = λ p. refl
observe-IsSettled _ e fresh r h = tt

runtime_after-IsSettled :
    (e : UsageEvent) (r : TaskRuntime) → IsSettled r → Wrote (runtime_after e r) IsSettled
unfolding runtime_after
runtime_after-IsSettled e r h = elim (Bool-cases (ltb e.timestamp (parse_time r.evidence_at))) [
  | inl stale ↦ rw stale tt
  | inr recent ↦ rw recent (
      observe-IsSettled e.event_type e _ _
        (turn_over-IsSettled e (record r { state = known_state r.state }) (known r h)))
]
  where
    known : (r : TaskRuntime) → IsSettled r → IsSettled (record r { state = known_state r.state })
    known r h = ground (arith, h)

stored_runtime-IsSettled :
    (o : Option TaskRuntime)
    → ((r : TaskRuntime) → o ≡ some r → IsSettled r)
    → IsSettled (stored_runtime o)
stored_runtime-IsSettled none h = λ (p : blank ≡ idle). absurd (cc)
stored_runtime-IsSettled (some r) h = h r refl

write_runtime-Holds :
    (now : Time) (e : UsageEvent) (o : Option TaskRuntime) (m : Table (String × String) TaskRuntime)
    → Wrote o IsSettled
    → Holds IsSettled m
    → Holds IsSettled (write_runtime now e o m)
write_runtime-Holds now e none m w h = h
write_runtime-Holds now e (some r) m w h = Holds-upsert IsSettled _ _ m h w

-- If no idle task has an estimate of text in flight, no event, valid or not, leaves an idle task
-- with one.
pub apply_runtime-IsSettled :
    (now : Time) (e : UsageEvent) (m : Table (String × String) TaskRuntime)
    → Holds IsSettled m
    → Holds IsSettled (apply_runtime now e m)
unfolding apply_runtime
apply_runtime-IsSettled now e m h =
    write_runtime-Holds now e _ m
      (runtime_after-IsSettled e (stored_runtime (lookup (e.host_id, e.conversation_id) m))
        (stored_runtime-IsSettled _ (h (e.host_id, e.conversation_id))))
      h

-- When the evidence about a task is from.
abbrev pub evidence_of : Option TaskRuntime → Time
evidence_of o = parse_time (stored_runtime o).evidence_at

runtime_after_recent :
    (e : UsageEvent) (r r' : TaskRuntime)
    → runtime_after e r ≡ some r'
    → parse_time r.evidence_at ≤ e.timestamp
unfolding runtime_after
runtime_after_recent e r r' h = elim (Bool-cases (ltb e.timestamp (parse_time r.evidence_at))) [
  | inl stale ↦ absurd (none_some (rw stale at h))
  | inr recent ↦ ground (arith, recent)
]
  where
    none_some : none ≡ some r' → ⊥
    none_some p = cc

-- The time of the evidence about a task, the event's or any other, never falls.
pub evidence-apply_runtime :
    (now : Time) (e : UsageEvent) (m : Table (String × String) TaskRuntime) (k : String × String)
    → evidence_of (lookup k m) ≤ evidence_of (lookup k (apply_runtime now e m))
unfolding apply_runtime
evidence-apply_runtime now e m k =
    let old = lookup (e.host_id, e.conversation_id) m in
    elim (Option-cases (runtime_after e (stored_runtime old))) [
      | inl nothing ↦ rw nothing (omega arith)
      | inr (r, wrote) ↦
          rw (wrote, lookup-upsert)
            (ground (
              arith,
              pair_eq.same_iff (e.host_id, e.conversation_id) k,
              runtime_after_recent e (stored_runtime old) r wrote,
            ))
    ]

-- Where an exact usage changes a task's row, it settles the estimate and notes its time, and is no
-- evidence that the task is idle or runs: the state stays, or is unknown at a new turn.
pub exact_usage_is_no_state :
    (e : UsageEvent) (stored r : TaskRuntime)
    → e.event_type ≡ exact_usage
    → runtime_after e stored ≡ some r
    → (r.live_estimate ≡ pos 0)
      × (r.last_exact_at ≡ some e.timestamp)
      × (r.state ≡ (if new_turn e stored then unknown else known_state stored.state))
unfolding runtime_after observe turn_over new_turn
exact_usage_is_no_state e stored r exact h = ground arith
