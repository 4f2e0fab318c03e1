-- ===== src/Ingest/Atomic.antt =====
-- One upload step by step: which tables each step of the transaction leaves alone.
use codex_token_meter.Prelude.{
  if◌then◌else◌, ℕ, String, true, false, Option, some, List, [], ◌∷◌, ◌≡◌, refl, sym, arith, All,
  inl, inr, Option-cases, text_eq,
}
use codex_token_meter.Types.{Time, UsageEvent, SessionMetadata, AgentTelemetry, IngestBatch}
use codex_token_meter.Valid.{valid_usage_event}
use codex_token_meter.Display.{Unicode}
use codex_token_meter.Ledger.Db.{Db, max_id}
use codex_token_meter.Ledger.Replay.{apply_events}
use codex_token_meter.Ingest.{
  ◌>>=◌, Faults, Outcome, go_on, stop, Progress, take_event, take_events, apply_session_metadata,
  take_metadata, store_report, take_telemetry, touch_agent, advance_ledger, finish, take_rest,
  transaction,
}

-- The tables that only events write.
pub record SameBooks (before after : Db) : Type 0 where
  pub ingested_events : after.ingested_events ≡ before.ingested_events
  pub usage_events : after.usage_events ≡ before.usage_events
  pub conversation_counters : after.conversation_counters ≡ before.conversation_counters
  pub source_counters : after.source_counters ≡ before.source_counters
  pub sessions : after.sessions ≡ before.sessions
  pub task_runtime : after.task_runtime ≡ before.task_runtime
  pub reconciliation : after.reconciliation ≡ before.reconciliation

SameBooks-trans : {a b c : Db} → SameBooks a b → SameBooks b c → SameBooks a c
SameBooks-trans p q = ground arith

pub bind-go_on :
    {A B : Type 0} (m : Outcome A) (f : A → Outcome B) (b : B)
    → m >>= f ≡ go_on b
    → (a : A) × (m ≡ go_on a) × (f a ≡ go_on b)
bind-go_on (go_on a) f b h = (a, refl, h)
bind-go_on (stop status text) f b h = absurd (stop_go h)
  where
    stop_go : stop status text ≡ go_on b → ⊥
    stop_go e = cc

db-go_on : {p q : Progress} → go_on p ≡ go_on q → p.db ≡ q.db
db-go_on h = cc

abbrev pub timed : Time → List UsageEvent → List (Time × UsageEvent)
timed now [] = []
timed now (e ∷ es) = (now, e) ∷ timed now es

abbrev pub IsOwn : String → UsageEvent → Type 0
IsOwn host e = (e.host_id ≡ host) × (valid_usage_event e ≡ true)

module _ (sha : List ℕ → String) (u : Unicode) (faults : Faults) (now : Time) where
  pub take_events-step :
      (host : String) (e : UsageEvent) (es : List UsageEvent) (p q : Progress)
      → take_events sha u faults now host (e ∷ es) p ≡ go_on q
      → IsOwn host e
        × (take_events sha u faults now host es (take_event sha u faults now e p) ≡ go_on q)
  unfolding take_events
  take_events-step host e es p q h = ground (arith, h, text_eq.same_iff e.host_id host)

  take_events-apply_events :
      (host : String) (es : List UsageEvent) (p q : Progress)
      → take_events sha u faults now host es p ≡ go_on q
      → (q.db ≡ apply_events sha (timed now es) p.db) × All (IsOwn host) es
  unfolding apply_events take_event take_events
  take_events-apply_events host [] p q h = (ground arith, tt)
  take_events-apply_events host (e ∷ es) p q h =
      let (own, rest) = take_events-step host e es p q h in
      let (same, all) = take_events-apply_events host es (take_event sha u faults now e p) q rest in
      (same, (own, all))

  apply_session_metadata-SameBooks :
      (host : String) (item : SessionMetadata) (db db' : Db)
      → apply_session_metadata sha u faults now host item db ≡ some db'
      → SameBooks db db'
  unfolding apply_session_metadata
  apply_session_metadata-SameBooks host item db db' h = ground arith

  take_metadata-SameBooks :
      (host : String) (items : List SessionMetadata) (db db' : Db)
      → take_metadata sha u faults now host items db ≡ go_on db'
      → SameBooks db db'
  unfolding take_metadata
  take_metadata-SameBooks host [] db db' h = ground arith
  take_metadata-SameBooks host (item ∷ items) db db' h =
      elim (Option-cases (apply_session_metadata sha u faults now host item db)) [
        | inl bad ↦ absurd (stop_go (rw (bad, take_metadata) at h))
        | inr (next, good) ↦
            SameBooks-trans (apply_session_metadata-SameBooks host item db next good)
              (take_metadata-SameBooks host items next db' (rw (good, take_metadata) at h))
      ]
    where
      stop_go : stop 500 "metadata ingest failed" ≡ go_on db' → ⊥
      stop_go e = cc

  take_telemetry-SameBooks :
      (host : String) (t : Option AgentTelemetry) (db db' : Db)
      → take_telemetry sha u faults now host t db ≡ go_on db'
      → SameBooks db db'
  unfolding take_telemetry store_report
  take_telemetry-SameBooks host t db db' h = ground arith

  finish-lem :
      (db db' : Db)
      → finish sha u faults now db ≡ go_on db'
      → SameBooks db db' × (db'.ledger_revision ≡ max_id db'.usage_events)
  unfolding finish advance_ledger
  finish-lem db db' h = ground (arith, h)

  touch_agent-SameBooks :
      (host : String) (db : Db) → SameBooks db (touch_agent sha u faults now host db)
  unfolding touch_agent
  touch_agent-SameBooks host db = ground arith

  take_rest-lem :
      (b : IngestBatch) (p q : Progress)
      → take_rest sha u faults now b p ≡ go_on q
      → SameBooks p.db q.db × (q.db.ledger_revision ≡ max_id q.db.usage_events)
  unfolding take_rest
  take_rest-lem b p q h =
      let (named, n, h1) =
        bind-go_on (take_metadata sha u faults now b.host_id b.metadata p.db) _ q h in
      let touched = touch_agent sha u faults now b.host_id named in
      let (told, t, h2) =
        bind-go_on (take_telemetry sha u faults now b.host_id b.telemetry touched) _ q h1 in
      let (committed, c, h3) = bind-go_on (finish sha u faults now told) _ q h2 in
      let (same, revision) = finish-lem told committed c in
      rw (sym (db-go_on h3)) (
        SameBooks-trans (take_metadata-SameBooks b.host_id b.metadata p.db named n) (
            SameBooks-trans (touch_agent-SameBooks b.host_id named) (
              SameBooks-trans (take_telemetry-SameBooks b.host_id b.telemetry touched told t)
                same)),
        revision,
      )

  -- What a committed transaction leaves.
  pub transaction-lem :
      (b : IngestBatch) (db : Db) (q : Progress)
      → transaction sha u faults now b db ≡ go_on q
      → SameBooks (apply_events sha (timed now b.events) db) q.db
        × (All (IsOwn b.host_id) b.events × (q.db.ledger_revision ≡ max_id q.db.usage_events))
  unfolding transaction
  transaction-lem b db q h =
      let (opened, o, h1) = bind-go_on (if faults.begins then stop 500 "db" else go_on db) _ q h in
      let start : Progress = record { db = opened; changed = false; fresh = [] } in
      let (p, taken, h2) =
        bind-go_on (take_events sha u faults now b.host_id b.events start) _ q h1 in
      let (same, own) = take_events-apply_events b.host_id b.events start p taken in
      let (books, revision) = take_rest-lem b p q h2 in
      let unchanged : db ≡ opened = ground (arith, o) in
      (rw (unchanged, sym same) books, (own, revision))
