-- ===== src/Ingest/Replays.antt =====
-- An agent that heard no answer uploads its batch again: what the second upload changes.
use codex_token_meter.Prelude.{
  ℕ, String, true, false, List, [], ◌∷◌, ◌≡◌, refl, ap, sym, ◌∙◌, arith, All, text_eq, any, ◌==◌,
  if◌then◌else◌,
}
use codex_token_meter.Types.{Time, UsageEvent, IngestBatch}
use codex_token_meter.Display.{Unicode}
use codex_token_meter.Ledger.Db.{Db}
use codex_token_meter.Ledger.Replay.{seen, apply_event-seen, apply_events-seen, All-seen}
use codex_token_meter.Ingest.{
  Server, Request, Faults, go_on, stop, Progress, transaction, take_event, take_events, take_rest,
  take_metadata, take_telemetry, touch_agent, finish, ingest, notify,
}
use codex_token_meter.Ingest.Atomic.{SameBooks, timed, bind-go_on, take_events-step}
use codex_token_meter.Ingest.Sound.{IsCommitted, committed_books}

any-timed :
    (now : Time) (id : String) (es : List UsageEvent)
    → any (λ e. e.1.event_id == id) (timed now es) ≡ any (λ e. e.event_id == id) es
any-timed now id [] = refl
any-timed now id (e ∷ es) = rw (any-timed now id es) refl

-- Every event of `again` has the id of one of `es`.
abbrev pub AreAmong : List UsageEvent → List UsageEvent → Type 0
AreAmong es again = All (λ f. any (λ e. e.event_id == f.event_id) es ≡ true) again

timed-AreAmong :
    (now now' : Time) (es again : List UsageEvent)
    → AreAmong es again
    → All (λ f. any (λ e. e.1.event_id == f.1.event_id) (timed now es) ≡ true) (timed now' again)
timed-AreAmong now now' es [] h = tt
timed-AreAmong now now' es (f ∷ fs) h =
    (any-timed now f.event_id es ∙ h.0, timed-AreAmong now now' es fs h.1)

found-go_on :
    {p q : Progress}
    → go_on p ≡ go_on q
    → (p.db ≡ q.db) × ((q.changed ≡ p.changed) × (q.fresh ≡ p.fresh))
found-go_on h = (cc, (cc, cc))

AllSeen-SameBooks :
    (es : List (Time × UsageEvent)) (a b : Db)
    → SameBooks a b
    → All (λ f. seen f.1.event_id a ≡ true) es
    → All (λ f. seen f.1.event_id b ≡ true) es
AllSeen-SameBooks [] a b s h = tt
AllSeen-SameBooks (f ∷ fs) a b s h = (rw s.ingested_events h.0, AllSeen-SameBooks fs a b s h.1)

module _ (sha : List ℕ → String) (u : Unicode) (faults : Faults) (now : Time) where
  take_event-seen :
      (e : UsageEvent) (p : Progress)
      → seen e.event_id p.db ≡ true
      → take_event sha u faults now e p ≡ p
  unfolding take_event
  take_event-seen e p h = ground (arith, h, apply_event-seen sha now e p.db h)

  take_events-seen :
      (host : String) (es : List UsageEvent) (p q : Progress)
      → All (λ f. seen f.1.event_id p.db ≡ true) (timed now es)
      → take_events sha u faults now host es p ≡ go_on q
      → q ≡ p
  unfolding take_events
  take_events-seen host [] p q known h = sym (progress-go_on h)
    where
      progress-go_on : {p q : Progress} → go_on p ≡ go_on q → p ≡ q
      progress-go_on e = cc
  take_events-seen host (e ∷ es) p q known h =
      take_events-seen host es p q known.1
        (rw (take_event-seen e p known.0) at (take_events-step sha u faults now host e es p q h).1)

  take_rest-found :
      (b : IngestBatch) (p q : Progress)
      → take_rest sha u faults now b p ≡ go_on q
      → (q.changed ≡ p.changed) × (q.fresh ≡ p.fresh)
  unfolding take_rest
  take_rest-found b p q h =
      let (named, n, h1) =
        bind-go_on (take_metadata sha u faults now b.host_id b.metadata p.db) _ q h in
      let touched = touch_agent sha u faults now b.host_id named in
      let (told, t, h2) =
        bind-go_on (take_telemetry sha u faults now b.host_id b.telemetry touched) _ q h1 in
      let (committed, c, h3) = bind-go_on (finish sha u faults now told) _ q h2 in
      (found-go_on h3).1

  transaction-seen :
      (b : IngestBatch) (db : Db) (q : Progress)
      → All (λ f. seen f.1.event_id db ≡ true) (timed now b.events)
      → transaction sha u faults now b db ≡ go_on q
      → (q.changed ≡ false) × (q.fresh ≡ [])
  unfolding transaction
  transaction-seen b db q known h =
      let start : Progress = record { db = db; changed = false; fresh = [] } in
      let (opened, o, h1) = bind-go_on (if faults.begins then stop 500 "db" else go_on db) _ q h in
      let (p, taken, h2) =
        bind-go_on
          (take_events sha u faults now b.host_id b.events
            (record { db = opened; changed = false; fresh = [] }))
          _ q h1 in
      let unchanged : opened ≡ db = ground (arith, o) in
      let same : p ≡ start =
        take_events-seen b.host_id b.events start p known (rw unchanged at taken) in
      let (changed, fresh) = take_rest-found b p q h2 in
      (changed ∙ ap (λ t. t.changed) same, fresh ∙ ap (λ t. t.fresh) same)

module _ (sha : List ℕ → String) (u : Unicode) (faults : Faults) (now : Time) (faults' : Faults)
    (now' : Time) where
  resent-seen :
      (s : Server) (r r' : Request)
      (first : IsCommitted sha u faults now s r (ingest sha u faults now s r))
      (again : List UsageEvent)
      → AreAmong first.batch.events again
      → All (λ f. seen f.1.event_id (ingest sha u faults now s r).0.db ≡ true) (timed now' again)
  resent-seen s r r' first again among =
      AllSeen-SameBooks (timed now' again) _ _ (committed_books sha u faults now s r first).0 (
        All-seen sha (timed now first.batch.events) (timed now' again) s.db
          (timed-AreAmong now now' first.batch.events again among))

  -- After a batch was accepted, a second upload that is accepted and whose events all have ids of
  -- the first one's, in whatever order and at whatever time, leaves the ledger, the counters, the
  -- sessions, the run states and the list of ingested events as the first upload left them.
  pub ingest_again :
      (s : Server) (r r' : Request)
      (first : IsCommitted sha u faults now s r (ingest sha u faults now s r))
      (second : IsCommitted sha u faults' now'
        (ingest sha u faults now s r).0
        r'
        (ingest sha u faults' now' (ingest sha u faults now s r).0 r'))
      → AreAmong first.batch.events second.batch.events
      → SameBooks
          (ingest sha u faults now s r).0.db
          (ingest sha u faults' now' (ingest sha u faults now s r).0 r').0.db
  ingest_again s r r' first second among =
      rw
        (apply_events-seen sha (timed now' second.batch.events) (ingest sha u faults now s r).0.db
          (resent-seen s r r' first second.batch.events among))
        at (committed_books sha u faults' now' (ingest sha u faults now s r).0 r' second).0

  -- After a batch was accepted, a second accepted upload whose events all have ids of the first
  -- one's and that brings no names leaves the hub as it was: no browser is told of a change.
  pub ingest_again-hub :
      (s : Server) (r r' : Request)
      (first : IsCommitted sha u faults now s r (ingest sha u faults now s r))
      (second : IsCommitted sha u faults' now'
        (ingest sha u faults now s r).0
        r'
        (ingest sha u faults' now' (ingest sha u faults now s r).0 r'))
      → AreAmong first.batch.events second.batch.events
      → second.batch.metadata ≡ []
      → (ingest sha u faults' now' (ingest sha u faults now s r).0 r').0.hub
        ≡ (ingest sha u faults now s r).0.hub
  unfolding notify
  ingest_again-hub s r r' first second among none_named =
      let known = resent-seen s r r' first second.batch.events among in
      let (changed, fresh) =
        transaction-seen sha u faults' now' second.batch _ second.progress known second.committed in
      let rows = (ingest_again s r r' first second among).usage_events in
      second.marked ∙ rw (none_named, changed, sym second.stored, rows) (ground arith)
