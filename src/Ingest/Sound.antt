-- ===== src/Ingest/Sound.antt =====
-- Each way an upload can end, and what then holds of the server.
use codex_token_meter.Prelude.{
  ℕ, String, true, false, some, List, [], ◌∷◌, length, ◌≡◌, refl, All, Bool-cases, inl, inr,
  Option-cases, text_eq, lookup, ◌==◌, ◌⊎◌, Table,
}
use codex_token_meter.Types.{Time, UsageEvent, IngestBatch}
use codex_token_meter.Display.{Unicode}
use codex_token_meter.Limiter.{ingest_allowed}
use codex_token_meter.Ledger.Db.{Db, max_id}
use codex_token_meter.Ledger.Replay.{apply_events}
use codex_token_meter.Ledger.Balance.{IsBalanced, apply_events-IsBalanced}
use codex_token_meter.Ledger.Bounds.{IsBounded}
use codex_token_meter.Ledger.Bounds.Events.{apply_event-IsBounded}
use codex_token_meter.Ledger.Rows.{IsLedger, apply_events-IsLedger}
use codex_token_meter.Ingest.{
  Server, Request, Response, refused, accepted, Faults, Outcome, go_on, stop, Progress, transaction,
  ingest, ingest_batch, authorized, bad_batch, notify,
}
use codex_token_meter.Traces.{add_traces}
use codex_token_meter.Ingest.Atomic.{SameBooks, timed, IsOwn, transaction-lem}

pub record IsSound (db : Db) : Type 0 where
  pub balanced : IsBalanced db
  pub bounded : IsBounded db
  pub ledger : IsLedger db.usage_events
  pub revision : db.ledger_revision ≡ max_id db.usage_events

SameBooks-IsBalanced : {a b : Db} → SameBooks a b → IsBalanced a → IsBalanced b
SameBooks-IsBalanced s h k = rw (s.sessions, s.usage_events) (h k)

SameBooks-IsBounded : {a b : Db} → SameBooks a b → IsBounded a → IsBounded b
SameBooks-IsBounded s h = record {
  conversations = rw s.conversation_counters h.conversations;
  sources = rw s.source_counters h.sources;
  rows = rw s.usage_events h.rows;
}

Outcome-cases :
    {A : Type 0} (m : Outcome A)
    → ((status : ℕ) × (text : String) × (m ≡ stop status text)) ⊎ ((a : A) × (m ≡ go_on a))
Outcome-cases (stop status text) = inl (status, text, refl)
Outcome-cases (go_on a) = inr (a, refl)

-- How an upload ends: it is refused, and then only the limiter's times may differ; or it is let in,
-- and then the transaction of its batch is committed.
pub record IsUnchanged (before after : Server) : Type 0 where
  pub db : after.db ≡ before.db
  pub hub : after.hub ≡ before.hub
  pub traces : after.traces ≡ before.traces

module _ (sha : List ℕ → String) (u : Unicode) (faults : Faults) (now : Time) where
  pub record IsCommitted (s : Server) (r : Request) (after : Server × Response) : Type 0 where
    pub batch : IngestBatch
    pub progress : Progress
    pub posted : r.method == "POST" ≡ true
    pub body : r.body ≡ some batch
    pub well_formed : bad_batch sha u faults now batch ≡ false
    pub identified :
        authorized sha u faults now (lookup batch.host_id s.db.agents) r.authorization ≡ true
    pub within_rate : (ingest_allowed batch.host_id now s.ingest_times).1 ≡ true
    pub committed : transaction sha u faults now batch s.db ≡ go_on progress
    pub answer : after.1 ≡ accepted (length batch.events) (length batch.metadata)
    pub stored : after.0.db ≡ progress.db
    pub marked : after.0.hub ≡ notify sha u faults now batch s.db progress s.hub
    pub traced : after.0.traces ≡ add_traces progress.fresh now now s.traces

  abbrev pub IsRefused : Server → Server × Response → Type 0
  IsRefused s after =
      (status : ℕ) × (text : String) × (after.1 ≡ refused status text) × IsUnchanged s after.0

  refuse : (s : Server) (status : ℕ) (text : String) → IsRefused s (s, refused status text)
  refuse s status text = (status, text, refl, record { db = refl; hub = refl; traces = refl })

  refuse_counted :
      (s : Server) (times : Table String (List Time))
      → IsRefused s (record s { ingest_times = times }, refused 429 "rate limited")
  refuse_counted s times =
      (429, "rate limited", refl, record { db = refl; hub = refl; traces = refl })

  ingest_batch-cases :
      (s : Server) (r : Request) (b : IngestBatch)
      → r.method == "POST" ≡ true
      → r.body ≡ some b
      → IsRefused s (ingest_batch sha u faults now s b r.authorization)
        ⊎ IsCommitted s r (ingest_batch sha u faults now s b r.authorization)
  unfolding ingest_batch
  ingest_batch-cases s r b posted body = elim (Bool-cases (bad_batch sha u faults now b)) [
    | inl bad ↦ rw bad (inl (refuse s 400 "bad batch"))
    | inr good ↦
        rw good
          (elim (Bool-cases
            (authorized sha u faults now (lookup b.host_id s.db.agents) r.authorization)) [
              | inr unknown ↦ rw unknown (inl (refuse s 401 "unauthorized"))
              | inl known ↦
                  rw known (elim (Bool-cases (ingest_allowed b.host_id now s.ingest_times).1) [
                    | inr busy ↦
                        rw busy
                          (inl (refuse_counted s (ingest_allowed b.host_id now s.ingest_times).0))
                    | inl rate ↦
                        rw rate (elim (Outcome-cases (transaction sha u faults now b s.db)) [
                          | inl (status, text, failed) ↦ rw failed (
                              inl (
                                status,
                                text,
                                refl,
                                record { db = refl; hub = refl; traces = refl },
                              ))
                          | inr (p, done) ↦ rw done (
                              inr (record {
                                batch = b;
                                progress = p;
                                posted = posted;
                                body = body;
                                well_formed = good;
                                identified = known;
                                within_rate = rate;
                                committed = done;
                                answer = refl;
                                stored = refl;
                                marked = refl;
                                traced = refl;
                              }))
                        ])
                  ])
            ])
  ]

  pub ingest-cases :
      (s : Server) (r : Request)
      → IsRefused s (ingest sha u faults now s r) ⊎ IsCommitted s r (ingest sha u faults now s r)
  unfolding ingest
  ingest-cases s r = elim (Bool-cases (r.method == "POST")) [
    | inr other ↦ rw other (inl (refuse s 405 "method"))
    | inl posted ↦ rw posted (elim (Option-cases r.body) [
      | inl bad ↦ rw bad (inl (refuse s 400 "bad batch"))
      | inr (b, body) ↦ simp (body) (ingest_batch-cases s r b posted body)
    ])
  ]

  apply_events-IsBounded :
      (host : String) (es : List UsageEvent) (db : Db)
      → All (IsOwn host) es
      → IsBounded db
      → IsBounded (apply_events sha (timed now es) db)
  unfolding apply_events
  apply_events-IsBounded host [] db own b = b
  apply_events-IsBounded host (e ∷ es) db own b =
      apply_events-IsBounded host es _ own.1 (apply_event-IsBounded sha now e db own.0.1 b)

  -- After an accepted upload the tables of the books are what applying the batch's events in order,
  -- and nothing else, makes of them; each of the events was valid and of the batch's host; and the
  -- published revision is the ledger's last id.
  pub committed_books :
      (s : Server) (r : Request) (done : IsCommitted s r (ingest sha u faults now s r))
      → SameBooks
          (apply_events sha (timed now done.batch.events) s.db)
          (ingest sha u faults now s r).0.db
        × (All (IsOwn done.batch.host_id) done.batch.events
            × ((ingest sha u faults now s r).0.db.ledger_revision
                ≡ max_id (ingest sha u faults now s r).0.db.usage_events))
  committed_books s r done =
      rw (done.stored)
        (transaction-lem sha u faults now done.batch s.db done.progress done.committed)

  -- Whatever the request, the clock and the statements that fail, an upload keeps the database
  -- sound: each session's columns are the sums of its ledger rows, all counters and deltas are
  -- within bounds, the ledger's ids rise and no two rows share an event's id or a host's
  -- deduplication key, and the published revision is the ledger's last id.
  pub ingest-IsSound :
      (s : Server) (r : Request) → IsSound s.db → IsSound (ingest sha u faults now s r).0.db
  ingest-IsSound s r h = elim (ingest-cases s r) [
    | inl (status, text, answer, same) ↦ rw same.db h
    | inr done ↦
        let (books, (own, revision)) = committed_books s r done in
        record {
          balanced = SameBooks-IsBalanced books (apply_events-IsBalanced sha _ s.db h.balanced);
          bounded =
              SameBooks-IsBounded books
                (apply_events-IsBounded done.batch.host_id _ s.db own h.bounded);
          ledger =
              rw books.usage_events
                (apply_events-IsLedger sha (timed now done.batch.events) s.db h.ledger);
          revision = revision;
        }
  ]
