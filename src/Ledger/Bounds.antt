-- ===== src/Ledger/Bounds.antt =====
-- The numbers of the ledger stay in range: Go's int64 and SQLite's integers do not wrap.
pub mod Events
use codex_token_meter.Prelude.{
  ℕ, suc, pos, not, ◌||◌, ltb_ℤ, ◌*◌, ◌≤◌, ◌-◌, ◌^◌, String, true, false, Option, none, some, List,
  [], ◌∷◌, lookup, Holds, Holds-upsert, ◌≡◌, refl, ◌==◌, if◌then◌else◌, pair_eq, text_eq, arith,
  inl, inr, Bool-cases, All, length,
}
use codex_token_meter.Types.{Time, Tally, EventType, baseline, exact_usage, UsageEvent}
use codex_token_meter.Counts.{
  IsWithin, no_tally, delta_counts-IsWithin, ◌+ᵗ◌, +ᵗ-IsWithin, IsWithin-mono,
}
use codex_token_meter.Valid.{valid_usage_event, valid_usage_event-IsWithin, count_limit}
use codex_token_meter.Ledger.Db.{Db, UsageRow, Counter}
use codex_token_meter.Ledger.Apply.{
  Opening, with_parent, opening, exact_delta, apply_baseline, rebase_conversation, rebase_source,
  resets, inherited, conversation_opening, source_opening, parent_opening,
}
use codex_token_meter.Ledger.Exact.{
  apply_event, apply_exact, dispatch, noted, settle, usage_row, conflicts, count_source,
  count_conversation, reconcile,
}
use codex_token_meter.Ledger.Replay.{seen, apply_event-seen, apply_event-fresh}
use codex_token_meter.Ledger.Watermark.{settle-source}
use codex_token_meter.Ledger.Balance.{settle-rows, booked, IsBalanced, session_tally}

abbrev pub Fits : Tally → Type 0
Fits = IsWithin (pos 0) (pos count_limit)

abbrev pub CounterFits : Counter → Type 0
CounterFits c = Fits c.tally

-- Every counter, and every delta in the ledger, lies between 0 and the limit.
pub record IsBounded (db : Db) : Type 0 where
  pub conversations : Holds CounterFits db.conversation_counters
  pub sources : Holds CounterFits db.source_counters
  pub rows : All (λ r. Fits r.counted) db.usage_events

no_tally-Fits : Fits no_tally
no_tally-Fits = omega arith

abbrev Found : Option Counter → Type 0
Found o = (c : Counter) → o ≡ some c → CounterFits c

inherited-Fits : (o : Option Counter) → Found o → Fits (inherited o).old.tally
inherited-Fits none h = no_tally-Fits
inherited-Fits (some c) h = h c refl

conversation_opening-Fits :
    (o : Option Counter) (p : Opening)
    → Found o
    → Fits p.old.tally
    → Fits (conversation_opening o p).old.tally
conversation_opening-Fits none p h k = k
conversation_opening-Fits (some c) p h k = h c refl

source_opening-Fits :
    (o : Option Counter) (p : Opening)
    → Found o
    → Fits p.old.tally
    → Fits (source_opening o p).old.tally
source_opening-Fits none p h k = k
source_opening-Fits (some c) p h k = h c refl

parent_opening-Fits :
    (db : Db) (e : UsageEvent) → IsBounded db → Fits (parent_opening db e).old.tally
parent_opening-Fits db e b = elim (Bool-cases (e.parent_conversation_id == "")) [
  | inl alone ↦ rw alone no_tally-Fits
  | inr child ↦ rw child (
      inherited-Fits (lookup (e.host_id, e.parent_conversation_id) db.conversation_counters)
        (b.conversations _))
]

pub opening-Fits : (db : Db) (e : UsageEvent) → IsBounded db → Fits (opening db e).old.tally
unfolding opening
opening-Fits db e b =
    source_opening-Fits _ _ (b.sources _)
      (conversation_opening-Fits _ _ (b.conversations _) (parent_opening-Fits db e b))

pub exact_delta-Fits :
    (e : UsageEvent) (o : Opening)
    → Fits e.counts.tally
    → Fits o.old.tally
    → Fits (exact_delta e o).tally
unfolding exact_delta
exact_delta-Fits e o h k =
    ground (arith, no_tally-Fits, delta_counts-IsWithin e.counts o.old (resets e o) h k)

rebase_conversation-Fits :
    (e : UsageEvent) (o : Option Counter)
    → Fits e.counts.tally
    → CounterFits (rebase_conversation e o)
unfolding rebase_conversation
rebase_conversation-Fits e none h = h
rebase_conversation-Fits e (some c) h = h

rebase_source-Fits :
    (e : UsageEvent) (o : Option Counter)
    → Fits e.counts.tally
    → Found o
    → CounterFits (rebase_source e o)
unfolding rebase_source
rebase_source-Fits e none h k = h
rebase_source-Fits e (some c) h k = ground (arith, h, k c refl)

-- Only the counters and the rows matter.
pub transfer :
    {db db' : Db}
    → db'.conversation_counters ≡ db.conversation_counters
    → db'.source_counters ≡ db.source_counters
    → db'.usage_events ≡ db.usage_events
    → IsBounded db
    → IsBounded db'
transfer p q r b = record {
  conversations = rw p b.conversations;
  sources = rw q b.sources;
  rows = rw r b.rows;
}

settle-conversations :
    (e : UsageEvent) (o : Opening) (db : Db)
    → (settle e o db).conversation_counters ≡ (count_conversation e o db).conversation_counters
unfolding count_conversation count_source reconcile settle
settle-conversations e o db = ground arith

count_conversation-Holds :
    (e : UsageEvent) (o : Opening) (db : Db)
    → Fits e.counts.tally
    → Holds CounterFits db.conversation_counters
    → Holds CounterFits (count_conversation e o db).conversation_counters
unfolding count_conversation
count_conversation-Holds e o db h b = Holds-upsert CounterFits _ _ db.conversation_counters b h

count_source-Holds :
    (e : UsageEvent) (o : Opening) (db : Db)
    → Fits e.counts.tally
    → Holds CounterFits db.source_counters
    → Holds CounterFits (count_source e o db).source_counters
unfolding count_source
count_source-Holds e o db h b =
    elim (Bool-cases
      (not o.source_found || resets e o || ltb_ℤ o.old.total_tokens e.counts.total_tokens)) [
        | inl moves ↦ rw moves (Holds-upsert CounterFits _ _ db.source_counters b h)
        | inr stays ↦ rw stays b
      ]

pub settle-IsBounded :
    (e : UsageEvent) (o : Opening) (db : Db)
    → Fits e.counts.tally
    → IsBounded db
    → IsBounded (settle e o db)
settle-IsBounded e o db h b = record {
  conversations = rw settle-conversations (count_conversation-Holds e o db h b.conversations);
  sources = rw settle-source (count_source-Holds e o db h b.sources);
  rows = rw settle-rows b.rows;
}

pub apply_baseline-IsBounded :
    (e : UsageEvent) (db : Db)
    → Fits e.counts.tally
    → IsBounded db
    → IsBounded (apply_baseline e db)
unfolding apply_baseline
apply_baseline-IsBounded e db h b = record {
  conversations =
      Holds-upsert CounterFits _ _ db.conversation_counters b.conversations
        (rebase_conversation-Fits e _ h);
  sources =
      Holds-upsert CounterFits _ _ db.source_counters b.sources
        (rebase_source-Fits e _ h (b.sources _));
  rows = b.rows;
}
