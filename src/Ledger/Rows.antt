-- ===== src/Ledger/Rows.antt =====
-- usage_events as a table: its key, its two unique indexes, and what they promise.
use codex_token_meter.Prelude.{
  length, ◌+◌, ℕ, suc, ◌≤◌, ◌<◌, String, false, List, [], ◌∷◌, ◌≡◌, ◌≢◌, refl, text_eq, arith,
  Bool-cases, inl, inr, All, ap, ◌⊎◌,
}
use codex_token_meter.Types.{Time, EventType, baseline, exact_usage, UsageEvent}
use codex_token_meter.Ledger.Db.{Db, UsageRow, max_id}
use codex_token_meter.Ledger.Apply.{with_parent, opening, apply_baseline}
use codex_token_meter.Ledger.Exact.{apply_event, apply_exact, dispatch, noted, usage_row, conflicts}
use codex_token_meter.Ledger.Replay.{seen, apply_event-seen, apply_event-fresh, apply_events}
use codex_token_meter.Ledger.Balance.{settle-rows}

-- Two rows differ in their event, and in their response (or counter) if they are of one host.
abbrev pub AreApart : UsageRow → UsageRow → Type 0
AreApart r q = (q.event_id ≢ r.event_id) × (q.host_id ≡ r.host_id → q.dedup_key ≢ r.dedup_key)

-- Newest first: ids fall along the table, and no two rows collide in an index.
abbrev pub IsLedger : List UsageRow → Type 0
IsLedger [] = Unit
IsLedger (r ∷ rs) = (max_id rs < r.id) × All (AreApart r) rs × IsLedger rs

conflicts-AreApart :
    (r : UsageRow) (rs : List UsageRow) → conflicts r rs ≡ false → All (AreApart r) rs
unfolding conflicts
conflicts-AreApart r [] h = tt
conflicts-AreApart r (q ∷ rs) h = (
  (
    ground (arith, text_eq.same_iff q.event_id r.event_id),
    ground (arith, text_eq.same_iff q.host_id r.host_id, text_eq.same_iff q.dedup_key r.dedup_key),
  ),
  conflicts-AreApart r rs (ground arith),
)

-- The rows after an operation: the same, or one more on top that is apart from them all.
abbrev pub GrowsBy : List UsageRow → List UsageRow → Type 0
GrowsBy old new =
    (new ≡ old)
    ⊎ ((r : UsageRow) × (new ≡ r ∷ old) × (r.id ≡ suc (max_id old)) × All (AreApart r) old)

module _ (sha : List ℕ → String) where
  apply_exact-GrowsBy :
      (now : Time) (e : UsageEvent) (db : Db)
      → GrowsBy db.usage_events (apply_exact sha now e db).usage_events
  unfolding apply_exact usage_row
  apply_exact-GrowsBy now e db =
      let row = usage_row sha now e (opening db e) db.usage_events in
      elim (Bool-cases (conflicts row db.usage_events)) [
        | inl clash ↦ inl (rw clash)
        | inr fresh ↦
            inr (row, rw (fresh, settle-rows), refl, conflicts-AreApart row db.usage_events fresh)
      ]

  dispatch-GrowsBy :
      (t : EventType) (now : Time) (e : UsageEvent) (db : Db)
      → GrowsBy db.usage_events (dispatch sha t now e db).usage_events
  unfolding dispatch apply_baseline
  dispatch-GrowsBy baseline now e db = inl refl
  dispatch-GrowsBy exact_usage now e db = apply_exact-GrowsBy now e db
  dispatch-GrowsBy _ now e db = inl refl

  -- An event leaves the ledger as it is, or adds one row in front of it, under the id after the
  -- last and with an event id and a response key that no row has; no row is ever changed or
  -- removed.
  pub apply_event-GrowsBy :
      (now : Time) (e : UsageEvent) (db : Db)
      → GrowsBy db.usage_events (apply_event sha now e db).usage_events
  unfolding noted
  apply_event-GrowsBy now e db = elim (Bool-cases (seen e.event_id db)) [
    | inl old ↦ inl (ap (λ d. d.usage_events) (apply_event-seen sha now e db old))
    | inr new ↦
        rw (apply_event-fresh sha now e db new)
          (dispatch-GrowsBy e.event_type now (with_parent db e) (noted now (with_parent db e) db))
  ]

GrowsBy-IsLedger : (old new : List UsageRow) → GrowsBy old new → IsLedger old → IsLedger new
GrowsBy-IsLedger old new (inl same) h = rw same h
GrowsBy-IsLedger old new (inr (r, more, id, apart)) h = rw more (omega arith, apart, h)

GrowsBy-max_id : (old new : List UsageRow) → GrowsBy old new → max_id old ≤ max_id new
unfolding max_id
GrowsBy-max_id old new (inl same) = rw same (omega arith)
GrowsBy-max_id old new (inr (r, more, id, apart)) = rw more (omega arith)

GrowsBy-length : (old new : List UsageRow) → GrowsBy old new → length new ≤ suc (length old)
GrowsBy-length old new (inl same) = rw same (omega arith)
GrowsBy-length old new (inr (r, more, id, apart)) = rw more (omega arith)

module _ (sha : List ℕ → String) where
  -- Over any events, if the ids of the ledger's rows rise and no two rows share an event's id or a
  -- host's deduplication key, the same holds afterwards.
  pub apply_events-IsLedger :
      (es : List (Time × UsageEvent)) (db : Db)
      → IsLedger db.usage_events
      → IsLedger (apply_events sha es db).usage_events
  unfolding apply_events
  apply_events-IsLedger [] db h = h
  apply_events-IsLedger ((now, e) ∷ es) db h =
      apply_events-IsLedger es (apply_event sha now e db)
        (GrowsBy-IsLedger _ _ (apply_event-GrowsBy sha now e db) h)

  pub max_id-apply_events :
      (es : List (Time × UsageEvent)) (db : Db)
      → max_id db.usage_events ≤ max_id (apply_events sha es db).usage_events
  unfolding apply_events
  max_id-apply_events [] db = omega arith
  max_id-apply_events ((now, e) ∷ es) db = omega (
    arith,
    GrowsBy-max_id _ _ (apply_event-GrowsBy sha now e db),
    max_id-apply_events es (apply_event sha now e db),
  )

  pub length-apply_events :
      (es : List (Time × UsageEvent)) (db : Db)
      → length (apply_events sha es db).usage_events ≤ length db.usage_events + length es
  unfolding apply_events
  length-apply_events [] db = omega arith
  length-apply_events ((now, e) ∷ es) db = omega (
    arith,
    GrowsBy-length _ _ (apply_event-GrowsBy sha now e db),
    length-apply_events es (apply_event sha now e db),
  )
