-- ===== src/Ledger/Bounds/Events.antt =====
-- Events of every kind, and what a session then holds.
use codex_token_meter.Prelude.{
  ◌+◌, ℕ, suc, pos, ◌*◌, ◌≤◌, ◌-◌, ◌^◌, String, true, false, List, [], ◌∷◌, lookup, ◌≡◌, refl, ◌==◌,
  if◌then◌else◌, pair_eq, text_eq, arith, inl, inr, Bool-cases, All, length,
}
use codex_token_meter.Types.{Time, EventType, baseline, exact_usage, UsageEvent}
use codex_token_meter.Counts.{IsWithin, ◌+ᵗ◌, +ᵗ-IsWithin, IsWithin-mono}
use codex_token_meter.Valid.{valid_usage_event, valid_usage_event-IsWithin, count_limit}
use codex_token_meter.Ledger.Db.{Db, UsageRow}
use codex_token_meter.Ledger.Apply.{with_parent, opening}
use codex_token_meter.Ledger.Exact.{apply_event, apply_exact, dispatch, noted, usage_row, conflicts}
use codex_token_meter.Ledger.Replay.{apply_events, seen, apply_event-seen, apply_event-fresh}
use codex_token_meter.Ledger.Balance.{booked, IsBalanced, session_tally, apply_events-IsBalanced}
use codex_token_meter.Ledger.Rows.{length-apply_events}
use codex_token_meter.Ledger.Bounds.{
  Fits, IsBounded, opening-Fits, exact_delta-Fits, transfer, settle-IsBounded,
  apply_baseline-IsBounded,
}

module _ (sha : List ℕ → String) where
  apply_exact-IsBounded :
      (now : Time) (e : UsageEvent) (db : Db)
      → Fits e.counts.tally
      → IsBounded db
      → IsBounded (apply_exact sha now e db)
  unfolding apply_exact usage_row
  apply_exact-IsBounded now e db h b =
      let o = opening db e in
      let row = usage_row sha now e o db.usage_events in
      elim (Bool-cases (conflicts row db.usage_events)) [
        | inl clash ↦ rw clash b
        | inr fresh ↦ rw fresh (
            settle-IsBounded e o (record db { usage_events = row ∷ db.usage_events }) h
              (record {
                conversations = b.conversations;
                sources = b.sources;
                rows = (exact_delta-Fits e o h (opening-Fits db e b), b.rows);
              }))
      ]

  dispatch-IsBounded :
      (t : EventType) (now : Time) (e : UsageEvent) (db : Db)
      → Fits e.counts.tally
      → IsBounded db
      → IsBounded (dispatch sha t now e db)
  unfolding dispatch
  dispatch-IsBounded baseline now e db h b = apply_baseline-IsBounded e db h b
  dispatch-IsBounded exact_usage now e db h b = apply_exact-IsBounded now e db h b
  dispatch-IsBounded _ now e db h b = transfer refl refl refl b

  noted-IsBounded :
      (now : Time) (e : UsageEvent) (db : Db) → IsBounded db → IsBounded (noted now e db)
  unfolding noted
  noted-IsBounded now e db b = transfer refl refl refl b

  -- A valid event, of whatever type, keeps every counter and every delta of the ledger between 0
  -- and 10^12.
  pub apply_event-IsBounded :
      (now : Time) (e : UsageEvent) (db : Db)
      → valid_usage_event e ≡ true
      → IsBounded db
      → IsBounded (apply_event sha now e db)
  unfolding with_parent
  apply_event-IsBounded now e db valid b = elim (Bool-cases (seen e.event_id db)) [
    | inl old ↦ rw (apply_event-seen sha now e db old) b
    | inr new ↦ rw (apply_event-fresh sha now e db new) (
        dispatch-IsBounded e.event_type now (with_parent db e) (noted now (with_parent db e) db)
          (valid_usage_event-IsWithin e valid) (noted-IsBounded now (with_parent db e) db b))
  ]

pub booked_bounds :
    (k : String × String) (rows : List UsageRow)
    → All (λ r. Fits r.counted) rows
    → IsWithin (pos 0) (pos (length rows * count_limit)) (booked k rows)
unfolding booked
booked_bounds k [] h = omega arith
booked_bounds k (r ∷ rows) h =
    elim ((r.host_id, r.conversation_id) == k)
      as (λ b.
        IsWithin (pos 0) (pos (suc (length rows) * count_limit))
          (if b then booked k rows +ᵗ r.counted else booked k rows)) [
            | true ↦ IsWithin-mono _ (omega arith) (+ᵗ-IsWithin _ _ (booked_bounds k rows h.1) h.0)
            | false ↦ IsWithin-mono _ (omega arith) (booked_bounds k rows h.1)
          ]

-- Columns that are the sums of the ledger's deltas, of which there are few enough.
balanced-IsWithin :
    (db : Db) (k : String × String)
    → IsBalanced db
    → IsBounded db
    → length db.usage_events ≤ 9_000_000
    → IsWithin (pos 0) (pos (2 ^ 63 - 1)) (session_tally (lookup k db.sessions))
balanced-IsWithin db k balanced bounded few =
    rw balanced (IsWithin-mono _ (omega arith) (booked_bounds k db.usage_events bounded.rows))

module _ (sha : List ℕ → String) where
  apply_events-IsBounded :
      (es : List (Time × UsageEvent)) (db : Db)
      → All (λ e. valid_usage_event e.1 ≡ true) es
      → IsBounded db
      → IsBounded (apply_events sha es db)
  unfolding apply_events
  apply_events-IsBounded [] db h b = b
  apply_events-IsBounded ((now, e) ∷ es) db h b =
      apply_events-IsBounded es (apply_event sha now e db) h.1
        (apply_event-IsBounded sha now e db h.0 b)

  -- Over any valid events, from a database whose sessions' columns are the sums of the ledger's
  -- deltas and whose counters and deltas are within bounds: as long as the ledger's rows
  -- and the events are nine million together at most, no column of a session is below 0 or beyond the
  -- range of an int64 afterwards.
  pub session_fits_int64 :
      (es : List (Time × UsageEvent)) (db : Db) (k : String × String)
      → IsBalanced db
      → IsBounded db
      → All (λ e. valid_usage_event e.1 ≡ true) es
      → length db.usage_events + length es ≤ 9_000_000
      → IsWithin
          (pos 0)
          (pos (2 ^ 63 - 1))
          (session_tally (lookup k (apply_events sha es db).sessions))
  session_fits_int64 es db k balanced bounded valid few =
      balanced-IsWithin (apply_events sha es db) k (apply_events-IsBalanced sha es db balanced)
        (apply_events-IsBounded es db valid bounded)
        (omega (arith, length-apply_events sha es db, few))
