-- ===== src/Ledger/Balance.antt =====
-- The columns of a session against the ledger: what `applyEvent` adds to one it adds to the other.
use codex_token_meter.Prelude.{
  ℕ, String, Option, none, some, List, [], ◌∷◌, lookup, upsert, ◌≡◌, refl, ◌==◌, if◌then◌else◌,
  text_eq, pair_eq, arith, lookup-upsert, inl, inr, Bool-cases,
}
use codex_token_meter.Types.{
  Time, Tally, EventType, baseline, exact_usage, live_estimate, activity, UsageEvent,
}
use codex_token_meter.Counts.{◌+ᵗ◌, no_tally, zero_+ᵗ}
use codex_token_meter.Ledger.Db.{Db, UsageRow, Session}
use codex_token_meter.Ledger.Apply.{
  Opening, with_parent, update_session, opening, exact_delta, estimate_session, activity_session,
  apply_baseline,
}
use codex_token_meter.Ledger.Exact.{
  apply_event, apply_exact, dispatch, noted, settle, exact_session, usage_row, conflicts, reconcile,
  count_source, count_conversation,
}
use codex_token_meter.Ledger.Replay.{seen, apply_event-seen, apply_event-fresh, apply_events}

abbrev pub session_tally : Option Session → Tally
session_tally none = no_tally
session_tally (some s) = s.tally

-- What the ledger holds for one conversation of one host.
unfoldable pub booked : String × String → List UsageRow → Tally
booked k [] = no_tally
booked k (r ∷ rs) =
    if (r.host_id, r.conversation_id) == k then booked k rs +ᵗ r.counted else booked k rs

abbrev pub IsBalanced : Db → Type 0
IsBalanced db =
    (k : String × String) → session_tally (lookup k db.sessions) ≡ booked k db.usage_events

exact_session_tally :
    (e : UsageEvent) (o : Opening) (s : Option Session)
    → (exact_session e o s).tally ≡ session_tally s +ᵗ (exact_delta e o).tally
unfolding exact_session
exact_session_tally e o none = rw zero_+ᵗ
exact_session_tally e o (some s) = refl

estimate_session_tally :
    (e : UsageEvent) (s : Option Session) → (estimate_session e s).tally ≡ session_tally s
unfolding estimate_session
estimate_session_tally e none = refl
estimate_session_tally e (some s) = refl

activity_session_tally :
    (e : UsageEvent) (s : Option Session) → (activity_session e s).tally ≡ session_tally s
unfolding activity_session
activity_session_tally e none = refl
activity_session_tally e (some s) = refl

-- A session that is rewritten with its columns kept leaves the books in balance.
update_session-IsBalanced :
    (e : UsageEvent) (f : Option Session → Session) (db : Db)
    → ((s : Option Session) → (f s).tally ≡ session_tally s)
    → IsBalanced db
    → IsBalanced (update_session e f db)
update_session-IsBalanced e f db keeps h k = rw lookup-upsert (
    ground (
      arith,
      pair_eq.same_iff (e.host_id, e.conversation_id) k,
      keeps (lookup (e.host_id, e.conversation_id) db.sessions),
      h k,
    ))

pub settle-rows :
    (e : UsageEvent) (o : Opening) (db : Db) → (settle e o db).usage_events ≡ db.usage_events
unfolding count_conversation count_source reconcile settle
settle-rows e o db = ground arith

settle-sessions :
    (e : UsageEvent) (o : Opening) (db : Db)
    → (settle e o db).sessions
      ≡ upsert (e.host_id, e.conversation_id) (exact_session e o) db.sessions
unfolding count_conversation count_source reconcile settle
settle-sessions e o db = ground arith

module _ (sha : List ℕ → String) where
  apply_exact-IsBalanced :
      (now : Time) (e : UsageEvent) (db : Db)
      → IsBalanced db
      → IsBalanced (apply_exact sha now e db)
  unfolding apply_exact booked usage_row
  apply_exact-IsBalanced now e db h k =
      let o = opening db e in
      let row = usage_row sha now e o db.usage_events in
      elim (Bool-cases (conflicts row db.usage_events)) [
        | inl clash ↦ rw clash (h k)
        | inr fresh ↦
            rw (fresh, settle-sessions, settle-rows, lookup-upsert)
              (ground (
                arith,
                h k,
                pair_eq.same_iff (e.host_id, e.conversation_id) k,
                exact_session_tally e o (lookup (e.host_id, e.conversation_id) db.sessions),
              ))
      ]

  noted-IsBalanced :
      (now : Time) (e : UsageEvent) (db : Db) → IsBalanced db → IsBalanced (noted now e db)
  unfolding noted
  noted-IsBalanced now e db h k = h k

  dispatch-IsBalanced :
      (t : EventType) (now : Time) (e : UsageEvent) (db : Db)
      → IsBalanced db
      → IsBalanced (dispatch sha t now e db)
  unfolding dispatch apply_baseline
  dispatch-IsBalanced baseline now e db h = λ k. h k
  dispatch-IsBalanced exact_usage now e db h = apply_exact-IsBalanced now e db h
  dispatch-IsBalanced live_estimate now e db h =
      update_session-IsBalanced e (estimate_session e) db (estimate_session_tally e) h
  dispatch-IsBalanced activity now e db h =
      update_session-IsBalanced e (activity_session e) db (activity_session_tally e) h
  dispatch-IsBalanced _ now e db h = h

  -- Every event, of whatever type, keeps each session's six columns equal to the sum of the deltas
  -- that the ledger holds for the conversation.
  pub apply_event-IsBalanced :
      (now : Time) (e : UsageEvent) (db : Db)
      → IsBalanced db
      → IsBalanced (apply_event sha now e db)
  apply_event-IsBalanced now e db h = elim (Bool-cases (seen e.event_id db)) [
    | inl old ↦ rw (apply_event-seen sha now e db old) h
    | inr new ↦ rw (apply_event-fresh sha now e db new) (
        dispatch-IsBalanced e.event_type now (with_parent db e) (noted now (with_parent db e) db)
          (noted-IsBalanced now (with_parent db e) db h))
  ]

  -- Over any events, if the six columns of every session equal the sums of the deltas that the
  -- ledger holds for its conversation, they do so afterwards.
  pub apply_events-IsBalanced :
      (es : List (Time × UsageEvent)) (db : Db)
      → IsBalanced db
      → IsBalanced (apply_events sha es db)
  unfolding apply_events
  apply_events-IsBalanced [] db h = h
  apply_events-IsBalanced ((now, e) ∷ es) db h =
      apply_events-IsBalanced es (apply_event sha now e db) (apply_event-IsBalanced now e db h)
