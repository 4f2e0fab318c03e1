-- ===== src/Ledger/Replay.antt =====
-- Deliveries of one event more than once: `applyEvent` looks at ingested_events first.
use codex_token_meter.Prelude.{
  ℕ, String, Bool, true, false, List, [], ◌∷◌, lookup, ◌≡◌, refl, ap, ◌∙◌, ◌==◌, if◌then◌else◌,
  text_eq, arith, lookup-upsert, beq_self, inl, inr, Bool-cases, All, any,
}
use codex_token_meter.Types.{
  Time, EventType, baseline, exact_usage, live_estimate, activity, UsageEvent,
}
use codex_token_meter.Ledger.Db.{Db}
use codex_token_meter.Ledger.Apply.{Opening, with_parent, is_there, opening, apply_baseline}
use codex_token_meter.Ledger.Exact.{
  apply_event, dispatch, noted, settle, reconcile, count_source, count_conversation, apply_exact,
  usage_row,
}

abbrev pub seen : String → Db → Bool
seen id db = is_there (lookup id db.ingested_events)

-- The events of a batch, each at the time of its own clock reading.
unfoldable pub apply_events : (List ℕ → String) → List (Time × UsageEvent) → Db → Db
apply_events sha [] db = db
apply_events sha ((now, e) ∷ es) db = apply_events sha es (apply_event sha now e db)

settle-ingested :
    (e : UsageEvent) (o : Opening) (db : Db) → (settle e o db).ingested_events ≡ db.ingested_events
unfolding settle count_conversation count_source reconcile
settle-ingested e o db = ground arith

module _ (sha : List ℕ → String) where
  dispatch-ingested :
      (t : EventType) (now : Time) (e : UsageEvent) (db : Db)
      → (dispatch sha t now e db).ingested_events ≡ db.ingested_events
  unfolding dispatch apply_baseline apply_exact
  dispatch-ingested baseline now e db = refl
  dispatch-ingested exact_usage now e db =
      let o = opening db e in
      let row = usage_row sha now e o db.usage_events in
      ground (arith, settle-ingested e o (record db { usage_events = row ∷ db.usage_events }))
  dispatch-ingested live_estimate now e db = refl
  dispatch-ingested activity now e db = refl
  dispatch-ingested _ now e db = refl

  pub apply_event-seen :
      (now : Time) (e : UsageEvent) (db : Db)
      → seen e.event_id db ≡ true
      → apply_event sha now e db ≡ db
  unfolding apply_event with_parent lookup
  apply_event-seen now e db h = rw h

  pub apply_event-fresh :
      (now : Time) (e : UsageEvent) (db : Db)
      → seen e.event_id db ≡ false
      → apply_event sha now e db
        ≡ dispatch sha e.event_type now (with_parent db e) (noted now (with_parent db e) db)
  unfolding apply_event with_parent lookup
  apply_event-fresh now e db h = rw h

  seen-noted :
      (now : Time) (e : UsageEvent) (db : Db) (id : String)
      → seen id (noted now e db) ≡ (if e.event_id == id then true else seen id db)
  unfolding noted
  seen-noted now e db id = rw lookup-upsert (ground arith)

  -- An event is seen after it was applied, and what was seen before stays so.
  pub seen-apply_event :
      (now : Time) (e : UsageEvent) (db : Db) (id : String)
      → seen id (apply_event sha now e db) ≡ (if e.event_id == id then true else seen id db)
  unfolding with_parent
  seen-apply_event now e db id = elim (Bool-cases (seen e.event_id db)) [
    | inl old ↦
        rw (apply_event-seen now e db old) (ground (arith, text_eq.same_iff e.event_id id, old))
    | inr new ↦
        ap (λ t. is_there (lookup id t))
          (ap (λ d. d.ingested_events) (apply_event-fresh now e db new)
            ∙ dispatch-ingested e.event_type now (with_parent db e)
                (noted now (with_parent db e) db))
        ∙ seen-noted now (with_parent db e) db id
  ]

  pub apply_event_twice :
      (now later : Time) (e : UsageEvent) (db : Db)
      → apply_event sha later e (apply_event sha now e db) ≡ apply_event sha now e db
  apply_event_twice now later e db =
      apply_event-seen later e _ (seen-apply_event now e db e.event_id ∙ rw beq_self)

  -- Nothing forgets an event, and a batch is seen as a whole.
  seen-apply_events :
      (es : List (Time × UsageEvent)) (db : Db) (id : String)
      → seen id (apply_events sha es db)
        ≡ (if any (λ e. e.1.event_id == id) es then true else seen id db)
  unfolding apply_events
  seen-apply_events [] db id = refl
  seen-apply_events ((now, e) ∷ es) db id =
      ground
        (arith, seen-apply_events es (apply_event sha now e db) id, seen-apply_event now e db id)

  pub apply_events-seen :
      (es : List (Time × UsageEvent)) (db : Db)
      → All (λ e. seen e.1.event_id db ≡ true) es
      → apply_events sha es db ≡ db
  unfolding apply_events
  apply_events-seen [] db h = refl
  apply_events-seen ((now, e) ∷ es) db h =
      rw (apply_event-seen now e db h.0) (apply_events-seen es db h.1)

  pub All-seen :
      (es fs : List (Time × UsageEvent)) (db : Db)
      → All (λ f. any (λ e. e.1.event_id == f.1.event_id) es ≡ true) fs
      → All (λ f. seen f.1.event_id (apply_events sha es db) ≡ true) fs
  All-seen es [] db h = tt
  All-seen es (f ∷ fs) db h = (seen-apply_events es db f.1.event_id ∙ rw h.0, All-seen es fs db h.1)

  -- A redelivery of events that were applied, in any order, as often as may be, in whole or in part
  -- and at whatever times, leaves the whole database as it is.
  pub apply_events_again :
      (es fs : List (Time × UsageEvent)) (db : Db)
      → All (λ f. any (λ e. e.1.event_id == f.1.event_id) es ≡ true) fs
      → apply_events sha fs (apply_events sha es db) ≡ apply_events sha es db
  apply_events_again es fs db h = apply_events-seen fs _ (All-seen es fs db h)
