-- ===== src/Ledger/Watermark/Events.antt =====
-- The ledger of one source over a run of exact usages, `applyEvent` after `applyEvent`.
use codex_token_meter.Prelude.{
  ℕ, ℤ, ◌+ℤ◌, ◌≤ℤ◌, String, Bool, true, false, not, ◌&&◌, List, [], ◌∷◌, lookup, ◌≡◌, refl, ap, ◌∙◌,
  if◌then◌else◌, pair_eq, arith, inl, inr, Bool-cases, beq_self,
}
use codex_token_meter.Types.{Time, exact_usage, UsageEvent}
use codex_token_meter.Ledger.Db.{Db, UsageRow}
use codex_token_meter.Ledger.Apply.{Opening, with_parent, opening}
use codex_token_meter.Ledger.Exact.{
  apply_event, apply_exact, dispatch, noted, settle, usage_row, conflicts,
}
use codex_token_meter.Ledger.Replay.{seen, apply_event-seen, apply_event-fresh, apply_events}
use codex_token_meter.Ledger.Balance.{settle-rows}
use codex_token_meter.Ledger.Watermark.{
  source_of, source_total, next_mark, charge, AtMark, exact_charge, advanced, settle-lookup,
  advanced_mark, run_peaks, InOrder, peaks_step,
}

module _ (sha : List ℕ → String) where
  -- Does the ledger take a row for this event?
  unfoldable pub enters : UsageEvent → Db → Bool
  enters e₀ db =
      let e = with_parent db e₀ in
      not (seen e₀.event_id db)
      && not (conflicts (usage_row sha 0 e (opening db e) db.usage_events) db.usage_events)

  -- The epochs and totals of the events that enter, in their order.
  unfoldable pub entered : List (Time × UsageEvent) → Db → List (ℤ × ℤ)
  unfolding enters
  entered [] db = []
  entered ((now, e) ∷ es) db =
      let rest = entered es (apply_event sha now e db) in
      if enters e db then (e.source_epoch, e.counts.total_tokens) ∷ rest else rest

  opening-noted :
      (now : Time) (e : UsageEvent) (db : Db) → opening (noted now e db) e ≡ opening db e
  unfolding noted opening
  opening-noted now e db = refl

  noted-rows :
      (now : Time) (e : UsageEvent) (db : Db) → (noted now e db).usage_events ≡ db.usage_events
  unfolding noted
  noted-rows now e db = refl

  noted-source :
      (now : Time) (e : UsageEvent) (db : Db)
      → (noted now e db).source_counters ≡ db.source_counters
  unfolding noted
  noted-source now e db = refl

  conflicts-at :
      (now : Time) (e : UsageEvent) (o : Opening) (rows : List UsageRow)
      → conflicts (usage_row sha now e o rows) rows ≡ conflicts (usage_row sha 0 e o rows) rows
  unfolding conflicts usage_row
  conflicts-at now e o rows = refl

  abbrev settled : Time → UsageEvent → Db → Db
  settled now e db = settle e (opening db e) (record (noted now e db) {
    usage_events = usage_row sha now e (opening db e) db.usage_events ∷ db.usage_events;
  })

  exact_event :
      (now : Time) (e : UsageEvent) (db : Db)
      → e.event_type ≡ exact_usage
      → seen e.event_id db ≡ false
      → apply_event sha now e db ≡ (
          if conflicts
            (usage_row sha 0 (with_parent db e) (opening db (with_parent db e)) db.usage_events)
            db.usage_events
          then noted now (with_parent db e) db
          else settled now (with_parent db e) db)
  unfolding dispatch apply_exact
  exact_event now e db exact new =
      apply_event-fresh sha now e db new
      ∙ ap (λ t. dispatch sha t now (with_parent db e) (noted now (with_parent db e) db)) exact
      ∙ rw (opening-noted, noted-rows, conflicts-at) refl

  -- The rows and the source counters after an event that does not enter are those before it.
  stays_out :
      (now : Time) (e : UsageEvent) (db : Db)
      → e.event_type ≡ exact_usage
      → enters e db ≡ false
      → ((apply_event sha now e db).usage_events ≡ db.usage_events)
        × ((apply_event sha now e db).source_counters ≡ db.source_counters)
  unfolding enters
  stays_out now e db exact out = elim (Bool-cases (seen e.event_id db)) [
    | inl old ↦ rw (apply_event-seen sha now e db old) (refl, refl)
    | inr new ↦
        rw (exact_event now e db exact new, clash new)
          (noted-rows now (with_parent db e) db, noted-source now (with_parent db e) db)
  ]
    where
      clash :
          seen e.event_id db ≡ false
          → conflicts
              (usage_row sha 0 (with_parent db e) (opening db (with_parent db e)) db.usage_events)
              db.usage_events
            ≡ true
      clash new = ground (arith, new, out)

  enters_fresh :
      (e : UsageEvent) (db : Db)
      → enters e db ≡ true
      → (seen e.event_id db ≡ false)
        × (conflicts
              (usage_row sha 0 (with_parent db e) (opening db (with_parent db e)) db.usage_events)
              db.usage_events
            ≡ false)
  unfolding enters
  enters_fresh e db h = ground (arith, h)

  settled-AtMark :
      (now : Time) (e : UsageEvent) (db : Db) {g mark : ℤ}
      → g ≤ℤ e.source_epoch
      → AtMark (source_of e) g mark db
      → AtMark
          (source_of e)
          e.source_epoch
          (next_mark g mark e.source_epoch e.counts.total_tokens)
          (settled now e db)
  settled-AtMark now e db {g} {mark} le m =
      let c = m.counter in
      let le' : c.epoch ≤ℤ e.source_epoch = rw m.at_epoch le in
      record {
        counter = advanced e c;
        stored = settle-lookup e db _ c m.stored (noted-source now e db);
        at_epoch = (advanced_mark e c le').0;
        at_total = (advanced_mark e c le').1 ∙ rw (m.at_epoch, m.at_total) refl;
      }

  settled-total :
      (now : Time) (e : UsageEvent) (db : Db) {g mark : ℤ}
      → g ≤ℤ e.source_epoch
      → AtMark (source_of e) g mark db
      → source_total (source_of e) (settled now e db).usage_events
        ≡ source_total (source_of e) db.usage_events
          +ℤ charge g mark e.source_epoch e.counts.total_tokens
  unfolding source_total usage_row
  settled-total now e db {g} {mark} le m =
      let c = m.counter in
      let le' : c.epoch ≤ℤ e.source_epoch = rw m.at_epoch le in
      rw (settle-rows, beq_self, exact_charge e db c m.stored le', m.at_epoch, m.at_total) refl

  goes_in :
      (now : Time) (e : UsageEvent) (db : Db) {g mark : ℤ}
      → e.event_type ≡ exact_usage
      → g ≤ℤ e.source_epoch
      → AtMark (source_of e) g mark db
      → enters e db ≡ true
      → AtMark
          (source_of e)
          e.source_epoch
          (next_mark g mark e.source_epoch e.counts.total_tokens)
          (apply_event sha now e db)
        × (source_total (source_of e) (apply_event sha now e db).usage_events
            ≡ source_total (source_of e) db.usage_events
              +ℤ charge g mark e.source_epoch e.counts.total_tokens)
  unfolding with_parent
  goes_in now e db exact le m goes =
      let (new, fits) = enters_fresh e db goes in
      rw (exact_event now e db exact new, fits)
        (
          settled-AtMark now (with_parent db e) db le m,
          settled-total now (with_parent db e) db le m,
        )

  keeps_out :
      (now : Time) (e : UsageEvent) (db : Db) {k : String × String} {g mark : ℤ}
      → e.event_type ≡ exact_usage
      → enters e db ≡ false
      → AtMark k g mark db
      → AtMark k g mark (apply_event sha now e db)
        × (source_total k (apply_event sha now e db).usage_events ≡ source_total k db.usage_events)
  keeps_out now e db {k} exact out m =
      let (rows, counters) = stays_out now e db exact out in
      (
        record {
          counter = m.counter;
          stored = ap (lookup k) counters ∙ m.stored;
          at_epoch = m.at_epoch;
          at_total = m.at_total;
        },
        ap (source_total k) rows,
      )

  -- For a source whose counter stands at the epoch `g` and the total `mark`, and a run of exact
  -- usages of that source whose epochs never go back below `g`, with any replays, duplicates and
  -- smaller totals among them: the ledger's total for the source behind the run, plus `mark`, is
  -- its total before the run plus the sum over the epochs of the highest total among the events
  -- that enter, which are those whose id is new and whose row conflicts with none of the ledger (the
  -- first epoch's counted from `mark` on).
  pub source_total-apply_events :
      (k : String × String) (es : List (Time × UsageEvent)) (db : Db) (g mark bound : ℤ)
      → AtMark k g mark db
      → g ≤ℤ bound
      → InOrder k bound es
      → source_total k (apply_events sha es db).usage_events +ℤ mark
        ≡ source_total k db.usage_events +ℤ run_peaks g mark (entered es db)
  unfolding apply_events entered run_peaks
  source_total-apply_events k [] db g mark bound m le ordered = refl
  source_total-apply_events k ((now, e) ∷ es) db g mark bound m le (exact, same, later, rest) =
      elim (Bool-cases (enters e db)) [
        | inl goes ↦
            let (m', total) = goes_in now e db {g = g} {mark = mark} exact le' (rw same m) goes in
            let ih =
              source_total-apply_events k es (apply_event sha now e db) e.source_epoch
                (next_mark g mark e.source_epoch e.counts.total_tokens) e.source_epoch
                (rw same at m') (omega arith) rest in
            rw goes
              (peaks_step g mark e.source_epoch e.counts.total_tokens _ _ _ _ (rw same at total) ih)
        | inr out ↦
            let (m', total) = keeps_out now e db exact out m in
            rw (out, ← total)
              (source_total-apply_events k es (apply_event sha now e db) g mark e.source_epoch m'
                le' rest)
      ]
    where
      le' : g ≤ℤ e.source_epoch
      le' = omega arith
