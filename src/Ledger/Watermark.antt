-- ===== src/Ledger/Watermark.antt =====
-- What one source adds to the ledger over a run of exact usages: its counter is cumulative within an
-- epoch, and starts again at the next.
pub mod Events
use codex_token_meter.Prelude.{
  ℕ, ℤ, pos, ◌+ℤ◌, ◌-ℤ◌, ◌≤ℤ◌, ltb_ℤ, int_laws, max_ℤ, ≤ℤ_antisymm, ◌||◌, eqb_ℤ_of_le_not-lt,
  -ℤ_self, String, Bool, true, false, not, ◌&&◌, Option, some, List, [], ◌∷◌, lookup, pos_part,
  neg_part, ◌≡◌, refl, ap, ◌∙◌, ◌==◌, if◌then◌else◌, pair_eq, arith, lookup-upsert_self, inl, inr,
  Bool-cases, beq_self,
}
use codex_token_meter.Types.{Time, exact_usage, UsageEvent}
use codex_token_meter.Counts.{delta_counts, increment}
use codex_token_meter.Ledger.Db.{Db, UsageRow, Counter}
use codex_token_meter.Ledger.Apply.{Opening, with_parent, opening, exact_delta}
use codex_token_meter.Ledger.Exact.{
  apply_event, apply_exact, dispatch, noted, settle, usage_row, conflicts, reconcile, count_source,
  count_conversation,
}
use codex_token_meter.Ledger.Replay.{seen, apply_event-seen, apply_event-fresh, apply_events}
use codex_token_meter.Ledger.Balance.{settle-rows}

abbrev pub source_of : UsageEvent → String × String
source_of e = (e.host_id, e.source_file_id)

-- The total that the ledger holds for one source file of one host.
unfoldable pub source_total : String × String → List UsageRow → ℤ
source_total k [] = pos 0
source_total k (r ∷ rs) =
    if (r.host_id, r.source_file_id) == k
    then source_total k rs +ℤ r.counted.total_tokens
    else source_total k rs

-- The counter after an event that entered the ledger, of its epoch and its total alone.
abbrev pub next_mark : ℤ → ℤ → ℤ → ℤ → ℤ
next_mark g mark epoch total = if ltb_ℤ g epoch then total else max_ℤ mark total

abbrev pub charge : ℤ → ℤ → ℤ → ℤ → ℤ
charge g mark epoch total = if ltb_ℤ g epoch then total else max_ℤ mark total -ℤ mark

-- The source counter stands at the epoch `g` and the total `mark`.
pub record AtMark (k : String × String) (g mark : ℤ) (db : Db) : Type 0 where
  pub counter : Counter
  pub stored : lookup k db.source_counters ≡ some counter
  pub at_epoch : counter.epoch ≡ g
  pub at_total : counter.tally.total_tokens ≡ mark

pub settle-source :
    (e : UsageEvent) (o : Opening) (db : Db)
    → (settle e o db).source_counters ≡ (count_source e o db).source_counters
unfolding count_conversation count_source reconcile settle
settle-source e o db = ground arith

pub exact_charge :
    (e : UsageEvent) (db : Db) (c : Counter)
    → lookup (source_of e) db.source_counters ≡ some c
    → c.epoch ≤ℤ e.source_epoch
    → (exact_delta e (opening db e)).total_tokens
      ≡ charge c.epoch c.tally.total_tokens e.source_epoch e.counts.total_tokens
unfolding opening exact_delta delta_counts increment
exact_charge e db c h le =
    rw h
      (ground (arith, eqb_ℤ_of_le_not-lt c.epoch e.source_epoch le, -ℤ_self c.tally.total_tokens))

-- The counter that `count_source` leaves.
abbrev pub advanced : UsageEvent → Counter → Counter
advanced e c =
    if ltb_ℤ c.epoch e.source_epoch || ltb_ℤ c.tally.total_tokens e.counts.total_tokens
    then record { epoch = e.source_epoch; tally = e.counts.tally; updated_at = e.timestamp }
    else c

pub settle-lookup :
    (e : UsageEvent) (db db' : Db) (c : Counter)
    → lookup (source_of e) db.source_counters ≡ some c
    → db'.source_counters ≡ db.source_counters
    → lookup (source_of e) (settle e (opening db e) db').source_counters ≡ some (advanced e c)
unfolding opening count_source
settle-lookup e db db' c h same =
    rw (settle-source, h)
      (ground (
        arith,
        same,
        h,
        lookup-upsert_self (source_of e)
            (λ (_ : Option Counter). record {
              epoch = e.source_epoch;
              tally = e.counts.tally;
              updated_at = e.timestamp;
            })
            db'.source_counters,
      ))

pub advanced_mark :
    (e : UsageEvent) (c : Counter)
    → c.epoch ≤ℤ e.source_epoch
    → ((advanced e c).epoch ≡ e.source_epoch)
      × ((advanced e c).tally.total_tokens
          ≡ next_mark c.epoch c.tally.total_tokens e.source_epoch e.counts.total_tokens)
advanced_mark e c le = ground (
  arith,
  ≤ℤ_antisymm c.epoch e.source_epoch le,
  ≤ℤ_antisymm c.tally.total_tokens e.counts.total_tokens,
)

-- The sum of the highest totals of the runs of one epoch, the run that is open at `mark` included.
unfoldable pub run_peaks : ℤ → ℤ → List (ℤ × ℤ) → ℤ
run_peaks g mark [] = mark
run_peaks g mark ((epoch, total) ∷ xs) =
    let same = run_peaks epoch (max_ℤ mark total) xs in
    let next = mark +ℤ run_peaks epoch total xs in if ltb_ℤ g epoch then next else same

-- Exact usages of one source, whose epochs do not go back.
abbrev pub InOrder : String × String → ℤ → List (Time × UsageEvent) → Type 0
InOrder k g [] = Unit
InOrder k g ((now, e) ∷ es) =
    (e.event_type ≡ exact_usage)
    × (source_of e ≡ k)
    × (g ≤ℤ e.source_epoch)
    × InOrder k e.source_epoch es

sum_next :
    (final t total total' mark rest : ℤ)
    → total' ≡ total +ℤ t
    → final +ℤ t ≡ total' +ℤ rest
    → final +ℤ mark ≡ total +ℤ (mark +ℤ rest)
sum_next final t total total' mark rest p q =
    omega (int_laws, ap pos_part p, ap neg_part p, ap pos_part q, ap neg_part q)

sum_same :
    (final m total total' mark rest : ℤ)
    → total' ≡ total +ℤ (m -ℤ mark)
    → final +ℤ m ≡ total' +ℤ rest
    → final +ℤ mark ≡ total +ℤ rest
sum_same final m total total' mark rest p q =
    omega (int_laws, ap pos_part p, ap neg_part p, ap pos_part q, ap neg_part q)

-- One event that enters, in the sum over the run: `total` is the ledger's before it, `total'` behind
-- it and `final` behind the rest.
pub peaks_step :
    (g mark epoch t total total' final : ℤ) (xs : List (ℤ × ℤ))
    → total' ≡ total +ℤ charge g mark epoch t
    → final +ℤ next_mark g mark epoch t ≡ total' +ℤ run_peaks epoch (next_mark g mark epoch t) xs
    → final +ℤ mark ≡ total +ℤ run_peaks g mark ((epoch, t) ∷ xs)
peaks_step g mark epoch t total total' final xs =
    unfold run_peaks in
    elim (ltb_ℤ g epoch)
      as (λ b.
        total' ≡ total +ℤ (if b then t else max_ℤ mark t -ℤ mark)
        → final +ℤ (if b then t else max_ℤ mark t)
          ≡ total' +ℤ run_peaks epoch (if b then t else max_ℤ mark t) xs
        → final +ℤ mark
          ≡ total
            +ℤ (if b then mark +ℤ run_peaks epoch t xs else run_peaks epoch (max_ℤ mark t) xs)) [
              | true ↦ sum_next final t total total' mark (run_peaks epoch t xs)
              | false ↦
                  sum_same final (max_ℤ mark t) total total' mark
                    (run_peaks epoch (max_ℤ mark t) xs)
            ]
