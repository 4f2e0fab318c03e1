-- ===== src/Partial/Window.antt =====
-- A conversation that is not asked for again has the same events in the new range as in the last.
use codex_token_meter.Prelude.{
  ℕ, zero, suc, ◌≤◌, ◌<◌, String, Bool, true, false, not, ◌&&◌, ◌||◌, none, some, List, [], ◌∷◌,
  ◌++◌, keep, take, length, ltb, text_leb, text_ltb-not, text_leb-IsOrder, ◌==◌, text_eq, nat_eq,
  ◌≡◌, refl, sym, ap, ◌∙◌, arith, ◌⊎◌, inl, inr, Bool-cases, All-keep, lt→ltb, All,
}
use codex_token_meter.Types.{Time}
use codex_token_meter.Ledger.Db.{UsageRow, max_id}
use codex_token_meter.Ledger.Rows.{IsLedger}
use codex_token_meter.Pricing.{Clocks}
use codex_token_meter.Pricing.Sums.{in_window}
use codex_token_meter.Pricing.Coherent.{max_id_grows}
use codex_token_meter.Range.{DashboardRange}
use codex_token_meter.Stream.Diffs.{has}
use codex_token_meter.Partial.{
  Mark, Prior, usage_key, moment, is_affected, distinct_keys, all_known, prepare_incremental,
}

under : (n : ℕ) → ltb 256 n ≡ false → n < 257
under n h = ground (arith, h)

forwards : (a b c d : ℕ) (x : Bool) → (ltb a b || ltb c d || x) ≡ false → (b ≤ a) × (d ≤ c)
forwards a b c d x h = ground (arith, h)

module _ (clocks : Clocks) where
  -- The rows of a conversation in a range.
  abbrev pub counted_in : Time → Time → String → UsageRow → Bool
  counted_in start end key r =
      usage_key r == key
      && in_window (clocks.usage_bound start) (clocks.usage_bound end) (moment clocks r)

  -- `usageBound` keeps the order of times.
  pub record IsMonotone : Type 0 where
    pub keeps_order :
        (s t : Time) → s ≤ t → text_leb (clocks.usage_bound s) (clocks.usage_bound t) ≡ true

  -- In the new range, and passed by no edge: in the old one, and the other way around.
  window_kept :
      (s1 s2 e1 e2 m : String)
      → text_leb s1 s2 ≡ true
      → text_leb e1 e2 ≡ true
      → in_window s1 s2 m ≡ false
      → in_window e1 e2 m ≡ false
      → in_window s2 e2 m ≡ in_window s1 e1 m
  unfolding in_window
  window_kept s1 s2 e1 e2 m s e a b = ground (
    arith,
    s,
    e,
    a,
    b,
    text_ltb-not s2 m,
    text_ltb-not e2 m,
    text_ltb-not e1 m,
    text_leb-IsOrder.trans s1 s2 m,
    text_leb-IsOrder.trans e1 e2 m,
  )

  absent_key :
      (k : String) (rows : List UsageRow)
      → has k (distinct_keys clocks rows) ≡ false
      → All (λ r. (usage_key r == k) ≡ false) rows
  unfolding distinct_keys
  absent_key k [] h = tt
  absent_key k (r ∷ rows) h =
      let rest = distinct_keys clocks rows in
      elim (Bool-cases (has (usage_key r) rest)) [
        | inl e ↦
            let there : has k rest ≡ false = rw e at h in
            (apart r rest e there, absent_key k rows there)
        | inr e ↦
            let each : has k (usage_key r ∷ rest) ≡ false = rw e at h in
            (ground (arith, each), absent_key k rows (ground (arith, each)))
      ]
    where
      apart :
          (s : UsageRow) (ks : List String)
          → has (usage_key s) ks ≡ true
          → has k ks ≡ false
          → (usage_key s == k) ≡ false
      apart s ks a b = elim (Bool-cases (usage_key s == k)) [
        | inl e ↦ ground (arith, a, b, ap (λ j. has j ks) ((text_eq.same_iff (usage_key s) k).0 e))
        | inr e ↦ e
      ]

  take_whole : (n : ℕ) (xs : List String) → length (take n xs) < n → take n xs ≡ xs
  take_whole zero xs h = absurd (omega (arith, h))
  take_whole (suc n) [] h = refl
  take_whole (suc n) (x ∷ xs) h = ap (λ t. x ∷ t) (take_whole n xs (omega (arith, h)))

  -- What a scope was made of.
  record IsScope (r : DashboardRange) (prior : Prior) (ledger : List UsageRow) (scope : List String)
      : Type 0 where
    all_affected : scope ≡ distinct_keys clocks (keep (is_affected clocks prior r) ledger)
    start_forward : prior.range_start ≤ r.start
    end_forward : prior.range_end ≤ r.end

  prepare_incremental-IsScope :
      (read : Bool) (mark : Mark) (query_key : String) (r : DashboardRange) (prior : Prior)
      (ledger : List UsageRow) (scope : List String)
      → prepare_incremental clocks read mark query_key r prior ledger ≡ some scope
      → IsScope r prior ledger scope
  unfolding prepare_incremental
  prepare_incremental-IsScope read mark query_key r prior ledger scope h =
      let whole = distinct_keys clocks (keep (is_affected clocks prior r) ledger) in
      let keys = take 257 whole in
      elim (Bool-cases (
        not (mark.server_epoch == prior.mark.server_epoch)
        || not (mark.full_revision == prior.mark.full_revision)
        || not (query_key == prior.query_key))) [
          | inl e ↦ absurd (no_scope (rw e at h))
          | inr e ↦
              elim (Bool-cases (
                ltb r.start prior.range_start
                || ltb r.end prior.range_end
                || (not (r.period == "24h") && not (r.start == prior.range_start)))) [
                  | inl back ↦ absurd (no_scope (rw (e, back) at h))
                  | inr on ↦
                      elim (Bool-cases (not read || not (all_known clocks prior.known keys))) [
                        | inl new ↦ absurd (no_scope (rw (e, on, new) at h))
                        | inr old ↦ elim (Bool-cases (ltb 256 (length keys))) [
                          | inl many ↦ absurd (no_scope (rw (e, on, old, many) at h))
                          | inr few ↦ record {
                            all_affected =
                                sym (found keys (rw (e, on, old, few) at h))
                                ∙ take_whole 257 whole (under (length keys) few);
                            start_forward =
                                (forwards r.start prior.range_start r.end prior.range_end _ on).0;
                            end_forward =
                                (forwards r.start prior.range_start r.end prior.range_end _ on).1;
                          }
                        ]
                      ]
                ]
        ]
    where
      no_scope : none ≡ some scope → ⊥
      no_scope k = cc

      found : (keys : List String) → some keys ≡ some scope → keys ≡ scope
      found keys k = cc

  edges :
      (prior : Prior) (r : DashboardRange) (row : UsageRow)
      → is_affected clocks prior r row ≡ false
      → (in_window
            (clocks.usage_bound prior.range_start)
            (clocks.usage_bound r.start)
            (moment clocks row)
          ≡ false)
        × (in_window
              (clocks.usage_bound prior.range_end)
              (clocks.usage_bound r.end)
              (moment clocks row)
            ≡ false)
  unfolding is_affected
  edges prior r row h = neither _ _ _ h
    where
      neither : (a b c : Bool) → (a || b || c) ≡ false → (b ≡ false) × (c ≡ false)
      neither a b c k = ground (arith, k)

  -- One row of the old ledger, in the new range and in the old one.
  same_window :
      IsMonotone
      → (r : DashboardRange) (prior : Prior) (key : String) (row : UsageRow)
      → prior.range_start ≤ r.start
      → prior.range_end ≤ r.end
      → (is_affected clocks prior r row ≡ false) ⊎ ((usage_key row == key) ≡ false)
      → counted_in r.start r.end key row ≡ counted_in prior.range_start prior.range_end key row
  same_window o r prior key row s e (inr apart) = rw apart refl
  same_window o r prior key row s e (inl still) =
      let unmoved = edges prior r row still in
      ap (λ b. usage_key row == key && b)
        (window_kept (clocks.usage_bound prior.range_start) (clocks.usage_bound r.start)
          (clocks.usage_bound prior.range_end) (clocks.usage_bound r.end) (moment clocks row)
          (o.keeps_order prior.range_start r.start s) (o.keeps_order prior.range_end r.end e)
          unmoved.0 unmoved.1)

  keep-same :
      (p q : UsageRow → Bool) (rows : List UsageRow)
      → All (λ r. p r ≡ q r) rows
      → keep p rows ≡ keep q rows
  keep-same p q [] h = refl
  keep-same p q (r ∷ rows) h = rw (h.0, keep-same p q rows h.1) refl

  All-append_last :
      (P : UsageRow → Type 0) (newer rows : List UsageRow) → All P (newer ++ rows) → All P rows
  All-append_last P [] rows h = h
  All-append_last P (x ∷ newer) rows h = All-append_last P newer rows h.1

  All-map :
      (P Q : UsageRow → Type 0) (rows : List UsageRow)
      → ((r : UsageRow) → P r → Q r)
      → All P rows
      → All Q rows
  All-map P Q [] f h = tt
  All-map P Q (r ∷ rows) f h = (f r h.0, All-map P Q rows f h.1)

  still_new :
      (r : DashboardRange) (prior : Prior) (x : UsageRow)
      → is_affected clocks prior r x ≡ false
      → prior.ledger_revision < x.id
      → ⊥
  unfolding is_affected
  still_new r prior x h n = true_false (sym (rw (lt→ltb prior.ledger_revision x.id n) refl) ∙ h)
    where
      true_false : true ≡ false → ⊥
      true_false k = cc

  -- New rows are affected.
  newer_gone :
      (r : DashboardRange) (prior : Prior) (key : String) (newer rows : List UsageRow)
      → IsLedger (newer ++ rows)
      → prior.ledger_revision ≡ max_id rows
      → All
          (λ x. (is_affected clocks prior r x ≡ false) ⊎ ((usage_key x == key) ≡ false))
          (newer ++ rows)
      → keep (counted_in r.start r.end key) (newer ++ rows)
        ≡ keep (counted_in r.start r.end key) rows
  newer_gone r prior key [] rows l m h = refl
  newer_gone r prior key (x ∷ newer) rows l m h =
      let rest = newer_gone r prior key newer rows l.2 m h.1 in
      elim h.0 [
        | inl still ↦
            absurd (still_new r prior x still (ground (arith, l.0, max_id_grows newer rows, m)))
        | inr apart ↦ rw apart rest
      ]

  -- Where a list of conversations to ask for again is given: a conversation that is not in it has, in the new range, the events that it
  -- had in the last one: in a ledger that has only grown since the revision of the last snapshot, whose
  -- ids rise and whose rows share no event, and for bounds of times that keep the order of the times.
  pub prepare_incremental-window :
      IsMonotone
      → (read : Bool) (mark : Mark) (query_key : String) (r : DashboardRange) (prior : Prior)
        (newer rows : List UsageRow) (scope : List String) (key : String)
      → IsLedger (newer ++ rows)
      → prior.ledger_revision ≡ max_id rows
      → prepare_incremental clocks read mark query_key r prior (newer ++ rows) ≡ some scope
      → has key scope ≡ false
      → keep (counted_in r.start r.end key) (newer ++ rows)
        ≡ keep (counted_in prior.range_start prior.range_end key) rows
  prepare_incremental-window o read mark query_key r prior newer rows scope key l m h absent =
      let made = prepare_incremental-IsScope read mark query_key r prior (newer ++ rows) scope h in
      let affected = keep (is_affected clocks prior r) (newer ++ rows) in
      let unasked =
        All-keep (λ x. (usage_key x == key) ≡ false) (is_affected clocks prior r) (newer ++ rows)
          (absent_key key affected (ap (has key) (sym made.all_affected) ∙ absent)) in
      newer_gone r prior key newer rows l m unasked
      ∙ keep-same (counted_in r.start r.end key) (counted_in prior.range_start prior.range_end key)
          rows
          (All-map (λ x. (is_affected clocks prior r x ≡ false) ⊎ ((usage_key x == key) ≡ false))
            (λ x.
              counted_in r.start r.end key x ≡ counted_in prior.range_start prior.range_end key x)
            rows (λ x. same_window o r prior key x made.start_forward made.end_forward)
            (All-append_last _ newer rows unasked))
