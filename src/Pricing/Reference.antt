-- ===== src/Pricing/Reference.antt =====
-- The cached costs against those of the reference query.
use codex_token_meter.Prelude.{
  ℕ, String, Bool, true, false, List, [], ◌∷◌, ◌++◌, keep, map, sort, insert, ltb, leb, ◌≤◌, ◌<◌,
  ◌≡◌, refl, arith, All, All-append, IsSorted, text_ltb-not, text_leb_self, text_eq, ap, sym,
  text_leb-IsOrder, IsOrder, keep-sort, map-sort, All-sort, if◌then◌else◌, ◌∙◌,
}
use codex_token_meter.Types.{Time}
use codex_token_meter.Ledger.Db.{UsageRow, max_id}
use codex_token_meter.Ledger.Rows.{IsLedger}
use codex_token_meter.Pricing.{Floats, Clocks, PriceRule}
use codex_token_meter.Pricing.Sums.{
  by_id, earlier, usage_clock, in_window, Costs, sum_rows, add_event, row_key, row_counts,
  event_costs,
}
use codex_token_meter.Pricing.Cache.{PricedEvent, priced, event_less, event_order, sum_events}

-- What the ledger's clock relies on of Go's layouts: both write the nanoseconds of the same time.
pub record IsClocks (clocks : Clocks) : Type 0 where
  pub same_moment : (t : Time) → usage_clock (clocks.nanoseconds t) ≡ clocks.usage_bound t

abbrev pub id_less : UsageRow → UsageRow → Bool
id_less a b = ltb a.id b.id

abbrev pub inside : Clocks → Time → Time → UsageRow → Bool
inside clocks since until r =
    in_window (clocks.usage_bound since) (clocks.usage_bound until)
      (usage_clock (clocks.nanoseconds r.timestamp))

pub by_id-below :
    (n : ℕ) (rows : List UsageRow) → max_id rows ≤ n → All (λ r. leb r.id n ≡ true) (by_id rows)
unfolding max_id
by_id-below n [] h = tt
by_id-below n (r ∷ rows) h =
    All-append (λ x. leb x.id n ≡ true) (by_id rows) (r ∷ []) (by_id-below n rows (omega arith))
      (ground (arith, h), tt)

IsSorted-append :
    (n : ℕ) (r : UsageRow) (xs : List UsageRow)
    → n < r.id
    → All (λ x. leb x.id n ≡ true) xs
    → IsSorted id_less xs
    → IsSorted id_less (xs ++ (r ∷ []))
IsSorted-append n r [] h k s = (tt, tt)
IsSorted-append n r (x ∷ xs) h k s = (
  All-append (λ y. id_less x y ≡ true) xs (r ∷ []) s.0 (ground (arith, k.0, h), tt),
  IsSorted-append n r xs h k.1 s.1,
)

pub by_id-IsSorted : (rows : List UsageRow) → IsLedger rows → IsSorted id_less (by_id rows)
by_id-IsSorted [] h = tt
by_id-IsSorted (r ∷ rows) h =
    IsSorted-append (max_id rows) r (by_id rows) h.0 (by_id-below (max_id rows) rows (omega arith))
      (by_id-IsSorted rows h.2)

module _ (f : Floats) (clocks : Clocks) (rules : List (PriceRule f)) where
  abbrev row_order : UsageRow → UsageRow → Bool
  row_order a b = event_order f (priced f clocks rules a) (priced f clocks rules b)

  row_order-earlier : (a b : UsageRow) → id_less a b ≡ true → row_order a b ≡ earlier f clocks a b
  unfolding priced event_less
  row_order-earlier a b h =
      let s = clocks.nanoseconds a.timestamp in
      let t = clocks.nanoseconds b.timestamp in
      ground (arith, h, text_eq.same_iff t s, text_ltb-not s t, text_leb_self s)

  row_order-insert :
      (r : UsageRow) (rows : List UsageRow)
      → All (λ s. id_less r s ≡ true) rows
      → insert row_order r rows ≡ insert (earlier f clocks) r rows
  row_order-insert r [] h = refl
  row_order-insert r (s ∷ rows) h = rw (row_order-earlier r s h.0, row_order-insert r rows h.1) refl

  row_order-sort :
      (rows : List UsageRow)
      → IsSorted id_less rows
      → sort row_order rows ≡ sort (earlier f clocks) rows
  row_order-sort [] h = refl
  row_order-sort (r ∷ rows) h =
      let same = row_order-sort rows h.1 in
      let above = All-sort (λ s. id_less r s ≡ true) (earlier f clocks) rows h.0 in
      rw (same, row_order-insert r (sort (earlier f clocks) rows) above) refl

  -- The cache's order of the priced rows is that of the query, with the ids of equal times in order.
  pub sort-priced :
      (rows : List UsageRow)
      → IsSorted id_less rows
      → sort (event_order f) (map (priced f clocks rules) rows)
        ≡ map (priced f clocks rules) (sort (earlier f clocks) rows)
  sort-priced rows h =
      sym (map-sort (priced f clocks rules) row_order (event_order f) (λ x y. refl) rows)
      ∙ ap (λ t. map (priced f clocks rules) t) (row_order-sort rows h)

  abbrev counted : Costs f → UsageRow → Costs f
  counted acc r =
      add_event f (row_key r.host_id r.conversation_id)
        (event_costs f clocks rules (row_counts r) r.timestamp) acc

  branch :
      (acc : Costs f) (r : UsageRow) (b : Bool) (rows : List UsageRow) (es : List (PricedEvent f))
      (start end : String)
      → ((more : Costs f) → sum_events f start end more es ≡ sum_rows f clocks rules more rows)
      → sum_events f start end (if b then counted acc r else acc) es
        ≡ sum_rows f clocks rules acc (if b then r ∷ rows else rows)
  unfolding sum_rows
  branch acc r true rows es start end h = h (counted acc r)
  branch acc r false rows es start end h = h acc

  sum_events-priced :
      IsClocks clocks
      → (since until : Time) (acc : Costs f) (rows : List UsageRow)
      → sum_events f
          (clocks.usage_bound since)
          (clocks.usage_bound until)
          acc
          (map (priced f clocks rules) rows)
        ≡ sum_rows f clocks rules acc (keep (inside clocks since until) rows)
  unfolding sum_events sum_rows priced
  sum_events-priced c since until acc [] = refl
  sum_events-priced c since until acc (r ∷ rows) =
      ap
        (λ m.
          sum_events f (clocks.usage_bound since) (clocks.usage_bound until)
            (if in_window (clocks.usage_bound since) (clocks.usage_bound until) m
              then counted acc r
              else acc)
            (map (priced f clocks rules) rows))
        (sym (c.same_moment r.timestamp))
      ∙ branch acc r (inside clocks since until r) (keep (inside clocks since until) rows)
          (map (priced f clocks rules) rows) (clocks.usage_bound since) (clocks.usage_bound until)
          (λ more. sum_events-priced c since until more rows)

  -- The loop over the cache's events adds up what the query's loop adds up.
  pub sum_events-reference :
      IsClocks clocks
      → (since until : Time) (acc : Costs f) (rows : List UsageRow) → IsSorted id_less rows
      → sum_events f
          (clocks.usage_bound since)
          (clocks.usage_bound until)
          acc
          (sort (event_order f) (map (priced f clocks rules) rows))
        ≡ sum_rows f clocks rules acc
            (sort (earlier f clocks) (keep (inside clocks since until) rows))
  sum_events-reference c since until acc rows h =
      rw (sort-priced rows h, sum_events-priced c since until acc (sort (earlier f clocks) rows))
        (ap (λ t. sum_rows f clocks rules acc t)
          (keep-sort (earlier f clocks) earlier-IsOrder (inside clocks since until) rows))
    where
      earlier-IsOrder : IsOrder (earlier f clocks)
      earlier-IsOrder = record {
        total = λ x y. text_leb-IsOrder.total _ _;
        trans = λ x y z. text_leb-IsOrder.trans _ _ _;
      }
