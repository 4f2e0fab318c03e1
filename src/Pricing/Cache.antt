-- ===== src/Pricing/Cache.antt =====
-- accounting_cache.go: the prices of the ledger's rows, kept in memory between snapshots.
use codex_token_meter.Prelude.{
  ℕ, String, Bool, ◌||◌, not, Option, none, some, List, [], ◌∷◌, ◌++◌, keep, map, sort, length, ltb,
  text_ltb, ◌==◌, text_eq, if◌then◌else◌,
}
use codex_token_meter.Types.{Time}
use codex_token_meter.Ledger.Db.{UsageRow, max_id}
use codex_token_meter.Pricing.{Floats, Clocks, ProviderCosts, PriceRule, load_price_rules}
use codex_token_meter.Pricing.Sums.{
  by_id, row_key, row_counts, event_costs, Costs, no_costs, add_event, in_window, Reader,
  range_costs,
}

abbrev pub max_cached_cost_events : ℕ
max_cached_cost_events = 500000

module _ (f : Floats) where
  pub record PricedEvent : Type 0 where
    pub id : ℕ
    pub stamp : String
    pub key : String
    pub moment : String
    pub cost : ProviderCosts f

  pub record AccountingCache : Type 0 where
    pub rules : List (PriceRule f)
    pub events : List PricedEvent
    pub max_id : ℕ

  unfoldable pub priced : Clocks → List (PriceRule f) → UsageRow → PricedEvent
  unfolding row_key event_costs
  priced clocks rules r = record {
    id = r.id;
    stamp = clocks.nanoseconds r.timestamp;
    key = row_key r.host_id r.conversation_id;
    moment = clocks.usage_bound r.timestamp;
    cost = event_costs f clocks rules (row_counts r) r.timestamp;
  }

  -- `sort.Slice`'s test `less(i, j)`; the sort below takes its negation with the arguments swapped.
  unfoldable pub event_less : PricedEvent → PricedEvent → Bool
  event_less a b = if a.stamp == b.stamp then ltb a.id b.id else text_ltb a.stamp b.stamp

  abbrev pub event_order : PricedEvent → PricedEvent → Bool
  event_order a b = not (event_less b a)

  -- The loop over the cached events, and its `continue`.
  unfoldable pub sum_events : String → String → Costs f → List PricedEvent → Costs f
  unfolding in_window add_event
  sum_events start end acc [] = acc
  sum_events start end acc (e ∷ es) =
      let next = if in_window start end e.moment then add_event f e.key e.cost acc else acc in
      sum_events start end next es

  -- New rules, or a ledger that lost rows: everything is priced again.
  unfoldable pub cleared :
      (List (PriceRule f) → List (PriceRule f) → Bool)
      → List (PriceRule f)
      → ℕ
      → AccountingCache
      → AccountingCache
  cleared same_rules rules count c =
      if not (same_rules rules c.rules) || ltb count (length c.events)
      then record { rules = rules; events = []; max_id = 0 }
      else c

  -- The rows behind the last one that was priced join the others.
  unfoldable pub extended : Clocks → List UsageRow → AccountingCache → AccountingCache
  unfolding priced event_less max_id
  extended clocks rows c =
      let tail = keep (λ r. ltb c.max_id r.id) (by_id rows) in
      record {
        rules = c.rules;
        events = sort event_order (c.events ++ map (priced clocks c.rules) tail);
        max_id = max_id rows;
      }

  abbrev pub sum_cache : Clocks → Time → Time → AccountingCache → Costs f
  sum_cache clocks since until c =
      sum_events (clocks.usage_bound since) (clocks.usage_bound until) (no_costs f) c.events

  -- From the rows that are not priced yet on.
  unfoldable pub brought_up :
      Clocks → Reader f → Time → Time → AccountingCache → Costs f × Option AccountingCache
  unfolding extended sum_events range_costs max_id
  brought_up clocks db since until c =
      let rows = db.usage_events in
      let next = extended clocks rows c in
      if not (ltb c.max_id (max_id rows))
      then (sum_cache clocks since until c, some c)
      else if not db.tail_read
      then (range_costs f clocks db since until, some c)
      else (sum_cache clocks since until next, some next)

  -- The costs of a range, and the cache behind; `none` is a server without one.
  unfoldable pub cached_range_costs :
      Clocks
      → (List (PriceRule f) → List (PriceRule f) → Bool)
      → Option AccountingCache
      → Reader f
      → Time
      → Time
      → Costs f × Option AccountingCache
  unfolding cleared brought_up load_price_rules range_costs max_id
  cached_range_costs clocks same_rules none db since until =
      (range_costs f clocks db since until, none)
  cached_range_costs clocks same_rules (some c) db since until =
      let reference = range_costs f clocks db since until in
      let rows = db.usage_events in
      let count = length rows in
      let current = cleared same_rules (load_price_rules f db.prices) count c in
      if not db.rules_read
      then (reference, some c)
      else if not db.extent_read || ltb max_cached_cost_events count
      then (reference, some c)
      else if ltb (max_id rows) c.max_id
      then (reference, some c)
      else brought_up clocks db since until current
