-- ===== src/Pricing/Sums.antt =====
-- pricing.go `addCost` and `rangeCosts`; time_range.go's clock of a row.
use Prim.Native.Nat.{◌-◌}
use Prim.Native.String.{len, slice, ◌++◌ as ◌<>◌}
use codex_token_meter.Prelude.{
  String, Bool, true, false, ◌&&◌, not, Option, none, some, List, [], ◌∷◌, ◌++◌, keep, sort,
  text_leb, text_ltb, ◌==◌, text_eq, if◌then◌else◌, Table, upsert,
}
use codex_token_meter.Types.{Time, TokenCounts}
use codex_token_meter.Ledger.Db.{UsageRow}
use codex_token_meter.Pricing.{
  Floats, Clocks, Quality, exact, CostBreakdown, ProviderCosts, PriceRow, PriceRule, blank_cost,
  blank_costs, load_price_rules, cost_from_rules,
}

-- The text that `usageClock` makes of a timestamp: whole seconds, and nine digits of the fraction.
unfoldable pub usage_clock : String → String
usage_clock t =
    let fraction = if slice t 19 20 == "." then slice t 20 (len t - 1) else "" in
    slice t 0 19 <> "." <> slice (fraction <> "000000000") 0 9

-- `usageWindow`.
unfoldable pub in_window : String → String → String → Bool
in_window start end moment = text_leb start moment && text_ltb moment end

-- `host + "\x00" + conversation`.
unfoldable pub row_key : String → String → String
row_key host conversation = host <> "\0" <> conversation

-- The rows in the order of their ids.
abbrev pub by_id : List UsageRow → List UsageRow
by_id [] = []
by_id (r ∷ rows) = by_id rows ++ (r ∷ [])

abbrev pub row_counts : UsageRow → TokenCounts
row_counts r = record { tally = r.counted; cache_write_visible = r.cache_write_visible }

module _ (f : Floats) where
  -- The upper bound of a sum: an unbounded summand counts with its value.
  unfoldable pub add_bounds : f.Float → Option f.Float → f.Float → Option f.Float → Option f.Float
  add_bounds old none new none = none
  add_bounds old none new (some b) = some (f.plus old b)
  add_bounds old (some a) new none = some (f.plus a new)
  add_bounds old (some a) new (some b) = some (f.plus a b)

  unfoldable pub is_exact : Quality → Bool
  is_exact exact = true
  is_exact _ = false

  unfoldable pub add_cost : CostBreakdown f → CostBreakdown f → CostBreakdown f
  unfolding add_bounds is_exact
  add_cost dst src = if dst.provider == "" then src else record {
    provider = dst.provider;
    profile = dst.profile;
    value = f.plus dst.value src.value;
    upper_bound = add_bounds dst.value dst.upper_bound src.value src.upper_bound;
    currency = dst.currency;
    quality = if is_exact src.quality then dst.quality else src.quality;
    verified_at =
        if text_ltb dst.verified_at src.verified_at then src.verified_at else dst.verified_at;
  }

  unfoldable pub add_provider_costs : ProviderCosts f → ProviderCosts f → ProviderCosts f
  unfolding add_cost
  add_provider_costs a b = record {
    api = add_cost a.api b.api;
    vercel = add_cost a.vercel b.vercel;
    credits = add_cost a.credits b.credits;
  }

  abbrev pub or_blank : Option (CostBreakdown f) → CostBreakdown f
  or_blank none = blank_cost f
  or_blank (some c) = c

  -- What an event costs with each of the three providers.
  unfoldable pub event_costs : Clocks → List (PriceRule f) → TokenCounts → Time → ProviderCosts f
  unfolding cost_from_rules
  event_costs clocks rules c at = record {
    api = or_blank (cost_from_rules f clocks rules "openai" "API" "gpt-5.6-sol" c at);
    vercel =
        or_blank
          (cost_from_rules f clocks rules "vercel" "AI Gateway public" "openai/gpt-5.6-sol" c at);
    credits =
        or_blank (cost_from_rules f clocks rules "codex" "Plus/Pro Current" "gpt-5.6-sol" c at);
  }

  abbrev pub or_blanks : Option (ProviderCosts f) → ProviderCosts f
  or_blanks none = blank_costs f
  or_blanks (some c) = c

  abbrev pub Costs : Type 0
  Costs = ProviderCosts f × Table String (ProviderCosts f)

  abbrev pub no_costs : Costs
  no_costs = (blank_costs f, [])

  -- One round of the loops of `rangeCosts` and `cachedRangeCosts`.
  unfoldable pub add_event : String → ProviderCosts f → Costs → Costs
  unfolding add_provider_costs
  add_event key cost (total, sessions) = (
    add_provider_costs total cost,
    upsert key (λ x. add_provider_costs (or_blanks x) cost) sessions,
  )

  unfoldable pub sum_rows : Clocks → List (PriceRule f) → Costs → List UsageRow → Costs
  unfolding add_event event_costs row_key
  sum_rows clocks rules acc [] = acc
  sum_rows clocks rules acc (r ∷ rows) =
      sum_rows clocks rules
        (add_event (row_key r.host_id r.conversation_id)
          (event_costs clocks rules (row_counts r) r.timestamp) acc)
        rows

  -- `ORDER BY timestamp`; rows of one timestamp come in the order of their ids.
  abbrev pub earlier : Clocks → UsageRow → UsageRow → Bool
  earlier clocks a b = text_leb (clocks.nanoseconds a.timestamp) (clocks.nanoseconds b.timestamp)

  -- What a reader's transaction sees, and which of the queries succeed.
  pub record Reader : Type 0 where
    pub prices : List (PriceRow f)
    pub usage_events : List UsageRow
    pub rules_read : Bool
    pub extent_read : Bool
    pub tail_read : Bool
    pub rules_read_again : Bool
    pub window_read : Bool

  unfoldable pub range_costs : Clocks → Reader → Time → Time → Costs
  unfolding load_price_rules sum_rows in_window usage_clock
  range_costs clocks db since until =
      let start = clocks.usage_bound since in
      let end = clocks.usage_bound until in
      let inside =
        λ (r : UsageRow). in_window start end (usage_clock (clocks.nanoseconds r.timestamp)) in
      if not (db.rules_read_again && db.window_read)
      then no_costs
      else sum_rows clocks (load_price_rules f db.prices) no_costs
          (sort (earlier clocks) (keep inside (by_id db.usage_events)))
