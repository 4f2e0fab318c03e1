-- ===== src/Pricing.antt =====
-- pricing.go: the price rules, what one event costs by a rule, and the sums of costs. A float64 is a
-- value of `Floats`; a time goes into texts by `Clocks`, which is Go's package time.
use Prim.Native.Nat.{◌-◌}
use Prim.Native.String.{len, slice, ◌++◌ as ◌<>◌}
pub mod Sums
pub mod Cache
pub mod Reference
pub mod Coherent
pub mod Answers
pub mod Rules
use codex_token_meter.Prelude.{
  ℕ, ℤ, pos, ◌-ℤ◌, ltb_ℤ, String, Bool, true, false, ◌&&◌, ◌||◌, not, Option, none, some, List, [],
  ◌∷◌, map, keep, sort, text_leb, text_ltb, ◌==◌, text_eq, if◌then◌else◌, Table, upsert,
}
use codex_token_meter.Types.{Time, TokenCounts}
use codex_token_meter.Ledger.Db.{UsageRow}

-- Go's float64: the operations that the prices use.
pub record Floats : Type 1 where
  pub Float : Type 0
  pub of_int : ℤ → Float
  pub plus : Float → Float → Float
  pub times : Float → Float → Float
  pub larger : Float → Float → Float
  pub over : Float → Float → Float

-- `Format` under the layouts of RFC 3339, of its nine trimmed digits, and of `usageBound`.
pub record Clocks : Type 0 where
  pub seconds : Time → String
  pub nanoseconds : Time → String
  pub usage_bound : Time → String

pub data Quality : Type 0 where
  unpriced exact cache_write_unknown stale_price : Quality

module _ (f : Floats) where
  pub record CostBreakdown : Type 0 where
    pub provider : String
    pub profile : String
    pub value : f.Float
    pub upper_bound : Option f.Float
    pub currency : String
    pub quality : Quality
    pub verified_at : String

  pub record ProviderCosts : Type 0 where
    pub api : CostBreakdown
    pub vercel : CostBreakdown
    pub credits : CostBreakdown

  -- A row of the table prices, less the columns that nothing here reads.
  pub record PriceRow : Type 0 where
    pub provider : String
    pub plan_profile : String
    pub model : String
    pub effective_from : String
    pub effective_to : Option String
    pub input_rate : f.Float
    pub cached_input_rate : f.Float
    pub cache_write_rate : Option f.Float
    pub output_rate : f.Float
    pub long_input_multiplier : f.Float
    pub long_output_multiplier : f.Float
    pub long_context_threshold : Option ℤ
    pub currency : String
    pub verified_at : String
    pub stale : Bool

  pub record PriceRule : Type 0 where
    pub provider : String
    pub profile : String
    pub model : String
    pub from : String
    pub to : String
    pub input : f.Float
    pub cached : f.Float
    pub output : f.Float
    pub im : f.Float
    pub om : f.Float
    pub write : Option f.Float
    pub threshold : Option ℤ
    pub currency : String
    pub verified : String
    pub stale : Bool

  -- Go's `CostBreakdown{}`.
  abbrev pub blank_cost : CostBreakdown
  blank_cost = record {
    provider = "";
    profile = "";
    value = f.of_int (pos 0);
    upper_bound = none;
    currency = "";
    quality = unpriced;
    verified_at = "";
  }

  abbrev pub blank_costs : ProviderCosts
  blank_costs = record { api = blank_cost; vercel = blank_cost; credits = blank_cost }

  -- `COALESCE(effective_to,'')`.
  unfoldable pub or_empty : Option String → String
  or_empty none = ""
  or_empty (some t) = t

  unfoldable pub price_rule : PriceRow → PriceRule
  unfolding or_empty
  price_rule r = record {
    provider = r.provider;
    profile = r.plan_profile;
    model = r.model;
    from = r.effective_from;
    to = or_empty r.effective_to;
    input = r.input_rate;
    cached = r.cached_input_rate;
    output = r.output_rate;
    im = r.long_input_multiplier;
    om = r.long_output_multiplier;
    write = r.cache_write_rate;
    threshold = r.long_context_threshold;
    currency = r.currency;
    verified = r.verified_at;
    stale = r.stale;
  }

  -- `ORDER BY effective_from DESC`.
  abbrev pub newer_first : PriceRow → PriceRow → Bool
  newer_first a b = text_leb b.effective_from a.effective_from

  unfoldable pub load_price_rules : List PriceRow → List PriceRule
  unfolding price_rule
  load_price_rules prices = map price_rule (sort newer_first prices)

  unfoldable pub is_long : Option ℤ → ℤ → Bool
  is_long none n = false
  is_long (some threshold) n = ltb_ℤ threshold n

  abbrev pub fresh_input : TokenCounts → ℤ
  fresh_input c =
      let n = c.input_tokens -ℤ c.cached_input_tokens -ℤ c.cache_write_input_tokens in
      if ltb_ℤ n (pos 0) then pos 0 else n

  -- The rate of a visible cache write, where there is one.
  unfoldable pub write_rate : Option f.Float → Bool → Option f.Float
  write_rate none visible = none
  write_rate (some rate) visible = if visible then some rate else none

  abbrev pub millionth : f.Float → f.Float
  millionth x = f.over x (f.of_int (pos 1000000))

  unfoldable pub calculate_cost : PriceRule → String → String → TokenCounts → CostBreakdown
  unfolding is_long write_rate
  calculate_cost r provider profile c =
      let one = f.of_int (pos 1) in
      let long = is_long r.threshold c.input_tokens in
      let im = if long then r.im else one in
      let om = if long then r.om else one in
      let read =
        f.plus (f.times (f.of_int (fresh_input c)) r.input)
          (f.times (f.of_int c.cached_input_tokens) r.cached) in
      let base =
        f.plus (f.times read im) (f.times (f.times (f.of_int c.output_tokens) r.output) om) in
      let bound =
        f.plus base
          (f.times (f.times (f.of_int c.input_tokens) (f.larger r.input (f.of_int (pos 5)))) im) in
      let rate = write_rate r.write c.cache_write_visible in
      record {
        provider = provider;
        profile = profile;
        value = millionth (elim rate [
          | none ↦ base
          | some w ↦ f.plus base (f.times (f.times (f.of_int c.cache_write_input_tokens) w) im)
        ]);
        upper_bound = elim rate [ none ↦ some (millionth bound) | some w ↦ none ];
        currency = r.currency;
        quality =
            if r.stale
            then stale_price
            else elim rate [ none ↦ cache_write_unknown | some w ↦ exact ];
        verified_at = r.verified;
      }

  -- The test of one rule in `costFromRules`.
  unfoldable pub applies : String → String → String → String → PriceRule → Bool
  applies provider profile model stamp r =
      r.provider == provider
      && r.profile == profile
      && r.model == model
      && text_leb r.from stamp
      && (r.to == "" || text_ltb stamp r.to)

  unfoldable pub find_rule : (PriceRule → Bool) → List PriceRule → Option PriceRule
  find_rule p [] = none
  find_rule p (r ∷ rules) = if p r then some r else find_rule p rules

  abbrev pub costed : String → String → TokenCounts → Option PriceRule → Option CostBreakdown
  costed provider profile c none = none
  costed provider profile c (some r) = some (calculate_cost r provider profile c)

  unfoldable pub cost_from_rules :
      Clocks → List PriceRule → String → String → String → TokenCounts → Time → Option CostBreakdown
  unfolding applies find_rule calculate_cost
  cost_from_rules clocks rules provider profile model c at =
      costed provider profile c
        (find_rule (applies provider profile model (clocks.seconds at)) rules)

  unfoldable pub open_after : String → Option String → Bool
  open_after stamp none = true
  open_after stamp (some to) = text_ltb stamp to

  -- The WHERE of `costFor`'s query.
  unfoldable pub in_force : String → String → String → String → PriceRow → Bool
  unfolding open_after
  in_force provider profile model stamp r =
      r.provider == provider
      && r.plan_profile == profile
      && r.model == model
      && text_leb r.effective_from stamp
      && open_after stamp r.effective_to

  abbrev pub first_price : List PriceRow → Option PriceRule
  first_price [] = none
  first_price (r ∷ rows) = some (price_rule r)

  -- `stamp` is `at.Format(time.RFC3339)`, in the zone of `at`.
  unfoldable pub cost_for :
      List PriceRow → String → String → String → TokenCounts → String → Option CostBreakdown
  unfolding in_force calculate_cost price_rule
  cost_for prices provider profile model c stamp =
      costed provider profile c
        (first_price (sort newer_first (keep (in_force provider profile model stamp) prices)))
