-- ===== src/Examples/Prices.antt =====
-- The theorems of the prices on a small price list and the small ledger; an amount is a number of
-- millionths, and the clock knows two moments.
use codex_token_meter.Prelude.{
  ℕ, ◌+◌, ◌*◌, ◌/◌, max, pos, pos_part, String, Bool, true, false, Option, none, some, List, [],
  ◌∷◌, ltb, ◌≡◌, ◌≢◌, refl, ap, if◌then◌else◌, Bool-cases, inl, inr, arith, ◌==◌, text_eq,
}
use codex_token_meter.Ledger.Replay.{apply_events}
use codex_token_meter.Ledger.Rows.{IsLedger, apply_events-IsLedger}
use codex_token_meter.Pricing.{
  Floats, Clocks, PriceRow, PriceRule, load_price_rules, cost_for, cost_from_rules,
}
use codex_token_meter.Pricing.Sums.{usage_clock, Reader, range_costs}
use codex_token_meter.Pricing.Cache.{AccountingCache, cached_range_costs}
use codex_token_meter.Pricing.Reference.{IsClocks}
use codex_token_meter.Pricing.Answers.{IsCacheOf-empty, cached_range_costs-reference}
use codex_token_meter.Pricing.Rules.{cost_for-cost_from_rules}
use codex_token_meter.Examples.{small_hash, started, run, usage}

abbrev pub millionths : Floats
millionths = record {
  Float = ℕ;
  of_int = λ n. pos_part n;
  plus = λ a b. a + b;
  times = λ a b. a * b;
  larger = λ a b. max a b;
  over = λ a b. a / b;
}

abbrev pub two_moments : Clocks
two_moments = record {
  seconds = λ t. "2026-01-01T00:00:00Z";
  nanoseconds = λ t. if ltb t 12 then "2026-01-01T00:00:00.5Z" else "2026-01-01T00:00:01Z";
  usage_bound =
      λ t. if ltb t 12 then "2026-01-01T00:00:00.500000000" else "2026-01-01T00:00:01.000000000";
}

two_moments-IsClocks : IsClocks two_moments
unfolding usage_clock
two_moments-IsClocks = record {
  same_moment = λ t. elim (Bool-cases (ltb t 12)) [ inl e ↦ rw e refl | inr e ↦ rw e refl ];
}

abbrev api_price : PriceRow millionths
api_price = record {
  provider = "openai";
  plan_profile = "API";
  model = "gpt-5.6-sol";
  effective_from = "2025-06-01T00:00:00Z";
  effective_to = none;
  input_rate = 5000000;
  cached_input_rate = 500000;
  cache_write_rate = some 6000000;
  output_rate = 30000000;
  long_input_multiplier = 2;
  long_output_multiplier = 1;
  long_context_threshold = some (pos 272000);
  currency = "USD";
  verified_at = "2025-12-01";
  stale = false;
}

abbrev old_price : PriceRow millionths
old_price = record api_price {
  effective_from = "2025-01-01T00:00:00Z";
  effective_to = some "2025-06-01T00:00:00Z";
}

-- `reflect.DeepEqual` on the rules, for lists whose rules are never changed in place.
abbrev no_rules_alike : List (PriceRule millionths) → List (PriceRule millionths) → Bool
no_rules_alike [] [] = true
no_rules_alike _ _ = false

no_rules_alike-IsSound : (a b : List (PriceRule millionths)) → no_rules_alike a b ≡ true → a ≡ b
no_rules_alike-IsSound [] [] h = refl
no_rules_alike-IsSound [] (b ∷ bs) h = ground (arith, h)
no_rules_alike-IsSound (a ∷ more) bs h = ground (arith, h)

abbrev reader : Reader millionths
reader = record {
  prices = old_price ∷ api_price ∷ [];
  usage_events = (apply_events small_hash run started).usage_events;
  rules_read = true;
  extent_read = true;
  tail_read = true;
  rules_read_again = true;
  window_read = true;
}

abbrev new_cache : AccountingCache millionths
new_cache = record { rules = []; events = []; max_id = 0 }

reader-IsLedger : IsLedger reader.usage_events
reader-IsLedger = apply_events-IsLedger small_hash run started tt

cached_range_costs-reference_example :
    (cached_range_costs millionths two_moments no_rules_alike (some new_cache) reader 0 100).0
    ≡ range_costs millionths two_moments reader 0 100
cached_range_costs-reference_example =
    cached_range_costs-reference millionths two_moments no_rules_alike no_rules_alike-IsSound
      two_moments-IsClocks reader 0 100 [] reader-IsLedger (some new_cache)
      (IsCacheOf-empty millionths two_moments [] reader.usage_events reader-IsLedger) refl refl

filled : old_price.effective_to ≢ some ""
filled e = absurd (false_true (ap some_text e))
  where
    some_text : Option String → Bool
    some_text none = true
    some_text (some t) = t == ""

    false_true : false ≡ true → ⊥
    false_true h = cc

cost_for-cost_from_rules_example :
    cost_for millionths reader.prices "openai" "API" "gpt-5.6-sol"
      (usage "a" "t1" 0 150 5).counts
      "2026-01-01T00:00:00Z"
    ≡ cost_from_rules millionths two_moments
        (load_price_rules millionths reader.prices)
        "openai"
        "API"
        "gpt-5.6-sol"
        (usage "a" "t1" 0 150 5).counts
        11
cost_for-cost_from_rules_example =
    cost_for-cost_from_rules millionths two_moments reader.prices "openai" "API" "gpt-5.6-sol"
      (usage "a" "t1" 0 150 5).counts 11 (λ e. filled e, (λ e. cc, tt))
