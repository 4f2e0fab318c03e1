-- ===== src/Pricing/Rules.antt =====
-- Which price an event gets, and what the quality of a sum promises.
use codex_token_meter.Prelude.{
  String, Bool, true, false, not, ◌&&◌, Option, none, some, List, [], ◌∷◌, keep, map, sort, ◌≡◌,
  ◌≢◌, refl, sym, ap, ◌∙◌, arith, All, All-sort, IsOrder, keep-sort, ◌==◌, ◌||◌, text_ltb, text_leb,
  text_leb-IsOrder, text_eq, inl, inr, Bool-cases, if◌then◌else◌, Holds, Holds-upsert, Holds-nil,
  lookup, Option-cases, Table,
}
use codex_token_meter.Types.{Time, TokenCounts}
use codex_token_meter.Ledger.Db.{UsageRow}
use codex_token_meter.Pricing.{
  Floats, Clocks, Quality, exact, CostBreakdown, ProviderCosts, PriceRow, PriceRule, price_rule,
  newer_first, load_price_rules, applies, find_rule, costed, cost_from_rules, in_force, first_price,
  cost_for, calculate_cost, or_empty, open_after, stale_price, cache_write_unknown, blank_cost,
  write_rate,
}
use codex_token_meter.Pricing.Sums.{
  Costs, no_costs, Reader, range_costs, sum_rows, add_event, add_provider_costs, add_cost, is_exact,
  add_bounds, event_costs, or_blank, or_blanks, row_key, row_counts, earlier, by_id,
}
use codex_token_meter.Pricing.Reference.{inside}

module _ (f : Floats) where
  newer_first-IsOrder : IsOrder (newer_first f)
  newer_first-IsOrder = record {
    total = λ x y. text_leb-IsOrder.total _ _;
    trans = λ x y z h k. text_leb-IsOrder.trans _ _ _ k h;
  }

  -- An end of a price that is a text, and not the empty one.
  abbrev pub IsDated : PriceRow f → Type 0
  IsDated r = r.effective_to ≢ some ""

  ends_later :
      (stamp : String) (to : Option String)
      → to ≢ some ""
      → (or_empty f to == "" || text_ltb stamp (or_empty f to)) ≡ open_after f stamp to
  unfolding or_empty open_after
  ends_later stamp none h = ground (arith, text_eq.same_iff "" "")
  ends_later stamp (some to) h = elim (Bool-cases (to == "")) [
    | inl e ↦ absurd (h (ap some ((text_eq.same_iff to "").0 e)))
    | inr e ↦ rw e refl
  ]

  applies-in_force :
      (provider profile model stamp : String) (r : PriceRow f)
      → IsDated r
      → applies f provider profile model stamp (price_rule f r)
        ≡ in_force f provider profile model stamp r
  unfolding applies in_force price_rule
  applies-in_force provider profile model stamp r h =
      ap
        (λ b.
          r.provider == provider
          && r.plan_profile == profile
          && r.model == model
          && text_leb r.effective_from stamp
          && b)
        (ends_later stamp r.effective_to h)

  find_rule-first_price :
      (provider profile model stamp : String) (rows : List (PriceRow f))
      → All IsDated rows
      → find_rule f (applies f provider profile model stamp) (map (price_rule f) rows)
        ≡ first_price f (keep (in_force f provider profile model stamp) rows)
  unfolding find_rule
  find_rule-first_price provider profile model stamp [] h = refl
  find_rule-first_price provider profile model stamp (r ∷ rows) h =
      elim (Bool-cases (in_force f provider profile model stamp r)) [
        | inl e ↦ rw (applies-in_force provider profile model stamp r h.0, e) refl
        | inr e ↦
            rw (applies-in_force provider profile model stamp r h.0, e)
              (find_rule-first_price provider profile model stamp rows h.1)
      ]

  -- The price that `costFor` asks the database for is the one that `costFromRules` finds among the
  -- loaded rules, for a time in UTC, when no price ends with the empty text.
  pub cost_for-cost_from_rules :
      (clocks : Clocks) (prices : List (PriceRow f)) (provider profile model : String)
      (c : TokenCounts) (at : Time)
      → All IsDated prices
      → cost_for f prices provider profile model c (clocks.seconds at)
        ≡ cost_from_rules f clocks (load_price_rules f prices) provider profile model c at
  unfolding cost_for cost_from_rules load_price_rules
  cost_for-cost_from_rules clocks prices provider profile model c at h =
      let test = in_force f provider profile model (clocks.seconds at) in
      ap (λ rows. costed f provider profile c (first_price f rows))
        (sym (keep-sort (newer_first f) newer_first-IsOrder test prices))
      ∙ ap (λ r. costed f provider profile c r)
          (sym (
            find_rule-first_price provider profile model (clocks.seconds at)
              (sort (newer_first f) prices) (All-sort IsDated (newer_first f) prices h)))

  -- A cost that says it is exact has no other bound.
  abbrev pub IsPlain : CostBreakdown f → Type 0
  IsPlain c = is_exact f c.quality ≡ true → c.upper_bound ≡ none

  plain_rate :
      (stale : Bool) (rate : Option f.Float) (bound : f.Float)
      → is_exact f
          (if stale then stale_price else elim rate [ none ↦ cache_write_unknown | some w ↦ exact ])
        ≡ true
      → (elim rate as (λ x. Option f.Float) [ none ↦ some bound | some w ↦ none ]) ≡ none
  unfolding is_exact
  plain_rate stale (some w) bound h = refl
  plain_rate true none bound h = ground (arith, h)
  plain_rate false none bound h = ground (arith, h)

  IsPlain-calculate_cost :
      (r : PriceRule f) (provider profile : String) (c : TokenCounts)
      → IsPlain (calculate_cost f r provider profile c)
  unfolding calculate_cost is_exact
  IsPlain-calculate_cost r provider profile c =
      plain_rate r.stale (write_rate f r.write c.cache_write_visible) _

  both_exact :
      (p q : Quality)
      → is_exact f (if is_exact f q then p else q) ≡ true
      → (is_exact f p ≡ true) × (is_exact f q ≡ true)
  both_exact p q h = elim (Bool-cases (is_exact f q)) [
    | inl e ↦ (rw e at h, e)
    | inr e ↦ ground (arith, e, h)
  ]

  IsPlain-add_cost : (a b : CostBreakdown f) → IsPlain a → IsPlain b → IsPlain (add_cost f a b)
  unfolding add_cost is_exact add_bounds
  IsPlain-add_cost a b h k = elim (Bool-cases (a.provider == "")) [
    | inl e ↦ rw e k
    | inr e ↦
        rw e (λ q. let each = both_exact a.quality b.quality q in rw (h each.0, k each.1) refl)
  ]

  abbrev pub ArePlain : ProviderCosts f → Type 0
  ArePlain c = IsPlain c.api × IsPlain c.vercel × IsPlain c.credits

  IsPlain-blank : IsPlain (blank_cost f)
  IsPlain-blank h = refl

  IsPlain-or_blank :
      (clocks : Clocks) (rules : List (PriceRule f)) (provider profile model : String)
      (c : TokenCounts) (at : Time)
      → IsPlain (or_blank f (cost_from_rules f clocks rules provider profile model c at))
  unfolding cost_from_rules
  IsPlain-or_blank clocks rules provider profile model c at =
      found (find_rule f (applies f provider profile model (clocks.seconds at)) rules)
    where
      found : (r : Option (PriceRule f)) → IsPlain (or_blank f (costed f provider profile c r))
      found none = IsPlain-blank
      found (some r) = IsPlain-calculate_cost r provider profile c

  ArePlain-event_costs :
      (clocks : Clocks) (rules : List (PriceRule f)) (c : TokenCounts) (at : Time)
      → ArePlain (event_costs f clocks rules c at)
  unfolding event_costs
  ArePlain-event_costs clocks rules c at = (
    IsPlain-or_blank clocks rules _ _ _ c at,
    IsPlain-or_blank clocks rules _ _ _ c at,
    IsPlain-or_blank clocks rules _ _ _ c at,
  )

  ArePlain-add :
      (a b : ProviderCosts f) → ArePlain a → ArePlain b → ArePlain (add_provider_costs f a b)
  unfolding add_provider_costs
  ArePlain-add a b h k = (
    IsPlain-add_cost a.api b.api h.0 k.0,
    IsPlain-add_cost a.vercel b.vercel h.1 k.1,
    IsPlain-add_cost a.credits b.credits h.2 k.2,
  )

  ArePlain-or_blanks :
      (sessions : Table String (ProviderCosts f)) (key : String)
      → Holds ArePlain sessions
      → ArePlain (or_blanks f (lookup key sessions))
  ArePlain-or_blanks sessions key h = elim (Option-cases (lookup key sessions)) [
    | inl e ↦ rw e (IsPlain-blank, IsPlain-blank, IsPlain-blank)
    | inr (c, e) ↦ rw e (h key c e)
  ]

  -- A total and its sessions.
  abbrev pub AllPlain : Costs f → Type 0
  AllPlain (total, sessions) = ArePlain total × Holds ArePlain sessions

  AllPlain-add_event :
      (key : String) (cost : ProviderCosts f) (acc : Costs f)
      → ArePlain cost
      → AllPlain acc
      → AllPlain (add_event f key cost acc)
  unfolding add_event
  AllPlain-add_event key cost (total, sessions) k h = (
    ArePlain-add total cost h.0 k,
    Holds-upsert ArePlain key (λ x. add_provider_costs f (or_blanks f x) cost) sessions h.1
        (ArePlain-add (or_blanks f (lookup key sessions)) cost (ArePlain-or_blanks sessions key h.1)
          k),
  )

  AllPlain-sum_rows :
      (clocks : Clocks) (rules : List (PriceRule f)) (rows : List UsageRow) (acc : Costs f)
      → AllPlain acc
      → AllPlain (sum_rows f clocks rules acc rows)
  unfolding sum_rows
  AllPlain-sum_rows clocks rules [] acc h = h
  AllPlain-sum_rows clocks rules (r ∷ rows) acc h =
      let key = row_key r.host_id r.conversation_id in
      let cost = event_costs f clocks rules (row_counts r) r.timestamp in
      AllPlain-sum_rows clocks rules rows (add_event f key cost acc) (
        AllPlain-add_event key cost acc
          (ArePlain-event_costs clocks rules (row_counts r) r.timestamp) h)

  -- Of a range's costs, in total and of each session, what says that it is exact has no upper bound
  -- beside it, with each of the three providers.
  pub range_costs-AllPlain :
      (clocks : Clocks) (db : Reader f) (since until : Time)
      → AllPlain (range_costs f clocks db since until)
  unfolding range_costs
  range_costs-AllPlain clocks db since until =
      elim (Bool-cases (not (db.rules_read_again && db.window_read))) [
        | inl e ↦ rw e nothing
        | inr e ↦
            let rows =
              sort (earlier f clocks) (keep (inside clocks since until) (by_id db.usage_events)) in
            rw e (AllPlain-sum_rows clocks (load_price_rules f db.prices) rows (no_costs f) nothing)
      ]
    where
      nothing : AllPlain (no_costs f)
      nothing = ((IsPlain-blank, IsPlain-blank, IsPlain-blank), Holds-nil ArePlain)
