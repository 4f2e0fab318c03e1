-- ===== src/Pricing/Answers.antt =====
-- Each answer of the cache is the query's, and the cache behind it holds what it should.
use codex_token_meter.Prelude.{
  ℕ, Bool, true, not, ◌||◌, Option, none, some, List, [], ◌∷◌, ◌++◌, keep, map, sort, ltb, length,
  ◌≤◌, ◌≡◌, refl, sym, ap, ◌∙◌, arith, inl, inr, Bool-cases, map-append, sort-append_sorted,
}
use codex_token_meter.Types.{Time}
use codex_token_meter.Ledger.Db.{UsageRow, max_id}
use codex_token_meter.Ledger.Rows.{IsLedger}
use codex_token_meter.Pricing.{Floats, Clocks, PriceRule, load_price_rules}
use codex_token_meter.Pricing.Sums.{by_id, Costs, no_costs, Reader, range_costs}
use codex_token_meter.Pricing.Cache.{
  PricedEvent, AccountingCache, priced, event_order, sum_events, cleared, extended, brought_up,
  cached_range_costs,
}
use codex_token_meter.Pricing.Reference.{IsClocks, by_id-IsSorted, sum_events-reference}
use codex_token_meter.Pricing.Coherent.{
  known, known_before, known_whole, known_none, split, max_id_grows, event_order-IsOrder,
}

module _ (f : Floats) (clocks : Clocks) where
  -- The cache holds the rows up to its id, priced by its rules, in the order of the query.
  pub record IsCacheOf (c : AccountingCache f) (rows : List UsageRow) : Type 0 where
    pub reached : c.max_id ≤ max_id rows
    pub holds :
        c.events ≡ sort (event_order f) (map (priced f clocks c.rules) (known c.max_id rows))

  -- As far as a reader sees the ledger.
  IsCacheOf-seen :
      (c : AccountingCache f) (newer rows : List UsageRow)
      → IsLedger (newer ++ rows)
      → c.max_id ≤ max_id rows
      → IsCacheOf c (newer ++ rows)
      → IsCacheOf c rows
  IsCacheOf-seen c newer rows l m h = record {
    reached = m;
    holds =
        h.holds
        ∙ ap (λ t. sort (event_order f) (map (priced f clocks c.rules) t))
            (known_before c.max_id newer rows l m);
  }

  IsCacheOf-grown :
      (c : AccountingCache f) (newer rows : List UsageRow)
      → IsLedger (newer ++ rows)
      → IsCacheOf c rows
      → IsCacheOf c (newer ++ rows)
  IsCacheOf-grown c newer rows l h = record {
    reached = omega (arith, h.reached, max_id_grows newer rows);
    holds =
        h.holds
        ∙ ap (λ t. sort (event_order f) (map (priced f clocks c.rules) t))
            (sym (known_before c.max_id newer rows l h.reached));
  }

  pub IsCacheOf-empty :
      (rules : List (PriceRule f)) (rows : List UsageRow)
      → IsLedger rows
      → IsCacheOf (record { rules = rules; events = []; max_id = 0 }) rows
  IsCacheOf-empty rules rows l = record {
    reached = omega arith;
    holds = rw (known_none rows l) refl;
  }

  IsCacheOf-extended :
      (c : AccountingCache f) (rows : List UsageRow)
      → IsLedger rows
      → IsCacheOf c rows
      → IsCacheOf (extended f clocks rows c) rows
  unfolding extended
  IsCacheOf-extended c rows l h =
      let tail = keep (λ r. ltb c.max_id r.id) (by_id rows) in
      let price = λ (xs : List UsageRow). map (priced f clocks c.rules) xs in
      let order = λ (es : List (PricedEvent f)). sort (event_order f) es in
      record {
        reached = omega arith;
        holds =
            ap (λ t. order (t ++ price tail)) h.holds
            ∙ sort-append_sorted (event_order f) (event_order-IsOrder f)
                (price (known c.max_id rows)) (price tail)
            ∙ ap order (sym (map-append (priced f clocks c.rules) (known c.max_id rows) tail))
            ∙ ap (λ t. order (price t)) (split c.max_id (by_id rows) (by_id-IsSorted rows l))
            ∙ ap (λ t. order (price t)) (sym (known_whole rows));
      }

  -- A cache that has reached the last row answers as the query does.
  answers :
      IsClocks clocks
      → (c : AccountingCache f) (db : Reader f) (since until : Time) → IsLedger db.usage_events
      → IsCacheOf c db.usage_events
      → c.max_id ≡ max_id db.usage_events
      → c.rules ≡ load_price_rules f db.prices
      → db.rules_read_again ≡ true
      → db.window_read ≡ true
      → sum_events f (clocks.usage_bound since) (clocks.usage_bound until) (no_costs f) c.events
        ≡ range_costs f clocks db since until
  unfolding range_costs
  answers k c db since until l h whole same again window =
      let rows = db.usage_events in
      let sum = λ (es : List (PricedEvent f)).
        sum_events f (clocks.usage_bound since) (clocks.usage_bound until) (no_costs f) es in
      ap sum h.holds
      ∙ ap (λ m. sum (sort (event_order f) (map (priced f clocks c.rules) (known m rows)))) whole
      ∙ ap (λ t. sum (sort (event_order f) (map (priced f clocks c.rules) t))) (known_whole rows)
      ∙ ap (λ q. sum (sort (event_order f) (map (priced f clocks q) (by_id rows)))) same
      ∙ sum_events-reference f clocks (load_price_rules f db.prices) k since until (no_costs f)
          (by_id rows) (by_id-IsSorted rows l)
      ∙ rw (again, window) refl

  cleared-rules :
      (same_rules : List (PriceRule f) → List (PriceRule f) → Bool)
      → ((a b : List (PriceRule f)) → same_rules a b ≡ true → a ≡ b)
      → (rules : List (PriceRule f)) (count : ℕ) (c : AccountingCache f)
      → (cleared f same_rules rules count c).rules ≡ rules
  unfolding cleared
  cleared-rules same_rules sound rules count c = elim (Bool-cases (same_rules rules c.rules)) [
    | inl e ↦ elim (Bool-cases (ltb count (length c.events))) [
      | inl lost ↦ rw (e, lost) refl
      | inr kept ↦ rw (e, kept) (sym (sound rules c.rules e))
    ]
    | inr e ↦ rw e refl
  ]

  IsCacheOf-cleared :
      (same_rules : List (PriceRule f) → List (PriceRule f) → Bool) (rules : List (PriceRule f))
      (count : ℕ) (c : AccountingCache f) (rows : List UsageRow)
      → IsLedger rows
      → IsCacheOf c rows
      → IsCacheOf (cleared f same_rules rules count c) rows
  unfolding cleared
  IsCacheOf-cleared same_rules rules count c rows l h =
      elim (Bool-cases (not (same_rules rules c.rules) || ltb count (length c.events))) [
        | inl e ↦ rw e (IsCacheOf-empty rules rows l)
        | inr e ↦ rw e h
      ]

  extended-rules :
      (rows : List UsageRow) (c : AccountingCache f) → (extended f clocks rows c).rules ≡ c.rules
  unfolding extended
  extended-rules rows c = refl

  extended-max_id :
      (rows : List UsageRow) (c : AccountingCache f)
      → (extended f clocks rows c).max_id ≡ max_id rows
  unfolding extended
  extended-max_id rows c = refl

  -- What a server's cache, if it has one, holds of the ledger.
  abbrev pub IsCoherent : Option (AccountingCache f) → List UsageRow → Type 0
  IsCoherent none rows = Unit
  IsCoherent (some c) rows = IsCacheOf c rows

  module _ (same_rules : List (PriceRule f) → List (PriceRule f) → Bool)
      (sound : (a b : List (PriceRule f)) → same_rules a b ≡ true → a ≡ b) (k : IsClocks clocks)
      (db : Reader f) (since until : Time) (newer : List UsageRow)
      (l : IsLedger (newer ++ db.usage_events)) where
    -- What one run of the cached routine has to give.
    abbrev Answered : Costs f × Option (AccountingCache f) → Type 0
    Answered (costs, c) =
        (db.rules_read_again ≡ true
          → db.window_read ≡ true
          → costs ≡ range_costs f clocks db since until)
        × IsCoherent c (newer ++ db.usage_events)

    IsLedger-seen : (ns rows : List UsageRow) → IsLedger (ns ++ rows) → IsLedger rows
    IsLedger-seen [] rows h = h
    IsLedger-seen (n ∷ ns) rows h = IsLedger-seen ns rows h.2

    current-Answered :
        (c : AccountingCache f)
        → IsCacheOf c db.usage_events
        → c.rules ≡ load_price_rules f db.prices
        → c.max_id ≡ max_id db.usage_events
        → Answered (
          sum_events f (clocks.usage_bound since) (clocks.usage_bound until) (no_costs f) c.events,
          some c,
        )
    current-Answered c h rules whole = (
      answers k c db since until (IsLedger-seen newer db.usage_events l) h whole rules,
      IsCacheOf-grown c newer db.usage_events l h,
    )

    brought_up-Answered :
        (c : AccountingCache f)
        → IsCacheOf c db.usage_events
        → c.rules ≡ load_price_rules f db.prices
        → Answered (brought_up f clocks db since until c)
    unfolding brought_up
    brought_up-Answered c h rules = elim (Bool-cases (ltb c.max_id (max_id db.usage_events))) [
      | inr e ↦ rw e (current-Answered c h rules (ground (arith, e, h.reached)))
      | inl e ↦ elim (Bool-cases db.tail_read) [
        | inr fault ↦
            rw (e, fault) (λ again window. refl, IsCacheOf-grown c newer db.usage_events l h)
        | inl fine ↦
            let next = extended f clocks db.usage_events c in
            let ledger = IsLedger-seen newer db.usage_events l in
            rw (e, fine)
              (current-Answered next (IsCacheOf-extended c db.usage_events ledger h)
                (extended-rules db.usage_events c ∙ rules) (extended-max_id db.usage_events c))
      ]
    ]

    cached-Answered :
        (c : Option (AccountingCache f))
        → IsCoherent c (newer ++ db.usage_events)
        → Answered (cached_range_costs f clocks same_rules c db since until)
    unfolding cached_range_costs
    cached-Answered none h = (λ again window. refl, tt)
    cached-Answered (some c) h = elim (Bool-cases db.rules_read) [
      | inr e ↦ rw e (λ again window. refl, h)
      | inl e ↦
          rw e (elim (Bool-cases (not db.extent_read || ltb 500000 (length db.usage_events))) [
            | inl e ↦ rw e (λ again window. refl, h)
            | inr e ↦ rw e (elim (Bool-cases (ltb (max_id db.usage_events) c.max_id)) [
              | inl e ↦ rw e (λ again window. refl, h)
              | inr e ↦
                  let rules = load_price_rules f db.prices in
                  let count = length db.usage_events in
                  let ledger = IsLedger-seen newer db.usage_events l in
                  let seen = IsCacheOf-seen c newer db.usage_events l (ground (arith, e)) h in
                  rw e (
                    brought_up-Answered (cleared f same_rules rules count c)
                      (IsCacheOf-cleared same_rules rules count c db.usage_events ledger seen)
                      (cleared-rules same_rules sound rules count c))
            ])
          ])
    ]

    -- Where the query of `rangeCosts` works, the costs of any range that the cached routine gives,
    -- whichever of its own queries fail, are those of `rangeCosts`: for a cache that is coherent with
    -- a ledger of which the reader sees all rows or the older part, when the comparison of rules is
    -- sound and the two layouts of a time write the same moment.
    pub cached_range_costs-reference :
        (c : Option (AccountingCache f))
        → IsCoherent c (newer ++ db.usage_events)
        → db.rules_read_again ≡ true
        → db.window_read ≡ true
        → (cached_range_costs f clocks same_rules c db since until).0
          ≡ range_costs f clocks db since until
    cached_range_costs-reference c h = (cached-Answered c h).0

    -- The cached routine leaves a cache that is coherent with the ledger, whatever part of the ledger
    -- its reader sees and whichever query fails, when the cache it starts from is, the comparison of
    -- rules is sound and the two layouts of a time write the same moment.
    pub cached_range_costs-IsCoherent :
        (c : Option (AccountingCache f))
        → IsCoherent c (newer ++ db.usage_events)
        → IsCoherent
            (cached_range_costs f clocks same_rules c db since until).1
            (newer ++ db.usage_events)
    cached_range_costs-IsCoherent c h = (cached-Answered c h).1
