-- ===== src/Range/Bounds.antt =====
-- Where the periods begin and end.
use codex_token_meter.Prelude.{
  ℕ, ◌+◌, ◌-◌, ◌*◌, ◌%◌, ◌≤◌, ◌<◌, String, true, false, not, ◌||◌, Option, none, some, ltb, ◌==◌,
  text_eq, ◌≡◌, ◌≢◌, refl, sym, ◌∙◌, arith, inl, inr, Bool-cases,
}
use mathlib.Core.Path.{subst}
use codex_token_meter.Types.{Time}
use codex_token_meter.Range.{
  Query, Resolved, resolved, refused, Calendar, hour, day, unix_epoch, local_day, midnight,
  whole_second, custom_end, checked, custom, period_start, named, resolve_period, days_since_first,
  resolve_dashboard_range,
}

-- The day of the month counts from 1, and no month begins before the calendar does.
pub record IsCalendar (calendar : Calendar) : Type 0 where
  pub day_in_month : (n : ℕ) → (1 ≤ calendar.month_day n) × (calendar.month_day n ≤ n + 1)

midnight_before : (now n : ℕ) → n ≤ local_day now → midnight n ≤ now
midnight_before now n h = omega arith

module _ (calendar : Calendar) where
  -- How a named period lies around the moment it is asked at.
  abbrev pub IsPeriod : String → Time → Time → Type 0
  IsPeriod period now start =
      (start ≤ now)
      × (period ≡ "today" → ((start + 8 * hour) % day ≡ 0) × (now < start + day))
      × (period ≡ "week" → ((start + 8 * hour) % (7 * day) ≡ 0) × (now < start + 7 * day))

  today_lem :
      (now : Time)
      → unix_epoch ≤ now
      → (midnight (local_day now) ≤ now)
        × ((midnight (local_day now) + 8 * hour) % day ≡ 0)
        × (now < midnight (local_day now) + day)
  today_lem now h = (omega (arith, h), omega (arith, h), omega (arith, h))

  week_lem :
      (now : Time)
      → unix_epoch ≤ now
      → let n = local_day now in
        (midnight (n - n % 7) ≤ now)
        × ((midnight (n - n % 7) + 8 * hour) % (7 * day) ≡ 0)
        × (now < midnight (n - n % 7) + 7 * day)
  week_lem now h = (omega (arith, h), omega (arith, h), omega (arith, h))

  month_lem :
      IsCalendar calendar
      → (now : Time) → midnight (local_day now - days_since_first calendar (local_day now)) ≤ now
  month_lem c now = omega (arith, c.day_in_month (local_day now))

  found : (x start : Time) → some x ≡ some start → x ≡ start
  found x start e = cc

  pub is_not : (period name : String) → (period == name) ≡ false → period ≢ name
  is_not period name e h = ground (arith, e, (text_eq.same_iff period name).1 h)

  pub same_name : (period name : String) → (period == name) ≡ true → period ≡ name
  same_name period name e = (text_eq.same_iff period name).0 e

  other-IsPeriod :
      (period : String) (now start : Time)
      → start ≤ now
      → (period == "today") ≡ false
      → (period == "week") ≡ false
      → IsPeriod period now start
  other-IsPeriod period now start h t w =
      (h, (λ e. absurd (is_not period "today" t e)), (λ e. absurd (is_not period "week" w e)))

  period_start-IsPeriod :
      IsCalendar calendar
      → (period : String) (now start : Time) → unix_epoch ≤ now
      → period_start calendar period now ≡ some start
      → IsPeriod period now start
  unfolding period_start
  period_start-IsPeriod c period now start h e = elim (Bool-cases (period == "today")) [
    | inl t ↦
        subst (λ s. IsPeriod period now s) (found _ start (rw t at e))
          (
            (today_lem now h).0,
            (λ e. ((today_lem now h).1, (today_lem now h).2)),
            (λ e. absurd (is_not "today" "week" refl (sym (same_name period "today" t) ∙ e))),
          )
    | inr t ↦ elim (Bool-cases (period == "24h")) [
      | inl d ↦
          subst (λ s. IsPeriod period now s) (found _ start (rw (t, d) at e))
            (other-IsPeriod period now _ (omega arith) t (not_both d))
      | inr d ↦ elim (Bool-cases (period == "week")) [
        | inl w ↦
            subst (λ s. IsPeriod period now s) (found _ start (rw (t, d, w) at e))
              (
                (week_lem now h).0,
                (λ e. absurd (is_not period "today" t e)),
                (λ e. ((week_lem now h).1, (week_lem now h).2)),
              )
        | inr w ↦ elim (Bool-cases (period == "month")) [
          | inl m ↦
              subst (λ s. IsPeriod period now s) (found _ start (rw (t, d, w, m) at e))
                (other-IsPeriod period now _ (month_lem c now) t w)
          | inr m ↦ elim (Bool-cases (period == "all")) [
            | inl a ↦
                subst (λ s. IsPeriod period now s) (found _ start (rw (t, d, w, m, a) at e))
                  (other-IsPeriod period now _ h t w)
            | inr a ↦ absurd (nothing (rw (t, d, w, m, a) at e))
          ]
        ]
      ]
    ]
  ]
    where
      not_both : (period == "24h") ≡ true → (period == "week") ≡ false
      not_both d = rw (same_name period "24h" d) refl

      nothing : none ≡ some start → ⊥
      nothing k = cc

  -- What a resolved range promises of the moment it was asked at.
  abbrev pub Spans : Time → Resolved → Type 0
  Spans now (refused e) = Unit
  Spans now (resolved r) =
      (r.period ≡ "custom" → r.start < r.end)
      × (r.period ≢ "custom" → (r.end ≡ now) × IsPeriod r.period now r.start)

  checked-Spans :
      (raw : String) (start now : Time) (end : Option Time)
      → Spans now (checked calendar raw start end)
  checked-Spans raw start now none = tt
  checked-Spans raw start now (some end) = elim (Bool-cases (ltb start end)) [
    | inl e ↦ rw e ((λ _. ground (arith, e)), (λ no. absurd (no refl)))
    | inr e ↦ rw e tt
  ]

  custom-Spans :
      (q : Query) (now : Time) (from : Option Time) → Spans now (custom calendar q now from)
  custom-Spans q now none = tt
  custom-Spans q now (some from) =
      checked-Spans q.to (whole_second from) now (custom_end calendar q.to now)

  named-Spans :
      (q : Query) (period : String) (now : Time) (start : Option Time)
      → period ≢ "custom"
      → ((s : Time) → start ≡ some s → IsPeriod period now s)
      → Spans now (named calendar q period now start)
  named-Spans q period now none other h = tt
  named-Spans q period now (some start) other h = elim (Bool-cases (q.to == "")) [
    | inl e ↦ rw e ((λ same. absurd (other same)), (λ _. (refl, h start refl)))
    | inr e ↦ rw e tt
  ]

  resolve_period-Spans :
      IsCalendar calendar
      → (q : Query) (period : String) (now : Time) → unix_epoch ≤ now
      → Spans now (resolve_period calendar q period now)
  unfolding resolve_period
  resolve_period-Spans c q period now h =
      elim (Bool-cases (not (q.from == "") || period == "custom")) [
        | inl e ↦ rw e (custom-Spans q now (calendar.parse q.from))
        | inr e ↦
            let other : (period == "custom") ≡ false = ground (arith, e) in
            rw e (
              named-Spans q period now (period_start calendar period now)
                (is_not period "custom" other) (λ s k. period_start-IsPeriod c period now s h k))
      ]

  -- Every range that is resolved ends after it starts where the browser chose it, and else ends at the
  -- moment of asking and starts where its name says: today at the last local midnight, a week at the
  -- last local Monday, and no period after its end; the clock stands after 1970, and a day of the
  -- month counts from 1 and from no day before the calendar's first.
  pub resolve_dashboard_range-Spans :
      IsCalendar calendar
      → (q : Query) (now : Time) → unix_epoch ≤ now
      → Spans now (resolve_dashboard_range calendar q now)
  unfolding resolve_dashboard_range
  resolve_dashboard_range-Spans c q now h = resolve_period-Spans c q _ now h
