-- ===== src/Range/Again.antt =====
-- The query that stands for a range gives the range again.
use codex_token_meter.Prelude.{
  ◌%◌, ◌<◌, String, Bool, true, false, not, ◌||◌, Option, none, some, ltb, ◌==◌, text_eq, ◌≡◌, ◌⊎◌,
  refl, sym, ap, ◌∙◌, arith, inl, inr, Bool-cases, if◌then◌else◌,
}
use mathlib.Core.Path.{subst}
use codex_token_meter.Types.{Time}
use codex_token_meter.Range.{
  Query, DashboardRange, Resolved, resolved, refused, Calendar, one_second, whole_second,
  custom_end, checked, in_seconds, custom, period_start, named, resolve_period,
  resolve_dashboard_range, query_for_range,
}

-- Of Go's layout: a whole second that is written is read again, and no time is written as ''.
pub record IsWritten (calendar : Calendar) : Type 0 where
  pub read_again : (t : Time) → t % one_second ≡ 0 → calendar.parse (calendar.format t) ≡ some t
  pub not_empty : (t : Time) → (calendar.format t == "") ≡ false

module _ (calendar : Calendar) where
  abbrev ChosenEnd : Time → DashboardRange → Type 0
  ChosenEnd now r =
      (r.open_ended ≡ true → r.end ≡ now) × (r.open_ended ≡ false → r.end % one_second ≡ 0)

  -- What a resolved range stands_for of its query.
  abbrev Canonical : Time → Resolved → Type 0
  Canonical now (refused e) = Unit
  Canonical now (resolved r) =
      ((r.period ≡ "custom") × (r.start % one_second ≡ 0) × (r.start < r.end) × ChosenEnd now r)
      ⊎ ((r.period == "custom") ≡ false)
        × ((r.period == "") ≡ false)
        × (period_start calendar r.period now ≡ some r.start)
        × (r.end ≡ now)
        × (r.open_ended ≡ false)

  whole_second_whole : (t : Time) → whole_second t % one_second ≡ 0
  whole_second_whole t = omega arith

  in_seconds_whole :
      (o : Option Time) (end : Time) → in_seconds calendar o ≡ some end → end % one_second ≡ 0
  in_seconds_whole none end e = ground (arith, e)
  in_seconds_whole (some t) end e = ground (arith, e)

  custom_end_whole :
      (raw : String) (now end : Time)
      → (raw == "") ≡ false
      → custom_end calendar raw now ≡ some end
      → end % one_second ≡ 0
  unfolding custom_end
  custom_end_whole raw now end h e = in_seconds_whole (calendar.parse raw) end (rw h at e)

  custom_end_open :
      (raw : String) (now end : Time)
      → (raw == "") ≡ true
      → custom_end calendar raw now ≡ some end
      → end ≡ now
  unfolding custom_end
  custom_end_open raw now end h e = ground (arith, h, e)

  checked-Canonical :
      (raw : String) (start now : Time) (end : Option Time)
      → start % one_second ≡ 0
      → custom_end calendar raw now ≡ end
      → Canonical now (checked calendar raw start end)
  checked-Canonical raw start now none h e = tt
  checked-Canonical raw start now (some end) h e = elim (Bool-cases (ltb start end)) [
    | inl l ↦ rw l (
        inl (
          refl,
          h,
          ground (arith, l),
          ((λ o. custom_end_open raw now end o e), (λ o. custom_end_whole raw now end o e)),
        ))
    | inr l ↦ rw l tt
  ]

  custom-Canonical :
      (q : Query) (now : Time) (from : Option Time) → Canonical now (custom calendar q now from)
  custom-Canonical q now none = tt
  custom-Canonical q now (some from) =
      checked-Canonical q.to (whole_second from) now (custom_end calendar q.to now)
        (whole_second_whole from) refl

  named-Canonical :
      (q : Query) (period : String) (now : Time) (start : Option Time)
      → (period == "custom") ≡ false
      → (period == "") ≡ false
      → period_start calendar period now ≡ start
      → Canonical now (named calendar q period now start)
  named-Canonical q period now none c n e = tt
  named-Canonical q period now (some start) c n e = elim (Bool-cases (q.to == "")) [
    | inl k ↦ rw k (inr (c, n, e, refl, refl))
    | inr k ↦ rw k tt
  ]

  resolve_period-Canonical :
      (q : Query) (period : String) (now : Time)
      → (period == "") ≡ false
      → Canonical now (resolve_period calendar q period now)
  unfolding resolve_period
  resolve_period-Canonical q period now n =
      elim (Bool-cases (not (q.from == "") || period == "custom")) [
        | inl e ↦ rw e (custom-Canonical q now (calendar.parse q.from))
        | inr e ↦ rw e (
            named-Canonical q period now (period_start calendar period now) (ground (arith, e)) n
              refl)
      ]

  defaulted : (period : String) → ((if period == "" then "today" else period) == "") ≡ false
  defaulted period = elim (Bool-cases (period == "")) [ inl e ↦ rw e refl | inr e ↦ rw (e, e) refl ]

  whole_second_id : (t : Time) → t % one_second ≡ 0 → whole_second t ≡ t
  whole_second_id t h = omega (arith, h)

  abbrev chosen : Time → Time → Bool → DashboardRange
  chosen start end onward = record {
    period = "custom";
    start = start;
    end = end;
    open_ended = onward;
  }

  custom_again :
      IsWritten calendar
      → (start end now : Time) (onward : Bool) → start % one_second ≡ 0
      → start < end
      → ChosenEnd now (chosen start end onward)
      → resolve_dashboard_range calendar (query_for_range calendar (chosen start end onward)) now
        ≡ resolved (chosen start end onward)
  unfolding resolve_dashboard_range resolve_period query_for_range custom_end
  custom_again w start end now true s l k =
      let later : ltb start now ≡ true = ground (arith, l, k.0 refl) in
      rw (w.not_empty start, w.read_again start s, whole_second_id start s, later, k.0 refl) refl
  custom_again w start end now false s l k =
      let later : ltb start end ≡ true = ground (arith, l) in
      rw
        (
          w.not_empty start,
          w.read_again start s,
          whole_second_id start s,
          w.not_empty end,
          w.read_again end (k.1 refl),
          whole_second_id end (k.1 refl),
          later,
          w.not_empty end,
        )
        refl

  resolve_named :
      (q : Query) (period : String) (now : Time)
      → (q.from == "") ≡ true
      → (period == "custom") ≡ false
      → resolve_period calendar q period now
        ≡ named calendar q period now (period_start calendar period now)
  unfolding resolve_period
  resolve_named q period now f c = rw (f, c) refl

  named_again :
      (r : DashboardRange) (now : Time)
      → (r.period == "custom") ≡ false
      → (r.period == "") ≡ false
      → period_start calendar r.period now ≡ some r.start
      → r.end ≡ now
      → r.open_ended ≡ false
      → resolve_dashboard_range calendar (query_for_range calendar r) now ≡ resolved r
  unfolding resolve_dashboard_range query_for_range
  named_again r now c n e w o =
      rw (c, n)
        (resolve_named (record { period = r.period; from = ""; to = "" }) r.period now refl c
          ∙ ap
              (λ s.
                named calendar (record { period = r.period; from = ""; to = "" }) r.period now s)
              e
          ∙ rw (sym w, sym o) refl)

  again :
      IsWritten calendar
      → (now : Time) (r : DashboardRange) → Canonical now (resolved r)
      → resolve_dashboard_range calendar (query_for_range calendar r) now ≡ resolved r
  again w now r (inl (p, s, l, k)) =
      subst
        (λ t.
          resolve_dashboard_range calendar (query_for_range calendar (record r { period = t })) now
          ≡ resolved (record r { period = t }))
        (sym p) (custom_again w r.start r.end now r.open_ended s l k)
  again w now r (inr (c, n, e, z, o)) = named_again r now c n e z o

  -- A range that is resolved is resolved again, at the same moment, from the query that stands for it:
  -- for a layout of times that is read again on whole seconds.
  pub resolve_dashboard_range-query_for_range :
      IsWritten calendar
      → (q : Query) (now : Time) (r : DashboardRange)
      → resolve_dashboard_range calendar q now ≡ resolved r
      → resolve_dashboard_range calendar (query_for_range calendar r) now ≡ resolved r
  unfolding resolve_dashboard_range
  resolve_dashboard_range-query_for_range w q now r e =
      again w now r
        (subst (Canonical now) e (resolve_period-Canonical q _ now (defaulted q.period)))
