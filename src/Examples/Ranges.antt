-- ===== src/Examples/Ranges.antt =====
-- The theorems of the time ranges with a calendar that writes a time as a row of marks.
use Prim.Native.String.compare.{cons-nil}
use codex_token_meter.Prelude.{
  ℕ, zero, suc, ◌+◌, ◌*◌, ◌/◌, ◌%◌, String, false, Option, none, some, ◌≡◌, refl, ap, ◌∙◌, arith,
  text_eq,
}
use codex_token_meter.Types.{Time}
use codex_token_meter.Range.{
  Query, DashboardRange, resolved, Calendar, one_second, day, unix_epoch, resolve_dashboard_range,
  query_for_range,
}
use codex_token_meter.Range.Bounds.{IsCalendar, Spans, resolve_dashboard_range-Spans}
use codex_token_meter.Range.Again.{IsWritten, resolve_dashboard_range-query_for_range}
use codex_token_meter.Examples.{marks}

abbrev marked : String → ℕ
marked String.[] = 0
marked (String.◌∷◌ c s) = 1 + marked s

marked-marks : (n : ℕ) → marked (marks n) ≡ n
marked-marks zero = refl
marked-marks (suc n) = omega (arith, marked-marks n)

abbrev read : String → Option Time
read String.[] = none
read (String.◌∷◌ c s) = some (marked s * one_second)

abbrev plain_calendar : Calendar
plain_calendar = record {
  parse = read;
  format = λ t. String.◌∷◌ "s" (marks (t / one_second));
  range_bound = λ t. marks (t / one_second);
  month_day = λ n. n % 28 + 1;
}

plain_calendar-IsWritten : IsWritten plain_calendar
plain_calendar-IsWritten = record {
  read_again = λ t h.
      ap (λ n. some (n * one_second)) (marked-marks (t / one_second)) ∙ ap some (omega (arith, h));
  not_empty = λ t. rw (cons-nil "s" (marks (t / one_second))) refl;
}

plain_calendar-IsCalendar : IsCalendar plain_calendar
plain_calendar-IsCalendar = record { day_in_month = λ n. (omega arith, omega arith) }

abbrev since_two : Query
since_two = record { period = "custom"; from = "sii"; to = "siiiii" }

abbrev two_to_five : DashboardRange
two_to_five = record {
  period = "custom";
  start = 2 * one_second;
  end = 5 * one_second;
  open_ended = false;
}

since_two-two_to_five :
    resolve_dashboard_range plain_calendar since_two 9000000007 ≡ resolved two_to_five
unfolding resolve_dashboard_range
since_two-two_to_five = refl

resolve_dashboard_range-query_for_range_example :
    resolve_dashboard_range plain_calendar (query_for_range plain_calendar two_to_five) 9000000007
    ≡ resolved two_to_five
resolve_dashboard_range-query_for_range_example =
    resolve_dashboard_range-query_for_range plain_calendar plain_calendar-IsWritten since_two
      9000000007 two_to_five since_two-two_to_five

abbrev this_week : Query
this_week = record { period = "week"; from = ""; to = "" }

resolve_dashboard_range-Spans_example :
    Spans plain_calendar
      (unix_epoch + 10 * day)
      (resolve_dashboard_range plain_calendar this_week (unix_epoch + 10 * day))
resolve_dashboard_range-Spans_example =
    resolve_dashboard_range-Spans plain_calendar plain_calendar-IsCalendar this_week
      (unix_epoch + 10 * day) (omega arith)
