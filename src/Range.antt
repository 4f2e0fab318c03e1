-- ===== src/Range.antt =====
-- time_range.go `resolveDashboardRange`, snapshot_cache.go `cacheKey`, numeric_stream.go
-- `queryForRange`: the periods that a browser may ask for, in Beijing time, which is eight hours
-- ahead of UTC all the year. Year 1 of Go's calendar begins with a Monday.
pub mod Bounds
pub mod Again
use Prim.Native.String.{◌++◌ as ◌<>◌}
use codex_token_meter.Prelude.{
  ℕ, ◌+◌, ◌-◌, ◌*◌, ◌/◌, ◌%◌, String, Bool, true, false, not, ◌||◌, Option, none, some, ltb, ◌==◌,
  text_eq, if◌then◌else◌,
}
use codex_token_meter.Types.{Time}

-- What the browser sends in the address: '' where a key is missing.
pub record Query : Type 0 where
  pub period : String
  pub from : String
  pub to : String

pub record DashboardRange : Type 0 where
  pub period : String
  pub start : Time
  pub end : Time
  pub open_ended : Bool

pub data RangeError : Type 0 where
  bad_start bad_end end_not_after_start unknown_period end_without_start : RangeError

pub data Resolved : Type 0 where
  resolved : DashboardRange → Resolved
  refused : RangeError → Resolved

-- Go's package time: RFC 3339 read and written, `rangeBound`'s layout, and the day of the month of a
-- day counted from the first of year 1.
pub record Calendar : Type 0 where
  pub parse : String → Option Time
  pub format : Time → String
  pub range_bound : Time → String
  pub month_day : ℕ → ℕ

abbrev pub one_second : ℕ
one_second = 1000000000

abbrev pub hour : ℕ
hour = 3600000000000

abbrev pub day : ℕ
day = 86400000000000

-- `time.Unix(0, 0)`.
abbrev pub unix_epoch : Time
unix_epoch = 719162 * day

-- The number of the local day, and its first moment.
abbrev pub local_day : Time → ℕ
local_day now = (now + 8 * hour) / day

abbrev pub midnight : ℕ → Time
midnight n = n * day - 8 * hour

-- `Truncate(time.Second)`.
abbrev pub whole_second : Time → Time
whole_second t = t - t % one_second

module _ (calendar : Calendar) where
  abbrev pub days_since_first : ℕ → ℕ
  days_since_first n = calendar.month_day n - 1

  abbrev pub in_seconds : Option Time → Option Time
  in_seconds none = none
  in_seconds (some t) = some (whole_second t)

  -- The end of a range that the browser gives, or none where the text is no time.
  unfoldable pub custom_end : String → Time → Option Time
  custom_end raw now = if raw == "" then some now else in_seconds (calendar.parse raw)

  abbrev pub checked : String → Time → Option Time → Resolved
  checked raw start none = refused bad_end
  checked raw start (some end) =
      if not (ltb start end)
      then refused end_not_after_start
      else resolved record { period = "custom"; start = start; end = end; open_ended = raw == "" }

  abbrev pub custom : Query → Time → Option Time → Resolved
  custom q now none = refused bad_start
  custom q now (some from) = checked q.to (whole_second from) (custom_end q.to now)

  -- The start of a named period.
  unfoldable pub period_start : String → Time → Option Time
  period_start period now =
      let n = local_day now in
      if period == "today"
      then some (midnight n)
      else if period == "24h"
      then some (now - 24 * hour)
      else if period == "week"
      then some (midnight (n - n % 7))
      else if period == "month"
      then some (midnight (n - days_since_first n))
      else if period == "all"
      then some unix_epoch
      else none

  abbrev pub named : Query → String → Time → Option Time → Resolved
  named q period now none = refused unknown_period
  named q period now (some start) =
      if not (q.to == "")
      then refused end_without_start
      else resolved record { period = period; start = start; end = now; open_ended = false }

  unfoldable pub resolve_period : Query → String → Time → Resolved
  unfolding custom_end period_start
  resolve_period q period now =
      if not (q.from == "") || period == "custom"
      then custom q now (calendar.parse q.from)
      else named q period now (period_start period now)

  unfoldable pub resolve_dashboard_range : Query → Time → Resolved
  unfolding resolve_period
  resolve_dashboard_range q now =
      resolve_period q (if q.period == "" then "today" else q.period) now

  unfoldable pub cache_key : DashboardRange → String
  cache_key r =
      let start = calendar.range_bound r.start in
      if r.period == "today" || r.period == "week" || r.period == "month"
      then r.period <> "|" <> start
      else if r.period == "24h" || r.period == "all"
      then r.period
      else if r.open_ended
      then "custom|" <> start
      else "custom|" <> start <> "|" <> calendar.range_bound r.end

  unfoldable pub query_for_range : DashboardRange → Query
  query_for_range r =
      if r.period == "custom"
      then record {
        period = r.period;
        from = calendar.format r.start;
        to = if r.open_ended then "" else calendar.format r.end;
      }
      else record { period = r.period; from = ""; to = "" }
