-- ===== src/Fleet.antt =====
-- realtime.go `normalized` and `decodeTelemetry`, handlers.go `hostViews`: how the server judges its
-- agents from the time it last heard of them and from their own reports. The rows of the query stand
-- in the order of its ORDER BY; a stored report is decoded already, and its numbers are far from the
-- ends of an int64.
pub mod Judgement
use codex_token_meter.Prelude.{
  ℕ, ◌-◌, ◌/◌, ℤ, pos, ◌+ℤ◌, ◌-ℤ◌, ltb_ℤ, max_ℤ, String, Bool, true, false, not, ◌&&◌, ◌||◌, Option,
  none, some, List, [], ◌∷◌, leb, ltb, if◌then◌else◌, map, keep, min,
}
use codex_token_meter.Types.{Time, AgentTelemetry}
use codex_token_meter.Ledger.Db.{Agent, TelemetryRow}
use codex_token_meter.Ledger.Runtime.{parse_time}

pub record RealtimeConfig : Type 0 where
  pub coalesce_ms : ℤ
  pub heartbeat_ms : ℤ
  pub delayed_ms : ℤ
  pub offline_ms : ℤ
  pub probe_ms : ℤ

-- The largest `int`.
abbrev pub int_max : ℕ
int_max = 9_223_372_036_854_775_807

-- A sum of two numbers of which one is small: it wraps at the top only.
abbrev pub wrapped : ℤ → ℤ
wrapped n = if ltb_ℤ (pos int_max) n then n -ℤ pos 18_446_744_073_709_551_616 else n

abbrev pub outside : ℕ → ℕ → ℤ → Bool
outside lo hi n = ltb_ℤ n (pos lo) || ltb_ℤ (pos hi) n

-- `if n < lo || n > hi { n = d }`.
unfoldable pub within_or : ℕ → ℕ → ℕ → ℤ → ℤ
within_or lo hi d n = if outside lo hi n then pos d else n

unfoldable pub delayed_after : ℤ → ℤ → ℤ
delayed_after heartbeat delayed =
    if ltb_ℤ delayed (heartbeat +ℤ heartbeat)
    then max_ℤ (pos 12_000) (heartbeat +ℤ heartbeat)
    else delayed

unfoldable pub offline_after : ℤ → ℤ → ℤ
offline_after delayed offline =
    if not (ltb_ℤ delayed offline)
    then max_ℤ (pos 30_000) (wrapped (delayed +ℤ pos 10_000))
    else offline

unfoldable pub probe_after : ℤ → ℤ
probe_after n = if ltb_ℤ n (pos 10_000) then pos 30_000 else n

unfoldable pub normalized : RealtimeConfig → RealtimeConfig
unfolding within_or delayed_after offline_after probe_after
normalized c =
    let heartbeat = within_or 1000 10_000 5000 c.heartbeat_ms in
    let delayed = delayed_after heartbeat c.delayed_ms in
    record {
      coalesce_ms = within_or 100 250 200 c.coalesce_ms;
      heartbeat_ms = heartbeat;
      delayed_ms = delayed;
      offline_ms = offline_after delayed c.offline_ms;
      probe_ms = probe_after c.probe_ms;
    }

-- `time.Since(t).Milliseconds()`: a Duration is an int64 of nanoseconds that does not wrap here but
-- stops at its ends, and the division truncates.
unfoldable pub milliseconds_since : Time → Time → ℤ
milliseconds_since now t =
    if leb t now
    then pos (min (now - t) int_max / 1_000_000)
    else pos 0 -ℤ pos (min (t - now) 9_223_372_036_854_775_808 / 1_000_000)

pub data Connection : Type 0 where
  online delayed offline : Connection

pub data SyncState : Type 0 where
  not_known synced pending stale : SyncState

unfoldable pub connection : RealtimeConfig → ℤ → Connection
connection c age =
    if ltb_ℤ c.offline_ms age then offline else if ltb_ℤ c.delayed_ms age then delayed else online

-- The report as it stands `since` milliseconds after it was received.
unfoldable pub aged : ℤ → AgentTelemetry → AgentTelemetry
aged since t =
    let elapsed = max_ℤ (pos 0) since in
    record t {
      retry_remaining_ms = max_ℤ (pos 0) (t.retry_remaining_ms -ℤ elapsed);
      scan_age_ms = if ltb_ℤ t.scan_age_ms (pos 0) then t.scan_age_ms else t.scan_age_ms +ℤ elapsed;
    }

unfoldable pub sync_state : RealtimeConfig → AgentTelemetry → SyncState
sync_state c t =
    if t.scan_failed || ltb_ℤ t.scan_age_ms (pos 0) || ltb_ℤ c.delayed_ms t.scan_age_ms
    then stale
    else if ltb_ℤ (pos 0) t.pending_events || t.upload_failed
    then pending
    else synced

pub record HostView : Type 0 where
  pub host_id : String
  pub alias : String
  pub platform : String
  pub last_seen : Option Time
  pub is_online : Bool
  pub connection_state : Connection
  pub sync : SyncState
  pub telemetry : Option AgentTelemetry
  pub last_seen_age_ms : ℤ

abbrev pub sync_of : RealtimeConfig → Option AgentTelemetry → SyncState
sync_of c none = not_known
sync_of c (some t) = sync_state c t

abbrev pub aged_report : Time → Option TelemetryRow → Option AgentTelemetry
aged_report now none = none
aged_report now (some r) = some (aged (milliseconds_since now r.received_at) r.report)

-- A row of the query: an agent with its id, and its report if one is stored.
unfoldable pub host_view : RealtimeConfig → Time → String × Agent × Option TelemetryRow → HostView
unfolding aged
host_view config now (id, a, stored) =
    let c = normalized config in
    let age = milliseconds_since now (parse_time a.last_seen) in
    let report = aged_report now stored in
    record {
      host_id = id;
      alias = a.alias;
      platform = a.platform;
      last_seen = a.last_seen;
      is_online = ltb_ℤ age (pos 15_000);
      connection_state = connection c age;
      sync = sync_of c report;
      telemetry = report;
      last_seen_age_ms = age;
    }

unfoldable pub host_views :
    RealtimeConfig → Time → List (String × Agent × Option TelemetryRow) → List HostView
unfolding host_view
host_views config now rows = map (host_view config now) (keep (λ r. not r.1.revoked) rows)
