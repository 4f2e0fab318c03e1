-- ===== src/Fleet/Judgement.antt =====
-- The thresholds after `normalized`, and what a host's two states say.
use codex_token_meter.Prelude.{
  ℕ, ◌≤◌, ℤ, pos, ◌+ℤ◌, ◌≤ℤ◌, max_ℤ, false, arith, int_laws, +ℤ_parts, -ℤ_parts, ◌≡◌,
}
use codex_token_meter.Types.{AgentTelemetry}
use codex_token_meter.Fleet.{
  RealtimeConfig, delayed_after, offline_after, within_or, probe_after, normalized, Connection,
  online, delayed, offline, connection, synced, aged, sync_state,
}

pub record IsNormal (c : RealtimeConfig) : Type 0 where
  pub coalesce : (pos 100 ≤ℤ c.coalesce_ms) × (c.coalesce_ms ≤ℤ pos 250)
  pub heartbeat : (pos 1000 ≤ℤ c.heartbeat_ms) × (c.heartbeat_ms ≤ℤ pos 10_000)
  pub two_beats : c.heartbeat_ms +ℤ c.heartbeat_ms ≤ℤ c.delayed_ms
  pub later : c.delayed_ms +ℤ pos 1 ≤ℤ c.offline_ms
  pub probe : pos 10_000 ≤ℤ c.probe_ms

within_or_bounds :
    (lo hi d : ℕ) (n : ℤ)
    → lo ≤ d
    → d ≤ hi
    → (pos lo ≤ℤ within_or lo hi d n) × (within_or lo hi d n ≤ℤ pos hi)
unfolding within_or
within_or_bounds lo hi d n p q = ground arith

probe_after_least : (n : ℤ) → pos 10_000 ≤ℤ probe_after n
unfolding probe_after
probe_after_least n = ground arith

delayed_after_bounds :
    (h d : ℤ)
    → (pos 1000 ≤ℤ h) × (h ≤ℤ pos 10_000)
    → d ≤ℤ pos 9_223_372_036_854_765_807
    → (h +ℤ h ≤ℤ delayed_after h d) × (delayed_after h d ≤ℤ pos 9_223_372_036_854_765_807)
unfolding delayed_after
delayed_after_bounds h d b le = ground (arith, +ℤ_parts h h, b.0, b.1, le)

offline_after_later :
    (d o : ℤ) → pos 0 ≤ℤ d → d ≤ℤ pos 9_223_372_036_854_765_807 → d +ℤ pos 1 ≤ℤ offline_after d o
unfolding offline_after
offline_after_later d o h le = ground (
  arith,
  +ℤ_parts d (pos 10_000),
  +ℤ_parts d (pos 1),
  -ℤ_parts (d +ℤ pos 10_000) (pos 18_446_744_073_709_551_616),
)

within_or_inside : (lo hi d : ℕ) (n : ℤ) → (pos lo ≤ℤ n) × (n ≤ℤ pos hi) → within_or lo hi d n ≡ n
unfolding within_or
within_or_inside lo hi d n h = ground (arith, h.0, h.1)

probe_after_same : (n : ℤ) → pos 10_000 ≤ℤ n → probe_after n ≡ n
unfolding probe_after
probe_after_same n h = ground arith

delayed_after_same : (h d : ℤ) → h +ℤ h ≤ℤ d → delayed_after h d ≡ d
unfolding delayed_after
delayed_after_same h d le = ground arith

offline_after_same : (d o : ℤ) → d +ℤ pos 1 ≤ℤ o → offline_after d o ≡ o
unfolding offline_after
offline_after_same d o le = ground (arith, +ℤ_parts d (pos 1))

-- Whatever is configured, with a delay of at most 2^63 - 10001 milliseconds, the thresholds used
-- lie in their ranges: coalescing between 100 and 250 ms, a heartbeat between 1 and 10 s, a delay
-- of two heartbeats at least, an offline time later than the delay, and a probe of 10 s at least.
pub normalized-IsNormal :
    (c : RealtimeConfig) → c.delayed_ms ≤ℤ pos 9_223_372_036_854_765_807 → IsNormal (normalized c)
unfolding normalized
normalized-IsNormal c le =
    let beat = within_or_bounds 1000 10_000 5000 c.heartbeat_ms (omega arith) (omega arith) in
    let (two, top) = delayed_after_bounds _ c.delayed_ms beat le in
    record {
      coalesce = within_or_bounds 100 250 200 c.coalesce_ms (omega arith) (omega arith);
      heartbeat = beat;
      two_beats = two;
      later = offline_after_later _ c.offline_ms (omega (int_laws, beat.0, two)) top;
      probe = probe_after_least c.probe_ms;
    }

normal_fixed : (c : RealtimeConfig) → IsNormal c → normalized c ≡ c
unfolding normalized
normal_fixed c h =
    let a : within_or 100 250 200 c.coalesce_ms ≡ c.coalesce_ms =
      within_or_inside 100 250 200 _ h.coalesce in
    let b : within_or 1000 10_000 5000 c.heartbeat_ms ≡ c.heartbeat_ms =
      within_or_inside 1000 10_000 5000 _ h.heartbeat in
    let d : delayed_after c.heartbeat_ms c.delayed_ms ≡ c.delayed_ms =
      delayed_after_same _ _ h.two_beats in
    let o : offline_after c.delayed_ms c.offline_ms ≡ c.offline_ms =
      offline_after_same _ _ h.later in
    let p : probe_after c.probe_ms ≡ c.probe_ms = probe_after_same _ h.probe in simp (a, b, d, o, p)

-- Under the same bound on the delay, normalizing thresholds that were normalized changes nothing.
pub normalized_again :
    (c : RealtimeConfig)
    → c.delayed_ms ≤ℤ pos 9_223_372_036_854_765_807
    → normalized (normalized c) ≡ normalized c
normalized_again c le = normal_fixed (normalized c) (normalized-IsNormal c le)

-- `Milliseconds` that are more make a connection no better.
abbrev pub rank : Connection → ℕ
rank online = 0
rank delayed = 1
rank offline = 2

-- For any thresholds, a host that was heard of longer ago is never shown with a better connection.
pub connection_mono :
    (c : RealtimeConfig) (a b : ℤ) → a ≤ℤ b → rank (connection c a) ≤ rank (connection c b)
unfolding connection
connection_mono c a b le = ground arith

-- A host whose report, aged by the time since it came, is shown as synced reported no failed scan
-- and no failed upload and no pending event, and its last scan, that time included, is no older
-- than the delay.
pub synced-lem :
    (c : RealtimeConfig) (since : ℤ) (t : AgentTelemetry)
    → sync_state c (aged since t) ≡ synced
    → (t.scan_failed ≡ false)
      × (t.upload_failed ≡ false)
      × (t.pending_events ≤ℤ pos 0)
      × (pos 0 ≤ℤ t.scan_age_ms)
      × (t.scan_age_ms +ℤ max_ℤ (pos 0) since ≤ℤ c.delayed_ms)
unfolding sync_state aged
synced-lem c since t h = ground (arith, h)
