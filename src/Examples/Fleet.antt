-- ===== src/Examples/Fleet.antt =====
-- The theorems about the server's view of its agents, on one configuration and one report.
use codex_token_meter.Prelude.{pos, false}
use codex_token_meter.Types.{AgentTelemetry}
use codex_token_meter.Fleet.{RealtimeConfig}

-- Nothing configured.
abbrev zeros : RealtimeConfig
zeros = record {
  coalesce_ms = pos 0;
  heartbeat_ms = pos 0;
  delayed_ms = pos 0;
  offline_ms = pos 0;
  probe_ms = pos 0;
}

abbrev thresholds : RealtimeConfig
thresholds = record {
  coalesce_ms = pos 200;
  heartbeat_ms = pos 5000;
  delayed_ms = pos 12_000;
  offline_ms = pos 30_000;
  probe_ms = pos 30_000;
}

abbrev report : AgentTelemetry
report = record {
  agent_epoch = "e";
  report_seq = 3;
  pending_events = pos 0;
  retry_remaining_ms = pos 0;
  scan_age_ms = pos 900;
  scan_failed = false;
  upload_failed = false;
  remaining_fields = "";
}
