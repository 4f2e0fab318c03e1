-- ===== src/Upload.antt =====
-- agent.go `flushSpool`: the oldest events of the spool go to the server, batch after batch, and leave
-- the spool when the server acknowledges their number. The server behind the network is a parameter:
-- what comes back, if anything does, and its state afterwards. The agent's own statements succeed, and
-- the loop is bounded by fuel.
pub mod Delivery
use codex_token_meter.Prelude.{
  ℕ, zero, suc, ◌+◌, ◌/◌, String, Bool, true, false, not, Option, none, some, List, [], ◌∷◌, take,
  keep, any, map, eqb, length, if◌then◌else◌,
}
use codex_token_meter.Types.{Time, DeliveryTrace, UsageEvent, IngestBatch, AgentTelemetry}

pub record Spooled : Type 0 where
  pub seq : ℕ
  pub event : UsageEvent

-- A response: its status, and the number that the acknowledgement holds if it can be decoded.
pub record Reply : Type 0 where
  pub status : ℕ
  pub accepted : Option ℕ

pub data Flushed : Type 0 where
  emptied gave_up out_of_fuel : Flushed

abbrev pub counts_as : ℕ → Option ℕ → Bool
counts_as n none = false
counts_as n (some m) = eqb m n

-- A status of 2xx and the number of events that were sent.
unfoldable pub acknowledged : ℕ → Option Reply → Bool
acknowledged n none = false
acknowledged n (some r) = if eqb (r.status / 100) 2 then counts_as n r.accepted else false

-- `Trace.SentAt` of an event that has a trace; the clock is read once for a batch.
abbrev pub traced_at : Time → Option DeliveryTrace → Option DeliveryTrace
traced_at now none = none
traced_at now (some t) = some (record t { sent_at = now })

unfoldable pub sent : Time → Spooled → UsageEvent
sent now q = record q.event { trace = traced_at now q.event.trace }

unfoldable pub batch_of : String → Option AgentTelemetry → Time → List Spooled → IngestBatch
unfolding sent
batch_of host telemetry now rows = record {
  host_id = host;
  events = map (sent now) rows;
  metadata = [];
  telemetry = telemetry;
}

-- `DELETE FROM spool WHERE seq=?`, for each row of the batch.
unfoldable pub delete_rows : List Spooled → List Spooled → List Spooled
delete_rows sent = keep λ q. not (any (λ r. eqb r.seq q.seq) sent)

module _ {W : Type 0} (send : IngestBatch → W → Option Reply × W)
    (telemetry : W → Option AgentTelemetry) (clock : W → Time) (host : String) where
  unfoldable pub flush_spool : ℕ → List Spooled → W → Flushed × List Spooled × W
  unfolding acknowledged batch_of delete_rows
  flush_spool zero spool w = (out_of_fuel, spool, w)
  flush_spool (suc fuel) spool w =
      let rows = take 256 spool in
      let (reply, w') = send (batch_of host (telemetry w) (clock w) rows) w in
      let rest = flush_spool fuel (delete_rows rows spool) w' in
      if eqb (length rows) 0
      then (emptied, spool, w)
      else if acknowledged (length rows) reply
      then rest
      else (gave_up, spool, w')
