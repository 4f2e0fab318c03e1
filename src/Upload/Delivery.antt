-- ===== src/Upload/Delivery.antt =====
-- What the server knows of the events that leave the spool.
use codex_token_meter.Prelude.{
  ℕ, zero, suc, ◌≤◌, ◌<◌, length-keep-le, String, Bool, true, false, not, Option, List, [], ◌∷◌,
  take, any, map, eqb, length, ◌≡◌, refl, ◌⊎◌, inl, inr, Bool-cases, arith, All, All-keep, keep-All,
  All-both, All-take,
}
use codex_token_meter.Types.{Time, UsageEvent, IngestBatch, AgentTelemetry}
use codex_token_meter.Upload.{
  Spooled, Reply, emptied, gave_up, acknowledged, batch_of, delete_rows, flush_spool, sent,
}

-- What the upload relies on of the server: it forgets no event, and has those it acknowledges.
pub record IsReliable {W : Type 0} (send : IngestBatch → W → Option Reply × W)
    (knows : String → W → Bool) : Type 0 where
  pub keeps :
      (b : IngestBatch) (w : W) (id : String) → knows id w ≡ true → knows id (send b w).1 ≡ true
  pub delivers :
      (b : IngestBatch) (w : W)
      → acknowledged (length b.events) (send b w).0 ≡ true
      → All (λ e. knows e.event_id (send b w).1 ≡ true) b.events

length-events : (now : Time) (rows : List Spooled) → length (map (sent now) rows) ≡ length rows
length-events now [] = refl
length-events now (q ∷ rows) = rw (length-events now rows) refl

-- A row's number stands for one event.
abbrev pub IsKeyed : (ℕ → UsageEvent) → List Spooled → Type 0
IsKeyed event_of = All λ q. q.event ≡ event_of q.seq

abbrev pub has_row : ℕ → List Spooled → Bool
has_row seq = any λ r. eqb r.seq seq

All-has_row :
    (all rows : List Spooled)
    → All (λ q. has_row q.seq all ≡ true) rows
    → (r : Spooled) → All (λ q. has_row q.seq (r ∷ all) ≡ true) rows
All-has_row all [] h r = tt
All-has_row all (q ∷ rows) h r = (ground (arith, h.0), All-has_row all rows h.1 r)

has_row_self : (rows : List Spooled) → All (λ q. has_row q.seq rows ≡ true) rows
has_row_self [] = tt
has_row_self (q ∷ rows) = (ground arith, All-has_row rows rows (has_row_self rows) q)

known_row :
    (event_of : ℕ → UsageEvent) (known : String → Bool) (seq : ℕ) (now : Time) (rows : List Spooled)
    → IsKeyed event_of rows
    → All (λ e. known e.event_id ≡ true) (map (sent now) rows)
    → has_row seq rows ≡ true
    → known (event_of seq).event_id ≡ true
unfolding sent
known_row event_of known seq now [] keyed h found = absurd (cc)
known_row event_of known seq now (r ∷ rows) keyed h found =
    ground (arith, keyed.0, h.0, known_row event_of known seq now rows keyed.1 h.1)

module _ {W : Type 0} (send : IngestBatch → W → Option Reply × W)
    (telemetry : W → Option AgentTelemetry) (clock : W → Time) (host : String)
    (knows : String → W → Bool) where
  flush_keeps :
      (fuel : ℕ) (spool : List Spooled) (w : W) (id : String)
      → IsReliable send knows
      → knows id w ≡ true
      → knows id (flush_spool send telemetry clock host fuel spool w).2 ≡ true
  unfolding flush_spool
  flush_keeps zero spool w id laws h = h
  flush_keeps (suc fuel) spool w id laws h =
      let rows = take 256 spool in
      let b = batch_of host (telemetry w) (clock w) rows in
      let w' = (send b w).1 in
      let there = laws.keeps b w id h in
      let later = flush_keeps fuel (delete_rows rows spool) w' id laws there in
      elim (Bool-cases (eqb (length rows) 0)) [
        | inl nothing ↦ rw nothing h
        | inr some_rows ↦
            rw some_rows (elim (Bool-cases (acknowledged (length rows) (send b w).0)) [
              | inl acked ↦ rw acked later
              | inr lost ↦ rw lost there
            ])
      ]

  -- Where a row's event is in the end: still in the spool, or at the server.
  abbrev pub Kept : List Spooled → W → Spooled → Type 0
  Kept spool w q = (has_row q.seq spool ≡ true) ⊎ (knows q.event.event_id w ≡ true)

  still :
      (spool rows : List Spooled) (w : W)
      → All (λ q. has_row q.seq spool ≡ true) rows
      → All (Kept spool w) rows
  still spool [] w h = tt
  still spool (q ∷ rows) w h = (inl h.0, still spool rows w h.1)

  gone_known :
      (event_of : ℕ → UsageEvent) (now : Time) (rows spool final : List Spooled) (w' w'' : W)
      → IsKeyed event_of rows
      → IsKeyed event_of spool
      → All (λ e. knows e.event_id w' ≡ true) (map (sent now) rows)
      → ((id : String) → knows id w' ≡ true → knows id w'' ≡ true)
      → All (Kept final w'') (delete_rows rows spool)
      → All (Kept final w'') spool
  unfolding delete_rows
  gone_known event_of now rows spool final w' w'' keyed_rows keyed known on later =
      All-both _ _ (Kept final w'') spool kept (All-keep (Kept final w'') _ spool later) keyed
    where
      kept :
          (q : Spooled)
          → (not (has_row q.seq rows) ≡ false) ⊎ Kept final w'' q
          → q.event ≡ event_of q.seq
          → Kept final w'' q
      kept q (inr stays) key = stays
      kept q (inl goes) key =
          let there : has_row q.seq rows ≡ true = ground (arith, goes) in
          inr (
            rw key
              (on _ (known_row event_of (λ id. knows id w') q.seq now rows keyed_rows known there)))

  -- Against a server that forgets no event and has the events it acknowledges, and with spool rows
  -- whose numbers stand for one event each: wherever the upload of the spool stops, every event
  -- that was in the spool is still there or known to the server.
  pub flush_spool-Kept :
      (fuel : ℕ) (spool : List Spooled) (w : W) (event_of : ℕ → UsageEvent)
      → IsReliable send knows
      → IsKeyed event_of spool
      → All
          (Kept
            (flush_spool send telemetry clock host fuel spool w).1
            (flush_spool send telemetry clock host fuel spool w).2)
          spool
  unfolding flush_spool batch_of delete_rows
  flush_spool-Kept zero spool w event_of laws keyed = still spool spool w (has_row_self spool)
  flush_spool-Kept (suc fuel) spool w event_of laws keyed =
      let rows = take 256 spool in
      let b = batch_of host (telemetry w) (clock w) rows in
      elim (Bool-cases (eqb (length rows) 0)) [
        | inl nothing ↦ rw nothing (still spool spool w (has_row_self spool))
        | inr some_rows ↦
            rw some_rows (elim (Bool-cases (acknowledged (length rows) (send b w).0)) [
              | inl acked ↦ rw acked (
                  gone_known event_of (clock w) rows spool _ (send b w).1 _
                    (All-take _ 256 spool keyed) keyed
                    (laws.delivers b w (rw (length-events (clock w) rows) acked))
                    (λ id. flush_keeps fuel (delete_rows rows spool) (send b w).1 id laws)
                    (flush_spool-Kept fuel (delete_rows rows spool) (send b w).1 event_of laws
                      (keep-All _ _ spool keyed)))
              | inr lost ↦ rw lost (still spool spool _ (has_row_self spool))
            ])
      ]

  shrinks :
      (n : ℕ) (spool : List Spooled)
      → eqb (length (take (suc n) spool)) 0 ≡ false
      → suc (length (delete_rows (take (suc n) spool) spool)) ≤ length spool
  unfolding delete_rows
  shrinks n [] h = absurd (cc)
  shrinks n (q ∷ qs) h =
      let first : has_row q.seq (q ∷ take n qs) ≡ true = ground arith in
      rw first (omega (arith, length-keep-le (λ p. not (has_row p.seq (q ∷ take n qs))) qs))

  nothing_left :
      (n : ℕ) (spool : List Spooled) → eqb (length (take (suc n) spool)) 0 ≡ true → spool ≡ []
  nothing_left n [] h = refl
  nothing_left n (q ∷ qs) h = ground (arith, h)

  -- The batch of the oldest rows was sent, and not acknowledged; the rows are still in the spool.
  abbrev pub IsRefused : List Spooled → W → Type 0
  IsRefused spool w' =
      (w : W) × ((spool ≡ []) → ⊥)
      × (acknowledged (length (take 256 spool))
            (send (batch_of host (telemetry w) (clock w) (take 256 spool)) w).0
          ≡ false)
      × (w' ≡ (send (batch_of host (telemetry w) (clock w) (take 256 spool)) w).1)

  flush_spool-ends :
      (fuel : ℕ) (spool : List Spooled) (w : W)
      → length spool < fuel
      → let end = flush_spool send telemetry clock host fuel spool w in
        ((end.0 ≡ emptied) × (end.1 ≡ [])) ⊎ ((end.0 ≡ gave_up) × IsRefused end.1 end.2)
  unfolding flush_spool
  flush_spool-ends zero spool w enough = absurd (omega (arith, enough))
  flush_spool-ends (suc fuel) spool w enough =
      let rows = take 256 spool in
      let b = batch_of host (telemetry w) (clock w) rows in
      elim (Bool-cases (eqb (length rows) 0)) [
        | inl nothing ↦ rw nothing (inl (refl, nothing_left 255 spool nothing))
        | inr some_rows ↦
            rw some_rows (elim (Bool-cases (acknowledged (length rows) (send b w).0)) [
              | inl acked ↦ rw acked (
                  flush_spool-ends fuel (delete_rows rows spool) (send b w).1
                    (omega (arith, enough, shrinks 255 spool some_rows)))
              | inr lost ↦ rw lost (inr (refl, (w, not_empty spool some_rows, lost, refl)))
            ])
      ]
    where
      not_empty : (spool : List Spooled) → eqb (length (take 256 spool)) 0 ≡ false → spool ≡ [] → ⊥
      not_empty [] h e = absurd (cc)
      not_empty (q ∷ qs) h e = absurd (cc)

  each_known :
      (rows : List Spooled) (w : W)
      → All (Kept [] w) rows
      → All (λ q. knows q.event.event_id w ≡ true) rows
  each_known [] w h = tt
  each_known (q ∷ rows) w (inl none_left, h) = absurd (cc)
  each_known (q ∷ rows) w (inr known, h) = (known, each_known rows w h)

  -- Against a server that forgets no event and has the events it acknowledges, with spool rows whose
  -- numbers stand for one event each, and with more rounds than rows: the upload of the spool ends,
  -- with the spool empty and every event of it known to the server, or with rows in the spool of which
  -- the batch of the oldest 256 at most was the last that was sent, and was not acknowledged.
  pub flush_spool-delivers :
      (fuel : ℕ) (spool : List Spooled) (w : W) (event_of : ℕ → UsageEvent)
      → IsReliable send knows
      → IsKeyed event_of spool
      → length spool < fuel
      → let end = flush_spool send telemetry clock host fuel spool w in
        ((end.0 ≡ emptied) × (end.1 ≡ []) × All (λ q. knows q.event.event_id end.2 ≡ true) spool)
        ⊎ ((end.0 ≡ gave_up) × IsRefused end.1 end.2)
  flush_spool-delivers fuel spool w event_of laws keyed enough =
      let kept = flush_spool-Kept fuel spool w event_of laws keyed in
      elim (flush_spool-ends fuel spool w enough) [
        | inl (done, nothing) ↦ inl (done, nothing, each_known spool _ (rw nothing at kept))
        | inr failed ↦ inr failed
      ]
