-- ===== src/Examples/Outbox.antt =====
-- The theorems about the upload of a spool, with a server that keeps a list of ids.
use codex_token_meter.Prelude.{
  ℕ, String, Bool, true, Option, none, some, List, [], ◌∷◌, any, length, eqb, ◌==◌, if◌then◌else◌,
  text_eq, beq_self, ◌≡◌, refl, ◌⊎◌, All, arith,
}
use codex_token_meter.Types.{UsageEvent, IngestBatch}
use codex_token_meter.Upload.{Spooled, Reply, emptied, gave_up, flush_spool}
use codex_token_meter.Upload.Delivery.{
  IsReliable, Kept, IsRefused, flush_spool-Kept, flush_spool-delivers,
}
use codex_token_meter.Examples.{usage}

abbrev add_ids : List UsageEvent → List String → List String
add_ids [] ids = ids
add_ids (e ∷ es) ids = e.event_id ∷ add_ids es ids

-- It takes every batch, and answers with its length.
abbrev send : IngestBatch → List String → Option Reply × List String
send b ids =
    (some (record { status = 200; accepted = some (length b.events) }), add_ids b.events ids)

abbrev knows : String → List String → Bool
knows id = any λ i. i == id

add_ids-keeps :
    (es : List UsageEvent) (ids : List String) (id : String)
    → knows id ids ≡ true
    → knows id (add_ids es ids) ≡ true
add_ids-keeps [] ids id h = h
add_ids-keeps (e ∷ es) ids id h = ground (arith, add_ids-keeps es ids id h)

All-knows :
    (es : List UsageEvent) (ids : List String) (i : String)
    → All (λ e. knows e.event_id ids ≡ true) es
    → All (λ e. knows e.event_id (i ∷ ids) ≡ true) es
All-knows [] ids i h = tt
All-knows (e ∷ es) ids i h = (ground (arith, h.0), All-knows es ids i h.1)

add_ids-delivers :
    (es : List UsageEvent) (ids : List String)
    → All (λ e. knows e.event_id (add_ids es ids) ≡ true) es
add_ids-delivers [] ids = tt
add_ids-delivers (e ∷ es) ids = (
  ground (arith, beq_self e.event_id),
  All-knows es (add_ids es ids) e.event_id (add_ids-delivers es ids),
)

send-IsReliable : IsReliable send knows
send-IsReliable = record {
  keeps = λ b w id h. add_ids-keeps b.events w id h;
  delivers = λ b w acked. add_ids-delivers b.events w;
}

abbrev event_of : ℕ → UsageEvent
event_of n = if eqb n 7 then usage "a" "t1" 0 150 5 else usage "b" "t2" 0 180 6

abbrev spool : List Spooled
spool = record { seq = 7; event = event_of 7 } ∷ record { seq = 9; event = event_of 9 } ∷ []

flush_spool-Kept_example :
    All
      (Kept send
        (λ w. none)
        (λ w. 5)
        "host"
        knows
        (flush_spool send (λ w. none) (λ w. 5) "host" 3 spool []).1
        (flush_spool send (λ w. none) (λ w. 5) "host" 3 spool []).2)
      spool
flush_spool-Kept_example =
    flush_spool-Kept send (λ w. none) (λ w. 5) "host" knows 3 spool [] event_of send-IsReliable
      (refl, (refl, tt))

flush_spool-delivers_example :
    let end = flush_spool send (λ w. none) (λ w. 5) "host" 3 spool [] in
    ((end.0 ≡ emptied) × (end.1 ≡ []) × All (λ q. knows q.event.event_id end.2 ≡ true) spool)
    ⊎ ((end.0 ≡ gave_up) × IsRefused send (λ w. none) (λ w. 5) "host" knows end.1 end.2)
flush_spool-delivers_example =
    flush_spool-delivers send (λ w. none) (λ w. 5) "host" knows 3 spool [] event_of send-IsReliable
      (refl, (refl, tt)) (omega arith)
