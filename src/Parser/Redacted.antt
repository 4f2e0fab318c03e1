-- ===== src/Parser/Redacted.antt =====
-- parser.go: what a line says behind the keys that hold texts reaches neither its event nor the
-- context.
use codex_token_meter.Prelude.{
  ℕ, String, Option, none, some, [], ◌∷◌, ltb, eqb, ◌==◌, text_eq, if◌then◌else◌, ◌≡◌, refl, sym,
  ap, ◌∙◌, Bool-cases, inl, inr,
}
use codex_token_meter.Types.{Time, exact_usage}
use codex_token_meter.Scan.{ParseContext}
use codex_token_meter.Json.{Fields, text_at, object_at, redact, redact_fields, holds_text}
use codex_token_meter.Json.Redacted.{redacted, text_at-redact, number_at-redact, object_at-redact}
use codex_token_meter.Parser.Context.Redacted.{find_string_key-redact, update_parse_context-redact}
use codex_token_meter.Parser.Context.{Reader}
use codex_token_meter.Parser.{
  Place, parse_codex_line, parse_root, parse_decoded, event_of, usage_of, payload_of, context_of,
  event_without_usage, exact_event, delta_tokens, turn_or_none, counts_from_map, count_at,
  from_info, with_total, with_window, stamp_of, stated, run_state_of, estimate_event, event_at,
  event_id_of,
}

counts_from_map-redact : (m : Fields) → counts_from_map (redact_fields m) ≡ counts_from_map m
unfolding counts_from_map count_at holds_text
counts_from_map-redact m =
    rw
      (
        number_at-redact "input_tokens" m refl,
        number_at-redact "cached_input_tokens" m refl,
        number_at-redact "cache_write_input_tokens" m refl,
        number_at-redact "output_tokens" m refl,
        number_at-redact "reasoning_output_tokens" m refl,
        number_at-redact "total_tokens" m refl,
      )
      refl

-- The pair of an `info` and its total, redacted.
abbrev both_redacted : Option (Fields × Fields) → Option (Fields × Fields)
both_redacted none = none
both_redacted (some (info, total)) = some (redact_fields info, redact_fields total)

with_total-redact :
    (info : Fields) (total : Option Fields)
    → with_total (redact_fields info) (redacted total) ≡ both_redacted (with_total info total)
with_total-redact info none = refl
with_total-redact info (some total) = refl

from_info-redact :
    (info : Option Fields) → from_info (redacted info) ≡ both_redacted (from_info info)
unfolding holds_text
from_info-redact none = refl
from_info-redact (some info) =
    rw (object_at-redact "total_token_usage" info refl)
      (with_total-redact info (object_at "total_token_usage" info))

usage_of-redact : (p : Fields) → usage_of (redact_fields p) ≡ both_redacted (usage_of p)
unfolding usage_of holds_text
usage_of-redact p = rw (object_at-redact "info" p refl) (from_info-redact (object_at "info" p))

payload_of-redact :
    (record_type : String) (root : Fields) (p : Option Fields)
    → payload_of record_type (redact_fields root) (redacted p)
      ≡ redact_fields (payload_of record_type root p)
unfolding payload_of redact
payload_of-redact record_type root (some p) = refl
payload_of-redact record_type root none =
    elim (Bool-cases (record_type == "response.output_text.delta")) [
      | inl e ↦ rw e refl
      | inr e ↦ rw e refl
    ]

module _ (rd : Reader)
    (by_keys : (n : ℕ) (p : Fields)
      → rd.arrange n (redact_fields p) ≡ redact_fields (rd.arrange n p)) where
  context_of-redact :
      (source_id record_type : String) (p : Fields) (pc : ParseContext)
      → context_of rd source_id record_type (redact_fields p) pc
        ≡ context_of rd source_id record_type p pc
  unfolding context_of
  context_of-redact source_id record_type p pc =
      ap
        (λ (next : ParseContext). record next {
          conversation_id = if next.conversation_id == "" then source_id else next.conversation_id;
        })
        (update_parse_context-redact rd by_keys record_type p pc)

  delta_tokens-redact :
      (record_type payload_type : String) (p : Fields)
      → delta_tokens rd record_type payload_type (redact_fields p)
        ≡ delta_tokens rd record_type payload_type p
  unfolding delta_tokens holds_text
  delta_tokens-redact record_type payload_type p =
      rw (find_string_key-redact rd by_keys 4 p ("text_delta" ∷ "delta" ∷ []) (refl, (refl, tt)))
        refl

  turn_or_none-redact :
      (at : Place) (stamp : Time) (pc : ParseContext) (previous : String) (p : Fields)
      → turn_or_none rd at stamp pc previous (redact_fields p)
        ≡ turn_or_none rd at stamp pc previous p
  unfolding turn_or_none holds_text
  turn_or_none-redact at stamp pc previous p = rw (text_at-redact "turn_id" p refl) refl

  event_without_usage-redact :
      (at : Place) (stamp : Time) (pc : ParseContext) (previous record_type : String) (p : Fields)
      → event_without_usage rd at stamp pc previous record_type (redact_fields p)
        ≡ event_without_usage rd at stamp pc previous record_type p
  unfolding event_without_usage holds_text
  event_without_usage-redact at stamp pc previous record_type p =
      let kind = text_at-redact "type" p refl in
      λ i.
        let n = delta_tokens-redact record_type (kind i) p i in
        stated rd at stamp pc (run_state_of record_type (kind i)) (
          if ltb 0 n
          then some (estimate_event rd at stamp pc n)
          else turn_or_none-redact at stamp pc previous p i)

  with_window-redact :
      (info : Fields) (pc : ParseContext)
      → with_window rd (redact_fields info) pc ≡ with_window rd info pc
  unfolding with_window holds_text
  with_window-redact info pc = rw (number_at-redact "model_context_window" info refl) refl

  exact_event-redact :
      (at : Place) (stamp : Time) (pc : ParseContext) (total : Fields)
      → exact_event rd at stamp pc (redact_fields total) ≡ exact_event rd at stamp pc total
  unfolding exact_event
  exact_event-redact at stamp pc total = λ i.
      let counts = counts_from_map-redact total i in
      record (event_at rd at stamp pc exact_usage
        (event_id_of rd at "exact_usage" stamp (pc.response_id ∷ pc.turn_id ∷ []))
        (if counts.cache_write_visible then "EXACT" else "CACHE_WRITE_UNKNOWN")) { counts = counts }

  event_of-redact :
      (at : Place) (stamp : Time) (previous record_type : String) (p : Fields) (pc : ParseContext)
      (usage : Option (Fields × Fields))
      → event_of rd at stamp previous record_type (redact_fields p) pc (both_redacted usage)
        ≡ event_of rd at stamp previous record_type p pc usage
  unfolding event_of
  event_of-redact at stamp previous record_type p pc none =
      λ i. (event_without_usage-redact at stamp pc previous record_type p i, pc)
  event_of-redact at stamp previous record_type p pc (some (info, total)) = λ i.
      let pc' = with_window-redact info pc i in
      (some (exact_event-redact at stamp pc' total i), pc')

  parse_root-redact :
      (at : Place) (root : Fields) (pc : ParseContext)
      → parse_root rd at (redact_fields root) pc ≡ parse_root rd at root pc
  unfolding parse_root holds_text
  parse_root-redact at root pc =
      let kind = text_at-redact "type" root refl in
      let payload = payload_of (text_at "type" root) root (object_at "payload" root) in
      let payloads =
        (λ i. payload_of (kind i) (redact_fields root) (object_at-redact "payload" root refl i))
        ∙ payload_of-redact (text_at "type" root) root (object_at "payload" root) in
      let stamp = stamp_of rd root in
      (λ i.
        event_of rd at
          (let stamp = rd.parse_stamp (text_at-redact "timestamp" root refl i) in
            if eqb stamp 0 then rd.now else stamp)
          pc.turn_id (kind i) (payloads i) (context_of rd at.source_id (kind i) (payloads i) pc)
          (usage_of (payloads i)))
      ∙ (λ i.
          event_of rd at stamp pc.turn_id (text_at "type" root) (redact_fields payload)
            (context_of-redact at.source_id (text_at "type" root) payload pc i)
            (usage_of-redact payload i))
      ∙ event_of-redact at stamp pc.turn_id (text_at "type" root) payload
          (context_of rd at.source_id (text_at "type" root) payload pc) (usage_of payload)

  parse_decoded-redact :
      (at : Place) (root : Option Fields) (pc : ParseContext)
      → parse_decoded rd at (redacted root) pc ≡ parse_decoded rd at root pc
  parse_decoded-redact at none pc = refl
  parse_decoded-redact at (some root) pc = parse_root-redact at root pc

  -- Two lines that differ only in what stands behind the keys content, text, message, result and
  -- arguments, at whatever depth, give the same event, or both none, and leave the same context, if
  -- the order in which an object's fields are visited does not depend on their values.
  pub parse_codex_line-redact :
      (at : Place) (raw raw' : String) (pc : ParseContext)
      → redacted (rd.decode raw) ≡ redacted (rd.decode raw')
      → parse_codex_line rd at raw pc ≡ parse_codex_line rd at raw' pc
  unfolding parse_codex_line
  parse_codex_line-redact at raw raw' pc same =
      sym (parse_decoded-redact at (rd.decode raw) pc)
      ∙ ap (λ (root : Option Fields). parse_decoded rd at root pc) same
      ∙ parse_decoded-redact at (rd.decode raw') pc
