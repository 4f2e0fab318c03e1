-- ===== src/Parser/Accepted.antt =====
-- parser.go `parseCodexLine` and server.go `validUsageEvent`: which events of the agent the server
-- accepts.
use Prim.Native.String.{len}
use codex_token_meter.Prelude.{
  ℕ, String, Bool, true, false, not, ◌&&◌, ◌||◌, Option, none, some, List, leb, ltb, ◌==◌, text_eq,
  ◌≡◌, refl, sym, ap, ◌∙◌, arith, Bool-cases, inl, inr,
}
use mathlib.Core.Path.{subst}
use codex_token_meter.Types.{UsageEvent}
use codex_token_meter.Valid.{valid_usage_event, tally_in_range, in_range, known_type}
use codex_token_meter.Scan.{ParseContext}
use codex_token_meter.Json.{Fields, text_at, object_at}
use codex_token_meter.Parser.Context.{Reader}
use codex_token_meter.Parser.Emitted.{AllEmitted, parse_codex_line-Emits}
use codex_token_meter.Parser.Named.{context_of-named}
use codex_token_meter.Parser.{
  Place, parse_codex_line, parse_root, parse_decoded, event_of, usage_of, payload_of, with_window,
}

-- The tests of `validUsageEvent` that an event of the parser may fail.
abbrev pub within_limits : UsageEvent → Bool
within_limits e =
    leb (len e.conversation_id) 256
    && leb (len e.source_file_id) 256
    && tally_in_range e.counts.tally
    && in_range e.live_estimate
    && in_range e.model_context_window

not_above : (a b : ℕ) → ltb b a ≡ not (leb a b)
not_above a b = ground arith

event_of-named :
    (rd : Reader) (at : Place) (stamp : ℕ) (previous kind : String) (p : Fields) (pc : ParseContext)
    (usage : Option (Fields × Fields))
    → (event_of rd at stamp previous kind p pc usage).1.conversation_id ≡ pc.conversation_id
unfolding event_of with_window
event_of-named rd at stamp previous kind p pc none = refl
event_of-named rd at stamp previous kind p pc (some (info, total)) = refl

parse_decoded-named :
    (rd : Reader) (at : Place) (root : Option Fields) (pc : ParseContext) (e : UsageEvent)
    (pc' : ParseContext)
    → (at.source_id == "") ≡ false
    → parse_decoded rd at root pc ≡ (some e, pc')
    → (pc'.conversation_id == "") ≡ false
unfolding parse_root
parse_decoded-named rd at none pc e pc' h k = cc k
parse_decoded-named rd at (some root) pc e pc' h k =
    let kind = text_at "type" root in
    let payload = payload_of kind root (object_at "payload" root) in
    subst (λ (c : String). (c == "") ≡ false)
      (sym (event_of-named rd at _ _ kind payload _ (usage_of payload))
        ∙ ap (λ (out : Option UsageEvent × ParseContext). out.1.conversation_id) k)
      (context_of-named rd at.source_id kind payload pc h)

both_short :
    (a b c d e : Bool) → (not (not a || not b) && true && c && d && e) ≡ (a && b && c && d && e)
both_short true true c d e = refl
both_short true false c d e = refl
both_short false b c d e = refl

accepted :
    (e : UsageEvent)
    → (e.event_id == "") ≡ false
    → len e.event_id ≡ 64
    → (e.conversation_id == "") ≡ false
    → known_type e.event_type e.run_state ≡ true
    → valid_usage_event e ≡ within_limits e
unfolding valid_usage_event
accepted e named short conversation known =
    rw
      (
        named,
        short,
        conversation,
        known,
        not_above (len e.conversation_id) 256,
        not_above (len e.source_file_id) 256,
      )
      (both_short (leb (len e.conversation_id) 256) (leb (len e.source_file_id) 256)
        (tally_in_range e.counts.tally) (in_range e.live_estimate)
        (in_range e.model_context_window))

-- An event of a file with a name, its id a text of 64 bytes as SHA-256's is in hexadecimal: the server
-- accepts it exactly if neither the conversation's id nor the file's is longer than 256 bytes and all its
-- counts lie between 0 and 10^12. Nothing else of what a line holds can have it refused.
pub parse_codex_line-valid :
    (rd : Reader) (at : Place) (raw : String) (pc : ParseContext) (e : UsageEvent)
    (pc' : ParseContext)
    → ((input : List ℕ) → len (rd.sha256_hex input) ≡ 64)
    → (at.source_id == "") ≡ false
    → parse_codex_line rd at raw pc ≡ (some e, pc')
    → valid_usage_event e ≡ within_limits e
unfolding parse_codex_line
parse_codex_line-valid rd at raw pc e pc' hashes h k =
    let emitted =
      subst (λ (out : Option UsageEvent × ParseContext). AllEmitted rd at out.1 out.0) k
        (parse_codex_line-Emits rd at raw pc).0 in
    let long = ap (λ (t : String). len t) emitted.hashed.1 ∙ hashes emitted.hashed.0 in
    accepted e (not_blank e.event_id long) long
      (subst (λ (c : String). (c == "") ≡ false) (sym emitted.conversation)
        (parse_decoded-named rd at (rd.decode raw) pc e pc' h k))
      emitted.known
  where
    not_blank : (id : String) → len id ≡ 64 → (id == "") ≡ false
    not_blank id l = elim (Bool-cases (id == "")) [
      | inl b ↦ absurd (omega (arith, l, ap (λ (t : String). len t) ((text_eq.same_iff id "").0 b)))
      | inr b ↦ b
    ]
