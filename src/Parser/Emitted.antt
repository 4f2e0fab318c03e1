-- ===== src/Parser/Emitted.antt =====
-- parser.go `parseCodexLine`: what is so of every event that a line gives, whatever the line holds.
use codex_token_meter.Prelude.{
  ℕ, pos, String, true, not, ◌&&◌, Option, none, some, List, ltb, ◌==◌, text_eq, ◌≡◌, refl, sym,
  Bool-cases, inl, inr, ◌⊎◌,
}
use mathlib.Core.Path.{subst}
use codex_token_meter.Types.{
  Time, UsageEvent, activity, RunState, blank, running, idle, unknown, stated as named_state,
}
use codex_token_meter.Valid.{known_type}
use codex_token_meter.Ident.{codes}
use codex_token_meter.Scan.{ParseContext}
use codex_token_meter.Json.{Fields, text_at, object_at}
use codex_token_meter.Parser.Context.{Reader, has_uuid}
use codex_token_meter.Parser.Named.{Stays, context_of-Stays}
use codex_token_meter.Parser.{
  Place, parse_codex_line, parse_root, parse_decoded, event_of, usage_of, payload_of, context_of,
  event_without_usage, exact_event, state_event, estimate_event, turn_event, delta_tokens,
  turn_or_none, with_window, stamp_of, stated, run_state_of, event_at, event_id_of, parser_version,
}

-- What a line at `at` may emit, with `pc` the context behind it.
pub record Emits (rd : Reader) (at : Place) (pc : ParseContext) (e : UsageEvent) : Type 0 where
  pub host : e.host_id ≡ at.host_id
  pub source : e.source_file_id ≡ at.source_id
  pub place : e.byte_offset ≡ pos at.offset
  pub conversation : e.conversation_id ≡ pc.conversation_id
  pub window : e.model_context_window ≡ pc.context_window
  pub version : e.parser_version ≡ parser_version
  pub known : known_type e.event_type e.run_state ≡ true
  pub hashed : (input : List ℕ) × (e.event_id ≡ rd.sha256_hex input)

abbrev pub AllEmitted : Reader → Place → ParseContext → Option UsageEvent → Type 0
AllEmitted rd at pc none = Unit
AllEmitted rd at pc (some e) = Emits rd at pc e

module _ (rd : Reader) (at : Place) (stamp : Time) (pc : ParseContext) where
  exact_event-Emits : (total : Fields) → Emits rd at pc (exact_event rd at stamp pc total)
  unfolding exact_event event_at event_id_of known_type
  exact_event-Emits total = record {
    host = refl;
    source = refl;
    place = refl;
    conversation = refl;
    window = refl;
    version = refl;
    known = refl;
    hashed = (_, refl);
  }

  state_event-Emits :
      (s : RunState) → known_type activity s ≡ true → Emits rd at pc (state_event rd at stamp pc s)
  unfolding state_event event_at event_id_of
  state_event-Emits s h = record {
    host = refl;
    source = refl;
    place = refl;
    conversation = refl;
    window = refl;
    version = refl;
    known = h;
    hashed = (_, refl);
  }

  estimate_event-Emits : (n : ℕ) → Emits rd at pc (estimate_event rd at stamp pc n)
  unfolding estimate_event event_at event_id_of known_type
  estimate_event-Emits n = record {
    host = refl;
    source = refl;
    place = refl;
    conversation = refl;
    window = refl;
    version = refl;
    known = refl;
    hashed = (_, refl);
  }

  turn_event-Emits : (turn : String) → Emits rd at pc (turn_event rd at stamp pc turn)
  unfolding turn_event event_at event_id_of known_type
  turn_event-Emits turn = record {
    host = refl;
    source = refl;
    place = refl;
    conversation = refl;
    window = refl;
    version = refl;
    known = refl;
    hashed = (_, refl);
  }

  stated-Emits :
      (s : RunState) (rest : Option UsageEvent)
      → AllEmitted rd at pc rest
      → AllEmitted rd at pc (stated rd at stamp pc s rest)
  unfolding known_type
  stated-Emits blank rest h = h
  stated-Emits unknown rest h = state_event-Emits unknown refl
  stated-Emits running rest h = state_event-Emits running refl
  stated-Emits idle rest h = state_event-Emits idle refl
  stated-Emits (named_state s) rest h = state_event-Emits (named_state s) refl

  turn_or_none-Emits :
      (previous : String) (p : Fields)
      → AllEmitted rd at pc (turn_or_none rd at stamp pc previous p)
  unfolding turn_or_none
  turn_or_none-Emits previous p =
      elim (Bool-cases (not (text_at "turn_id" p == "") && not (text_at "turn_id" p == previous))) [
        | inl e ↦ rw e (turn_event-Emits (text_at "turn_id" p))
        | inr e ↦ rw e tt
      ]

  event_without_usage-Emits :
      (previous record_type : String) (p : Fields)
      → AllEmitted rd at pc (event_without_usage rd at stamp pc previous record_type p)
  unfolding event_without_usage
  event_without_usage-Emits previous record_type p =
      stated-Emits (run_state_of record_type (text_at "type" p)) _
        (elim (Bool-cases (ltb 0 (delta_tokens rd record_type (text_at "type" p) p))) [
          | inl e ↦ rw e (estimate_event-Emits (delta_tokens rd record_type (text_at "type" p) p))
          | inr e ↦ rw e (turn_or_none-Emits previous p)
        ])

event_of-Emits :
    (rd : Reader) (at : Place) (stamp : Time) (previous record_type : String) (p : Fields)
    (pc : ParseContext) (usage : Option (Fields × Fields))
    → let out = event_of rd at stamp previous record_type p pc usage in
      AllEmitted rd at out.1 out.0 × (out.1.conversation_id ≡ pc.conversation_id)
unfolding event_of
event_of-Emits rd at stamp previous record_type p pc none =
    (event_without_usage-Emits rd at stamp pc previous record_type p, refl)
event_of-Emits rd at stamp previous record_type p pc (some (info, total)) =
    (exact_event-Emits rd at stamp (with_window rd info pc) total, unfold with_window in refl)

parse_root-Emits :
    (rd : Reader) (at : Place) (root : Fields) (pc : ParseContext)
    → let out = parse_root rd at root pc in
      AllEmitted rd at out.1 out.0 × Stays at.source_id pc out.1
unfolding parse_root
parse_root-Emits rd at root pc =
    let kind = text_at "type" root in
    let payload = payload_of kind root (object_at "payload" root) in
    let next = context_of rd at.source_id kind payload pc in
    let both =
      event_of-Emits rd at (stamp_of rd root) pc.turn_id kind payload next (usage_of payload) in
    (
      both.0,
      subst (λ (c : String). Stays_at c) (sym both.1)
          (context_of-Stays rd at.source_id kind payload pc),
    )
  where
    Stays_at : String → Type 0
    Stays_at c =
        (c ≡ pc.conversation_id)
        ⊎ (has_uuid (codes c) ≡ true)
        ⊎ ((pc.conversation_id ≡ "") × (c ≡ at.source_id))

parse_decoded-Emits :
    (rd : Reader) (at : Place) (root : Option Fields) (pc : ParseContext)
    → let out = parse_decoded rd at root pc in
      AllEmitted rd at out.1 out.0 × Stays at.source_id pc out.1
parse_decoded-Emits rd at none pc = (tt, inl refl)
parse_decoded-Emits rd at (some root) pc = parse_root-Emits rd at root pc

-- Whatever a line holds: the event that it gives, if it gives one, is of the line's host, file and
-- offset, of the conversation and window of the context behind the line, and of a type and run state that
-- the server knows, under a hash as its id; and the conversation behind the line is the one before,
-- a text with a UUID in it, or, where there was none, the file's id.
pub parse_codex_line-Emits :
    (rd : Reader) (at : Place) (raw : String) (pc : ParseContext)
    → let out = parse_codex_line rd at raw pc in
      AllEmitted rd at out.1 out.0 × Stays at.source_id pc out.1
unfolding parse_codex_line
parse_codex_line-Emits rd at raw pc = parse_decoded-Emits rd at (rd.decode raw) pc
