-- ===== src/Parser/Context/Redacted.antt =====
-- parser.go `updateParseContext`: what a line says behind the keys that hold texts does not reach the
-- context.
use codex_token_meter.Prelude.{
  ℕ, String, Option, none, some, List, [], ◌∷◌, ◌==◌, text_eq, ◌≡◌, refl, ap, ◌∙◌, Bool-cases, inl,
  inr, All,
}
use codex_token_meter.Scan.{ParseContext}
use codex_token_meter.Json.{Fields, obj, object_at, redact, redact_fields, holds_text}
use codex_token_meter.Json.Redacted.{
  redacted, IsKept, text_at-redact, number_at-redact, object_at-redact, walk-redact_lem,
}
use codex_token_meter.Parser.Context.{
  update_parse_context, Reader, find_string_key, with_settings, with_git, with_cwd, with_ids,
  conversation_of, conversation_keys,
}

conversation_of-redact :
    (keys : List String) (p : Fields)
    → All IsKept keys
    → conversation_of keys (redact_fields p) ≡ conversation_of keys p
unfolding conversation_of
conversation_of-redact [] p h = refl
conversation_of-redact (key ∷ keys) p h =
    rw (text_at-redact key p h.0, conversation_of-redact keys p h.1) refl

conversation_keys-IsKept : (record_type : String) → All IsKept (conversation_keys record_type)
unfolding conversation_keys holds_text
conversation_keys-IsKept record_type = elim (Bool-cases (record_type == "session_meta")) [
  | inl e ↦ rw e (refl, (refl, (refl, (refl, tt))))
  | inr e ↦ rw e (refl, (refl, (refl, tt)))
]

module _ (rd : Reader)
    (by_keys : (n : ℕ) (p : Fields)
      → rd.arrange n (redact_fields p) ≡ redact_fields (rd.arrange n p)) where
  pub find_string_key-redact :
      (n : ℕ) (p : Fields) (keys : List String)
      → All IsKept keys
      → find_string_key rd n (redact_fields p) keys ≡ find_string_key rd n p keys
  unfolding find_string_key redact
  find_string_key-redact n p keys h =
      rw (by_keys n p) (walk-redact_lem keys (obj (rd.arrange n p)) h)

  with_ids-redact :
      (record_type : String) (p : Fields) (pc : ParseContext)
      → with_ids rd record_type (redact_fields p) pc ≡ with_ids rd record_type p pc
  unfolding with_ids holds_text
  with_ids-redact record_type p pc =
      rw
        (
          conversation_of-redact (conversation_keys record_type) p
              (conversation_keys-IsKept record_type),
          find_string_key-redact 0 p
              ("parent_conversation_id" ∷ "parent_session_id" ∷ "parent_thread_id" ∷ [])
              (refl, (refl, (refl, tt))),
          find_string_key-redact 1 p ("response_id" ∷ []) (refl, tt),
          find_string_key-redact 2 p ("turn_id" ∷ []) (refl, tt),
          find_string_key-redact 3 p ("reasoning_effort" ∷ []) (refl, tt),
          text_at-redact "model" p refl,
          number_at-redact "model_context_window" p refl,
        )
        refl

  with_git-redact :
      (git : Option Fields) (pc : ParseContext) → with_git rd (redacted git) pc ≡ with_git rd git pc
  unfolding with_git holds_text
  with_git-redact none pc = refl
  with_git-redact (some git) pc = rw (text_at-redact "repository_url" git refl) refl

  with_settings-redact :
      (ts : Option Fields) (pc : ParseContext)
      → with_settings rd (redacted ts) pc ≡ with_settings rd ts pc
  unfolding with_settings holds_text
  with_settings-redact none pc = refl
  with_settings-redact (some ts) pc =
      rw
        (
          text_at-redact "cwd" ts refl,
          text_at-redact "model" ts refl,
          text_at-redact "reasoning_effort" ts refl,
        )
        refl

  layers-redact :
      (ts git : Option Fields) (cwd cwd' : String) (ids ids' : ParseContext)
      → cwd ≡ cwd'
      → ids ≡ ids'
      → with_settings rd (redacted ts) (with_git rd (redacted git) (with_cwd rd cwd ids))
        ≡ with_settings rd ts (with_git rd git (with_cwd rd cwd' ids'))
  layers-redact ts git cwd cwd' ids ids' h k =
      with_settings-redact ts _
      ∙ ap (with_settings rd ts)
          (with_git-redact git _ ∙ ap (with_git rd git) (λ i. with_cwd rd (h i) (k i)))

  pub update_parse_context-redact :
      (record_type : String) (p : Fields) (pc : ParseContext)
      → update_parse_context rd record_type (redact_fields p) pc
        ≡ update_parse_context rd record_type p pc
  unfolding update_parse_context holds_text
  update_parse_context-redact record_type p pc =
      rw (object_at-redact "git" p refl, object_at-redact "thread_settings" p refl)
        (layers-redact (object_at "thread_settings" p) (object_at "git" p) _ _ _ _
          (text_at-redact "cwd" p refl) (with_ids-redact record_type p pc))
