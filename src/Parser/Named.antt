-- ===== src/Parser/Named.antt =====
-- parser.go `updateParseContext` and `parseCodexLine`: the conversation behind a line.
use codex_token_meter.Prelude.{
  String, true, false, Option, none, some, List, [], ◌∷◌, ◌==◌, text_eq, if◌then◌else◌, ◌≡◌, refl,
  sym, ap, ◌∙◌, Bool-cases, inl, inr, ◌⊎◌,
}
use codex_token_meter.Ident.{codes}
use codex_token_meter.Scan.{ParseContext}
use codex_token_meter.Json.{Fields, text_at, object_at}
use codex_token_meter.Parser.Context.{
  Reader, update_parse_context, with_ids, with_cwd, with_git, with_settings, conversation_of,
  conversation_keys, has_uuid, or_else,
}
use codex_token_meter.Parser.{context_of}

-- The conversation is the one before, a text with a UUID in it, or the file's id in place of none.
abbrev pub Stays : String → ParseContext → ParseContext → Type 0
Stays source_id before after =
    (after.conversation_id ≡ before.conversation_id)
    ⊎ (has_uuid (codes after.conversation_id) ≡ true)
    ⊎ ((before.conversation_id ≡ "") × (after.conversation_id ≡ source_id))

conversation_of-cases :
    (keys : List String) (p : Fields) (old : String)
    → (or_else (conversation_of keys p) old ≡ old)
      ⊎ (has_uuid (codes (or_else (conversation_of keys p) old)) ≡ true)
unfolding conversation_of
conversation_of-cases [] p old = inl refl
conversation_of-cases (key ∷ keys) p old = elim (Bool-cases (has_uuid (codes (text_at key p)))) [
  | inl e ↦ inr (rw (e, e) refl)
  | inr e ↦ rw e (conversation_of-cases keys p old)
]

with_cwd-conversation :
    (rd : Reader) (cwd : String) (pc : ParseContext)
    → (with_cwd rd cwd pc).conversation_id ≡ pc.conversation_id
unfolding with_cwd
with_cwd-conversation rd cwd pc = elim (Bool-cases (cwd == "")) [
  | inl e ↦ rw e refl
  | inr e ↦ elim (Bool-cases (pc.project_id == "")) [
    | inl f ↦ rw (e, f) refl
    | inr f ↦ rw (e, f) refl
  ]
]

with_git-conversation :
    (rd : Reader) (git : Option Fields) (pc : ParseContext)
    → (with_git rd git pc).conversation_id ≡ pc.conversation_id
unfolding with_git
with_git-conversation rd none pc = refl
with_git-conversation rd (some git) pc = elim (Bool-cases (text_at "repository_url" git == "")) [
  | inl e ↦ rw e refl
  | inr e ↦ rw e refl
]

with_settings-conversation :
    (rd : Reader) (ts : Option Fields) (pc : ParseContext)
    → (with_settings rd ts pc).conversation_id ≡ pc.conversation_id
unfolding with_settings
with_settings-conversation rd none pc = refl
with_settings-conversation rd (some ts) pc = with_cwd-conversation rd (text_at "cwd" ts) _

update_parse_context-conversation :
    (rd : Reader) (record_type : String) (p : Fields) (pc : ParseContext)
    → (update_parse_context rd record_type p pc).conversation_id
      ≡ or_else (conversation_of (conversation_keys record_type) p) pc.conversation_id
unfolding update_parse_context
update_parse_context-conversation rd record_type p pc =
    with_settings-conversation rd (object_at "thread_settings" p) _
    ∙ with_git-conversation rd (object_at "git" p) _
    ∙ with_cwd-conversation rd (text_at "cwd" p) (with_ids rd record_type p pc)

no_uuid : has_uuid (codes "") ≡ false
unfolding has_uuid
no_uuid = refl

-- The name behind a line: never blank if the file has a name.
named_or :
    (source_id old next : String)
    → (next ≡ old) ⊎ (has_uuid (codes next) ≡ true)
    → let name = if next == "" then source_id else next in
      (name ≡ old) ⊎ (has_uuid (codes name) ≡ true) ⊎ ((old ≡ "") × (name ≡ source_id))
named_or source_id old next h = elim (Bool-cases (next == "")) [
  | inl e ↦ rw e (inr (inr (blank_before h ((text_eq.same_iff next "").0 e), refl)))
  | inr e ↦ rw e (elim h [ inl a ↦ inl a | inr b ↦ inr (inl b) ])
]
  where
    blank_before : (next ≡ old) ⊎ (has_uuid (codes next) ≡ true) → next ≡ "" → old ≡ ""
    blank_before (inl a) b = sym a ∙ b
    blank_before (inr a) b = cc (a, ap (λ (t : String). has_uuid (codes t)) b, no_uuid)

pub context_of-Stays :
    (rd : Reader) (source_id record_type : String) (p : Fields) (pc : ParseContext)
    → Stays source_id pc (context_of rd source_id record_type p pc)
unfolding context_of
context_of-Stays rd source_id record_type p pc =
    named_or source_id pc.conversation_id (update_parse_context rd record_type p pc).conversation_id
      (rw (update_parse_context-conversation rd record_type p pc)
        (conversation_of-cases (conversation_keys record_type) p pc.conversation_id))

pub context_of-named :
    (rd : Reader) (source_id record_type : String) (p : Fields) (pc : ParseContext)
    → (source_id == "") ≡ false
    → ((context_of rd source_id record_type p pc).conversation_id == "") ≡ false
unfolding context_of
context_of-named rd source_id record_type p pc h =
    named (update_parse_context rd record_type p pc).conversation_id
  where
    named : (next : String) → ((if next == "" then source_id else next) == "") ≡ false
    named next = elim (Bool-cases (next == "")) [ inl e ↦ rw e h | inr e ↦ rw (e, e) refl ]
