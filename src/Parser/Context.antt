-- ===== src/Parser/Context.antt =====
-- parser.go `sourceIdentity` and `updateParseContext`: which file a line is from, and what the lines
-- of a task carry on. `arrange` is the order in which the n-th walk of a line visits the fields.
pub mod Redacted
use Prim.Native.Char.{Char}
use Prim.Native.String.{slice}
use codex_token_meter.Prelude.{
  ℕ, zero, suc, String, Bool, true, false, ◌||◌, Option, none, some, List, [], ◌∷◌, take, ◌==◌,
  text_eq, if◌then◌else◌,
}
use codex_token_meter.Ident.{codes, stable_id, uuid_then}
use codex_token_meter.Display.{chars, text}
use codex_token_meter.Projects.{Platform, trim_space, project_for, project_name_from_remote}
use codex_token_meter.Json.{Fields, obj, text_at, object_at, number_at, walk}
use codex_token_meter.Types.{Time}
use codex_token_meter.Scan.{ParseContext}
use codex_token_meter.Parser.Estimate.{Scripts}

abbrev anything : List ℕ → Bool
anything cs = true

-- `uuidInName.MatchString`.
unfoldable pub has_uuid : List ℕ → Bool
unfolding uuid_then
has_uuid [] = false
has_uuid (c ∷ cs) = uuid_then anything (c ∷ cs) || has_uuid cs

-- `uuidInName.FindAllString(s, -1)`, and its last one: `skip` characters belong to a match.
unfoldable pub last_uuid : ℕ → Option String → List Char → Option String
unfolding uuid_then
last_uuid skip found [] = found
last_uuid (suc n) found (c ∷ cs) = last_uuid n found cs
last_uuid zero found (c ∷ cs) =
    let here = uuid_then anything (codes (text (c ∷ cs))) in
    last_uuid (if here then 35 else 0) (if here then some (text (take 36 (c ∷ cs))) else found) cs

unfoldable pub source_identity : (List ℕ → String) → Platform → String → String
unfolding last_uuid
source_identity sha256_hex pf path = named (last_uuid 0 none (chars (pf.base path)))
  where
    named : Option String → String
    named (some id) = pf.to_lower id
    named none = slice (stable_id sha256_hex (codes (pf.to_lower (pf.clean path)) ∷ [])) 0 32

abbrev pub or_else {ℓ} : {A : Type ℓ} → Option A → A → A
or_else (some a) b = a
or_else none b = b

-- A text that is set, or the one before.
abbrev pub or_kept : String → String → String
or_kept s old = if s == "" then old else s

-- The first of the keys whose text holds a UUID.
unfoldable pub conversation_of : List String → Fields → Option String
unfolding has_uuid
conversation_of [] p = none
conversation_of (key ∷ keys) p =
    if has_uuid (codes (text_at key p)) then some (text_at key p) else conversation_of keys p

unfoldable pub conversation_keys : String → List String
conversation_keys record_type =
    "session_id"
    ∷ "conversation_id"
    ∷ "thread_id"
    ∷ (if record_type == "session_meta" then "id" ∷ [] else [])

-- What the parser takes from elsewhere: SHA-256, the platform, Unicode's tables, the decoder of a line
-- into an object, `time.Parse` (0 for no time) and `Format`, the clock, and the order of each walk.
pub record Reader : Type 0 where
  pub sha256_hex : List ℕ → String
  pub platform : Platform
  pub scripts : Scripts
  pub decode : String → Option Fields
  pub parse_stamp : String → Time
  pub format_stamp : Time → String
  pub now : Time
  pub arrange : ℕ → Fields → Fields

module _ (rd : Reader) where
  -- `findStringKey`, as the n-th walk of a line.
  unfoldable pub find_string_key : ℕ → Fields → List String → Option String
  unfolding walk
  find_string_key n p keys = walk keys (obj (rd.arrange n p))

  unfoldable pub with_cwd : String → ParseContext → ParseContext
  unfolding project_for
  with_cwd cwd pc =
      if cwd == ""
      then pc
      else if pc.project_id == ""
      then (let (id, name) = project_for rd.platform rd.sha256_hex cwd in
          record pc { project_id = id; repo_name = name })
      else pc

  unfoldable pub with_git : Option Fields → ParseContext → ParseContext
  unfolding trim_space project_name_from_remote
  with_git none pc = pc
  with_git (some git) pc =
      let remote = text_at "repository_url" git in
      if remote == "" then pc else record pc {
        project_id =
            slice (stable_id rd.sha256_hex (codes (trim_space rd.platform remote) ∷ [])) 0 16;
        repo_name = or_kept (project_name_from_remote rd.platform remote) pc.repo_name;
      }

  unfoldable pub with_settings : Option Fields → ParseContext → ParseContext
  unfolding with_cwd
  with_settings none pc = pc
  with_settings (some ts) pc = with_cwd (text_at "cwd" ts) (record pc {
    model = or_kept (text_at "model" ts) pc.model;
    effort = or_kept (text_at "reasoning_effort" ts) pc.effort;
  })

  -- The ids, the model and the window that a payload states.
  unfoldable pub with_ids : String → Fields → ParseContext → ParseContext
  unfolding find_string_key conversation_of conversation_keys
  with_ids record_type p pc = record pc {
    conversation_id =
        or_else (conversation_of (conversation_keys record_type) p) pc.conversation_id;
    parent_id =
        or_else
          (find_string_key 0 p
            ("parent_conversation_id" ∷ "parent_session_id" ∷ "parent_thread_id" ∷ []))
          pc.parent_id;
    response_id = or_else (find_string_key 1 p ("response_id" ∷ [])) pc.response_id;
    turn_id = or_else (find_string_key 2 p ("turn_id" ∷ [])) pc.turn_id;
    model = or_kept (text_at "model" p) pc.model;
    effort = or_else (find_string_key 3 p ("reasoning_effort" ∷ [])) pc.effort;
    context_window = or_else (number_at "model_context_window" p) pc.context_window;
  }

  unfoldable pub update_parse_context : String → Fields → ParseContext → ParseContext
  unfolding with_ids with_cwd with_git with_settings
  update_parse_context record_type p pc =
      with_settings (object_at "thread_settings" p)
        (with_git (object_at "git" p) (with_cwd (text_at "cwd" p) (with_ids record_type p pc)))
