-- ===== src/Login/Enroll.antt =====
-- handlers.go `createEnrollment`, `enrollAgent`, `validEnrollment`: the tokens that let a machine in.
-- Random texts are arguments; which statements fail is one too, as the source ignores two of them.
use Prim.Native.String.{slice, ◌++◌ as ◌<>◌}
use codex_token_meter.Prelude.{
  ℕ, ◌+◌, String, Bool, true, false, not, ◌&&◌, ◌||◌, Option, none, some, List, ltb, ◌==◌, text_eq,
  if◌then◌else◌, Table, lookup, upsert, modify,
}
use codex_token_meter.Types.{Time}
use codex_token_meter.Ident.{token_hash}
use codex_token_meter.Ledger.Db.{Agent}

pub record Enrollment : Type 0 where
  pub platform : String
  pub expires_at : Time
  pub used_at : Option Time
  pub created_at : Time

pub record Desk : Type 0 where
  pub enrollments : Table String Enrollment
  pub agents : Table String Agent

pub record EnrollRequest : Type 0 where
  pub token : String
  pub platform : String
  pub alias : String

pub record EnrollFaults : Type 0 where
  pub insert_fails : Bool
  pub update_fails : Bool
  pub commit_fails : Bool

pub data EnrollAnswer : Type 0 where
  not_a_post bad_request bad_platform invalid_enrollment db_error : EnrollAnswer
  issued : String → Time → EnrollAnswer
  enrolled : String → String → EnrollAnswer

abbrev pub exists : {V : Type 0} → Option V → Bool
exists none = false
exists (some v) = true

-- Fifteen minutes.
abbrev pub enrollment_life : Time
enrollment_life = 900_000_000_000

abbrev pub new_enrollment : String → Time → Enrollment
new_enrollment platform now = record {
  platform = platform;
  expires_at = now + enrollment_life;
  used_at = none;
  created_at = now;
}

abbrev pub unused : Option Time → Bool
unused none = true
unused (some t) = false

-- The test of `enrollAgent` on the row it has read.
abbrev pub may_enroll : Time → EnrollRequest → Option Enrollment → Bool
may_enroll now r none = false
may_enroll now r (some e) =
    unused e.used_at && e.platform == r.platform && not (ltb e.expires_at now)

abbrev pub is_valid : String → Time → Option Enrollment → Bool
is_valid platform now none = false
is_valid platform now (some e) = e.platform == platform && unused e.used_at && ltb now e.expires_at

module _ (sha256_hex : List ℕ → String) where
  abbrev pub hash : String → String
  hash token = token_hash sha256_hex token

  -- `createEnrollment`: `platform` is what the body decodes to, '' where it does not.
  unfoldable pub create_enrollment :
      String → String → String → Time → Bool → Desk → Desk × EnrollAnswer
  create_enrollment method platform token now fails d =
      let key = hash token in
      if not (method == "POST")
      then (d, not_a_post)
      else if not (platform == "windows" || platform == "linux")
      then (d, bad_platform)
      else if fails || exists (lookup key d.enrollments)
      then (d, db_error)
      else (
        record d { enrollments = upsert key (λ _. new_enrollment platform now) d.enrollments },
        issued token (now + enrollment_life),
      )

  abbrev pub new_agent : EnrollRequest → String → String → Agent
  new_agent r host agent_token = record {
    alias = if r.alias == "" then r.platform <> "-" <> slice host 0 6 else r.alias;
    token_hash = hash agent_token;
    platform = r.platform;
    last_seen = none;
    revoked = false;
  }

  -- The transaction of `enrollAgent`: a refused UPDATE or COMMIT is not noticed.
  unfoldable pub admit :
      EnrollRequest → String → String → Time → EnrollFaults → Desk → Desk × EnrollAnswer
  admit r host agent_token now f d =
      let agents = upsert host (λ _. new_agent r host agent_token) d.agents in
      let spent = modify (hash r.token) (λ e. record e { used_at = some now }) d.enrollments in
      let enrollments = if f.update_fails then d.enrollments else spent in
      if f.insert_fails || exists (lookup host d.agents) then (d, db_error) else (
        if f.commit_fails then d else record { enrollments = enrollments; agents = agents },
        enrolled host agent_token,
      )

  -- `enrollAgent`; `body` is none where it does not decode.
  unfoldable pub enroll_agent :
      String
      → Option EnrollRequest
      → String
      → String
      → Time
      → EnrollFaults
      → Desk
      → Desk × EnrollAnswer
  unfolding admit
  enroll_agent method none host agent_token now f d =
      if not (method == "POST") then (d, not_a_post) else (d, bad_request)
  enroll_agent method (some r) host agent_token now f d =
      if not (method == "POST")
      then (d, not_a_post)
      else if not (may_enroll now r (lookup (hash r.token) d.enrollments))
      then (d, invalid_enrollment)
      else admit r host agent_token now f d

  -- `validEnrollment`, which the installers ask.
  unfoldable pub valid_enrollment : String → String → Time → Desk → Bool
  valid_enrollment token platform now d = is_valid platform now (lookup (hash token) d.enrollments)
