-- ===== src/Login.antt =====
-- handlers.go: the login page's POST, the signed cookie it sets, and the test of that cookie. A text
-- is its code points here; HMAC, base64, Argon2 and the reading of a number are parameters, and the
-- clock of cookies counts seconds.
pub mod Cookies
pub mod Enroll
pub mod Once
pub mod Admission
pub mod Limited
use codex_token_meter.Prelude.{
  ℕ, ◌+◌, ℤ, pos, ltb_ℤ, String, Bool, true, false, not, ◌&&◌, ◌||◌, Option, none, some, List, [],
  ◌∷◌, ◌++◌, eqb, ◌==◌, text_eq, if◌then◌else◌, Table, Keyed,
}
use codex_token_meter.Types.{Time}
use codex_token_meter.Ident.{codes, decimal}
use codex_token_meter.Limiter.{login_allowed, record_login_failure}

abbrev pub Text : Type 0
Text = List ℕ

abbrev pub same_text : Text → Text → Bool
same_text [] [] = true
same_text (c ∷ s) (d ∷ t) = eqb c d && same_text s t
same_text _ _ = false

-- What the handlers call: `hmac` is `sign` behind its base64.
pub record Crypto : Type 0 where
  pub hmac : Text → Text → Text
  pub encode : Text → Text
  pub decode : Text → Option Text
  pub parse_int : Text → ℤ
  pub verify_password : String → String → Bool

pub record Config : Type 0 where
  pub admin_user : Text
  pub admin_password_hash : String
  pub session_secret : Text

abbrev pub push_code : ℕ → List Text → List Text
push_code c [] = (c ∷ []) ∷ []
push_code c (p ∷ ps) = (c ∷ p) ∷ ps

-- `strings.Split` by one character.
unfoldable pub split_at : ℕ → Text → List Text
split_at separator [] = [] ∷ []
split_at separator (c ∷ cs) =
    let rest = split_at separator cs in if eqb c separator then [] ∷ rest else push_code c rest

module _ (crypto : Crypto) (config : Config) where
  abbrev pub payload_of : ℕ → Text
  payload_of expiry = config.admin_user ++ b'|' ∷ decimal (pos expiry)

  -- The cookie of a login; it lasts 12 hours.
  unfoldable pub session_cookie : ℕ → Text
  session_cookie now =
      let payload = payload_of (now + 43200) in
      crypto.encode payload ++ b'.' ∷ crypto.hmac config.session_secret payload

  -- The payload behind its signature: user and expiry.
  abbrev pub unexpired : ℕ → List Text → Bool
  unexpired now (user ∷ expiry ∷ []) =
      same_text user config.admin_user && ltb_ℤ (pos now) (crypto.parse_int expiry)
  unexpired now _ = false

  abbrev pub signed : ℕ → Text → Option Text → Bool
  signed now signature none = false
  signed now signature (some payload) =
      same_text signature (crypto.hmac config.session_secret payload)
      && unexpired now (split_at b'|' payload)

  abbrev pub parts_valid : ℕ → List Text → Bool
  parts_valid now (body ∷ signature ∷ []) = signed now signature (crypto.decode body)
  parts_valid now _ = false

  unfoldable pub authenticated : ℕ → Option Text → Bool
  unfolding split_at
  authenticated now none = false
  authenticated now (some cookie) = parts_valid now (split_at b'.' cookie)

  -- The answers of `loginHandler`; the page itself is not modelled.
  pub data LoginAnswer : Type 0 where
    login_page wrong_method too_many csrf_error bad_credentials : LoginAnswer
    welcome : Text → LoginAnswer

  pub record LoginRequest : Type 0 where
    pub method : String
    pub ip : String
    pub csrf_cookie : Option String
    pub csrf_value : String
    pub username : Text
    pub password : String

  abbrev pub cookie_matches : Option String → String → Bool
  cookie_matches none value = false
  cookie_matches (some cookie) value = cookie == value

  -- `loginHandler`: `now` in seconds for the cookie, `clock` for the window of failures.
  unfoldable pub login :
      ℕ → Time → LoginRequest → Table String (List Time) → Table String (List Time) × LoginAnswer
  unfolding session_cookie login_allowed record_login_failure
  login now clock r failures =
      let allowed = login_allowed r.ip clock failures in
      if r.method == "GET"
      then (failures, login_page)
      else if not (r.method == "POST")
      then (failures, wrong_method)
      else if not allowed.1
      then (allowed.0, too_many)
      else if not (cookie_matches r.csrf_cookie r.csrf_value)
      then (allowed.0, csrf_error)
      else if not (same_text r.username config.admin_user)
          || not (crypto.verify_password config.admin_password_hash r.password)
      then (record_login_failure r.ip clock allowed.0, bad_credentials)
      else (allowed.0, welcome (session_cookie now))
