-- ===== src/Web.antt =====
-- server.go `runServer`'s routes and handlers.go `requireAuth`, `csrf`, `clientIP`, `sessionAPI`,
-- `purchaseAPI`: who may ask for what, and what a request changes, with `ingest`, `enrollAgent` and
-- `createEnrollment` behind their routes. The path is one that the mux leaves as it is. Amounts are
-- values of a type with a test for more than 0; decoding a body, random texts and the statements that fail
-- are arguments. Left out are the cookie with a new token, which `requireAuth` sets where none came, the
-- times of failed logins, which only the login page's route changes, the cached snapshots, and the
-- subscription of a browser to the hub, which ends with its request.
pub mod Guards
pub mod Sound
use Prim.Native.Char.{Char, code}
use Prim.Native.String.{len}
use package.text.Mathlib.Text.{starts_with}
use codex_token_meter.Prelude.{
  ℕ, suc, String, Bool, true, false, not, ◌&&◌, ◌||◌, Option, none, some, List, [], ◌∷◌, eqb, Table,
  lookup, upsert, pair_eq, ltb, ◌==◌, text_eq, if◌then◌else◌,
}
use codex_token_meter.Types.{Time, IngestBatch}
use codex_token_meter.Display.{Unicode, chars, text}
use codex_token_meter.Hub.{mark}
use codex_token_meter.Ledger.Db.{Session}
use codex_token_meter.Ingest.{Server, Response, Faults, ingest}
use codex_token_meter.Login.Enroll.{
  Enrollment, Desk, EnrollRequest, EnrollFaults, EnrollAnswer, enroll_agent, create_enrollment,
}
use codex_token_meter.Ident.{trim_prefix}
use codex_token_meter.Login.{Text, Crypto, Config, authenticated, cookie_matches}

-- The handlers that the mux knows, by their patterns.
pub data Route : Type 0 where
  healthz readyz login_route favicon style login_script logout ingest_route enroll : Route
  windows_installer windows_repair linux_installer downloads : Route
  events snapshot realtime enrollments purchases sessions export static : Route

-- The patterns without a final slash.
abbrev pub routes : Table String Route
routes =
    ("/healthz", healthz)
    ∷ ("/readyz", readyz)
    ∷ ("/login", login_route)
    ∷ ("/favicon.ico", favicon)
    ∷ ("/style.css", style)
    ∷ ("/login.js", login_script)
    ∷ ("/logout", logout)
    ∷ ("/api/ingest", ingest_route)
    ∷ ("/api/enroll", enroll)
    ∷ ("/install/windows.ps1", windows_installer)
    ∷ ("/install/windows-hide.ps1", windows_repair)
    ∷ ("/install/linux.sh", linux_installer)
    ∷ ("/events", events)
    ∷ ("/api/snapshot", snapshot)
    ∷ ("/api/realtime", realtime)
    ∷ ("/api/enrollments", enrollments)
    ∷ ("/api/purchases", purchases)
    ∷ ("/api/export", export)
    ∷ []

-- The patterns with one, the longest first.
abbrev pub subtree_of : String → Route
subtree_of path =
    if starts_with path "/downloads/"
    then downloads
    else if starts_with path "/api/sessions/"
    then sessions
    else static

abbrev pub route_or : Option Route → String → Route
route_or (some route) path = route
route_or none path = subtree_of path

unfoldable pub route_of : String → Route
route_of path = route_or (lookup path routes) path

-- The routes that stand behind `requireAuth`.
unfoldable pub needs_login : Route → Bool
needs_login events = true
needs_login snapshot = true
needs_login realtime = true
needs_login enrollments = true
needs_login purchases = true
needs_login sessions = true
needs_login export = true
needs_login static = true
needs_login _ = false

pub record Purchase (F : Type 0) : Type 0 where
  pub purchase_time : String
  pub paid_amount : F
  pub currency : String
  pub credits_received : F
  pub fees : F
  pub exchange_rate : F

-- What the requests change: the server's database, hub, limiter and traces, the enrollments, the column
-- `display_name` of the sessions, the purchases and the audit log's entries.
pub record Dashboard (F : Type 0) : Type 0 where
  pub server : Server
  pub enrolling : Table String Enrollment
  pub names : Table (String × String) String
  pub credit_purchases : List (Purchase F)
  pub audit_log : List String

-- Of a body the part that the route's handler decodes: `name` and `platform` are "" where it fails, the
-- others `none`.
pub record WebRequest (F : Type 0) : Type 0 where
  pub method : String
  pub path : String
  pub session_cookie : Option Text
  pub csrf_cookie : Option String
  pub csrf_header : String
  pub authorization : String
  pub name : String
  pub platform : String
  pub purchase : Option (Purchase F)
  pub batch : Option IngestBatch
  pub machine : Option EnrollRequest

-- An answer: of a handler that changes nothing, a refusal, a success, or a handler's own answer.
pub data WebAnswer : Type 0 where
  handled_by : Route → WebAnswer
  unauthorized to_login csrf_refused : WebAnswer
  refused : ℕ → String → WebAnswer
  ok listed : WebAnswer
  uploaded : Response → WebAnswer
  answered : EnrollAnswer → WebAnswer

-- What does not change between requests.
pub record Setup (F : Type 0) : Type 0 where
  pub is_positive : F → Bool
  pub crypto : Crypto
  pub config : Config
  pub sha256_hex : List ℕ → String
  pub unicode : Unicode

-- The clock, the random texts and the statements that fail, at one request.
pub record Moment : Type 0 where
  pub seconds : ℕ
  pub clock : Time
  pub timestamp : String
  pub insert_fails : Bool
  pub faults : Faults
  pub enroll_faults : EnrollFaults
  pub new_token : String
  pub new_host : String
  pub new_agent_token : String

-- `CF-Connecting-IP`, or what stands before the first colon of the remote address.
abbrev until : ℕ → List Char → List Char
until stop [] = []
until stop (c ∷ cs) = if eqb (code c) stop then [] else c ∷ until stop cs

unfoldable pub client_ip : String → String → String
client_ip connecting_ip remote_addr =
    if connecting_ip == "" then text (until b':' (chars remote_addr)) else connecting_ip

-- The conversation in the path of `sessionAPI`.
unfoldable pub conversation_in : String → String
conversation_in path = text (until b'/' (chars (trim_prefix path "/api/sessions/")))

abbrev pub or_default : String → String → String
or_default s otherwise = if s == "" then otherwise else s

-- `UPDATE sessions SET display_name=? WHERE conversation_id=?`.
abbrev pub renamed :
    String
    → String
    → Table (String × String) Session
    → Table (String × String) String
    → Table (String × String) String
renamed conv name [] names = names
renamed conv name (((host, c), row) ∷ rest) names =
    let more = renamed conv name rest names in
    if c == conv then upsert (host, c) (λ _. name) more else more

abbrev pub is_valid_purchase : {F : Type 0} → Setup F → Purchase F → Bool
is_valid_purchase setup p =
    setup.is_positive p.paid_amount
    && setup.is_positive p.credits_received
    && setup.is_positive p.exchange_rate

abbrev pub mark_hub : Server → Server
mark_hub s = record s { hub = mark s.hub }

abbrev pub desk_of : {F : Type 0} → Dashboard F → Desk
desk_of d = record { enrollments = d.enrolling; agents = d.server.db.agents }

abbrev pub with_desk : {F : Type 0} → Desk → Dashboard F → Dashboard F
with_desk desk d = record d {
  server = record d.server { db = record d.server.db { agents = desk.agents } };
  enrolling = desk.enrollments;
}

module _ {F : Type 0} (setup : Setup F) (m : Moment) where
  abbrev pub has_token : WebRequest F → Bool
  has_token r = cookie_matches setup.crypto setup.config r.csrf_cookie r.csrf_header

  -- `sessionAPI` behind its login.
  unfoldable pub session_api : WebRequest F → Dashboard F → Dashboard F × WebAnswer
  unfolding conversation_in
  session_api r d =
      if not (r.method == "PATCH")
      then (d, handled_by sessions)
      else if not (has_token r)
      then (d, csrf_refused)
      else if ltb 100 (len r.name)
      then (d, refused 400 "name too long")
      else (
        record d {
          server = mark_hub d.server;
          names = renamed (conversation_in r.path) r.name d.server.db.sessions d.names;
        },
        ok,
      )

  abbrev pub completed : Purchase F → Purchase F
  completed p = record p {
    purchase_time = or_default p.purchase_time m.timestamp;
    currency = or_default p.currency "USD";
  }

  -- The body of a purchase that passed the token's test.
  abbrev pub add_purchase : Option (Purchase F) → Dashboard F → Dashboard F × WebAnswer
  add_purchase none d = (d, refused 400 "invalid purchase")
  add_purchase (some p) d =
      if not (is_valid_purchase setup p)
      then (d, refused 400 "invalid purchase")
      else if m.insert_fails
      then (d, refused 500 "db")
      else (
        record d {
          server = mark_hub d.server;
          credit_purchases = completed p ∷ d.credit_purchases;
          audit_log = "credit_purchase_added" ∷ d.audit_log;
        },
        ok,
      )

  unfoldable pub purchase_api : WebRequest F → Dashboard F → Dashboard F × WebAnswer
  purchase_api r d =
      if r.method == "GET"
      then (d, listed)
      else if not (r.method == "POST")
      then (d, refused 405 "method")
      else if not (has_token r)
      then (d, csrf_refused)
      else add_purchase r.purchase d

  abbrev pub upload : WebRequest F → Dashboard F → Server × Response
  upload r d =
      ingest setup.sha256_hex setup.unicode m.faults m.clock d.server
        (record { method = r.method; body = r.batch; authorization = r.authorization })

  abbrev pub let_in : WebRequest F → Dashboard F → Desk × EnrollAnswer
  let_in r d =
      enroll_agent setup.sha256_hex r.method r.machine m.new_host m.new_agent_token m.clock
        m.enroll_faults (desk_of d)

  abbrev pub issue : WebRequest F → Dashboard F → Desk × EnrollAnswer
  issue r d =
      create_enrollment setup.sha256_hex r.method r.platform m.new_token m.clock m.insert_fails
        (desk_of d)

  -- The handlers, of which some change something.
  abbrev pub handle : Route → WebRequest F → Dashboard F → Dashboard F × WebAnswer
  handle sessions r d = session_api r d
  handle purchases r d = purchase_api r d
  handle enrollments r d =
      let (desk, answer) = issue r d in
      if has_token r then (with_desk desk d, answered answer) else (d, csrf_refused)
  handle ingest_route r d =
      let (server, answer) = upload r d in (record d { server = server }, uploaded answer)
  handle enroll r d = let (desk, answer) = let_in r d in (with_desk desk d, answered answer)
  handle route r d = (d, handled_by route)

  abbrev pub refuse_guest : String → WebAnswer
  refuse_guest path =
      if starts_with path "/api/" || path == "/events" then unauthorized else to_login

  -- `requireAuth(next)`.
  abbrev pub require_auth :
      WebRequest F → Dashboard F → Dashboard F × WebAnswer → Dashboard F × WebAnswer
  require_auth r d next =
      if not (authenticated setup.crypto setup.config m.seconds r.session_cookie)
      then (d, refuse_guest r.path)
      else next

  unfoldable pub serve_web : WebRequest F → Dashboard F → Dashboard F × WebAnswer
  unfolding route_of needs_login session_api purchase_api
  serve_web r d =
      let route = route_of r.path in
      let next = handle route r d in
      let guarded = require_auth r d next in if needs_login route then guarded else next
