-- ===== src/Examples/Access.antt =====
-- A dashboard with one task, a guest, and the admin who renames the task.
use codex_token_meter.Prelude.{
  ℕ, true, false, none, some, [], ltb, text_eq, pair_eq, lookup, ◌≡◌, refl, ◌||◌, ◌==◌,
}
use package.text.Mathlib.Text.{starts_with}
use codex_token_meter.Ident.{trim_prefix, decimal}
use codex_token_meter.Login.{authenticated, session_cookie}
use codex_token_meter.Web.{
  Purchase, Dashboard, WebRequest, Setup, Moment, unauthorized, to_login, ok, route_of, needs_login,
  session_api, serve_web, client_ip, conversation_in,
}
use codex_token_meter.Web.Guards.{serve_web-guest}
use codex_token_meter.Ledger.Replay.{apply_events}
use codex_token_meter.Examples.{small_hash, run, started}
use codex_token_meter.Examples.Logins.{shift_codec, admin}
use codex_token_meter.Examples.Logins
use codex_token_meter.Examples.Uploads.{ascii, server}
use codex_token_meter.Examples.Uploads

abbrev setup : Setup ℕ
setup = record {
  is_positive = ltb 0;
  crypto = shift_codec;
  config = admin;
  sha256_hex = small_hash;
  unicode = ascii;
}

abbrev moment : Moment
moment = record {
  seconds = 1000;
  clock = 1_000_000_000_000;
  timestamp = "now";
  insert_fails = false;
  faults = codex_token_meter.Examples.Uploads.no_faults;
  enroll_faults = codex_token_meter.Examples.Logins.no_faults;
  new_token = "token";
  new_host = "host-name";
  new_agent_token = "secret";
}

abbrev purchase : Purchase ℕ
purchase = record {
  purchase_time = "";
  paid_amount = 20;
  currency = "";
  credits_received = 100;
  fees = 0;
  exchange_rate = 7;
}

abbrev dashboard : Dashboard ℕ
dashboard = record {
  server = record server { db = apply_events small_hash run started };
  enrolling = [];
  names = [];
  credit_purchases = [];
  audit_log = [];
}

abbrev guest : WebRequest ℕ
guest = record {
  method = "PATCH";
  path = "/api/sessions/task/name";
  session_cookie = none;
  csrf_cookie = some "c";
  csrf_header = "c";
  authorization = "";
  name = "report";
  platform = "";
  purchase = some purchase;
  batch = none;
  machine = none;
}

abbrev rename_task : WebRequest ℕ
rename_task = record guest { session_cookie = some (session_cookie shift_codec admin 7) }

addresses : client_ip "" "1.2.3.4:80" ≡ "1.2.3.4"
unfolding client_ip
addresses = refl

conversations : conversation_in "/api/sessions/task/name" ≡ "task"
unfolding conversation_in trim_prefix
conversations = refl

renamed_by_admin : (serve_web setup moment rename_task dashboard).1 ≡ ok
unfolding serve_web route_of needs_login session_api authenticated session_cookie lookup decimal
renamed_by_admin = refl

serve_web-guest_example :
    ((serve_web setup moment guest dashboard).0 ≡ dashboard)
    × ((starts_with guest.path "/api/" || guest.path == "/events") ≡ true
        → (serve_web setup moment guest dashboard).1 ≡ unauthorized)
    × ((starts_with guest.path "/api/" || guest.path == "/events") ≡ false
        → (serve_web setup moment guest dashboard).1 ≡ to_login)
unfolding authenticated
serve_web-guest_example = serve_web-guest setup moment guest dashboard refl refl
