-- ===== src/Examples/Uploads.antt =====
-- The theorems about uploads on the small batch, sent once and then again.
use codex_token_meter.Prelude.{
  false, some, [], lookup, upsert, modify, ◌≡◌, refl, text_eq, Holds-nil, All, pair_eq,
}
use codex_token_meter.Display.{Unicode}
use codex_token_meter.Ledger.Db.{max_id}
use codex_token_meter.Ledger.Exact.{apply_event, dispatch, noted}
use codex_token_meter.Ledger.Apply.{with_parent}
use codex_token_meter.Ledger.Replay.{apply_events}
use codex_token_meter.Ingest.{
  Server, Request, Faults, Outcome, go_on, stop, Progress, transaction, ingest, ingest_batch,
  authorized, bad_batch, take_events, take_event, take_rest, take_metadata, take_telemetry, finish,
  advance_ledger, touch_agent,
}
use codex_token_meter.Limiter.{ingest_allowed, recent}
use codex_token_meter.Ident.{token_hash, trim_prefix}
use codex_token_meter.Valid.{valid_usage_event}
use codex_token_meter.Ledger.Balance.{booked}
use codex_token_meter.Ledger.Bounds.{CounterFits}
use codex_token_meter.Ingest.Atomic.{SameBooks, timed, IsOwn}
use codex_token_meter.Ingest.Sound.{IsSound, IsCommitted, ingest-IsSound, committed_books}
use codex_token_meter.Ingest.Replays.{ingest_again}
use codex_token_meter.Examples.{small_hash, no_events, batch}

abbrev pub ascii : Unicode
ascii = record { is_control = λ c. false; is_space = λ c. false }

abbrev pub no_faults : Faults
no_faults = record {
  begins = false;
  query = λ e. false;
  event = λ e. false;
  metadata = λ m. false;
  telemetry = false;
  state = false;
  commit = false;
}

abbrev pub server : Server
server = record {
  db = no_events;
  ingest_times = [];
  hub = record {
    seq = 0;
    full_seq = 0;
    task_seq = 0;
    dirty = false;
    clients = [];
    task_clients = [];
  };
  traces = [];
}

abbrev request : Request
request = record { method = "POST"; body = some batch; authorization = "Bearer t" }

abbrev after : Server
after = (ingest small_hash ascii no_faults 1000 server request).0

abbrev progress_of : Outcome Progress → Progress
progress_of (go_on p) = p
progress_of (stop status text) = record { db = no_events; changed = false; fresh = [] }

first :
    IsCommitted small_hash ascii no_faults 1000 server request
      (ingest small_hash ascii no_faults 1000 server request)
unfolding ingest ingest_batch authorized bad_batch lookup token_hash trim_prefix ingest_allowed
    recent transaction take_events take_event take_rest take_metadata take_telemetry finish
    valid_usage_event
first = record {
  batch = batch;
  progress = progress_of (transaction small_hash ascii no_faults 1000 batch no_events);
  posted = refl;
  body = refl;
  well_formed = refl;
  identified = refl;
  within_rate = refl;
  committed = refl;
  answer = refl;
  stored = refl;
  marked = refl;
  traced = refl;
}

second :
    IsCommitted small_hash ascii no_faults 2000 after request
      (ingest small_hash ascii no_faults 2000 after request)
unfolding ingest ingest_batch authorized bad_batch lookup token_hash trim_prefix ingest_allowed
    recent transaction take_events take_event take_rest take_metadata take_telemetry finish
    valid_usage_event advance_ledger touch_agent modify upsert apply_event dispatch noted
    with_parent
second = record {
  batch = batch;
  progress = progress_of (transaction small_hash ascii no_faults 2000 batch after.db);
  posted = refl;
  body = refl;
  well_formed = refl;
  identified = refl;
  within_rate = refl;
  committed = refl;
  answer = refl;
  stored = refl;
  marked = refl;
  traced = refl;
}

server-IsSound : IsSound server.db
unfolding lookup booked max_id
server-IsSound = record {
  balanced = λ k. refl;
  bounded = record {
    conversations = Holds-nil CounterFits;
    sources = Holds-nil CounterFits;
    rows = tt;
  };
  ledger = tt;
  revision = refl;
}

ingest-IsSound_example : IsSound after.db
ingest-IsSound_example =
    ingest-IsSound small_hash ascii no_faults 1000 server request server-IsSound

committed_books_example :
    SameBooks (apply_events small_hash (timed 1000 batch.events) no_events) after.db
    × (All (IsOwn "host") batch.events × (after.db.ledger_revision ≡ max_id after.db.usage_events))
unfolding first
committed_books_example = committed_books small_hash ascii no_faults 1000 server request first

ingest_again_example :
    SameBooks after.db (ingest small_hash ascii no_faults 2000 after request).0.db
unfolding first second
ingest_again_example =
    ingest_again small_hash ascii no_faults 1000 no_faults 2000 server request request first second
      (refl, tt)
