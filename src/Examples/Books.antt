-- ===== src/Examples/Books.antt =====
-- The ledger's theorems on the small database.
use codex_token_meter.Prelude.{
  All, true, pos, ◌+ℤ◌, String, [], lookup, ◌≡◌, refl, arith, text_eq, ◌^◌, ◌-◌, Holds-upsert,
  Holds-nil, pair_eq, upsert,
}
use codex_token_meter.Counts.{IsWithin}
use codex_token_meter.Ledger.Replay.{apply_events}
use codex_token_meter.Ledger.Balance.{IsBalanced, booked, session_tally, apply_events-IsBalanced}
use codex_token_meter.Ledger.Rows.{IsLedger, apply_events-IsLedger}
use codex_token_meter.Valid.{valid_usage_event}
use codex_token_meter.Ledger.Bounds.{IsBounded, CounterFits}
use codex_token_meter.Ledger.Bounds.Events.{session_fits_int64}
use codex_token_meter.Ledger.Watermark.{source_total, run_peaks, AtMark}
use codex_token_meter.Ledger.Watermark.Events.{entered, source_total-apply_events}
use codex_token_meter.Examples.{small_hash, mark, started, run}

abbrev file : String × String
file = ("host", "file")

started-AtMark : AtMark file (pos 0) (pos 100) started
unfolding lookup
started-AtMark = record { counter = mark; stored = refl; at_epoch = refl; at_total = refl }

source_total-apply_events_example :
    source_total file (apply_events small_hash run started).usage_events +ℤ pos 100
    ≡ source_total file started.usage_events
      +ℤ run_peaks (pos 0) (pos 100) (entered small_hash run started)
source_total-apply_events_example =
    source_total-apply_events small_hash file run started (pos 0) (pos 100) (pos 0) started-AtMark
      (omega arith)
      (
        refl,
        refl,
        omega arith,
        (refl, refl, omega arith, (refl, refl, omega arith, (refl, refl, omega arith, tt))),
      )

started-IsBalanced : IsBalanced started
unfolding lookup booked
started-IsBalanced k = refl

apply_events-IsBalanced_example : IsBalanced (apply_events small_hash run started)
apply_events-IsBalanced_example = apply_events-IsBalanced small_hash run started started-IsBalanced

apply_events-IsLedger_example : IsLedger (apply_events small_hash run started).usage_events
apply_events-IsLedger_example = apply_events-IsLedger small_hash run started tt

started-IsBounded : IsBounded started
unfolding upsert lookup
started-IsBounded = record {
  conversations = Holds-nil CounterFits;
  sources = Holds-upsert CounterFits file (λ _. mark) [] (Holds-nil CounterFits) (omega arith);
  rows = tt;
}

run-IsValid : All (λ e. valid_usage_event e.1 ≡ true) run
unfolding valid_usage_event
run-IsValid = (refl, (refl, (refl, (refl, tt))))

session_fits_int64_example :
    IsWithin
      (pos 0)
      (pos (2 ^ 63 - 1))
      (session_tally (lookup ("host", "task") (apply_events small_hash run started).sessions))
session_fits_int64_example =
    session_fits_int64 small_hash run started ("host", "task") started-IsBalanced started-IsBounded
      run-IsValid (omega arith)
