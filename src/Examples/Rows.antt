-- ===== src/Examples/Rows.antt =====
-- The theorems of the partial query: one conversation's rows, an old event and a new one.
use codex_token_meter.Prelude.{
  ℕ, ◌+◌, pos, String, true, false, none, some, List, [], ◌∷◌, ◌++◌, keep, ltb, text_eq, ◌≡◌, refl,
  arith, inl, inr, Bool-cases, text_leb, text_ltb,
}
use codex_token_meter.Types.{exact_usage}
use codex_token_meter.Counts.{no_tally}
use codex_token_meter.Ledger.Db.{UsageRow, max_id}
use codex_token_meter.Ledger.Rows.{IsLedger}
use codex_token_meter.Pricing.Sums.{row_key, usage_clock, in_window}
use codex_token_meter.Range.{DashboardRange}
use codex_token_meter.Stream.{Row}
use codex_token_meter.Stream.Diffs.{has}
use codex_token_meter.Partial.{Mark, Prior, Columns, prepare_incremental, project_totals_from_rows}
use codex_token_meter.Partial.Window.{IsMonotone, counted_in, prepare_incremental-window}
use codex_token_meter.Partial.Totals.{sum_of, project_totals_from_rows-totals}
use codex_token_meter.Examples.Prices.{millionths, two_moments}
use codex_token_meter.Examples.Streams.{row_eq}

abbrev event_row : ℕ → String → ℕ → UsageRow
event_row id conversation time = record {
  id = id;
  event_id = conversation;
  dedup_key = conversation;
  host_id = "host";
  conversation_id = conversation;
  parent_conversation_id = none;
  source_file_id = "file";
  byte_offset = pos 0;
  event_type = exact_usage;
  timestamp = time;
  turn_id = none;
  response_id = none;
  project_id = "p";
  model = "m";
  reasoning_effort = "";
  model_context_window = pos 0;
  raw = no_tally;
  counted = no_tally;
  cache_write_visible = true;
  data_quality = "EXACT";
  parser_version = "1";
  epoch = pos 0;
  created_at = time;
}

abbrev older : List UsageRow
older = event_row 1 "a" 3 ∷ []

abbrev newer : List UsageRow
newer = event_row 2 "b" 30 ∷ []

a_is_not_b : ◌≡◌ {A = String} "a" "b" → ⊥
a_is_not_b e = false_true ((text_eq.same_iff "a" "b").1 e)
  where
    false_true : false ≡ true → ⊥
    false_true k = cc

grown-IsLedger : IsLedger (newer ++ older)
unfolding max_id
grown-IsLedger = (omega arith, ((a_is_not_b, λ _ e. a_is_not_b e), tt), (omega arith, tt, tt))

two_moments-IsMonotone : IsMonotone two_moments
unfolding text_leb
two_moments-IsMonotone = record {
  keeps_order = λ s t h. elim (Bool-cases (ltb s 12)) [
    | inl e ↦ elim (Bool-cases (ltb t 12)) [ inl k ↦ rw (e, k) refl | inr k ↦ rw (e, k) refl ]
    | inr e ↦ let k : ltb t 12 ≡ false = ground (arith, e, h) in rw (e, k) refl
  ];
}

older-max_id : 1 ≡ max_id older
unfolding max_id
older-max_id = refl

abbrev now_mark : Mark
now_mark = record { server_epoch = "e"; full_revision = 4 }

abbrev last_snapshot : Prior
last_snapshot = record {
  mark = now_mark;
  query_key = "all";
  ledger_revision = 1;
  range_start = 0;
  range_end = 20;
  known = row_key "host" "a" ∷ row_key "host" "b" ∷ [];
}

abbrev all_time : DashboardRange
all_time = record { period = "all"; start = 0; end = 40; open_ended = false }

not_asked : has (row_key "host" "a") (row_key "host" "b" ∷ []) ≡ false
unfolding row_key
not_asked = refl

asked_again :
    prepare_incremental two_moments true now_mark "all" all_time last_snapshot (newer ++ older)
    ≡ some (row_key "host" "b" ∷ [])
unfolding prepare_incremental usage_clock row_key in_window text_leb text_ltb
asked_again = refl

prepare_incremental-window_example :
    keep (counted_in two_moments 0 40 (row_key "host" "a")) (newer ++ older)
    ≡ keep (counted_in two_moments 0 20 (row_key "host" "a")) older
prepare_incremental-window_example =
    prepare_incremental-window two_moments two_moments-IsMonotone true now_mark "all" all_time
      last_snapshot newer older (row_key "host" "b" ∷ []) (row_key "host" "a") grown-IsLedger
      older-max_id asked_again not_asked

abbrev project_row : String → ℕ → Row (Columns millionths)
project_row project n = record {
  host_id = "host";
  conversation_id = project;
  shown = record {
    parent_conversation_id = "";
    project = project;
    input_tokens = pos n;
    output_tokens = pos 1;
    total_tokens = pos (n + 1);
    api_cost = n;
    vercel_cost = n;
    credits = 0;
  };
}

abbrev project_rows : List (Row (Columns millionths))
project_rows = project_row "x" 4 ∷ project_row "y" 6 ∷ project_row "x" 5 ∷ []

project_totals_from_rows-totals_example :
    (sum_of (λ g. g.input_tokens) (project_totals_from_rows millionths project_rows)
      ≡ sum_of (λ r. r.shown.input_tokens) project_rows)
    × (sum_of (λ g. g.output_tokens) (project_totals_from_rows millionths project_rows)
        ≡ sum_of (λ r. r.shown.output_tokens) project_rows)
    × (sum_of (λ g. g.total_tokens) (project_totals_from_rows millionths project_rows)
        ≡ sum_of (λ r. r.shown.total_tokens) project_rows)
project_totals_from_rows-totals_example = project_totals_from_rows-totals millionths project_rows
