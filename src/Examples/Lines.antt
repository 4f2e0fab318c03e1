-- ===== src/Examples/Lines.antt =====
-- Lines of a task: a used-up total behind a message, a visible delta, and a line of nothing.
use Prim.Native.Char.{code}
use codex_token_meter.Prelude.{
  ℤ, pos, String, true, false, Option, none, some, [], ◌∷◌, ◌≡◌, refl, leb, eqb, ◌==◌, text_eq,
  if◌then◌else◌, ◌+◌, ◌≤◌,
}
use codex_token_meter.Types.{UsageEvent}
use codex_token_meter.Valid.{valid_usage_event}
use codex_token_meter.Display.{Unicode, chars}
use codex_token_meter.Projects.{Platform}
use codex_token_meter.Scan.{ParseContext, first_row, Source}
use codex_token_meter.Scan.Private.{scanned, scan_one-redact}
use codex_token_meter.Json.{Fields, num, str, obj, end, field, redact_fields, text_at}
use codex_token_meter.Parser.{Place, parse_codex_line, exact_event}
use codex_token_meter.Parser.Estimate.{Scripts, local_estimate_tokens}
use codex_token_meter.Parser.Context.{Reader}
use codex_token_meter.Parser.Emitted.{AllEmitted, parse_codex_line-Emits}
use codex_token_meter.Parser.Named.{Stays}
use codex_token_meter.Parser.Accepted.{within_limits, parse_codex_line-valid}
use codex_token_meter.Parser.Split.{local_estimate_tokens-append}

abbrev lines : Unicode
lines = record { is_control = λ c. false; is_space = λ c. eqb (code c) 32 }

abbrev pub platform : Platform
platform = record {
  unicode = lines;
  base = λ s. s;
  clean = λ s. s;
  dir = λ s. s;
  to_slash = λ s. s;
  to_lower = λ s. s;
  equal_fold = λ s t. s == t;
  url_path = λ s. none;
  git_toplevel = λ s. none;
  git_remote = λ s. none;
}

abbrev latin : Scripts
latin = record {
  is_han = λ c. leb 0x4E00 (code c);
  is_hiragana = λ c. false;
  is_katakana = λ c. false;
  is_hangul = λ c. false;
  is_letter = λ c. leb b'a' (code c);
  is_digit = λ c. false;
  is_space = λ c. eqb (code c) 32;
}

abbrev usage : String → Fields
usage message = field "type" (str "event_msg") (
    field "payload"
      (obj (
        field "message" (str message) (
          field "info"
            (obj (
              field "total_token_usage"
                (obj
                  (field "input_tokens" (num (pos 90)) (field "total_tokens" (num (pos 100)) end)))
                end))
            end)))
      end)

abbrev decode : String → Option Fields
decode raw = if raw == "" then none else some (usage raw)

abbrev zeros : String
zeros = "0000000000000000000000000000000000000000000000000000000000000000"

abbrev reader : Reader
reader = record {
  sha256_hex = λ input. zeros;
  platform = platform;
  scripts = latin;
  decode = decode;
  parse_stamp = λ s. 0;
  format_stamp = λ t. "now";
  now = 7;
  arrange = λ n p. p;
}

abbrev place : Place
place = record { host_id = "h"; source_id = "file"; offset = 12 }

abbrev context : ParseContext
context = (first_row "task" 0).context

total_of_line : Option UsageEvent → ℤ
total_of_line none = pos 0
total_of_line (some e) = e.counts.total_tokens

parses : total_of_line (parse_codex_line reader place "hello" context).0 ≡ pos 100
unfolding parse_codex_line total_of_line
parses = refl

estimates : local_estimate_tokens latin "hello 漢字, you" ≡ 6
unfolding local_estimate_tokens
estimates = refl

abbrev log : String → Source
log message = record {
  size = 64;
  lines_from =
      λ offset. record { bytes = 32; text = message } ∷ record { bytes = 32; text = "" } ∷ [];
}

scan_one-redact_example :
    scanned reader
      (λ e. none)
      "h"
      "file"
      (log "secret")
      true
      (record { row = first_row "task" 64; spool = [] })
    ≡ scanned reader
        (λ e. none)
        "h"
        "file"
        (log "public")
        true
        (record { row = first_row "task" 64; spool = [] })
unfolding redact_fields
scan_one-redact_example =
    scan_one-redact reader (λ e. none) "h" "file" (λ n p. refl) (log "secret") (log "public") true
      (record { row = first_row "task" 64; spool = [] }) refl
      (λ offset. ((refl, refl), ((refl, refl), tt)))

parse_codex_line-Emits_example :
    let out = parse_codex_line reader place "hello" context in
    AllEmitted reader place out.1 out.0 × Stays "file" context out.1
parse_codex_line-Emits_example = parse_codex_line-Emits reader place "hello" context

abbrev line_event : UsageEvent
unfolding exact_event
line_event =
    exact_event reader place 7 context
      (field "input_tokens" (num (pos 90)) (field "total_tokens" (num (pos 100)) end))

parse_codex_line-valid_example : valid_usage_event line_event ≡ within_limits line_event
unfolding parse_codex_line exact_event text_at
parse_codex_line-valid_example =
    parse_codex_line-valid reader place "hello" context line_event context (λ input. refl) refl refl

local_estimate_tokens-append_example :
    let parts = local_estimate_tokens latin "hel" + local_estimate_tokens latin "lo" in
    let whole = local_estimate_tokens latin "hello" in (whole ≤ parts) × (parts ≤ whole + 1)
local_estimate_tokens-append_example = local_estimate_tokens-append latin (chars "hel") (chars "lo")
