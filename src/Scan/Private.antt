-- ===== src/Scan/Private.antt =====
-- agent.go `scanOneTx` with parser.go `parseCodexLine`: the texts of a file stay on its host.
use codex_token_meter.Prelude.{
  ℕ, suc, ◌-◌, String, Bool, true, false, ◌&&◌, ◌||◌, Option, List, [], ◌∷◌, leb, if◌then◌else◌,
  ◌≡◌, refl, ◌∙◌,
}
use codex_token_meter.Types.{UsageEvent, DeliveryTrace}
use codex_token_meter.Json.{Fields, redact_fields}
use codex_token_meter.Parser.{parse_codex_line}
use codex_token_meter.Parser.Context.{Reader}
use codex_token_meter.Json.Redacted.{redacted}
use codex_token_meter.Parser.Redacted.{parse_codex_line-redact}
use codex_token_meter.Scan.{
  ParseContext, Collected, Line, Source, scan_line, scan_lines, scan_one, opened,
}

-- Lines of the same length that differ only in texts.
abbrev Alike : Reader → Line → Line → Type 0
Alike rd a b = (a.bytes ≡ b.bytes) × (redacted (rd.decode a.text) ≡ redacted (rd.decode b.text))

abbrev pub AllAlike : Reader → List Line → List Line → Type 0
AllAlike rd [] [] = Unit
AllAlike rd (a ∷ as') (b ∷ bs) = Alike rd a b × AllAlike rd as' bs
AllAlike rd _ _ = ⊥

chosen :
    (b : Bool) (next : Collected) (xs ys : List Line) (m m' : Collected × List Line)
    → m.0 ≡ m'.0
    → (if b then (next, xs) else m).0 ≡ (if b then (next, ys) else m').0
chosen true next xs ys m m' h = refl
chosen false next xs ys m m' h = h

module _ (rd : Reader) (trace_of : UsageEvent → Option DeliveryTrace) (host_id sid : String) where
  abbrev parse : String → ℕ → ParseContext → Option UsageEvent × ParseContext
  parse text offset pc =
      parse_codex_line rd (record { host_id = host_id; source_id = sid; offset = offset }) text pc

  -- A scan of the file by the agent's own parser.
  unfoldable pub scanned : Source → Bool → Collected → Collected
  unfolding scan_one
  scanned = scan_one rd.sha256_hex parse trace_of

module _ (rd : Reader) (trace_of : UsageEvent → Option DeliveryTrace) (host_id sid : String)
    (by_keys : (n : ℕ) (p : Fields)
      → rd.arrange n (redact_fields p) ≡ redact_fields (rd.arrange n p)) where
  abbrev read_line : String → ℕ → ParseContext → Option UsageEvent × ParseContext
  read_line = parse rd trace_of host_id sid

  scan_line-redact :
      (a b : Line) (c : Collected)
      → Alike rd a b
      → scan_line rd.sha256_hex read_line trace_of a c
        ≡ scan_line rd.sha256_hex read_line trace_of b c
  unfolding scan_line
  scan_line-redact a b c (same_length, same_text) =
      rw
        (
          same_length,
          parse_codex_line-redact rd by_keys
              (record { host_id = host_id; source_id = sid; offset = c.row.offset }) a.text b.text
              c.row.context same_text,
        )
        refl

  scan_lines-redact :
      (limited : Bool) (start count : ℕ) (xs ys : List Line) (c : Collected)
      → AllAlike rd xs ys
      → (scan_lines rd.sha256_hex read_line trace_of limited start count xs c).0
        ≡ (scan_lines rd.sha256_hex read_line trace_of limited start count ys c).0
  unfolding scan_lines
  scan_lines-redact limited start count [] [] c h = refl
  scan_lines-redact limited start count [] (y ∷ ys) c h = absurd h
  scan_lines-redact limited start count (x ∷ xs) [] c h = absurd h
  scan_lines-redact limited start count (x ∷ xs) (y ∷ ys) c h =
      let next = scan_line rd.sha256_hex read_line trace_of y c in
      let stop = λ (c' : Collected).
        limited && (leb 512 (suc count) || leb 1_048_576 (c'.row.offset - start)) in
      (λ i.
        let c' = scan_line-redact x y c h.0 i in
        (if stop c'
          then (c', xs)
          else scan_lines rd.sha256_hex read_line trace_of limited start (suc count) xs c').0)
      ∙ (chosen (stop next) next xs ys
          (scan_lines rd.sha256_hex read_line trace_of limited start (suc count) xs next)
          (scan_lines rd.sha256_hex read_line trace_of limited start (suc count) ys next)
          (scan_lines-redact limited start (suc count) xs ys next h.1))

  -- Two files of the same size, with lines of the same lengths that differ only in what stands
  -- behind the keys content, text, message, result and arguments: the scan of either, with or
  -- without its budget, queues the same events for upload and leaves the same checkpoint, if the
  -- order in which an object's fields are visited does not depend on their values.
  pub scan_one-redact :
      (a b : Source) (limited : Bool) (c : Collected)
      → a.size ≡ b.size
      → ((offset : ℕ) → AllAlike rd (a.lines_from offset) (b.lines_from offset))
      → scanned rd trace_of host_id sid a limited c ≡ scanned rd trace_of host_id sid b limited c
  unfolding scanned scan_one
  scan_one-redact a b limited c same_size alike =
      let from = opened a.size c.row in
      scan_lines-redact limited from.offset 0 (a.lines_from from.offset) (b.lines_from from.offset)
        (record c { row = from }) (alike from.offset)
      ∙ (λ i.
          let r = opened (same_size i) c.row in
          (scan_lines rd.sha256_hex read_line trace_of limited r.offset 0 (b.lines_from r.offset)
            (record c { row = r })).0)
