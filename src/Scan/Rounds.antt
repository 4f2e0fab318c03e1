-- ===== src/Scan/Rounds.antt =====
-- Scans with a budget, one after the other, against one scan without.
use codex_token_meter.Prelude.{
  ℕ, ℤ, zero, suc, ◌+◌, ◌-◌, ◌≤◌, String, Bool, true, false, ◌&&◌, ◌||◌, Option, none, some, List,
  [], ◌∷◌, leb, ltb, length, ◌≡◌, refl, sym, ap, ◌∙◌, arith, Bool-cases, inl, inr, text_eq, tests,
}
use codex_token_meter.Types.{
  EventType, exact_usage, activity, runtime, live_estimate, UsageEvent, DeliveryTrace,
}
use codex_token_meter.Scan.{
  ParseContext, FileRow, Collected, Line, Source, opened, note_runtime, note_counter, queue_event,
  scan_line, scan_lines, scan_one,
}

-- Reading on from behind a line gives the lines behind it, and a line lies within the size.
pub record IsFile (src : Source) : Type 0 where
  pub rest :
      (o : ℕ) (l : Line) (ls : List Line)
      → src.lines_from o ≡ l ∷ ls
      → (src.lines_from (o + l.bytes) ≡ ls) × (o + l.bytes ≤ src.size)

note_runtime-size :
    (t : EventType) (e : UsageEvent) (r : FileRow) → (note_runtime t e r).size ≡ r.size
unfolding note_runtime
note_runtime-size activity e r = refl
note_runtime-size runtime e r = refl
note_runtime-size live_estimate e r = refl
note_runtime-size _ e r = refl

note_counter-size : (t : EventType) (n : ℤ) (r : FileRow) → (note_counter t n r).size ≡ r.size
unfolding note_counter
note_counter-size exact_usage n r = refl
note_counter-size _ n r = refl

module _ (sha : List ℕ → String)
    (parse : String → ℕ → ParseContext → Option UsageEvent × ParseContext)
    (trace_of : UsageEvent → Option DeliveryTrace) where
  -- The lines one after the other, with no budget.
  unfoldable pub scan_all : List Line → Collected → Collected
  scan_all [] c = c
  scan_all (l ∷ ls) c = scan_all ls (scan_line sha parse trace_of l c)

  queue_event-size :
      (o : Option UsageEvent) (c : Collected)
      → (queue_event sha parse trace_of o c).row.size ≡ c.row.size
  unfolding queue_event
  queue_event-size none c = refl
  queue_event-size (some e) c =
      note_counter-size e.event_type _ _ ∙ note_runtime-size e.event_type e c.row

  scan_line-size :
      (l : Line) (c : Collected) → (scan_line sha parse trace_of l c).row.size ≡ c.row.size
  unfolding scan_line
  scan_line-size l c = queue_event-size _ _

  scan_line-offset :
      (l : Line) (c : Collected)
      → (scan_line sha parse trace_of l c).row.offset ≡ c.row.offset + l.bytes
  unfolding scan_line
  scan_line-offset l c = refl

  -- The collector stands in front of these lines of the file.
  record At (src : Source) (ls : List Line) (c : Collected) : Type 0 where
    pub lines : src.lines_from c.row.offset ≡ ls
    pub inside : c.row.offset ≤ src.size
    pub size : c.row.size ≡ src.size

  scan_line-At :
      (src : Source) (l : Line) (ls : List Line) (c : Collected)
      → IsFile src
      → At src (l ∷ ls) c
      → At src ls (scan_line sha parse trace_of l c)
  scan_line-At src l ls c file at_line =
      let (behind, inside) = file.rest c.row.offset l ls at_line.lines in
      record {
        lines = rw scan_line-offset behind;
        inside = rw scan_line-offset inside;
        size = scan_line-size l c ∙ at_line.size;
      }

  -- What a scan leaves undone is in front of the collector, and is less than there was.
  record Stops (src : Source) (ls : List Line) (c : Collected) (r : Collected × List Line)
      : Type 0 where
    pub at_rest : At src r.1 r.0
    pub same_end : scan_all r.1 r.0 ≡ scan_all ls c
    pub shorter : length r.1 ≤ length ls - 1

  scan_lines-Stops :
      (src : Source) (limited : Bool) (start count : ℕ) (ls : List Line) (c : Collected)
      → IsFile src
      → At src ls c
      → Stops src ls c (scan_lines sha parse trace_of limited start count ls c)
  unfolding scan_lines scan_all
  scan_lines-Stops src limited start count [] c file here = record {
    at_rest = here;
    same_end = refl;
    shorter = omega arith;
  }
  scan_lines-Stops src limited start count (l ∷ ls) c file here =
      let next = scan_line sha parse trace_of l c in
      let there = scan_line-At src l ls c file here in
      let more = scan_lines-Stops src limited start (suc count) ls next file there in
      elim (Bool-cases
        (limited && (leb 512 (suc count) || leb 1_048_576 (next.row.offset - start)))) [
          | inl full ↦ rw full (record { at_rest = there; same_end = refl; shorter = omega arith })
          | inr room ↦ rw room (record {
            at_rest = more.at_rest;
            same_end = more.same_end;
            shorter = omega (arith, more.shorter);
          })
        ]

  -- A budgeted scan again and again, `n` times.
  unfoldable pub rounds : ℕ → Source → Collected → Collected
  rounds zero src c = c
  rounds (suc n) src c = rounds n src (scan_one sha parse trace_of src true c)

  opened-At :
      (src : Source) (ls : List Line) (c : Collected) → At src ls c → opened src.size c.row ≡ c.row
  unfolding opened
  opened-At src ls c here = elim (Bool-cases (ltb src.size c.row.offset)) [
    | inl short ↦ absurd (not_less short)
    | inr long ↦ rw long (ap (λ n. record c.row { size = n }) (sym here.size))
  ]
    where
      not_less : ltb src.size c.row.offset ≡ true → ⊥
      not_less short = omega (tests, short, here.inside)

  scan_one-At :
      (src : Source) (limited : Bool) (ls : List Line) (c : Collected)
      → At src ls c
      → scan_one sha parse trace_of src limited c
        ≡ (scan_lines sha parse trace_of limited c.row.offset 0 ls c).0
  unfolding scan_one
  scan_one-At src limited ls c here =
      ap
        (λ r.
          (scan_lines sha parse trace_of limited r.offset 0 (src.lines_from r.offset)
            (record c { row = r })).0)
        (opened-At src ls c here)
      ∙ ap (λ t. (scan_lines sha parse trace_of limited c.row.offset 0 t c).0) here.lines

  rounds_all :
      (n : ℕ) (src : Source) (ls : List Line) (c : Collected)
      → IsFile src
      → At src ls c
      → length ls ≤ n
      → rounds n src c ≡ scan_all ls c
  unfolding rounds scan_all
  rounds_all zero src [] c file here few = refl
  rounds_all zero src (l ∷ ls) c file here few = absurd (omega (arith, few))
  rounds_all (suc n) src ls c file here few =
      let s = scan_lines-Stops src true c.row.offset 0 ls c file here in
      rw (scan_one-At src true ls c here)
        (rounds_all n src _ _ file s.at_rest (omega (arith, few, s.shorter)) ∙ s.same_end)

  scan_lines-all :
      (start count : ℕ) (ls : List Line) (c : Collected)
      → (scan_lines sha parse trace_of false start count ls c).0 ≡ scan_all ls c
  unfolding scan_lines scan_all
  scan_lines-all start count [] c = refl
  scan_lines-all start count (l ∷ ls) c = scan_lines-all start (suc count) ls _

  reopened : Source → Collected → Collected
  reopened src c = record c { row = opened src.size c.row }

  reopened-At :
      (src : Source) (c : Collected)
      → At src (src.lines_from (opened src.size c.row).offset) (reopened src c)
  unfolding opened reopened
  reopened-At src c = record { lines = refl; inside = ground arith; size = ground arith }

  scan_one-reopened :
      (src : Source) (limited : Bool) (c : Collected)
      → scan_one sha parse trace_of src limited (reopened src c)
        ≡ scan_one sha parse trace_of src limited c
  unfolding scan_one reopened
  scan_one-reopened src limited c =
      ap
        (λ r.
          (scan_lines sha parse trace_of limited r.offset 0 (src.lines_from r.offset)
            (record c { row = r })).0)
        (opened-At src _ (reopened src c) (reopened-At src c))

  -- However the budget cuts a file that stays as it is into scans, as many scans as there are lines
  -- left, one at least, leave the checkpoint and the queue as one scan without a budget does: no line
  -- is skipped or read twice, and the generations, which are the epochs and part of the ids of the
  -- events, are the same.
  pub rounds_as_one :
      (n : ℕ) (src : Source) (c : Collected)
      → IsFile src
      → length (src.lines_from (opened src.size c.row).offset) ≤ suc n
      → rounds (suc n) src c ≡ scan_one sha parse trace_of src false c
  unfolding rounds
  rounds_as_one n src c file few =
      ap (rounds n src) (sym (scan_one-reopened src true c))
      ∙ rounds_all (suc n) src _ (reopened src c) file (reopened-At src c) few
      ∙ sym (scan_one-At src false _ (reopened src c) (reopened-At src c) ∙ scan_lines-all _ 0 _ _)
      ∙ scan_one-reopened src false c
