-- ===== src/Examples/Scans.antt =====
-- The theorem about scans on a file of two lines.
use codex_token_meter.Prelude.{
  ℕ, ◌+◌, ◌-◌, ◌≤◌, String, false, Option, none, some, List, [], ◌∷◌, ltb, eqb, if◌then◌else◌, ◌≡◌,
  refl, arith, All,
}
use codex_token_meter.Types.{UsageEvent}
use codex_token_meter.Scan.{ParseContext, Collected, Line, Source, opened, first_row, scan_one}
use codex_token_meter.Scan.Rounds.{IsFile, rounds, rounds_as_one}
use codex_token_meter.Examples.{small_hash, usage}

-- What is behind an offset: nothing if it is inside a line.
from_offset : ℕ → List Line → List Line
from_offset o [] = []
from_offset o (l ∷ ls) =
    let later = from_offset (o - l.bytes) ls in
    if eqb o 0 then l ∷ ls else if ltb o l.bytes then [] else later

bytes_of : List Line → ℕ
bytes_of [] = 0
bytes_of (l ∷ ls) = l.bytes + bytes_of ls

abbrev file_of : List Line → Source
file_of ls = record { size = bytes_of ls; lines_from = λ o. from_offset o ls }

from_offset-zero : (ls : List Line) → from_offset 0 ls ≡ ls
unfolding from_offset
from_offset-zero [] = refl
from_offset-zero (l ∷ ls) = refl

from_offset-rest :
    (all : List Line) (o : ℕ) (l : Line) (ls : List Line)
    → All (λ m. 1 ≤ m.bytes) all
    → from_offset o all ≡ l ∷ ls
    → (from_offset (o + l.bytes) all ≡ ls) × (o + l.bytes ≤ bytes_of all)
unfolding from_offset bytes_of
from_offset-rest [] o l ls full h = absurd (nil_cons h)
  where
    nil_cons : [] ≡ l ∷ ls → ⊥
    nil_cons e = cc
from_offset-rest (m ∷ ms) o l ls full h =
    ground (arith, h, from_offset-zero ms, from_offset-rest ms (o - m.bytes) l ls full.1, full.0)

abbrev two_lines : List Line
two_lines = record { bytes = 40; text = "x" } ∷ record { bytes = 30; text = "y" } ∷ []

two_lines-IsFile : IsFile (file_of two_lines)
two_lines-IsFile = record {
  rest = λ o l ls. from_offset-rest two_lines o l ls (omega arith, (omega arith, tt));
}

-- Every line holds a usage; the second total is smaller.
abbrev parse : String → ℕ → ParseContext → Option UsageEvent × ParseContext
parse text offset context = (some (usage text "t" 0 (100 - offset) 5), context)

abbrev fresh : Collected
fresh = record { row = first_row "file" 70; spool = [] }

rounds_as_one_example :
    rounds small_hash parse (λ e. none) 2 (file_of two_lines) fresh
    ≡ scan_one small_hash parse (λ e. none) (file_of two_lines) false fresh
unfolding opened from_offset bytes_of
rounds_as_one_example =
    rounds_as_one small_hash parse (λ e. none) 1 (file_of two_lines) fresh two_lines-IsFile
      (omega arith)
