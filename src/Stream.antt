-- ===== src/Stream.antt =====
-- numeric_stream.go: the views of the ledger that browsers follow by differences. A snapshot's rows
-- and the columns that the stream compares are values with a test for equality; a `Shown` is any
-- other column. Building a snapshot and encoding a message are parameters.
pub mod Diffs
pub mod Views
pub mod Revisions
pub mod Follow
pub mod Sessions
use codex_token_meter.Prelude.{
  ℕ, suc, ◌*◌, String, Bool, true, false, not, ◌&&◌, ◌||◌, Option, none, some, List, [], ◌∷◌, map,
  keep, any, length, ltb, leb, ◌==◌, Keyed, text_eq, nat_eq, if◌then◌else◌, Table, lookup, upsert,
  modify, remove,
}
use codex_token_meter.Types.{Time}
use codex_token_meter.Pricing.Sums.{row_key}

-- The columns of a row that the stream reads, and the others.
pub record Row (Shown : Type 0) : Type 0 where
  pub host_id : String
  pub conversation_id : String
  pub shown : Shown

-- What is compared to tell whether accounting changed, besides the rows.
pub record Snapshot (Shown Sums : Type 0) : Type 0 where
  pub revision : ℕ
  pub data_revision : ℕ
  pub range_start : Time
  pub range_end : Time
  pub period : String
  pub sessions : List (Row Shown)
  pub sums : Sums

-- `numericDifference`'s result: the snapshot without its rows, and what became of the rows.
pub record Difference (Shown Sums : Type 0) : Type 0 where
  pub revision : ℕ
  pub data_revision : ℕ
  pub range_start : Time
  pub range_end : Time
  pub period : String
  pub sums : Sums
  pub base_revision : ℕ
  pub base_range_end : Time
  pub sessions : List (Row Shown)
  pub removed : List String

module _ {Shown : Type 0} ⦃rows : Keyed (Row Shown)⦄ where
  abbrev pub key_of : Row Shown → String
  key_of r = row_key r.host_id r.conversation_id

  -- `reflect.DeepEqual(old[key], row)`.
  abbrev pub is_row : Option (Row Shown) → Row Shown → Bool
  is_row none r = false
  is_row (some s) r = s == r

  -- The loop over the new rows: those that differ from `old`, and what stays of `old`.
  unfoldable pub changed_rows :
      List (Row Shown) → Table String (Row Shown) → List (Row Shown) × Table String (Row Shown)
  changed_rows [] old = ([], old)
  changed_rows (r ∷ after) old =
      let same = is_row (lookup (key_of r) old) r in
      let rest = changed_rows after (remove (key_of r) old) in
      (if same then rest.0 else r ∷ rest.0, rest.1)

  -- The map of the old rows by key; of two rows with one key the later stays.
  unfoldable pub by_key : List (Row Shown) → Table String (Row Shown) → Table String (Row Shown)
  by_key [] old = old
  by_key (r ∷ before) old = by_key before (upsert (key_of r) (λ _. r) old)

  abbrev pub keys : Table String (Row Shown) → List String
  keys [] = []
  keys ((k, r) ∷ old) = k ∷ keys old

  unfoldable pub same_rows : List (Row Shown) → List (Row Shown) → Bool
  same_rows [] [] = true
  same_rows (r ∷ rs) (s ∷ ss) = r == s && same_rows rs ss
  same_rows _ _ = false

module _ {Shown Sums : Type 0} ⦃rows : Keyed (Row Shown)⦄ ⦃totals : Keyed Sums⦄ where
  unfoldable pub numeric_difference :
      Snapshot Shown Sums → Snapshot Shown Sums → Difference Shown Sums
  unfolding changed_rows by_key
  numeric_difference before after =
      let rest = changed_rows after.sessions (by_key before.sessions []) in
      record {
        revision = after.revision;
        data_revision = after.data_revision;
        range_start = after.range_start;
        range_end = after.range_end;
        period = after.period;
        sums = after.sums;
        base_revision = before.revision;
        base_range_end = before.range_end;
        sessions = rest.0;
        removed = keys rest.1;
      }

  unfoldable pub same_accounting : Snapshot Shown Sums → Snapshot Shown Sums → Bool
  unfolding same_rows
  same_accounting a b =
      a.range_start == b.range_start
      && a.period == b.period
      && same_rows a.sessions b.sessions
      && a.sums == b.sums
