-- ===== src/Partial.antt =====
-- numeric_incremental.go: which conversations a new snapshot asks the ledger for again, the rows of
-- the others taken from the last snapshot, and the totals of the projects.
pub mod Window
pub mod Merged
pub mod Totals
use Prim.Native.String.{◌++◌ as ◌<>◌}
use codex_token_meter.Prelude.{
  ℕ, suc, ◌+◌, ℤ, pos, ◌+ℤ◌, ltb_ℤ, eqb_ℤ, String, Bool, true, false, not, ◌&&◌, ◌||◌, Option, none,
  some, List, [], ◌∷◌, ◌++◌, map, keep, any, take, length, sort, ltb, text_leb, text_ltb, ◌==◌,
  text_eq, nat_eq, if◌then◌else◌, Table, upsert, Keyed,
}
use codex_token_meter.Types.{Time}
use codex_token_meter.Ledger.Db.{UsageRow}
use codex_token_meter.Pricing.{Floats, Clocks}
use codex_token_meter.Pricing.Sums.{row_key, usage_clock, in_window, by_id}
use codex_token_meter.Range.{DashboardRange}
use codex_token_meter.Stream.{Row, key_of}
use codex_token_meter.Stream.Diffs.{has}

-- The watermark as far as `prepareIncremental` reads it.
pub record Mark : Type 0 where
  pub server_epoch : String
  pub full_revision : ℕ

-- What it reads of the last snapshot; `known` holds the keys of its rows.
pub record Prior : Type 0 where
  pub mark : Mark
  pub query_key : String
  pub ledger_revision : ℕ
  pub range_start : Time
  pub range_end : Time
  pub known : List String

abbrev pub usage_key : UsageRow → String
usage_key r = row_key r.host_id r.conversation_id

module _ (clocks : Clocks) where
  abbrev pub moment : UsageRow → String
  moment r = usage_clock (clocks.nanoseconds r.timestamp)

  -- The query's WHERE: a new row, or one that a moving edge of the range has passed.
  unfoldable pub is_affected : Prior → DashboardRange → UsageRow → Bool
  is_affected prior r row =
      ltb prior.ledger_revision row.id
      || in_window (clocks.usage_bound prior.range_start) (clocks.usage_bound r.start) (moment row)
      || in_window (clocks.usage_bound prior.range_end) (clocks.usage_bound r.end) (moment row)

  -- `SELECT DISTINCT`.
  unfoldable pub distinct_keys : List UsageRow → List String
  distinct_keys [] = []
  distinct_keys (r ∷ rows) =
      let rest = distinct_keys rows in if has (usage_key r) rest then rest else usage_key r ∷ rest

  abbrev pub all_known : List String → List String → Bool
  all_known known [] = true
  all_known known (k ∷ ks) = has k known && all_known known ks

  -- The keys to ask for again, or none where a whole snapshot is due; `read` says that the query
  -- works.
  unfoldable pub prepare_incremental :
      Bool → Mark → String → DashboardRange → Prior → List UsageRow → Option (List String)
  unfolding is_affected distinct_keys
  prepare_incremental read mark query_key r prior ledger =
      let keys = take 257 (distinct_keys (keep (is_affected prior r) ledger)) in
      if not (mark.server_epoch == prior.mark.server_epoch)
        || not (mark.full_revision == prior.mark.full_revision)
        || not (query_key == prior.query_key)
      then none
      else if ltb r.start prior.range_start
          || ltb r.end prior.range_end
          || (not (r.period == "24h") && not (r.start == prior.range_start))
      then none
      else if not read || not (all_known prior.known keys)
      then none
      else if ltb 256 (length keys)
      then none
      else some keys

module _ {Shown : Type 0} ⦃rows : Keyed (Row Shown)⦄ (last_event_at : Row Shown → String) where
  -- `sort.SliceStable` by the last event, the latest first.
  abbrev pub later_first : Row Shown → Row Shown → Bool
  later_first a b = text_leb (last_event_at b) (last_event_at a)

  unfoldable pub merge_rows :
      Option (List String) → List (Row Shown) → List (Row Shown) → List (Row Shown)
  merge_rows none prior changed = changed
  merge_rows (some scope) prior changed =
      sort later_first (keep (λ r. not (has (key_of r) scope)) prior ++ changed)

-- The columns of a row that the projects add up.
pub record Columns (f : Floats) : Type 0 where
  pub parent_conversation_id : String
  pub project : String
  pub input_tokens : ℤ
  pub output_tokens : ℤ
  pub total_tokens : ℤ
  pub api_cost : f.Float
  pub vercel_cost : f.Float
  pub credits : f.Float

-- `projectAggregate`; `roots` is the set of the root conversations.
pub record ProjectAggregate (f : Floats) : Type 0 where
  pub host_id : String
  pub project : String
  pub roots : List String
  pub record_count : ℕ
  pub input_tokens : ℤ
  pub output_tokens : ℤ
  pub total_tokens : ℤ
  pub api_cost : f.Float
  pub vercel_cost : f.Float
  pub credits : f.Float

module _ (f : Floats) where
  abbrev pub new_project : String → String → ProjectAggregate f
  new_project host project = record {
    host_id = host;
    project = project;
    roots = [];
    record_count = 0;
    input_tokens = pos 0;
    output_tokens = pos 0;
    total_tokens = pos 0;
    api_cost = f.of_int (pos 0);
    vercel_cost = f.of_int (pos 0);
    credits = f.of_int (pos 0);
  }

  abbrev pub or_new : String → String → Option (ProjectAggregate f) → ProjectAggregate f
  or_new host project none = new_project host project
  or_new host project (some g) = g

  -- One row joins its project.
  unfoldable pub with_row : Row (Columns f) → ProjectAggregate f → ProjectAggregate f
  with_row r g =
      let c = r.shown in
      let root =
        if c.parent_conversation_id == "" then r.conversation_id else c.parent_conversation_id in
      record {
        host_id = g.host_id;
        project = g.project;
        roots = if has root g.roots then g.roots else root ∷ g.roots;
        record_count = suc g.record_count;
        input_tokens = g.input_tokens +ℤ c.input_tokens;
        output_tokens = g.output_tokens +ℤ c.output_tokens;
        total_tokens = g.total_tokens +ℤ c.total_tokens;
        api_cost = f.plus g.api_cost c.api_cost;
        vercel_cost = f.plus g.vercel_cost c.vercel_cost;
        credits = f.plus g.credits c.credits;
      }

  unfoldable pub grouped :
      List (Row (Columns f)) → Table String (ProjectAggregate f) → Table String (ProjectAggregate f)
  unfolding with_row
  grouped [] groups = groups
  grouped (r ∷ rows) groups = grouped rows (
      upsert (row_key r.host_id r.shown.project)
        (λ g. with_row r (or_new r.host_id r.shown.project g)) groups)

  abbrev pub projects : Table String (ProjectAggregate f) → List (ProjectAggregate f)
  projects [] = []
  projects ((k, g) ∷ groups) = g ∷ projects groups

  -- By host, then the larger total first, then the name.
  unfoldable pub project_less : ProjectAggregate f → ProjectAggregate f → Bool
  project_less a b =
      if not (a.host_id == b.host_id)
      then text_ltb a.host_id b.host_id
      else if eqb_ℤ a.total_tokens b.total_tokens
      then text_ltb a.project b.project
      else ltb_ℤ b.total_tokens a.total_tokens

  unfoldable pub project_totals_from_rows : List (Row (Columns f)) → List (ProjectAggregate f)
  unfolding grouped project_less
  project_totals_from_rows rows = sort (λ a b. not (project_less b a)) (projects (grouped rows []))
