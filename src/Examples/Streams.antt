-- ===== src/Examples/Streams.antt =====
-- The theorem of the numeric stream on a run with one browser: rows show a number of tokens.
use codex_token_meter.Prelude.{
  ℕ, String, Bool, true, ◌&&◌, none, some, List, [], ◌∷◌, ◌==◌, Keyed, text_eq, nat_eq, ◌≡◌, ◌↔◌,
  refl, arith, Holds-nil,
}
use mathlib.Core.Path.{subst}
use codex_token_meter.Pricing.Sums.{row_key}
use codex_token_meter.Range.{Query}
use codex_token_meter.Stream.{Row, Snapshot, by_key, keys, changed_rows}
use codex_token_meter.Stream.Diffs.{AreDistinct, row_of, patched, patched-changed_rows}
use codex_token_meter.Stream.Views.{NumericViews}
use codex_token_meter.Stream.Revisions.{IsViewFor, Follows}
use codex_token_meter.Stream.Sessions.{
  Event, fetched, told, passed_by, read_by_other, run, run-Follows, Builds,
}

abbrev pub row_same : Row ℕ → Row ℕ → Bool
row_same a b =
    a.host_id == b.host_id && a.conversation_id == b.conversation_id && a.shown == b.shown

pub row_same_iff : (a b : Row ℕ) → (row_same a b ≡ true) ↔ (a ≡ b)
row_same_iff a b = ground (
  arith,
  text_eq.same_iff a.host_id b.host_id,
  text_eq.same_iff a.conversation_id b.conversation_id,
  nat_eq.same_iff a.shown b.shown,
)

instance abbrev pub row_eq : Keyed (Row ℕ)
row_eq = record { same = row_same; same_iff = row_same_iff }

abbrev pub row : String → ℕ → Row ℕ
row id n = record { host_id = "host"; conversation_id = id; shown = n }

abbrev snapshot : ℕ → List (Row ℕ) → Snapshot ℕ ℕ
snapshot n shown = record {
  revision = 0;
  data_revision = n;
  range_start = 0;
  range_end = n;
  period = "all";
  sessions = shown;
  sums = 0;
}

abbrev before : Snapshot ℕ ℕ
before = snapshot 1 (row "a" 5 ∷ row "b" 7 ∷ [])

abbrev after : Snapshot ℕ ℕ
after = snapshot 2 (row "b" 9 ∷ row "c" 1 ∷ [])

before-AreDistinct : AreDistinct before.sessions
unfolding row_key
before-AreDistinct = (refl, (refl, tt))

after-AreDistinct : AreDistinct after.sessions
unfolding row_key
after-AreDistinct = (refl, (refl, tt))

after-Builds : Builds (λ _. some after)
after-Builds old value e = subst (λ s. AreDistinct s.sessions) (found e) after-AreDistinct
  where
    found : some after ≡ some value → after ≡ value
    found k = cc

abbrev everything : Query
everything = record { period = "all"; from = ""; to = "" }

abbrev no_views : NumericViews ℕ ℕ
no_views = record { entries = []; sequence = 0 }

abbrev afternoon : List (Event ℕ ℕ)
afternoon =
    fetched everything before 10
    ∷ passed_by "today" (λ d. 100) (λ _. some after) everything 11
    ∷ told (λ d. 100) (λ _. some after) everything 12
    ∷ read_by_other "24h" everything after 13
    ∷ []

no_views-Follows : Follows "all" none no_views
no_views-Follows = record {
  behind = tt;
  entry = λ v found. Holds-nil (IsViewFor none 0) "all" v found;
}

run-Follows_example :
    Follows "all" (run "all" afternoon (no_views, none)).1 (run "all" afternoon (no_views, none)).0
run-Follows_example =
    run-Follows "all" afternoon no_views none
      (before-AreDistinct, (after-Builds, (after-Builds, (after-AreDistinct, tt)))) no_views-Follows

patched-changed_rows_example :
    row_of (row_key "host" "b") (
      patched
        (changed_rows after.sessions (by_key before.sessions [])).0
        (keys (changed_rows after.sessions (by_key before.sessions [])).1)
        before.sessions)
    ≡ row_of (row_key "host" "b") after.sessions
patched-changed_rows_example =
    patched-changed_rows (row_key "host" "b") before.sessions after.sessions before.sessions
      before-AreDistinct after-AreDistinct refl
