-- ===== src/Stream/Sessions.antt =====
-- Runs of the server's numeric stream with one browser at one key among any other readers.
use codex_token_meter.Prelude.{
  ℕ, String, Option, none, some, List, [], ◌∷◌, ◌==◌, Keyed, text_eq, nat_eq, ◌≡◌, refl, inl, inr,
  Bool-cases, lookup, All,
}
use codex_token_meter.Types.{Time}
use codex_token_meter.Range.{Query}
use codex_token_meter.Stream.{Row, Snapshot, Difference}
use codex_token_meter.Stream.Diffs.{AreDistinct}
use codex_token_meter.Stream.Views.{
  NumericView, NumericViews, adopt, adopt_by, message_after, message_built, message_from,
  numeric_message,
}
use codex_token_meter.Stream.Revisions.{
  Browser, Follows, adopt-Follows, adopt_by-Follows, adopt_by-value,
}
use codex_token_meter.Stream.Follow.{
  receive, publish_next-Follows, numeric_message-InStep, fetch-Follows,
}

-- What happens at the server: a snapshot is built for any reader, for this browser's own request, a
-- message for this browser reaches it, or a message for any key goes past it.
pub data Event (Shown Sums : Type 0) : Type 0 where
  read_by_other : String → Query → Snapshot Shown Sums → Time → Event Shown Sums
  fetched : Query → Snapshot Shown Sums → Time → Event Shown Sums
  told :
      (Difference Shown Sums → ℕ)
      → (Snapshot Shown Sums → Option (Snapshot Shown Sums))
      → Query
      → Time
      → Event Shown Sums
  passed_by :
      String
      → (Difference Shown Sums → ℕ)
      → (Snapshot Shown Sums → Option (Snapshot Shown Sums))
      → Query
      → Time
      → Event Shown Sums

module _ {Shown Sums : Type 0} ⦃rows : Keyed (Row Shown)⦄ ⦃totals : Keyed Sums⦄ where
  abbrev pub fetched_state :
      NumericViews Shown Sums × Snapshot Shown Sums → NumericViews Shown Sums × Browser Shown
  fetched_state (s, v) = (s, some (v.revision, v.sessions))

  abbrev pub step :
      String
      → Event Shown Sums
      → NumericViews Shown Sums × Browser Shown
      → NumericViews Shown Sums × Browser Shown
  step key (read_by_other other query value now) (s, b) = ((adopt other query value now s).0, b)
  step key (fetched query value now) (s, b) = fetched_state (adopt key query value now s)
  step key (told size build query now) (s, b) =
      let answer = numeric_message size build key query now s in (answer.0, receive b answer.1)
  step key (passed_by other size build query now) (s, b) =
      ((numeric_message size build other query now s).0, b)

  abbrev pub run :
      String
      → List (Event Shown Sums)
      → NumericViews Shown Sums × Browser Shown
      → NumericViews Shown Sums × Browser Shown
  run key [] st = st
  run key (e ∷ es) st = run key es (step key e st)

  abbrev pub Builds : (Snapshot Shown Sums → Option (Snapshot Shown Sums)) → Type 0
  Builds build =
      (before value : Snapshot Shown Sums) → build before ≡ some value → AreDistinct value.sessions

  -- Each snapshot that is built has one row for a conversation.
  abbrev pub IsGrouped : Event Shown Sums → Type 0
  IsGrouped (read_by_other other query value now) = AreDistinct value.sessions
  IsGrouped (fetched query value now) = AreDistinct value.sessions
  IsGrouped (told size build query now) = Builds build
  IsGrouped (passed_by other size build query now) = Builds build

  after-Follows :
      (size : Difference Shown Sums → ℕ) (key other : String) (b : Browser Shown)
      (base next : Snapshot Shown Sums) (s : NumericViews Shown Sums)
      → ((v : NumericView Shown Sums) → lookup other s.entries ≡ some v → v.value ≡ next)
      → Follows key b s
      → Follows key b (message_after size other base (s, next)).0
  unfolding message_after
  after-Follows size key other b base next s same h =
      elim (Bool-cases (base.revision == next.revision)) [
        | inl quiet ↦ rw quiet h
        | inr news ↦ rw news (publish_next-Follows key other b next s h same)
      ]

  built-Follows :
      (size : Difference Shown Sums → ℕ) (key other : String) (query : Query) (now : Time)
      (b : Browser Shown) (s : NumericViews Shown Sums) (v : NumericView Shown Sums)
      (next : Option (Snapshot Shown Sums))
      → ((value : Snapshot Shown Sums) → next ≡ some value → AreDistinct value.sessions)
      → Follows key b s
      → Follows key b (message_built size other query now s v next).0
  unfolding adopt
  built-Follows size key other query now b s v none d h = h
  built-Follows size key other query now b s v (some value) d h =
      let o = lookup other s.entries in
      after-Follows size key other b v.published (adopt_by other query value now s o).1
        (adopt_by other query value now s o).0
        (λ w found. adopt_by-value other query value now s o w refl found)
        (adopt_by-Follows key other query value now b s o (d value refl) h)

  from-Follows :
      (size : Difference Shown Sums → ℕ)
      (build : Snapshot Shown Sums → Option (Snapshot Shown Sums)) (key other : String)
      (query : Query) (now : Time) (b : Browser Shown) (s : NumericViews Shown Sums)
      (o : Option (NumericView Shown Sums))
      → Builds build
      → Follows key b s
      → Follows key b (message_from size build other query now s o).0
  from-Follows size build key other query now b s none d h = h
  from-Follows size build key other query now b s (some v) d h =
      built-Follows size key other query now b s v (build v.value) (d v.value) h

  passed_by-Follows :
      (size : Difference Shown Sums → ℕ)
      (build : Snapshot Shown Sums → Option (Snapshot Shown Sums)) (key other : String)
      (query : Query) (now : Time) (b : Browser Shown) (s : NumericViews Shown Sums)
      → Builds build
      → Follows key b s
      → Follows key b (numeric_message size build other query now s).0
  unfolding numeric_message
  passed_by-Follows size build key other query now b s d h =
      from-Follows size build key other query now b s (lookup other s.entries) d h

  step-Follows :
      (key : String) (e : Event Shown Sums) (s : NumericViews Shown Sums) (b : Browser Shown)
      → IsGrouped e
      → Follows key b s
      → Follows key (step key e (s, b)).1 (step key e (s, b)).0
  step-Follows key (read_by_other other query value now) s b d h =
      adopt-Follows key other query value now b s d h
  step-Follows key (fetched query value now) s b d h = fetch-Follows key query value now b s d h
  step-Follows key (told size build query now) s b d h =
      (numeric_message-InStep size build key query now b s d h).1
  step-Follows key (passed_by other size build query now) s b d h =
      passed_by-Follows size build key other query now b s d h

  -- Whatever snapshots are read and whatever messages reach the browser or go past it, a browser whose
  -- revision is that of the snapshot last published, or last kept, under its key shows that snapshot's
  -- row under each key of a conversation; every snapshot that is built has one row for a conversation,
  -- and this holds at the start.
  pub run-Follows :
      (key : String) (es : List (Event Shown Sums)) (s : NumericViews Shown Sums)
      (b : Browser Shown)
      → All IsGrouped es
      → Follows key b s
      → Follows key (run key es (s, b)).1 (run key es (s, b)).0
  run-Follows key [] s b d h = h
  run-Follows key (e ∷ es) s b d h =
      run-Follows key es (step key e (s, b)).0 (step key e (s, b)).1 d.1
        (step-Follows key e s b d.0 h)
