-- ===== src/Stream/Follow.antt =====
-- A browser that follows the stream of one key, whoever else reads it, shows the rows it should.
use codex_token_meter.Prelude.{
  ℕ, String, true, false, Option, none, some, List, ltb, ◌==◌, Keyed, text_eq, nat_eq, ◌≡◌, refl,
  sym, ap, ◌∙◌, inl, inr, Bool-cases, if◌then◌else◌, lookup, modify, modify-cases, beq_self,
}
use mathlib.Core.Path.{subst}
use codex_token_meter.Types.{Time}
use codex_token_meter.Range.{Query}
use codex_token_meter.Stream.{Row, Snapshot, Difference, numeric_difference}
use codex_token_meter.Stream.Diffs.{row_of, AreDistinct, patched, patched-changed_rows}
use codex_token_meter.Stream.Views.{
  NumericView, NumericViews, StreamMessage, missing_base, database_unavailable, large_change,
  numbers, adopt, adopt_by, message_after, message_built, message_from, numeric_message,
  max_message,
}
use codex_token_meter.Stream.Revisions.{
  Browser, IsSnapshotFor, IsViewFor, Follows, adopt_by-Follows, adopt_by-value, adopt_by-fits,
}

module _ {Shown Sums : Type 0} ⦃rows : Keyed (Row Shown)⦄ ⦃totals : Keyed Sums⦄ where
  -- A browser takes a difference from the revision it has, and asks for a whole snapshot on any other
  -- message.
  abbrev pub receive : Browser Shown → Option (StreamMessage Shown Sums) → Browser Shown
  receive b none = b
  receive none (some m) = none
  receive (some (revision, shown)) (some (numbers d)) =
      if revision == d.base_revision
      then some (d.revision, patched d.sessions d.removed shown)
      else none
  receive (some (revision, shown)) (some _) = none

  lost :
      (n : ℕ) (b : Browser Shown) (s : Snapshot Shown Sums)
      → IsSnapshotFor b n s
      → IsSnapshotFor none n s
  lost n b s h = record { numbered_below = h.numbered_below; distinct = h.distinct; agrees = tt }

  -- A browser that waits for a whole snapshot shows nothing wrong.
  Follows-none :
      (key : String) (b : Browser Shown) (s : NumericViews Shown Sums)
      → Follows key b s
      → Follows key none s
  Follows-none key b s h = record {
    behind = tt;
    entry = λ v found. record {
      value_fits = lost s.sequence b v.value (h.entry v found).value_fits;
      published_fits = lost s.sequence b v.published (h.entry v found).published_fits;
      coherent = (h.entry v found).coherent;
    };
  }

  abbrev pub publish_next :
      String → Snapshot Shown Sums → NumericViews Shown Sums → NumericViews Shown Sums
  publish_next key next s = record s {
    entries = modify key (λ w. record w { published = next }) s.entries;
  }

  -- The state behind a message, for a browser that shows the new snapshot if it has its revision.
  pub publish_next-Follows :
      (key other : String) (b : Browser Shown) (next : Snapshot Shown Sums)
      (s : NumericViews Shown Sums)
      → Follows key b s
      → ((v : NumericView Shown Sums) → lookup other s.entries ≡ some v → v.value ≡ next)
      → Follows key b (publish_next other next s)
  publish_next-Follows key other b next s h same = record {
    behind = h.behind;
    entry = λ v found.
        elim (modify-cases other key (λ w. record w { published = next }) s.entries v found) [
          | inl (here, (x, old, made)) ↦
              let at_other =
                subst (λ k. lookup k s.entries ≡ some x) (sym ((text_eq.same_iff other key).0 here))
                  old in
              subst (IsViewFor b s.sequence) made (record {
                value_fits = (h.entry x old).value_fits;
                published_fits =
                    subst (IsSnapshotFor b s.sequence) (same x at_other) (h.entry x old).value_fits;
                coherent = λ e k. ap (λ t. row_of k t.sessions) (sym (same x at_other));
              })
          | inr (apart, old) ↦ h.entry v old
        ];
  }

  -- The state behind a difference that a browser has applied.
  applied-Follows :
      (key : String) (b : Browser Shown) (shown : List (Row Shown)) (next : Snapshot Shown Sums)
      (s : NumericViews Shown Sums)
      → IsSnapshotFor b s.sequence next
      → ((v : NumericView Shown Sums) → lookup key s.entries ≡ some v → v.value ≡ next)
      → ((k : String) → row_of k shown ≡ row_of k next.sessions)
      → Follows key (some (next.revision, shown)) (publish_next key next s)
  applied-Follows key b shown next s fits same agrees = record {
    behind = fits.numbered_below;
    entry = λ v found.
        elim (modify-cases key key (λ w. record w { published = next }) s.entries v found) [
          | inl (here, (x, old, made)) ↦
              subst (IsViewFor (some (next.revision, shown)) s.sequence) made (record {
                value_fits =
                    subst (IsSnapshotFor (some (next.revision, shown)) s.sequence)
                      (sym (same x old)) now_fits;
                published_fits = now_fits;
                coherent = λ e k. ap (λ t. row_of k t.sessions) (sym (same x old));
              })
          | inr (apart, old) ↦ absurd (true_false (sym (beq_self key) ∙ apart))
        ];
  }
    where
      now_fits : IsSnapshotFor (some (next.revision, shown)) s.sequence next
      now_fits = record {
        numbered_below = fits.numbered_below;
        distinct = fits.distinct;
        agrees = λ e. agrees;
      }

      true_false : true ≡ false → ⊥
      true_false e = cc

  -- What a step of the stream leaves of a browser that gets its message, and of one that misses it.
  abbrev pub InStep :
      String → Browser Shown → NumericViews Shown Sums × Option (StreamMessage Shown Sums) → Type 0
  InStep key b (s, m) = Follows key b s × Follows key (receive b m) s

  receive-Follows :
      (key : String) (b : Browser Shown) (base next : Snapshot Shown Sums)
      (s : NumericViews Shown Sums) (n : ℕ)
      → IsSnapshotFor b n base
      → IsSnapshotFor b s.sequence next
      → ((v : NumericView Shown Sums) → lookup key s.entries ≡ some v → v.value ≡ next)
      → Follows key b (publish_next key next s)
      → Follows key
          (receive b (some (numbers (numeric_difference base next))))
          (publish_next key next s)
  unfolding numeric_difference
  receive-Follows key none base next s n old fits same h = h
  receive-Follows key (some (revision, shown)) base next s n old fits same h =
      elim (Bool-cases (revision == base.revision)) [
        | inl e ↦ rw e (
            applied-Follows key (some (revision, shown)) _ next s fits same (λ k.
              patched-changed_rows k base.sessions next.sessions shown old.distinct fits.distinct
                (old.agrees ((nat_eq.same_iff revision base.revision).0 e) k)))
        | inr e ↦ rw e (Follows-none key (some (revision, shown)) (publish_next key next s) h)
      ]

  message_after-InStep :
      (size : Difference Shown Sums → ℕ) (key : String) (b : Browser Shown)
      (base next : Snapshot Shown Sums) (s : NumericViews Shown Sums) (n : ℕ)
      → IsSnapshotFor b n base
      → IsSnapshotFor b s.sequence next
      → ((v : NumericView Shown Sums) → lookup key s.entries ≡ some v → v.value ≡ next)
      → Follows key b s
      → InStep key b (message_after size key base (s, next))
  unfolding message_after
  message_after-InStep size key b base next s n old fits same h =
      let after = publish_next-Follows key key b next s h same in
      elim (Bool-cases (base.revision == next.revision)) [
        | inl quiet ↦ rw quiet (h, h)
        | inr told ↦ elim (Bool-cases (ltb max_message (size (numeric_difference base next)))) [
          | inl large ↦ rw (told, large) (after, lost_after b after)
          | inr fine ↦
              rw (told, fine) (after, receive-Follows key b base next s n old fits same after)
        ]
      ]
    where
      lost_after :
          (c : Browser Shown)
          → Follows key c (publish_next key next s)
          → Follows key (receive c (some large_change)) (publish_next key next s)
      lost_after none k = k
      lost_after (some r) k = Follows-none key (some r) (publish_next key next s) k

  told_missing :
      (key : String) (b : Browser Shown) (s : NumericViews Shown Sums)
      → Follows key b s
      → InStep key b (s, some missing_base)
  told_missing key none s h = (h, h)
  told_missing key (some r) s h = (h, Follows-none key (some r) s h)

  told_unavailable :
      (key : String) (b : Browser Shown) (s : NumericViews Shown Sums)
      → Follows key b s
      → InStep key b (s, some database_unavailable)
  told_unavailable key none s h = (h, h)
  told_unavailable key (some r) s h = (h, Follows-none key (some r) s h)

  message_built-InStep :
      (size : Difference Shown Sums → ℕ) (key : String) (query : Query) (now : Time)
      (b : Browser Shown) (s : NumericViews Shown Sums) (v : NumericView Shown Sums)
      (next : Option (Snapshot Shown Sums))
      → ((value : Snapshot Shown Sums) → next ≡ some value → AreDistinct value.sessions)
      → lookup key s.entries ≡ some v
      → Follows key b s
      → InStep key b (message_built size key query now s v next)
  unfolding adopt
  message_built-InStep size key query now b s v none d at h = told_unavailable key b s h
  message_built-InStep size key query now b s v (some value) d at h =
      subst
        (λ o. InStep key b (message_after size key v.published (adopt_by key query value now s o)))
        (sym at)
        (message_after-InStep size key b v.published (adopt_by key query value now s (some v)).1
          (adopt_by key query value now s (some v)).0 s.sequence (h.entry v at).published_fits
          (adopt_by-fits key query value now b s (some v) (d value refl) h.behind
            (λ w e. h.entry w (at ∙ e)))
          (λ w found. adopt_by-value key query value now s (some v) w at found)
          (adopt_by-Follows key key query value now b s (some v) (d value refl) h))

  message_from-InStep :
      (size : Difference Shown Sums → ℕ)
      (build : Snapshot Shown Sums → Option (Snapshot Shown Sums)) (key : String) (query : Query)
      (now : Time) (b : Browser Shown) (s : NumericViews Shown Sums)
      (o : Option (NumericView Shown Sums))
      → ((before value : Snapshot Shown Sums)
          → build before ≡ some value
          → AreDistinct value.sessions)
      → lookup key s.entries ≡ o
      → Follows key b s
      → InStep key b (message_from size build key query now s o)
  message_from-InStep size build key query now b s none d at h = told_missing key b s h
  message_from-InStep size build key query now b s (some v) d at h =
      message_built-InStep size key query now b s v (build v.value) (d v.value) at h

  pub numeric_message-InStep :
      (size : Difference Shown Sums → ℕ)
      (build : Snapshot Shown Sums → Option (Snapshot Shown Sums)) (key : String) (query : Query)
      (now : Time) (b : Browser Shown) (s : NumericViews Shown Sums)
      → ((before value : Snapshot Shown Sums)
          → build before ≡ some value
          → AreDistinct value.sessions)
      → Follows key b s
      → InStep key b (numeric_message size build key query now s)
  unfolding numeric_message
  numeric_message-InStep size build key query now b s d h =
      message_from-InStep size build key query now b s (lookup key s.entries) d refl h

  -- A browser that fetches the whole snapshot shows it.
  fetch_by-Follows :
      (key : String) (query : Query) (value : Snapshot Shown Sums) (now : Time) (b : Browser Shown)
      (s : NumericViews Shown Sums) (o : Option (NumericView Shown Sums))
      → AreDistinct value.sessions
      → lookup key s.entries ≡ o
      → Follows key b s
      → let answer = adopt_by key query value now s o in
        Follows key (some (answer.1.revision, answer.1.sessions)) answer.0
  fetch_by-Follows key query value now b s o d at h =
      let answer = adopt_by key query value now s o in
      let fits = adopt_by-fits key query value now b s o d h.behind (λ w e. h.entry w (at ∙ e)) in
      let follows = adopt_by-Follows key key query value now b s o d h in
      record {
        behind = fits.numbered_below;
        entry = λ v found.
            let same = adopt_by-value key query value now s o v at found in
            let view = follows.entry v found in
            record {
              value_fits = record {
                numbered_below = view.value_fits.numbered_below;
                distinct = view.value_fits.distinct;
                agrees = λ e k. ap (λ t. row_of k t.sessions) (sym same);
              };
              published_fits = record {
                numbered_below = view.published_fits.numbered_below;
                distinct = view.published_fits.distinct;
                agrees = λ e k.
                    ap (λ t. row_of k t.sessions) (sym same)
                    ∙ sym (view.coherent (sym e ∙ ap (λ t. t.revision) (sym same)) k);
              };
              coherent = view.coherent;
            };
      }

  pub fetch-Follows :
      (key : String) (query : Query) (value : Snapshot Shown Sums) (now : Time) (b : Browser Shown)
      (s : NumericViews Shown Sums)
      → AreDistinct value.sessions
      → Follows key b s
      → let answer = adopt key query value now s in
        Follows key (some (answer.1.revision, answer.1.sessions)) answer.0
  unfolding adopt
  fetch-Follows key query value now b s d h =
      fetch_by-Follows key query value now b s (lookup key s.entries) d refl h
