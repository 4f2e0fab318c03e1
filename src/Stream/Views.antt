-- ===== src/Stream/Views.antt =====
-- numeric_stream.go: the entries of the stream, `put`, `adoptNumericLocked` and `numericMessage`.
use codex_token_meter.Prelude.{
  ℕ, suc, ◌*◌, String, Bool, not, ◌&&◌, ◌||◌, Option, none, some, [], ◌∷◌, length, ltb, leb, ◌==◌,
  Keyed, text_eq, nat_eq, if◌then◌else◌, Table, lookup, upsert, modify, remove,
}
use codex_token_meter.Types.{Time}
use codex_token_meter.Range.{Query}
use codex_token_meter.Stream.{Row, Snapshot, Difference, same_accounting, numeric_difference}

pub record NumericView (Shown Sums : Type 0) : Type 0 where
  pub query : Query
  pub value : Snapshot Shown Sums
  pub published : Snapshot Shown Sums
  pub used : Time

pub record NumericViews (Shown Sums : Type 0) : Type 0 where
  pub entries : Table String (NumericView Shown Sums)
  pub sequence : ℕ

-- What `numericMessage` hands to the hub.
pub data StreamMessage (Shown Sums : Type 0) : Type 0 where
  missing_base database_unavailable large_change : StreamMessage Shown Sums
  numbers : Difference Shown Sums → StreamMessage Shown Sums

abbrev pub max_message : ℕ
max_message = 256 * 1024

module _ {Shown Sums : Type 0} ⦃rows : Keyed (Row Shown)⦄ ⦃totals : Keyed Sums⦄ where
  -- The key of the entry that was used longest ago; of two at one time the first.
  unfoldable pub oldest :
      Table String (NumericView Shown Sums) → Option (String × Time) → Option (String × Time)
  oldest [] best = best
  oldest ((k, v) ∷ entries) none = oldest entries (some (k, v.used))
  oldest ((k, v) ∷ entries) (some (j, at)) =
      oldest entries (if ltb v.used at then some (k, v.used) else some (j, at))

  abbrev pub without :
      Option (String × Time)
      → Table String (NumericView Shown Sums)
      → Table String (NumericView Shown Sums)
  without none entries = entries
  without (some (k, at)) entries = remove k entries

  abbrev pub new_view : Query → Snapshot Shown Sums → Time → NumericView Shown Sums
  new_view query value now = record { query = query; value = value; published = value; used = now }

  unfoldable pub with_room :
      Table String (NumericView Shown Sums) → Table String (NumericView Shown Sums)
  unfolding oldest
  with_room entries =
      if leb 8 (length entries) then without (oldest entries none) entries else entries

  -- An entry that is there already needs no room.
  abbrev pub room_for :
      Option (NumericView Shown Sums)
      → Table String (NumericView Shown Sums)
      → Table String (NumericView Shown Sums)
  room_for none entries = with_room entries
  room_for (some v) entries = entries

  unfoldable pub put :
      String
      → Query
      → Snapshot Shown Sums
      → Time
      → Table String (NumericView Shown Sums)
      → Table String (NumericView Shown Sums)
  unfolding with_room
  put key query value now entries =
      upsert key (λ _. new_view query value now) (room_for (lookup key entries) entries)

  -- Whether what is kept stands for a newly built snapshot: it is not older, or nothing that counts
  -- has changed.
  unfoldable pub stands_for : Snapshot Shown Sums → Snapshot Shown Sums → Bool
  unfolding same_accounting
  stands_for old value =
      (ltb value.data_revision old.data_revision
        || (value.data_revision == old.data_revision && not (ltb old.range_end value.range_end)))
      || (value.data_revision == old.data_revision && same_accounting old value)

  abbrev pub numbered : ℕ → Snapshot Shown Sums → Snapshot Shown Sums
  numbered n value = record value { revision = n }

  abbrev pub adopt_by :
      String
      → Query
      → Snapshot Shown Sums
      → Time
      → NumericViews Shown Sums
      → Option (NumericView Shown Sums)
      → NumericViews Shown Sums × Snapshot Shown Sums
  adopt_by key query value now s none = (
    record {
      entries = put key query (numbered (suc s.sequence) value) now s.entries;
      sequence = suc s.sequence;
    },
    numbered (suc s.sequence) value,
  )
  adopt_by key query value now s (some v) = if stands_for v.value value then (s, v.value) else (
    record {
      entries =
          modify key (λ w. record w { value = numbered (suc s.sequence) value; used = now })
            s.entries;
      sequence = suc s.sequence;
    },
    numbered (suc s.sequence) value,
  )

  -- `adoptNumericLocked`, which `rememberNumericBase` calls under the lock.
  unfoldable pub adopt :
      String
      → Query
      → Snapshot Shown Sums
      → Time
      → NumericViews Shown Sums
      → NumericViews Shown Sums × Snapshot Shown Sums
  unfolding stands_for put
  adopt key query value now s = adopt_by key query value now s (lookup key s.entries)

  unfoldable pub message_after :
      (Difference Shown Sums → ℕ)
      → String
      → Snapshot Shown Sums
      → NumericViews Shown Sums × Snapshot Shown Sums
      → NumericViews Shown Sums × Option (StreamMessage Shown Sums)
  unfolding numeric_difference
  message_after size key published (s, next) =
      let message = numeric_difference published next in
      let after = record s {
        entries = modify key (λ w. record w { published = next }) s.entries;
      } in
      if published.revision == next.revision
      then (s, none)
      else (after, some (if ltb max_message (size message) then large_change else numbers message))

  abbrev pub message_built :
      (Difference Shown Sums → ℕ)
      → String
      → Query
      → Time
      → NumericViews Shown Sums
      → NumericView Shown Sums
      → Option (Snapshot Shown Sums)
      → NumericViews Shown Sums × Option (StreamMessage Shown Sums)
  message_built size key query now s v none = (s, some database_unavailable)
  message_built size key query now s v (some next) =
      message_after size key v.published (adopt key query next now s)

  abbrev pub message_from :
      (Difference Shown Sums → ℕ)
      → (Snapshot Shown Sums → Option (Snapshot Shown Sums))
      → String
      → Query
      → Time
      → NumericViews Shown Sums
      → Option (NumericView Shown Sums)
      → NumericViews Shown Sums × Option (StreamMessage Shown Sums)
  message_from size build key query now s none = (s, some missing_base)
  message_from size build key query now s (some v) =
      message_built size key query now s v (build v.value)

  -- `numericMessage` for a range of key `key`, behind `resolveDashboardRange`; `build` is
  -- `buildSnapshot` on the value that is kept, none where the database is unavailable.
  unfoldable pub numeric_message :
      (Difference Shown Sums → ℕ)
      → (Snapshot Shown Sums → Option (Snapshot Shown Sums))
      → String
      → Query
      → Time
      → NumericViews Shown Sums
      → NumericViews Shown Sums × Option (StreamMessage Shown Sums)
  unfolding adopt message_after
  numeric_message size build key query now s =
      message_from size build key query now s (lookup key s.entries)
