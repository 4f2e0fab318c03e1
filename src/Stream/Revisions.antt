-- ===== src/Stream/Revisions.antt =====
-- What the entries of the stream keep true of one browser that follows one of them.
use codex_token_meter.Prelude.{
  ℕ, suc, ◌≤◌, String, true, false, Option, none, some, List, Keyed, text_eq, nat_eq, ◌≡◌, refl,
  sym, ap, ◌∙◌, arith, inl, inr, Bool-cases, Table, lookup, leb, length, beq_self,
  lookup-upsert_self, upsert-cases, remove-cases, modify-cases, ◌⊎◌,
}
use mathlib.Core.Path.{subst}
use codex_token_meter.Types.{Time}
use codex_token_meter.Range.{Query}
use codex_token_meter.Stream.{Row, Snapshot}
use codex_token_meter.Stream.Diffs.{row_of, AreDistinct}
use codex_token_meter.Stream.Views.{
  NumericView, NumericViews, oldest, without, with_room, room_for, new_view, put, stands_for,
  numbered, adopt_by, adopt,
}

-- A browser's rows and the revision it has; none while it waits for a whole snapshot.
abbrev pub Browser : Type 0 → Type 0
Browser Shown = Option (ℕ × List (Row Shown))

abbrev pub IsBehind : {Shown : Type 0} → Browser Shown → ℕ → Type 0
IsBehind none sequence = Unit
IsBehind (some (revision, shown)) sequence = revision ≤ sequence

IsBehind-later : {Shown : Type 0} (b : Browser Shown) (n : ℕ) → IsBehind b n → IsBehind b (suc n)
IsBehind-later none n h = tt
IsBehind-later (some (revision, shown)) n h = omega (arith, h)

module _ {Shown Sums : Type 0} ⦃rows : Keyed (Row Shown)⦄ ⦃totals : Keyed Sums⦄ where
  -- A browser that has a snapshot's revision shows its rows.
  abbrev pub Shows : Browser Shown → Snapshot Shown Sums → Type 0
  Shows none s = Unit
  Shows (some (revision, shown)) s =
      revision ≡ s.revision → (k : String) → row_of k shown ≡ row_of k s.sessions

  pub record IsSnapshotFor (b : Browser Shown) (sequence : ℕ) (s : Snapshot Shown Sums)
      : Type 0 where
    pub numbered_below : s.revision ≤ sequence
    pub distinct : AreDistinct s.sessions
    pub agrees : Shows b s

  pub record IsViewFor (b : Browser Shown) (sequence : ℕ) (v : NumericView Shown Sums)
      : Type 0 where
    pub value_fits : IsSnapshotFor b sequence v.value
    pub published_fits : IsSnapshotFor b sequence v.published
    pub coherent :
        v.published.revision ≡ v.value.revision
        → (k : String) → row_of k v.published.sessions ≡ row_of k v.value.sessions

  -- What the browser at `key` and the server's views have in common.
  pub record Follows (key : String) (b : Browser Shown) (s : NumericViews Shown Sums) : Type 0 where
    pub behind : IsBehind b s.sequence
    pub entry :
        (v : NumericView Shown Sums) → lookup key s.entries ≡ some v → IsViewFor b s.sequence v

  later :
      (b : Browser Shown) (n : ℕ) (s : Snapshot Shown Sums)
      → IsSnapshotFor b n s
      → IsSnapshotFor b (suc n) s
  later b n s h = record {
    numbered_below = omega (arith, h.numbered_below);
    distinct = h.distinct;
    agrees = h.agrees;
  }

  -- No browser has the revision of a snapshot that is numbered now.
  Shows-new :
      (b : Browser Shown) (n : ℕ) (s : Snapshot Shown Sums)
      → IsBehind b n
      → Shows b (numbered (suc n) s)
  Shows-new none n s h = tt
  Shows-new (some (revision, shown)) n s h = λ e. absurd (omega (arith, h, e))

  new_fits :
      (b : Browser Shown) (n : ℕ) (s : Snapshot Shown Sums)
      → IsBehind b n
      → AreDistinct s.sessions
      → IsSnapshotFor b (suc n) (numbered (suc n) s)
  new_fits b n s h d = record {
    numbered_below = omega arith;
    distinct = d;
    agrees = Shows-new b n s h;
  }

  room-cases :
      (key : String) (o : Option (String × Time)) (entries : Table String (NumericView Shown Sums))
      (v : NumericView Shown Sums)
      → lookup key (without o entries) ≡ some v
      → lookup key entries ≡ some v
  room-cases key none entries v h = h
  room-cases key (some (k, at)) entries v h = remove-cases k key entries v h

  -- Eviction loses an entry, or stands_for it as it is.
  lookup-with_room :
      (key : String) (entries : Table String (NumericView Shown Sums)) (v : NumericView Shown Sums)
      → lookup key (with_room entries) ≡ some v
      → lookup key entries ≡ some v
  unfolding with_room
  lookup-with_room key entries v h = elim (Bool-cases (leb 8 (length entries))) [
    | inl full ↦ room-cases key (oldest entries none) entries v (rw full at h)
    | inr free ↦ rw free at h
  ]

  IsViewFor-later :
      (b : Browser Shown) (n : ℕ) (v : NumericView Shown Sums)
      → IsViewFor b n v
      → IsViewFor b (suc n) v
  IsViewFor-later b n v h = record {
    value_fits = later b n v.value h.value_fits;
    published_fits = later b n v.published h.published_fits;
    coherent = h.coherent;
  }

  room_for-cases :
      (key : String) (o : Option (NumericView Shown Sums))
      (entries : Table String (NumericView Shown Sums)) (v : NumericView Shown Sums)
      → lookup key (room_for o entries) ≡ some v
      → lookup key entries ≡ some v
  room_for-cases key none entries v h = lookup-with_room key entries v h
  room_for-cases key (some w) entries v h = h

  put-cases :
      (key other : String) (query : Query) (value : Snapshot Shown Sums) (now : Time)
      (entries : Table String (NumericView Shown Sums)) (v : NumericView Shown Sums)
      → lookup key (put other query value now entries) ≡ some v
      → (new_view query value now ≡ v) ⊎ (lookup key entries ≡ some v)
  unfolding put
  put-cases key other query value now entries v h =
      elim (upsert-cases other key (new_view query value now)
        (room_for (lookup other entries) entries) v h) [
          | inl new ↦ inl new
          | inr old ↦ inr (room_for-cases key (lookup other entries) entries v old)
        ]

  pub adopt_by-Follows :
      (key other : String) (query : Query) (value : Snapshot Shown Sums) (now : Time)
      (b : Browser Shown) (s : NumericViews Shown Sums) (o : Option (NumericView Shown Sums))
      → AreDistinct value.sessions
      → Follows key b s
      → Follows key b (adopt_by other query value now s o).0
  adopt_by-Follows key other query value now b s none d h = record {
    behind = IsBehind-later b s.sequence h.behind;
    entry = λ v found.
        let new = new_fits b s.sequence value h.behind d in
        elim (put-cases key other query (numbered (suc s.sequence) value) now s.entries v found) [
          | inl made ↦
              subst (IsViewFor b (suc s.sequence)) made
                (record { value_fits = new; published_fits = new; coherent = λ e k. refl })
          | inr old ↦ IsViewFor-later b s.sequence v (h.entry v old)
        ];
  }
  adopt_by-Follows key other query value now b s (some w) d h =
      elim (Bool-cases (stands_for w.value value)) [
        | inl kept ↦ rw kept h
        | inr renewed ↦ rw renewed (record {
          behind = IsBehind-later b s.sequence h.behind;
          entry = λ v found.
              elim (modify-cases other key
                (λ x. record x { value = numbered (suc s.sequence) value; used = now }) s.entries v
                found) [
                  | inl (same, (x, old, made)) ↦ subst (IsViewFor b (suc s.sequence)) made (record {
                    value_fits = new_fits b s.sequence value h.behind d;
                    published_fits = later b s.sequence x.published (h.entry x old).published_fits;
                    coherent = λ e.
                        absurd (omega (arith, e, (h.entry x old).published_fits.numbered_below));
                  })
                  | inr (apart, old) ↦ IsViewFor-later b s.sequence v (h.entry v old)
                ];
        })
      ]

  -- A snapshot that is adopted, by whichever browser, leaves what a browser shows in step.
  pub adopt-Follows :
      (key other : String) (query : Query) (value : Snapshot Shown Sums) (now : Time)
      (b : Browser Shown) (s : NumericViews Shown Sums)
      → AreDistinct value.sessions
      → Follows key b s
      → Follows key b (adopt other query value now s).0
  unfolding adopt
  adopt-Follows key other query value now b s d h =
      adopt_by-Follows key other query value now b s (lookup other s.entries) d h

  same_view : (w v : NumericView Shown Sums) → some w ≡ some v → w ≡ v
  same_view w v h = cc

  -- What is answered is what is kept.
  pub adopt_by-value :
      (key : String) (query : Query) (value : Snapshot Shown Sums) (now : Time)
      (s : NumericViews Shown Sums) (o : Option (NumericView Shown Sums))
      (v : NumericView Shown Sums)
      → lookup key s.entries ≡ o
      → lookup key (adopt_by key query value now s o).0.entries ≡ some v
      → v.value ≡ (adopt_by key query value now s o).1
  unfolding put
  adopt_by-value key query value now s none v at found =
      let new = new_view query (numbered (suc s.sequence) value) now in
      let room = room_for (lookup key s.entries) s.entries in
      ap (λ x. x.value) (same_view v new (sym found ∙ lookup-upsert_self key (λ _. new) room))
  adopt_by-value key query value now s (some w) v at found =
      elim (Bool-cases (stands_for w.value value)) [
        | inl kept ↦ rw kept (ap (λ x. x.value) (same_view v w (sym (rw kept at found) ∙ at)))
        | inr renewed ↦
            let change = λ (x : NumericView Shown Sums). record x {
              value = numbered (suc s.sequence) value;
              used = now;
            } in
            rw renewed (elim (modify-cases key key change s.entries v (rw renewed at found)) [
              | inl (same, (x, old, made)) ↦ sym (ap (λ y. y.value) made)
              | inr (apart, old) ↦ absurd (true_false (sym (beq_self key) ∙ apart))
            ])
      ]
    where
      true_false : true ≡ false → ⊥
      true_false e = cc

  -- The answer's number and rows.
  pub adopt_by-fits :
      (key : String) (query : Query) (value : Snapshot Shown Sums) (now : Time) (b : Browser Shown)
      (s : NumericViews Shown Sums) (o : Option (NumericView Shown Sums))
      → AreDistinct value.sessions
      → IsBehind b s.sequence
      → ((w : NumericView Shown Sums) → o ≡ some w → IsViewFor b s.sequence w)
      → IsSnapshotFor b
          (adopt_by key query value now s o).0.sequence
          (adopt_by key query value now s o).1
  adopt_by-fits key query value now b s none d behind h = new_fits b s.sequence value behind d
  adopt_by-fits key query value now b s (some w) d behind h =
      elim (Bool-cases (stands_for w.value value)) [
        | inl kept ↦ rw kept (h w refl).value_fits
        | inr renewed ↦ rw renewed (new_fits b s.sequence value behind d)
      ]
