-- ===== src/Snapshots/Answers.antt =====
-- snapshot_cache.go `snapshotCache.get`: any number of requests, one after the other.
use codex_token_meter.Prelude.{
  ◌-◌, ◌≤◌, ◌<◌, String, true, false, ◌||◌, Option, none, some, List, [], ◌∷◌, Table, lookup,
  remove, length, ltb, leb, ◌==◌, text_eq, All, ◌≡◌, refl, arith, Bool-cases, inl, inr, ◌⊎◌, ltb→lt,
  leb→le,
}
use codex_token_meter.Snapshots.{
  max_entries, EncodedSnapshot, Answer, cancelled, unavailable, encoded, Request, is_fresh,
  oldest_from, make_room, store, hit_or, get, get_all,
}
use codex_token_meter.Snapshots.Kept.{
  oldest-has_key, Held, length-remove-lt, length-upsert-le, Held-lookup, Held-remove, Held-upsert,
}

module _ {B : Type 0} (Built : String → EncodedSnapshot B → Type 0) where
  -- At most eight entries, each under a key and with what was built for it.
  abbrev pub IsKept : Table String (EncodedSnapshot B) → Type 0
  IsKept entries = (length entries ≤ max_entries) × Held Built entries

  -- What a request brings: a key, a clock that does not go back, and a build for its key.
  abbrev pub IsRequest : Request B → Type 0
  IsRequest r =
      ((r.key == "") ≡ false)
      × (r.requested_at ≤ r.built_at)
      × ((b : B) → r.built ≡ some b → Built r.key (record { body = b; created = r.built_at }))

  -- What a request is answered with.
  abbrev pub IsAnswered : Request B → Answer B → Type 0
  IsAnswered r cancelled = (r.done_before || r.done_waiting) ≡ true
  IsAnswered r unavailable = r.built ≡ none
  IsAnswered r (encoded e) =
      Built r.key e × ((r.locked_at - e.created < 1_000_000_000) ⊎ (r.requested_at ≤ e.created))

  abbrev pub AllAnswered : List (Request B) → List (Answer B) → Type 0
  AllAnswered [] [] = Unit
  AllAnswered (r ∷ rs) (a ∷ as') = IsAnswered r a × AllAnswered rs as'
  AllAnswered _ _ = ⊥

  named :
      (es : Table String (EncodedSnapshot B))
      → Held Built es
      → All (λ row. (row.0 == "") ≡ false) es
  named [] h = tt
  named (row ∷ es) h = (h.0.0, named es h.1)

  length-make_room :
      (entries : Table String (EncodedSnapshot B))
      → IsKept entries
      → length (make_room entries) < max_entries
  unfolding make_room
  length-make_room entries h = elim (Bool-cases (leb max_entries (length entries))) [
    | inl full ↦ rw full (evicted entries h full)
    | inr room ↦ rw room (ground (arith, room))
  ]
    where
      evicted :
          (es : Table String (EncodedSnapshot B))
          → IsKept es
          → leb max_entries (length es) ≡ true
          → length (remove (oldest_from "" 0 es) es) < max_entries
      evicted [] k f = cc f
      evicted ((key, e) ∷ rest) k f =
          let es : Table String (EncodedSnapshot B) = (key, e) ∷ rest in
          let less =
            length-remove-lt (oldest_from "" 0 es) es (oldest-has_key key e rest (named es k.1)) in
          omega (arith, less, k.0)

  Held-make_room :
      (entries : Table String (EncodedSnapshot B))
      → Held Built entries
      → Held Built (make_room entries)
  unfolding make_room
  Held-make_room entries h = elim (Bool-cases (leb max_entries (length entries))) [
    | inl full ↦ rw full (Held-remove Built (oldest_from "" 0 entries) entries h)
    | inr room ↦ rw room h
  ]

  is_fresh-cases :
      (r : Request B) (e : EncodedSnapshot B)
      → is_fresh r e ≡ true
      → (r.locked_at - e.created < 1_000_000_000) ⊎ (r.requested_at ≤ e.created)
  unfolding is_fresh
  is_fresh-cases r e f = elim (Bool-cases (ltb (r.locked_at - e.created) 1_000_000_000)) [
    | inl l ↦ inl (ltb→lt (r.locked_at - e.created) 1_000_000_000 l)
    | inr l ↦ inr (leb→le r.requested_at e.created (rw l at f))
  ]

  store-IsKept :
      (r : Request B) (o : Option B) (entries : Table String (EncodedSnapshot B))
      → r.built ≡ o
      → IsRequest r
      → IsKept entries
      → IsKept (store r o entries).0 × IsAnswered r (store r o entries).1
  store-IsKept r none entries same q h = (h, same)
  store-IsKept r (some b) entries same q h =
      let e : EncodedSnapshot B = record { body = b; created = r.built_at } in
      let room = length-make_room entries h in
      (
        (
          omega (arith, length-upsert-le r.key e (make_room entries), room),
          Held-upsert Built r.key e (make_room entries) q.0 (q.2 b same)
              (Held-make_room entries h.1),
        ),
        (q.2 b same, inr q.1),
      )

  hit_or-IsKept :
      (r : Request B) (o : Option (EncodedSnapshot B)) (entries : Table String (EncodedSnapshot B))
      → lookup r.key entries ≡ o
      → IsRequest r
      → IsKept entries
      → IsKept (hit_or r o entries).0 × IsAnswered r (hit_or r o entries).1
  hit_or-IsKept r none entries same q h = store-IsKept r r.built entries refl q h
  hit_or-IsKept r (some e) entries same q h = elim (Bool-cases (is_fresh r e)) [
    | inl f ↦ rw f (h, (Held-lookup Built r.key e entries h.1 same, is_fresh-cases r e f))
    | inr f ↦ rw f (store-IsKept r r.built entries refl q h)
  ]

  get-IsKept :
      (r : Request B) (entries : Table String (EncodedSnapshot B))
      → IsRequest r
      → IsKept entries
      → IsKept (get r entries).0 × IsAnswered r (get r entries).1
  unfolding get
  get-IsKept r entries q h = elim (Bool-cases (r.done_before || r.done_waiting)) [
    | inl e ↦ rw e (h, e)
    | inr e ↦ rw e (hit_or-IsKept r (lookup r.key entries) entries refl q h)
  ]

  -- Requests one after the other, from any cache that keeps its bounds: the cache keeps at most eight
  -- entries, each under a key it was built for. A request is refused only if its context was done, is
  -- told that there is nothing only if its build failed, and else gets a body that was built for its key
  -- less than a second before the request had the lock, or since the request arrived.
  pub get_all-IsKept :
      (rs : List (Request B)) (entries : Table String (EncodedSnapshot B))
      → All IsRequest rs
      → IsKept entries
      → IsKept (get_all rs entries).0 × AllAnswered rs (get_all rs entries).1
  unfolding get_all
  get_all-IsKept [] entries q h = (h, tt)
  get_all-IsKept (r ∷ rs) entries q h =
      let first = get-IsKept r entries q.0 h in
      let rest = get_all-IsKept rs (get r entries).0 q.1 first.0 in (rest.0, (first.1, rest.1))
