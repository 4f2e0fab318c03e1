-- ===== src/Snapshots.antt =====
-- snapshot_cache.go `snapshotCache.get`: one encoded snapshot for the requests of about a second. The
-- entries stand in the order in which a loop over the map visits them; what a snapshot is encoded to
-- is a type, and building and encoding one is an argument, `none` where either fails.
pub mod Kept
pub mod Answers
use codex_token_meter.Prelude.{
  ℕ, ◌-◌, String, Bool, true, false, ◌||◌, Option, none, some, List, [], ◌∷◌, Table, lookup, upsert,
  remove, length, ltb, leb, ◌==◌, text_eq, if◌then◌else◌, not,
}
use codex_token_meter.Types.{Time}

abbrev pub max_entries : ℕ
max_entries = 8

pub record EncodedSnapshot (B : Type 0) : Type 0 where
  pub body : B
  pub created : Time

pub data Answer (B : Type 0) : Type 0 where
  cancelled unavailable : Answer B
  encoded : EncodedSnapshot B → Answer B

-- A request: its key, when it arrived and when it got the lock, whether its context was done by either
-- time, what a build gives it, and when that is done.
pub record Request (B : Type 0) : Type 0 where
  pub key : String
  pub requested_at : Time
  pub locked_at : Time
  pub done_before : Bool
  pub done_waiting : Bool
  pub built : Option B
  pub built_at : Time

module _ {B : Type 0} where
  -- An entry of the last second, or one that was made while the request waited.
  unfoldable pub is_fresh : Request B → EncodedSnapshot B → Bool
  is_fresh r e = ltb (r.locked_at - e.created) 1_000_000_000 || leb r.requested_at e.created

  -- The key of the entry that was made first, from `key` and `at` on; "" is no key.
  unfoldable pub oldest_from : String → Time → Table String (EncodedSnapshot B) → String
  oldest_from key at [] = key
  oldest_from key at ((k, e) ∷ rest) =
      let earlier = key == "" || ltb e.created at in
      oldest_from (if earlier then k else key) (if earlier then e.created else at) rest

  unfoldable pub make_room : Table String (EncodedSnapshot B) → Table String (EncodedSnapshot B)
  unfolding oldest_from
  make_room entries =
      if leb max_entries (length entries)
      then remove (oldest_from "" 0 entries) entries
      else entries

  -- A build that succeeds is stored under the key.
  abbrev pub store :
      Request B
      → Option B
      → Table String (EncodedSnapshot B)
      → Table String (EncodedSnapshot B) × Answer B
  store r none entries = (entries, unavailable)
  store r (some b) entries =
      let e : EncodedSnapshot B = record { body = b; created = r.built_at } in
      (upsert r.key (λ _. e) (make_room entries), encoded e)

  abbrev pub hit_or :
      Request B
      → Option (EncodedSnapshot B)
      → Table String (EncodedSnapshot B)
      → Table String (EncodedSnapshot B) × Answer B
  hit_or r none entries = store r r.built entries
  hit_or r (some e) entries =
      let rebuilt = store r r.built entries in
      if is_fresh r e then (entries, encoded e) else rebuilt

  unfoldable pub get :
      Request B → Table String (EncodedSnapshot B) → Table String (EncodedSnapshot B) × Answer B
  unfolding is_fresh make_room
  get r entries =
      if r.done_before || r.done_waiting
      then (entries, cancelled)
      else hit_or r (lookup r.key entries) entries

  -- The requests one after the other, as the lock lets them through.
  unfoldable pub get_all :
      List (Request B)
      → Table String (EncodedSnapshot B)
      → Table String (EncodedSnapshot B) × List (Answer B)
  unfolding get
  get_all [] entries = (entries, [])
  get_all (r ∷ rs) entries =
      let (entries', a) = get r entries in
      let (entries'', as') = get_all rs entries' in (entries'', a ∷ as')
