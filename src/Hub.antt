-- ===== src/Hub.antt =====
-- hub.go `eventHub`: revisions, the dirty flag, and one-slot channels to the browsers. A channel is
-- the message that waits in it; a query is the encoded text of `url.Values`; a JSON body is a text.
pub mod Frames
use codex_token_meter.Prelude.{
  ℕ, ◌+◌, String, Bool, true, false, Option, none, some, List, [], ◌∷◌, Table, lookup, upsert, map,
  if◌then◌else◌, text_eq,
}

pub record Message : Type 0 where
  pub id : ℕ
  pub payload : String
  pub event : String

-- An entry of `clients`, with the query that `subscriptions` holds for it and its channel.
pub record Client : Type 0 where
  pub notify : Bool
  pub subscription : Option String
  pub slot : Option Message

pub record Hub : Type 0 where
  pub seq : ℕ
  pub full_seq : ℕ
  pub task_seq : ℕ
  pub dirty : Bool
  pub clients : List Client
  pub task_clients : List Bool

-- `wakeAgent`: a wakeup that finds one waiting is dropped.
abbrev pub wake : Bool → Bool
wake waiting = true

unfoldable pub mark_tasks : Hub → Hub
mark_tasks h = record h { task_seq = h.task_seq + 1; task_clients = map wake h.task_clients }

unfoldable pub mark : Hub → Hub
mark h = record h { seq = h.seq + 1; full_seq = h.full_seq + 1; dirty = true }

unfoldable pub mark_numbers : Hub → Hub
mark_numbers h = record h { seq = h.seq + 1; dirty = true }

-- A select with a default: a send that does not block, and a receive that does not.
unfoldable pub try_send : Message → Option Message → Option Message × Bool
try_send m none = (some m, true)
try_send m (some old) = (some old, false)

unfoldable pub try_receive : Option Message → Option Message
try_receive slot = none

-- Only the newest message is useful to a slow reader: the one that waits is dropped for it.
unfoldable pub offer : Message → Option Message → Option Message
unfolding try_send try_receive
offer m slot =
    let first = try_send m slot in if first.1 then first.0 else (try_send m (try_receive first.0)).0

-- What publishing calls: `numbers` with the state that it changes, and the key of a query's range.
pub record Publisher (S : Type 0) : Type 0 where
  pub snapshot : String
  pub notification : Option String
  pub numbers : Option (String → S → Option Message × S)
  pub range_key : String → String

module _ {S : Type 0} (p : Publisher S) where
  open p use {snapshot, notification, numbers, range_key}

  abbrev pub remembered :
      (String → S → Option Message × S)
      → String
      → Table String (Option Message)
      → S
      → Option (Option Message)
      → Option Message × Table String (Option Message) × S
  remembered f query frames s (some frame) = (frame, frames, s)
  remembered f query frames s none =
      let (frame, s') = f query s in (frame, upsert (range_key query) (λ _. frame) frames, s')

  -- The frame of a query, computed once for each key.
  unfoldable pub frame_of :
      (String → S → Option Message × S)
      → String
      → Table String (Option Message)
      → S
      → Option Message × Table String (Option Message) × S
  frame_of f query frames s = remembered f query frames s (lookup (range_key query) frames)

  -- `nil` for a frame: the client has nothing new.
  abbrev pub hand : Client → Option Message → Client
  hand c none = c
  hand c (some m) = record c { slot = offer m c.slot }

  unfoldable pub plain : ℕ → Client → Message
  plain seq c = record {
    id = seq;
    payload = if c.notify then elim notification [ none ↦ "{}" | some text ↦ text ] else snapshot;
    event = "";
  }

  -- A subscriber gets the frame of its query, any other client the plain message.
  abbrev pub frame_by :
      Option String
      → Option (String → S → Option Message × S)
      → Message
      → Table String (Option Message)
      → S
      → Option Message × Table String (Option Message) × S
  unfolding frame_of
  frame_by (some query) (some f) m frames s = frame_of f query frames s
  frame_by _ _ m frames s = (some m, frames, s)

  unfoldable pub frame_for :
      ℕ
      → Client
      → Table String (Option Message)
      → S
      → Option Message × Table String (Option Message) × S
  unfolding plain
  frame_for seq c frames s = frame_by c.subscription numbers (plain seq c) frames s

  -- The loop over the clients.
  unfoldable pub deliver :
      ℕ
      → List Client
      → Table String (Option Message)
      → S
      → List Client × Table String (Option Message) × S
  unfolding frame_for
  deliver seq [] frames s = ([], frames, s)
  deliver seq (c ∷ cs) frames s =
      let (frame, frames', s') = frame_for seq c frames s in
      let (cs', frames'', s'') = deliver seq cs frames' s' in (hand c frame ∷ cs', frames'', s'')

  -- `publish`, with nothing marked between the two parts that hold the lock.
  unfoldable pub publish : Hub → S → Hub × S
  unfolding deliver
  publish h s =
      let (cs, frames, s') = deliver h.seq h.clients [] s in
      if h.dirty then (record h { dirty = false; clients = cs }, s') else (h, s)
