-- ===== src/Limiter.antt =====
-- server.go `ingestAllowed`, handlers.go `loginAllowed` and `recordLoginFailure`: sliding windows
-- over the times of a host's uploads and of an address's failed logins. Each call reads the clock
-- once here; the source reads it twice in `ingestAllowed`, under one lock.
use codex_token_meter.Prelude.{
  ◌+◌, ◌≤◌, ◌<◌, String, Bool, true, false, Option, none, some, List, [], ◌∷◌, ◌++◌, Table, lookup,
  upsert, lookup-upsert_self, keep, length, ltb, leb, if◌then◌else◌, text_eq, ◌≡◌, refl, arith,
  Bool-cases, inl, inr, length-append, length-keep-le, tests, All,
}
use codex_token_meter.Types.{Time}
use mathlib.Core.Path.{ap₂}

abbrev pub second : Time
second = 1_000_000_000

abbrev pub login_window : Time
login_window = 900_000_000_000

-- The loop over the stored times: those after `now` less the window.
unfoldable pub recent : Time → Time → List Time → List Time
recent window now = keep λ t. ltb now (t + window)

abbrev pub times_of : Option (List Time) → List Time
times_of none = []
times_of (some ts) = ts

unfoldable pub ingest_allowed :
    String → Time → Table String (List Time) → Table String (List Time) × Bool
ingest_allowed host now m =
    let kept = recent second now (times_of (lookup host m)) in
    if leb 20 (length kept)
    then (upsert host (λ _. kept) m, false)
    else (upsert host (λ _. kept ++ now ∷ []) m, true)

unfoldable pub login_allowed :
    String → Time → Table String (List Time) → Table String (List Time) × Bool
login_allowed ip now m =
    let kept = recent login_window now (times_of (lookup ip m)) in
    (upsert ip (λ _. kept) m, ltb (length kept) 5)

unfoldable pub record_login_failure :
    String → Time → Table String (List Time) → Table String (List Time)
record_login_failure ip now m = upsert ip (λ old. times_of old ++ now ∷ []) m

-- The uploads of one host, one after the other: which are let in.
unfoldable pub answers : String → List Time → Table String (List Time) → List Bool
answers host [] m = []
answers host (now ∷ rest) m = let r = ingest_allowed host now m in r.1 ∷ answers host rest r.0

-- The same against the whole history of what was let in, which is never pruned.
unfoldable pub ideal_answers : List Time → List Time → List Bool
ideal_answers [] history = []
ideal_answers (now ∷ rest) history =
    let allowed = ltb (length (recent second now history)) 20 in
    allowed ∷ ideal_answers rest (if allowed then history ++ now ∷ [] else history)

abbrev pub Rising : Time → List Time → Type 0
Rising last [] = Unit
Rising last (now ∷ rest) = (last ≤ now) × Rising now rest

pub recent-append :
    (w now : Time) (xs ys : List Time)
    → recent w now (xs ++ ys) ≡ recent w now xs ++ recent w now ys
unfolding recent
recent-append w now [] ys = refl
recent-append w now (x ∷ xs) ys = ground (arith, recent-append w now xs ys)

-- Pruning at an earlier time loses nothing that a later window holds.
pub recent-recent :
    (w last now : Time) (xs : List Time)
    → last ≤ now
    → recent w now (recent w last xs) ≡ recent w now xs
unfolding recent
recent-recent w last now [] le = refl
recent-recent w last now (x ∷ xs) le = ground (arith, recent-recent w last now xs le)

pub recent_now : (w now : Time) → 0 < w → recent w now (now ∷ []) ≡ now ∷ []
unfolding recent
recent_now w now h = ground arith

-- What the table holds after an upload at `now` is the window of the history.
abbrev Pruned : String → Time → Table String (List Time) → List Time → Type 0
Pruned host last m history = times_of (lookup host m) ≡ recent second last history

ingest_allowed-Pruned :
    (host : String) (last now : Time) (m : Table String (List Time)) (history : List Time)
    → last ≤ now
    → Pruned host last m history
    → ((ingest_allowed host now m).1 ≡ ltb (length (recent second now history)) 20)
      × Pruned host now
          (ingest_allowed host now m).0
          (if ltb (length (recent second now history)) 20 then history ++ now ∷ [] else history)
unfolding ingest_allowed
ingest_allowed-Pruned host last now m history le h =
    rw (h, recent-recent second last now history le)
      (ground (
        arith,
        recent-append second now history (now ∷ []),
        recent_now second now (omega arith),
        lookup-upsert_self host (λ _. recent second now history) m,
        lookup-upsert_self host (λ _. recent second now history ++ now ∷ []) m,
      ))

-- Over the uploads of one host in the order of their times, the list that is pruned at each call
-- answers as the whole history would: an upload is let in exactly if fewer than twenty were let in
-- within the last second. Before the first of them the list holds the history's last second.
pub answers-ideal_answers :
    (host : String) (requests : List Time) (last : Time) (m : Table String (List Time))
    (history : List Time)
    → times_of (lookup host m) ≡ recent second last history
    → Rising last requests
    → answers host requests m ≡ ideal_answers requests history
unfolding answers ideal_answers
answers-ideal_answers host [] last m history h rising = refl
answers-ideal_answers host (now ∷ rest) last m history h (le, rising) =
    let (allowed, pruned) = ingest_allowed-Pruned host last now m history le h in
    ap₂ ◌∷◌ allowed
      (answers-ideal_answers host rest now (ingest_allowed host now m).0 _ pruned rising)

-- The times that are let in, on top of a history.
unfoldable pub admitted : List Time → List Time → List Time
admitted [] history = history
admitted (now ∷ rest) history =
    admitted rest
      (if ltb (length (recent second now history)) 20 then history ++ now ∷ [] else history)

pub length-recent-le : (w now : Time) (xs : List Time) → length (recent w now xs) ≤ length xs
unfolding recent
length-recent-le w now xs = length-keep-le (λ t. ltb now (t + w)) xs

pub length-recent_later :
    (w last now : Time) (xs : List Time)
    → last ≤ now
    → length (recent w now xs) ≤ length (recent w last xs)
length-recent_later w last now xs le =
    rw (← recent-recent w last now xs le) (length-recent-le w now (recent w last xs))

abbrev Calm : Time → List Time → Type 0
Calm last history = (now : Time) → last ≤ now → length (recent second now history) ≤ 20

admit-Calm :
    (last t : Time) (history : List Time)
    → last ≤ t
    → Calm last history
    → Calm t (if ltb (length (recent second t history)) 20 then history ++ t ∷ [] else history)
admit-Calm last t history le calm now later =
    elim (Bool-cases (ltb (length (recent second t history)) 20)) [
      | inl room ↦
          rw (room, recent-append)
            (omega (
              tests,
              room,
              length-append (recent second now history) (recent second now (t ∷ [])),
              length-recent_later second t now history later,
              length-recent-le second now (t ∷ []),
            ))
      | inr full ↦ rw full (calm now (omega arith))
    ]

-- For uploads whose times do not fall, on a history of which no second from `last` on holds more
-- than twenty: at most twenty of those let in lie within the second before any time that is not
-- before them.
pub admitted_at_most :
    (requests history : List Time) (last now : Time)
    → ((t : Time) → last ≤ t → length (recent second t history) ≤ 20)
    → Rising last requests
    → All (λ t. t ≤ now) requests
    → last ≤ now
    → length (recent second now (admitted requests history)) ≤ 20
unfolding admitted
admitted_at_most [] history last now calm rising all le = calm now le
admitted_at_most (t ∷ rest) history last now calm (after, rising) (before, all) le =
    admitted_at_most rest _ t now (admit-Calm last t history after calm) rising all before
