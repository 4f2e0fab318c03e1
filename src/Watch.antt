-- ===== src/Watch.antt =====
-- agent_watch.go: the paths that the watcher has seen and the agent has not; agent_schedule.go
-- `wakeAgent`.
use codex_token_meter.Prelude.{
  ℕ, ◌≤◌, String, Bool, true, false, ◌||◌, List, [], ◌∷◌, any, length, ltb, ◌==◌, text_eq,
  if◌then◌else◌, ◌≡◌, refl, arith, inl, inr, Bool-cases, beq_self,
}
use mathlib.Core.Path.{subst}

abbrev pub max_pending : ℕ
max_pending = 1024

-- `pending` is the set of the map's keys; `wake` is the channel's one slot.
pub record SourceWatcher : Type 0 where
  pub pending : List String
  pub rescan : Bool
  pub wake : Bool

abbrev pub seen_path : String → List String → Bool
seen_path path = any λ p. p == path

unfoldable pub wake_agent : SourceWatcher → SourceWatcher
wake_agent w = record w { wake = true }

unfoldable pub add_path : String → SourceWatcher → SourceWatcher
unfolding wake_agent
add_path path w = wake_agent (
    if ltb (length w.pending) max_pending
    then record w { pending = if seen_path path w.pending then w.pending else path ∷ w.pending }
    else record w { rescan = true })

unfoldable pub overflow : SourceWatcher → SourceWatcher
unfolding wake_agent
overflow w = wake_agent (record w { rescan = true })

abbrev pub Drained : Type 0
Drained = List String × Bool

unfoldable pub drain : SourceWatcher → SourceWatcher × Drained
drain w = (record w { pending = []; rescan = false }, (w.pending, w.rescan))

-- What reaches the watcher between two drains.
pub data WatchEvent : Type 0 where
  added : String → WatchEvent
  overflowed : WatchEvent

abbrev pub watched : WatchEvent → SourceWatcher → SourceWatcher
watched (added path) w = add_path path w
watched overflowed w = overflow w

abbrev pub watch_all : List WatchEvent → SourceWatcher → SourceWatcher
watch_all [] w = w
watch_all (e ∷ es) w = watch_all es (watched e w)

abbrev pub mentions : String → List WatchEvent → Bool
mentions path [] = false
mentions path (added p ∷ es) = p == path || mentions path es
mentions path (overflowed ∷ es) = mentions path es

-- A path that will be read: by its name, or because every file is.
abbrev pub will_read : String → Drained → Bool
will_read path (paths, rescan) = seen_path path paths || rescan

abbrev state_of : SourceWatcher → Drained
state_of w = (w.pending, w.rescan)

add_path-read :
    (path : String) (w : SourceWatcher) → will_read path (state_of (add_path path w)) ≡ true
unfolding add_path wake_agent
add_path-read path w = elim (Bool-cases (ltb (length w.pending) max_pending)) [
  | inl e ↦ elim (Bool-cases (seen_path path w.pending)) [
    | inl s ↦ rw (e, s) (rw s refl)
    | inr s ↦ rw (e, s, beq_self path) refl
  ]
  | inr e ↦ rw e (true_last (seen_path path w.pending))
]
  where
    true_last : (b : Bool) → (b || true) ≡ true
    true_last b = ground arith

watched-read :
    (path : String) (e : WatchEvent) (w : SourceWatcher)
    → will_read path (state_of w) ≡ true
    → will_read path (state_of (watched e w)) ≡ true
unfolding add_path overflow wake_agent
watched-read path (added p) w h = elim (Bool-cases (ltb (length w.pending) max_pending)) [
  | inl e ↦ elim (Bool-cases (seen_path p w.pending)) [
    | inl s ↦ rw (e, s) h
    | inr s ↦ rw (e, s) (ground (arith, h))
  ]
  | inr e ↦ rw e (ground arith)
]
watched-read path overflowed w h = ground arith

or_last : (a : Bool) {b : Bool} → b ≡ true → (a || b) ≡ true
or_last a h = ground (arith, h)

or_keeps : (a : Bool) {b c : Bool} → (a || b) ≡ true → (b ≡ true → c ≡ true) → (a || c) ≡ true
or_keeps true h k = refl
or_keeps false h k = k h

watch_all-read :
    (path : String) (es : List WatchEvent) (w : SourceWatcher)
    → (mentions path es || will_read path (state_of w)) ≡ true
    → will_read path (state_of (watch_all es w)) ≡ true
watch_all-read path [] w h = h
watch_all-read path (added p ∷ es) w h = elim (Bool-cases (p == path)) [
  | inl e ↦ watch_all-read path es (add_path p w) (
      or_last (mentions path es) (
        subst (λ t. will_read t (state_of (add_path p w)) ≡ true) ((text_eq.same_iff p path).0 e)
          (add_path-read p w)))
  | inr e ↦
      watch_all-read path es (add_path p w)
        (or_keeps (mentions path es) (rw e at h) (watched-read path (added p) w))
]
watch_all-read path (overflowed ∷ es) w h =
    watch_all-read path es (overflow w)
      (or_keeps (mentions path es) h (watched-read path overflowed w))

watched-bound :
    (e : WatchEvent) (w : SourceWatcher)
    → length w.pending ≤ max_pending
    → length (watched e w).pending ≤ max_pending
unfolding add_path overflow wake_agent
watched-bound (added p) w h = elim (Bool-cases (ltb (length w.pending) max_pending)) [
  | inl e ↦ elim (Bool-cases (seen_path p w.pending)) [
    | inl s ↦ rw (e, s) h
    | inr s ↦ rw (e, s) (ground (arith, e))
  ]
  | inr e ↦ rw e h
]
watched-bound overflowed w h = h

watch_all-bound :
    (es : List WatchEvent) (w : SourceWatcher)
    → length w.pending ≤ max_pending
    → length (watch_all es w).pending ≤ max_pending
watch_all-bound [] w h = h
watch_all-bound (e ∷ es) w h = watch_all-bound es (watched e w) (watched-bound e w h)

-- Between two drains, however many files change and whatever the kernel drops: the next drain hands
-- out each path that was added, or asks for all files to be read, and at most 1024 paths wait.
pub drain-watch_all :
    (path : String) (es : List WatchEvent) (w : SourceWatcher)
    → mentions path es ≡ true
    → length w.pending ≤ max_pending
    → let drained = (drain (watch_all es w)).1 in
      (will_read path drained ≡ true) × (length drained.0 ≤ max_pending)
unfolding drain
drain-watch_all path es w h k = (watch_all-read path es w (rw h refl), watch_all-bound es w k)
