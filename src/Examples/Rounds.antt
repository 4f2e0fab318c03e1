-- ===== src/Examples/Rounds.antt =====
-- A collector with one file of 100 bytes, of which the first round reads 60, and a network that fails
-- twice.
use codex_token_meter.Prelude.{
  ℕ, ◌*◌, true, false, none, some, List, [], ◌∷◌, lookup, remove, text_eq, ◌≡◌, refl, arith, inr,
  inl, ◌⊎◌, ◌==◌, if◌then◌else◌,
}
use codex_token_meter.Examples.{small_hash}
use codex_token_meter.Examples.Lines.{platform}
use codex_token_meter.Watch.{SourceWatcher, WatchEvent, added, overflowed, watch_all, drain}
use codex_token_meter.Schedule.{
  Scheduler, Disk, Collector, found, member, visit, scan_scheduled, due, second, is_seen,
  first_round,
}
use codex_token_meter.Schedule.First.{FailsAt, first_round-FailsAt}
use codex_token_meter.Schedule.Files.{
  scan_scheduled-noticed, scan_scheduled-active, visit-Settled, Settled,
}
use codex_token_meter.Retry.{Network, Attempt, agent_network_loop, base_of}
use codex_token_meter.Retry.Paced.{IsPaced, agent_network_loop-IsPaced}

-- The database is the checkpoint; a transaction reads 60 bytes.
abbrev disk : Disk ℕ
disk = record {
  homes = "home" ∷ [];
  walk = λ home directory. some ("a" ∷ []);
  stat = λ p. found 100 7;
  sha256_hex = small_hash;
  platform = platform;
  is_archived = λ p. false;
  scan = λ p db. some 60;
  offset = λ p db. some db;
  is_running = λ p db. false;
}

abbrev schedule : Scheduler
schedule = record { active = []; running = []; discovered = 0; history = 0; archived = 0 }

abbrev idle_collector : Collector ℕ
idle_collector = record { db = 0; seen = []; schedule = schedule; failed = false; read = [] }

abbrev busy_collector : Collector ℕ
busy_collector = record idle_collector {
  schedule = record schedule { active = ("a", 90 * second) ∷ [] };
}

abbrev watcher : SourceWatcher
watcher = record { pending = []; rescan = false; wake = false }

abbrev changes : List WatchEvent
changes = added "a" ∷ added "b" ∷ overflowed ∷ []

reads_first : (scan_scheduled disk (100 * second) ("a" ∷ [], false) idle_collector).read ≡ "a" ∷ []
unfolding scan_scheduled lookup
reads_first = refl

scan_scheduled-noticed_example :
    let drained = (drain (watch_all changes watcher)).1 in
    ((due disk (100 * second) [] drained schedule).1 ≡ none)
    ⊎ (member "a" (scan_scheduled disk (100 * second) drained idle_collector).read ≡ true)
unfolding is_seen lookup
scan_scheduled-noticed_example =
    scan_scheduled-noticed disk (100 * second) "a" 100 7 changes watcher idle_collector
      (omega arith) refl (omega arith) (refl, refl) (inr (inl (inl refl)))

scan_scheduled-active_example :
    ((due disk (100 * second) [] ([], false) busy_collector.schedule).1 ≡ none)
    ⊎ (member "a" (scan_scheduled disk (100 * second) ([], false) busy_collector).read ≡ true)
unfolding is_seen lookup
scan_scheduled-active_example =
    scan_scheduled-active disk (100 * second) "a" 100 7 (90 * second) ([], false) busy_collector
      refl (omega arith) (refl, refl)

visit-Settled_example :
    Settled disk 5 "a"
      (record { path = "a"; size = 100; mtime = 7 })
      idle_collector
      (visit disk 5 "a" idle_collector)
unfolding is_seen lookup
visit-Settled_example = visit-Settled disk 5 "a" 100 7 idle_collector (refl, refl)

abbrev network : Network
network = record { idle = 4 * second; minimum = second }

abbrev attempts : List Attempt
attempts =
    record { succeeded = false; took = 5; jitter = 100; wake = some 1 }
    ∷ record { succeeded = false; took = 5; jitter = 0; wake = none }
    ∷ record { succeeded = true; took = 5; jitter = 0; wake = some 1 }
    ∷ []

agent_network_loop-IsPaced_example :
    IsPaced network attempts 0 (agent_network_loop network attempts 0 1000)
unfolding base_of
agent_network_loop-IsPaced_example =
    agent_network_loop-IsPaced network attempts 0 1000 (omega arith)

-- A disk on which the second file cannot be read.
abbrev broken : Disk ℕ
broken = record disk { scan = λ p db. if p == "b" then none else some 60 }

first_round-FailsAt_example : FailsAt broken 5 ("a" ∷ "b" ∷ "c" ∷ []) idle_collector
unfolding first_round lookup remove
first_round-FailsAt_example =
    first_round-FailsAt broken 5 ("a" ∷ "b" ∷ "c" ∷ []) idle_collector refl refl
