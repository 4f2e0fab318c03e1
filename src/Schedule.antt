-- ===== src/Schedule.antt =====
-- agent_schedule.go `scanScheduled`, `rememberScannedFile` and agent.go `scanCodexFiles`: which files a
-- round of the collector reads. The disk stands still over a round; the transaction that reads one
-- file is a parameter, and `none` is an error. Of the errors only their presence is kept.
pub mod Reads
pub mod Files
pub mod First
pub mod Due
pub mod Noticed
use codex_token_meter.Prelude.{
  ℕ, ◌+◌, ◌-◌, ◌*◌, String, Bool, true, false, not, ◌&&◌, ◌||◌, Option, none, some, List, [], ◌∷◌,
  any, keep, Table, lookup, upsert, remove, sort, text_leb, ltb, leb, eqb, ◌==◌, text_eq,
  if◌then◌else◌,
}
use codex_token_meter.Types.{Time}
use codex_token_meter.Watch.{Drained}
use codex_token_meter.Projects.{Platform}
use codex_token_meter.Parser.Context.{source_identity}

abbrev pub second : ℕ
second = 1_000_000_000

pub record FileStamp : Type 0 where
  pub path : String
  pub size : ℕ
  pub mtime : ℕ

unfoldable pub same_stamp : FileStamp → FileStamp → Bool
same_stamp a b = a.path == b.path && eqb a.size b.size && eqb a.mtime b.mtime

-- `running` is the set of the paths whose value in the map is true.
pub record Scheduler : Type 0 where
  pub active : Table String Time
  pub running : List String
  pub discovered : Time
  pub history : Time
  pub archived : Time

-- What `os.Stat` says.
pub data Stat : Type 0 where
  missing unreadable : Stat
  found : (size mtime : ℕ) → Stat

-- What the round is told from outside: SHA-256 and the platform, of which a file's identity is made, the
-- homes, the walk of a directory below one (`none` if it fails), the files, the transaction that reads a
-- file, and what the database says of a file's checkpoint and of its state behind it.
pub record Disk (D : Type 0) : Type 0 where
  pub sha256_hex : List ℕ → String
  pub platform : Platform
  pub homes : List String
  pub walk : String → String → Option (List String)
  pub stat : String → Stat
  pub is_archived : String → Bool
  pub scan : String → D → Option D
  pub offset : String → D → Option ℕ
  pub is_running : String → D → Bool

-- `sourceIdentity(path)`: two paths may share it.
abbrev pub identity : {D : Type 0} → Disk D → String → String
identity disk p = source_identity disk.sha256_hex disk.platform p

-- The collector: the checkpoints, the stamps of the files that are read to their end, the schedule,
-- whether an error is to be returned, and the paths that `scanOne` was called on, the latest first.
pub record Collector (D : Type 0) : Type 0 where
  pub db : D
  pub seen : Table String FileStamp
  pub schedule : Scheduler
  pub failed : Bool
  pub read : List String

abbrev pub member : String → List String → Bool
member p = any λ q. q == p

-- `paths[p] = true`.
abbrev pub adjoin : String → List String → List String
adjoin p ps = if member p ps then ps else p ∷ ps

abbrev pub adjoin_all : List String → List String → List String
adjoin_all [] ps = ps
adjoin_all (q ∷ qs) ps = adjoin q (adjoin_all qs ps)

abbrev pub keys : Table String Time → List String
keys [] = []
keys ((p, at) ∷ rest) = p ∷ keys rest

-- The files that are running, or were read within two minutes.
abbrev pub is_recent : Time → List String → String × Time → Bool
is_recent now running (p, at) = member p running || ltb (now - at) (120 * second)

abbrev pub drop_path : String → List String → List String
drop_path p = keep λ q. not (q == p)

abbrev pub stamped_paths : Table String FileStamp → (String → Bool) → List String
stamped_paths [] wanted = []
stamped_paths ((sid, stamp) ∷ rest) wanted =
    if wanted stamp.path then stamp.path ∷ stamped_paths rest wanted else stamped_paths rest wanted

-- A file whose stamp is not known under this path.
abbrev pub is_new : Option FileStamp → String → Bool
is_new none p = true
is_new (some known) p = not (known.path == p)

-- The result of a stage: the schedule behind it, and the paths, or an error.
abbrev pub Stage : Type 0
Stage = Scheduler × Option (List String)

abbrev pub then_stage : Stage → (Scheduler → List String → Stage) → Stage
then_stage (s, none) next = (s, none)
then_stage (s, some ps) next = next s ps

module _ {D : Type 0} (disk : Disk D) (now : Time) (seen : Table String FileStamp) where
  unfoldable pub new_paths : List String → List String
  new_paths = keep λ p. is_new (lookup (identity disk p) seen) p

  abbrev pub discover_in : Option (List String) → Option (List String) → Option (List String)
  discover_in none later = none
  discover_in (some qs) none = none
  discover_in (some qs) (some ps) = some (adjoin_all (new_paths qs) ps)

  -- `discover(directory)`: any walk that fails ends it.
  unfoldable pub discover : List String → String → List String → Option (List String)
  unfolding new_paths
  discover [] directory ps = some ps
  discover (home ∷ homes) directory ps =
      discover_in (disk.walk home directory) (discover homes directory ps)

  abbrev pub discovered_now : Scheduler → Option (List String) → Stage
  discovered_now s none = (s, none)
  discovered_now s (some ps) = (record s { discovered = now }, some ps)

  unfoldable pub sessions_stage : Scheduler → List String → Stage
  unfolding discover
  sessions_stage s ps =
      if leb (3 * second) (now - s.discovered)
      then discovered_now s (discover disk.homes "sessions" ps)
      else (s, some ps)

  unfoldable pub history_stage : Scheduler → List String → Stage
  history_stage s ps =
      if leb (10 * second) (now - s.history)
      then (
        record s { history = now },
        some (adjoin_all (stamped_paths seen (λ p. not (disk.is_archived p))) ps),
      )
      else (s, some ps)

  abbrev pub archived_now : Scheduler → Option (List String) → Stage
  archived_now s none = (s, none)
  archived_now s (some ps) =
      (record s { archived = now }, some (adjoin_all (stamped_paths seen disk.is_archived) ps))

  unfoldable pub archived_stage : Scheduler → List String → Stage
  unfolding discover
  archived_stage s ps =
      if leb (60 * second) (now - s.archived)
      then archived_now s (discover disk.homes "archived_sessions" ps)
      else (s, some ps)

  -- What the watcher handed out, and the files that are active.
  unfoldable pub opened_round : Drained → Scheduler → Scheduler × List String
  opened_round (paths, rescan) s =
      let kept = keep (is_recent now s.running) s.active in
      let s' = if rescan then record s { discovered = 0; history = 0; archived = 0 } else s in
      (record s' { active = kept }, adjoin_all (keys kept) paths)

  -- The paths of a round.
  unfoldable pub due : Drained → Scheduler → Stage
  unfolding opened_round sessions_stage history_stage archived_stage
  due drained s =
      let (s', ps) = opened_round drained s in
      then_stage (then_stage (sessions_stage s' ps) history_stage) archived_stage

-- `cfg.seen[sid] == stamp`.
unfoldable pub is_seen : Option FileStamp → FileStamp → Bool
unfolding same_stamp
is_seen none stamp = false
is_seen (some known) stamp = same_stamp known stamp

-- `running[path] = state == "running"`.
abbrev pub set_running : String → Bool → List String → List String
set_running p true ps = adjoin p ps
set_running p false ps = drop_path p ps

module _ {D : Type 0} (disk : Disk D) (now : Time) where
  abbrev pub activate : String → Collector D → Collector D
  activate p c = record c {
    schedule = record c.schedule { active = upsert p (λ _. now) c.schedule.active };
  }

  abbrev pub with_error : Collector D → Collector D
  with_error c = record c { failed = true }

  -- A file is remembered once its checkpoint has reached its size; else it stays active.
  abbrev pub remember_at : Option ℕ → String → FileStamp → Collector D → Collector D
  remember_at none sid stamp c = with_error c
  remember_at (some offset) sid stamp c =
      if leb stamp.size offset
      then record c { seen = upsert sid (λ _. stamp) c.seen }
      else activate stamp.path (record c { seen = remove sid c.seen })

  unfoldable pub remember_scanned_file : String → FileStamp → Collector D → Collector D
  remember_scanned_file sid stamp c = remember_at (disk.offset sid c.db) sid stamp c

  -- `scanOne`, and what the round does behind it.
  abbrev pub after_scan : Option D → String → String → FileStamp → Collector D → Collector D
  after_scan none p sid stamp c = with_error c
  after_scan (some db) p sid stamp c =
      let running = set_running p (disk.is_running sid db) c.schedule.running in
      remember_scanned_file sid stamp
        (activate p (record c { db = db; schedule = record c.schedule { running = running } }))

  abbrev pub visit_file : Stat → String → Collector D → Collector D
  visit_file missing p c = record c {
    schedule = record c.schedule {
      active = remove p c.schedule.active;
      running = drop_path p c.schedule.running;
    };
  }
  visit_file unreadable p c = with_error c
  visit_file (found size mtime) p c =
      let stamp : FileStamp = record { path = p; size = size; mtime = mtime } in
      let sid = identity disk p in
      if is_seen (lookup sid c.seen) stamp
      then c
      else after_scan (disk.scan p c.db) p sid stamp (record c { read = p ∷ c.read })

  -- One path of a round.
  unfoldable pub visit : String → Collector D → Collector D
  unfolding is_seen remember_scanned_file
  visit p c = visit_file (disk.stat p) p c

  unfoldable pub visit_all : List String → Collector D → Collector D
  unfolding visit
  visit_all [] c = c
  visit_all (p ∷ ps) c = visit_all ps (visit p c)

  abbrev pub finish_round : Stage → Collector D → Collector D
  finish_round (s, none) c = with_error (record c { schedule = s })
  finish_round (s, some ps) c = visit_all (sort text_leb ps) (record c { schedule = s })

  -- `scanScheduled` with a schedule, its return value in `failed`.
  unfoldable pub scan_scheduled : Drained → Collector D → Collector D
  unfolding due visit_all
  scan_scheduled drained c =
      finish_round (due disk now c.seen drained c.schedule) (record c { failed = false; read = [] })

  abbrev pub first_scan : Option D → String → String → FileStamp → Collector D → Collector D
  first_scan none p sid stamp c = with_error c
  first_scan (some db) p sid stamp c =
      let running = set_running p (disk.is_running sid db) c.schedule.running in
      remember_scanned_file sid stamp
        (record c { db = db; schedule = record c.schedule { running = running } })

  -- A file of the first round: one that cannot be examined is passed over.
  abbrev pub first_visit : Stat → String → Collector D → Collector D
  first_visit missing p c = c
  first_visit unreadable p c = c
  first_visit (found size mtime) p c =
      let stamp : FileStamp = record { path = p; size = size; mtime = mtime } in
      let sid = identity disk p in
      if is_seen (lookup sid c.seen) stamp
      then c
      else first_scan (disk.scan p c.db) p sid stamp (record c { read = p ∷ c.read })

  -- The loop of `scanCodexFiles`, which ends at the first error.
  unfoldable pub first_round : List String → Collector D → Collector D
  unfolding is_seen remember_scanned_file
  first_round [] c = c
  first_round (p ∷ ps) c =
      let c' = first_visit (disk.stat p) p c in
      let more = first_round ps c' in if c'.failed then c' else more
