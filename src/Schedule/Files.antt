-- ===== src/Schedule/Files.antt =====
-- agent_schedule.go `scanScheduled` behind agent_watch.go: no change of a file is lost on the way from
-- the file system's notice to the reading of the file.
use codex_token_meter.Prelude.{
  ℕ, ◌-◌, ◌*◌, ◌≤◌, ◌<◌, String, Bool, true, false, ◌||◌, Option, none, some, List, [], ◌∷◌, keep,
  length, Table, lookup, ltb, leb, ◌==◌, text_eq, ◌≡◌, refl, arith, Bool-cases, inl, inr, ◌⊎◌,
  beq_self, lookup-upsert, lookup-remove, lt→ltb, leb→le,
}
use codex_token_meter.Types.{Time}
use codex_token_meter.Watch.{
  SourceWatcher, WatchEvent, Drained, mentions, watch_all, drain, max_pending, drain-watch_all,
}
use codex_token_meter.Schedule.{
  identity, FileStamp, Disk, Collector, member, keys, is_recent, visit, remember_at,
  remember_scanned_file, after_scan, scan_scheduled, due, opened_round, second,
}
use codex_token_meter.Schedule.Due.{due-Has, member-adjoin_left}
use codex_token_meter.Schedule.Noticed.{InReach, due-noticed}
use codex_token_meter.Schedule.Reads.{IsChanged, finish_round-reads}

member-recent :
    (now : Time) (running : List String) (p : String) (at : Time) (active : Table String Time)
    → lookup p active ≡ some at
    → ltb (now - at) (120 * second) ≡ true
    → member p (keys (keep (is_recent now running) active)) ≡ true
unfolding lookup
member-recent now running p at [] h k = cc h
member-recent now running p at ((q, since) ∷ rest) h k = elim (Bool-cases (q == p)) [
  | inl e ↦ kept (some_path (rw e at h)) e
  | inr e ↦ elim (Bool-cases (is_recent now running (q, since))) [
    | inl f ↦ rw (f, e) (member-recent now running p at rest (rw e at h) k)
    | inr f ↦ rw f (member-recent now running p at rest (rw e at h) k)
  ]
]
  where
    some_path : some since ≡ some at → since ≡ at
    some_path l = cc l

    or_last : (b : Bool) {c : Bool} → c ≡ true → (b || c) ≡ true
    or_last b l = ground (arith, l)

    kept :
        since ≡ at
        → (q == p) ≡ true
        → member p (keys (keep (is_recent now running) ((q, since) ∷ rest))) ≡ true
    kept same e =
        rw (or_last (member q running) {c = ltb (now - since) (120 * second)} (rw same k), e) refl

module _ {D : Type 0} (disk : Disk D) where
  -- A file changes and the watcher is told, whatever else it is told before the next round, even if
  -- it had to forget the file's name: the round reads the file, whatever errors other files meet and even
  -- if another path has its identity, unless a directory cannot be walked. The file is one that the
  -- collector has read before or that lies below a home, its stamp is not the remembered one, the list of
  -- what waits was within its bound, and the clock stands a minute after the start of 1970 or later.
  pub scan_scheduled-noticed :
      (now : Time) (p : String) (size mtime : ℕ) (es : List WatchEvent) (w : SourceWatcher)
      (c : Collector D)
      → 60 * second ≤ now
      → mentions p es ≡ true
      → length w.pending ≤ max_pending
      → IsChanged disk now p size mtime c.seen
      → InReach disk now c.seen p
      → let drained = (drain (watch_all es w)).1 in
        ((due disk now c.seen drained c.schedule).1 ≡ none)
        ⊎ (member p (scan_scheduled disk now drained c).read ≡ true)
  unfolding scan_scheduled
  scan_scheduled-noticed now p size mtime es w c late told bound changed reach =
      let drained = (drain (watch_all es w)).1 in
      finish_round-reads disk now p size mtime (due disk now c.seen drained c.schedule)
        (record c { failed = false; read = [] }) changed
        (due-noticed disk now c.seen p late drained c.schedule (drain-watch_all p es w told bound).0
          reach)

  -- A file that was active less than two minutes ago and whose stamp is not remembered is read in every
  -- round, with no notice from the watcher, unless a directory cannot be walked.
  pub scan_scheduled-active :
      (now : Time) (p : String) (size mtime : ℕ) (at : Time) (drained : Drained) (c : Collector D)
      → lookup p c.schedule.active ≡ some at
      → now - at < 120 * second
      → IsChanged disk now p size mtime c.seen
      → ((due disk now c.seen drained c.schedule).1 ≡ none)
        ⊎ (member p (scan_scheduled disk now drained c).read ≡ true)
  unfolding scan_scheduled
  scan_scheduled-active now p size mtime at drained c active soon changed =
      finish_round-reads disk now p size mtime (due disk now c.seen drained c.schedule)
        (record c { failed = false; read = [] }) changed
        (due-Has disk now c.seen p drained c.schedule (opened drained))
    where
      opened :
          (drained : Drained) → member p (opened_round disk now c.seen drained c.schedule).1 ≡ true
      opened (paths, rescan) =
          unfold opened_round in
          member-adjoin_left p (keys (keep (is_recent now c.schedule.running) c.schedule.active))
            paths
            (member-recent now c.schedule.running p at c.schedule.active active
              (lt→ltb (now - at) (120 * second) soon))

  -- The transaction that reads a file failed, or the query for the checkpoint behind it.
  abbrev pub ReadFails : String → D → Type 0
  ReadFails p db =
      (disk.scan p db ≡ none)
      ⊎ ((read : D) × (disk.scan p db ≡ some read) × (disk.offset (identity disk p) read ≡ none))

  -- What is so of a file that was read.
  abbrev pub Settled : Time → String → FileStamp → Collector D → Collector D → Type 0
  Settled now p stamp before c =
      let sid = identity disk p in
      (ReadFails p before.db × (c.failed ≡ true) × (c.seen ≡ before.seen))
      ⊎ ((disk.scan p before.db ≡ some c.db)
          × (lookup sid c.seen ≡ some stamp)
          × ((offset : ℕ) × (disk.offset sid c.db ≡ some offset) × (stamp.size ≤ offset)))
      ⊎ ((disk.scan p before.db ≡ some c.db)
          × (lookup sid c.seen ≡ none)
          × (lookup p c.schedule.active ≡ some now))

  remember_at-Settled :
      (now : Time) (o : Option ℕ) (p : String) (stamp : FileStamp) (before c : Collector D)
      → stamp.path ≡ p
      → disk.scan p before.db ≡ some c.db
      → c.seen ≡ before.seen
      → disk.offset (identity disk p) c.db ≡ o
      → Settled now p stamp before (remember_at disk now o (identity disk p) stamp c)
  remember_at-Settled now none p stamp before c same scanned seen h =
      inl (inr (c.db, scanned, h), refl, seen)
  remember_at-Settled now (some offset) p stamp before c same scanned seen h =
      elim (Bool-cases (leb stamp.size offset)) [
        | inl e ↦ rw e (
            inr (
              inl (
                scanned,
                rw
                    (
                      lookup-upsert (identity disk p) (identity disk p) (λ _. stamp) c.seen,
                      beq_self (identity disk p),
                    )
                    refl,
                (offset, h, leb→le stamp.size offset e),
              )))
        | inr e ↦ rw e (
            inr (
              inr (
                scanned,
                rw
                    (
                      lookup-remove (identity disk p) (identity disk p) c.seen,
                      beq_self (identity disk p),
                    )
                    refl,
                rw
                    (
                      same,
                      lookup-upsert p p (λ (_ : Option Time). now) c.schedule.active,
                      beq_self p,
                    )
                    refl,
              )))
      ]

  after_scan-Settled :
      (now : Time) (o : Option D) (p : String) (stamp : FileStamp) (before c : Collector D)
      → stamp.path ≡ p
      → disk.scan p before.db ≡ o
      → c.seen ≡ before.seen
      → Settled now p stamp before (after_scan disk now o p (identity disk p) stamp c)
  unfolding remember_scanned_file
  after_scan-Settled now none p stamp before c same scanned seen = inl (inl scanned, refl, seen)
  after_scan-Settled now (some db) p stamp before c same scanned seen =
      remember_at-Settled now (disk.offset (identity disk p) db) p stamp before _ same scanned seen
        refl

  -- A file that has changed is visited: then reading it failed, or the query for its checkpoint did, an
  -- error is reported, and the remembered stamps are as before; or it was read, its stamp is remembered and
  -- its checkpoint has come to its end; or it was read, its stamp is forgotten and the file is active from
  -- now on, so that the next rounds go on with it.
  pub visit-Settled :
      (now : Time) (p : String) (size mtime : ℕ) (c : Collector D)
      → IsChanged disk now p size mtime c.seen
      → Settled now p (record { path = p; size = size; mtime = mtime }) c (visit disk now p c)
  unfolding visit
  visit-Settled now p size mtime c (st, h) =
      rw (st, h)
        (after_scan-Settled now (disk.scan p c.db) p _ c (record c { read = p ∷ c.read }) refl refl
          refl)
