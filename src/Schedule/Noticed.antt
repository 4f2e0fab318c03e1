-- ===== src/Schedule/Noticed.antt =====
-- agent_schedule.go `scanScheduled`: a file that the watcher has noticed, or whose notice it has lost,
-- is among the files of the next round.
use codex_token_meter.Prelude.{
  ◌-◌, ◌*◌, ◌≤◌, String, true, false, not, ◌||◌, Option, none, some, List, [], ◌∷◌, keep, Table,
  lookup, leb, text_eq, ◌≡◌, refl, ap, arith, Bool-cases, inl, inr, ◌⊎◌, ◌∙◌,
}
use codex_token_meter.Types.{Time}
use codex_token_meter.Watch.{Drained, will_read}
use codex_token_meter.Schedule.{
  identity, FileStamp, Scheduler, Disk, member, keys, is_recent, stamped_paths, Stage, then_stage,
  is_new, new_paths, discover, discover_in, sessions_stage, history_stage, archived_stage,
  opened_round, due, second, discovered_now, archived_now,
}
use codex_token_meter.Schedule.Due.{
  Has, is_stamped, is_stamped-lookup, member-stamped_paths, member-keep, member-adjoin_left,
  member-adjoin_right, discover_in-Has, discovered_now-Has, archived_now-Has, history_stage-Has,
  archived_stage-Has, then_stage-Has, due-Has,
}

-- The walk of a directory below one of the homes comes to the path.
abbrev pub Walked : {D : Type 0} → Disk D → String → String → List String → Type 0
Walked disk directory p [] = ⊥
Walked disk directory p (home ∷ homes) =
    Has p (disk.walk home directory) ⊎ Walked disk directory p homes

module _ {D : Type 0} (disk : Disk D) (now : Time) (seen : Table String FileStamp)
    (p : String) where
  -- A path that is new under its identity.
  abbrev IsFresh : Type 0
  IsFresh = is_new (lookup (identity disk p) seen) p ≡ true

  discover_in-finds :
      (walked rest : Option (List String))
      → IsFresh
      → Has p walked
      → Has p (discover_in disk now seen walked rest)
  unfolding new_paths
  discover_in-finds none rest f h = tt
  discover_in-finds (some qs) none f h = tt
  discover_in-finds (some qs) (some ps) f h =
      member-adjoin_left p (new_paths disk now seen qs) ps
        (member-keep p (λ q. is_new (lookup (identity disk q) seen) q) qs f h)

  discover-finds :
      (homes : List String) (directory : String) (ps : List String)
      → IsFresh
      → Walked disk directory p homes
      → Has p (discover disk now seen homes directory ps)
  unfolding discover
  discover-finds [] directory ps f h = absurd h
  discover-finds (home ∷ homes) directory ps f (inl h) =
      discover_in-finds (disk.walk home directory) _ f h
  discover-finds (home ∷ homes) directory ps f (inr h) =
      discover_in-Has disk now seen p (disk.walk home directory) _
        (discover-finds homes directory ps f h)

  module _ (late : 60 * second ≤ now) where
    sessions_stage-finds :
        (s : Scheduler) (ps : List String)
        → s.discovered ≡ 0
        → IsFresh
        → Walked disk "sessions" p disk.homes
        → Has p (sessions_stage disk now seen s ps).1
    unfolding sessions_stage
    sessions_stage-finds s ps z f h =
        let on : leb (3 * second) (now - s.discovered) ≡ true = ground (arith, z, late) in
        rw on (discovered_now-Has disk now seen p s _ (discover-finds disk.homes "sessions" ps f h))

    history_stage-finds :
        (s : Scheduler) (ps : List String)
        → s.history ≡ 0
        → is_stamped p seen ≡ true
        → disk.is_archived p ≡ false
        → Has p (history_stage disk now seen s ps).1
    unfolding history_stage
    history_stage-finds s ps z f h =
        let on : leb (10 * second) (now - s.history) ≡ true = ground (arith, z, late) in
        rw on (
          member-adjoin_left p (stamped_paths seen (λ q. not (disk.is_archived q))) ps
            (member-stamped_paths p seen (λ q. not (disk.is_archived q)) f (ap not h)))

    -- The last stage finds what is stamped as archived, and what is new among the archived.
    archived_stage-finds :
        (s : Scheduler) (ps : List String)
        → s.archived ≡ 0
        → ((is_stamped p seen ≡ true) × (disk.is_archived p ≡ true))
          ⊎ (IsFresh × Walked disk "archived_sessions" p disk.homes)
        → Has p (archived_stage disk now seen s ps).1
    unfolding archived_stage
    archived_stage-finds s ps z h =
        let on : leb (60 * second) (now - s.archived) ≡ true = ground (arith, z, late) in
        rw on (finds h)
      where
        stamped :
            (o : Option (List String))
            → is_stamped p seen ≡ true
            → disk.is_archived p ≡ true
            → Has p (archived_now disk now seen s o).1
        stamped none f a = tt
        stamped (some qs) f a =
            member-adjoin_left p (stamped_paths seen disk.is_archived) qs
              (member-stamped_paths p seen disk.is_archived f a)

        finds :
            ((is_stamped p seen ≡ true) × (disk.is_archived p ≡ true))
              ⊎ (IsFresh × Walked disk "archived_sessions" p disk.homes)
            → Has p
                (archived_now disk now seen s
                  (discover disk now seen disk.homes "archived_sessions" ps)).1
        finds (inl (f, a)) = stamped _ f a
        finds (inr (f, w)) =
            archived_now-Has disk now seen p s _
              (discover-finds disk.homes "archived_sessions" ps f w)

  sessions_stage_later :
      (s : Scheduler) (ps : List String)
      → let s' = (sessions_stage disk now seen s ps).0 in
        (s'.history ≡ s.history) × (s'.archived ≡ s.archived)
  unfolding sessions_stage
  sessions_stage_later s ps = elim (Bool-cases (leb (3 * second) (now - s.discovered))) [
    | inl e ↦ rw e (kept (discover disk now seen disk.homes "sessions" ps))
    | inr e ↦ rw e (refl, refl)
  ]
    where
      kept :
          (o : Option (List String))
          → ((discovered_now disk now seen s o).0.history ≡ s.history)
            × ((discovered_now disk now seen s o).0.archived ≡ s.archived)
      kept none = (refl, refl)
      kept (some qs) = (refl, refl)

  history_stage_later :
      (s : Scheduler) (ps : List String)
      → (history_stage disk now seen s ps).0.archived ≡ s.archived
  unfolding history_stage
  history_stage_later s ps = elim (Bool-cases (leb (10 * second) (now - s.history))) [
    | inl e ↦ rw e refl
    | inr e ↦ rw e refl
  ]

  then_stage_later :
      (stage : Stage)
      → (then_stage stage (history_stage disk now seen)).0.archived ≡ stage.0.archived
  then_stage_later (s, none) = refl
  then_stage_later (s, some ps) = history_stage_later s ps

  then_stage-finds :
      (stage : Stage) (next : Scheduler → List String → Stage)
      → ((ps : List String) → Has p (next stage.0 ps).1)
      → Has p (then_stage stage next).1
  then_stage-finds (s, none) next k = tt
  then_stage-finds (s, some ps) next k = k ps

  -- The collector has read the file before, under whatever identity, or a walk comes to it.
  abbrev pub InReach : Type 0
  InReach =
      (is_stamped p seen ≡ true)
      ⊎ Walked disk "sessions" p disk.homes
      ⊎ Walked disk "archived_sessions" p disk.homes

  -- A round that starts afresh comes to every file in reach.
  rescan-finds :
      60 * second ≤ now
      → (s : Scheduler) (ps : List String) → s.discovered ≡ 0
      → s.history ≡ 0
      → s.archived ≡ 0
      → InReach
      → Has p
          (then_stage
            (then_stage (sessions_stage disk now seen s ps) (history_stage disk now seen))
            (archived_stage disk now seen)).1
  rescan-finds late s ps d h a reach = elim (Bool-cases (is_stamped p seen)) [
    | inl f ↦ stamped f (Bool-cases (disk.is_archived p))
    | inr f ↦ walked (fresh f (Bool-cases (is_new (lookup (identity disk p) seen) p))) reach f
  ]
    where
      first : Stage
      first = sessions_stage disk now seen s ps

      second_stage : Stage
      second_stage = then_stage first (history_stage disk now seen)

      never_archived : second_stage.0.archived ≡ 0
      never_archived = then_stage_later first ∙ (sessions_stage_later s ps).1 ∙ a

      stamped :
          is_stamped p seen ≡ true
          → (disk.is_archived p ≡ true) ⊎ (disk.is_archived p ≡ false)
          → Has p (then_stage second_stage (archived_stage disk now seen)).1
      stamped f (inl yes_archived) =
          then_stage-finds second_stage _ (λ qs.
            archived_stage-finds late second_stage.0 qs never_archived (inl (f, yes_archived)))
      stamped f (inr not_archived) =
          then_stage-Has disk now seen p second_stage _ (archived_stage-Has disk now seen p) (
            then_stage-finds first _ (λ qs.
              history_stage-finds late first.0 qs ((sessions_stage_later s ps).0 ∙ h) f
                not_archived))

      fresh :
          is_stamped p seen ≡ false
          → (is_new (lookup (identity disk p) seen) p ≡ true)
            ⊎ (is_new (lookup (identity disk p) seen) p ≡ false)
          → IsFresh
      fresh f (inl n) = n
      fresh f (inr o) = cc (f, is_stamped-lookup (identity disk p) p seen o)

      walked :
          IsFresh
          → InReach
          → is_stamped p seen ≡ false
          → Has p (then_stage second_stage (archived_stage disk now seen)).1
      walked n (inl f) f' = cc (f, f')
      walked n (inr (inl w)) f' =
          then_stage-Has disk now seen p second_stage _ (archived_stage-Has disk now seen p) (
            then_stage-Has disk now seen p first _ (history_stage-Has disk now seen p)
              (sessions_stage-finds late s ps d n w))
      walked n (inr (inr w)) f' =
          then_stage-finds second_stage _
            (λ qs. archived_stage-finds late second_stage.0 qs never_archived (inr (n, w)))

  -- What the watcher hands out is due, by its name or because every file in reach is.
  pub due-noticed :
      60 * second ≤ now
      → (drained : Drained) (s : Scheduler) → will_read p drained ≡ true
      → InReach
      → Has p (due disk now seen drained s).1
  unfolding due opened_round
  due-noticed late (paths, true) s h reach = rescan-finds late _ _ refl refl refl reach
  due-noticed late (paths, false) s h reach =
      due-Has disk now seen p (paths, false) s
        (member-adjoin_right p (keys (keep (is_recent now s.running) s.active)) paths (named h))
    where
      named : (member p paths || false) ≡ true → member p paths ≡ true
      named k = ground (arith, k)
