-- ===== src/Schedule/Due.antt =====
-- agent_schedule.go `scanScheduled`: the paths of a round.
use codex_token_meter.Prelude.{
  ◌-◌, ◌*◌, String, Bool, true, false, not, Option, none, some, List, [], ◌∷◌, any, keep, Table,
  lookup, sort, insert, text_leb, leb, ◌==◌, text_eq, if◌then◌else◌, ◌≡◌, refl, sym, ap, Bool-cases,
  inl, inr, beq_self, ◌∙◌,
}
use mathlib.Core.Path.{subst}
use codex_token_meter.Types.{Time}
use codex_token_meter.Watch.{Drained}
use codex_token_meter.Schedule.{
  FileStamp, Scheduler, Disk, member, adjoin, adjoin_all, stamped_paths, Stage, then_stage, is_new,
  new_paths, discover, discover_in, discovered_now, sessions_stage, history_stage, archived_now,
  archived_stage, opened_round, due, second,
}

pub member-adjoin :
    (p q : String) (ps : List String) → member p ps ≡ true → member p (adjoin q ps) ≡ true
member-adjoin p q ps h = elim (Bool-cases (member q ps)) [
  | inl e ↦ rw e h
  | inr e ↦ rw e (elim (Bool-cases (q == p)) [ inl f ↦ rw f refl | inr f ↦ rw f h ])
]

pub member-adjoin_self : (p : String) (ps : List String) → member p (adjoin p ps) ≡ true
member-adjoin_self p ps = elim (Bool-cases (member p ps)) [
  | inl e ↦ rw (e, e) refl
  | inr e ↦ rw (e, beq_self p) refl
]

pub member-adjoin_right :
    (p : String) (qs ps : List String) → member p ps ≡ true → member p (adjoin_all qs ps) ≡ true
member-adjoin_right p [] ps h = h
member-adjoin_right p (q ∷ qs) ps h =
    member-adjoin p q (adjoin_all qs ps) (member-adjoin_right p qs ps h)

pub member-adjoin_left :
    (p : String) (qs ps : List String) → member p qs ≡ true → member p (adjoin_all qs ps) ≡ true
member-adjoin_left p [] ps h = cc h
member-adjoin_left p (q ∷ qs) ps h = elim (Bool-cases (q == p)) [
  | inl e ↦
      subst (λ (r : String). member p (adjoin r (adjoin_all qs ps)) ≡ true)
        (sym ((text_eq.same_iff q p).0 e)) (member-adjoin_self p (adjoin_all qs ps))
  | inr e ↦ member-adjoin p q (adjoin_all qs ps) (member-adjoin_left p qs ps (rw e at h))
]

swap_tests :
    (a b c : Bool)
    → (if a then true else if b then true else c) ≡ (if b then true else if a then true else c)
swap_tests true true c = refl
swap_tests true false c = refl
swap_tests false true c = refl
swap_tests false false c = refl

member-insert :
    (p q : String) (qs : List String) → member p (insert text_leb q qs) ≡ member p (q ∷ qs)
member-insert p q [] = refl
member-insert p q (r ∷ rs) = elim (Bool-cases (text_leb q r)) [
  | inl e ↦ rw e refl
  | inr e ↦ rw (e, member-insert p q rs) (swap_tests (r == p) (q == p) (member p rs))
]

pub member-sort : (p : String) (ps : List String) → member p (sort text_leb ps) ≡ member p ps
member-sort p [] = refl
member-sort p (q ∷ qs) =
    member-insert p q (sort text_leb qs)
    ∙ ap (λ (b : Bool). if q == p then true else b) (member-sort p qs)

pub member-keep :
    (p : String) (t : String → Bool) (ps : List String)
    → t p ≡ true
    → member p ps ≡ true
    → member p (keep t ps) ≡ true
member-keep p t [] h k = k
member-keep p t (q ∷ qs) h k = elim (Bool-cases (q == p)) [
  | inl e ↦ rw (subst (λ (r : String). t r ≡ true) (sym ((text_eq.same_iff q p).0 e)) h, e) refl
  | inr e ↦ elim (Bool-cases (t q)) [
    | inl f ↦ rw (f, e) (member-keep p t qs h (rw e at k))
    | inr f ↦ rw f (member-keep p t qs h (rw e at k))
  ]
]

-- A file whose stamp is remembered, under whatever identity.
abbrev pub is_stamped : String → Table String FileStamp → Bool
is_stamped p = any λ row. row.1.path == p

pub member-stamped_paths :
    (p : String) (seen : Table String FileStamp) (wanted : String → Bool)
    → is_stamped p seen ≡ true
    → wanted p ≡ true
    → member p (stamped_paths seen wanted) ≡ true
member-stamped_paths p [] wanted h k = cc h
member-stamped_paths p ((sid, stamp) ∷ rest) wanted h k = elim (Bool-cases (stamp.path == p)) [
  | inl e ↦
      rw (subst (λ (r : String). wanted r ≡ true) (sym ((text_eq.same_iff stamp.path p).0 e)) k, e)
        refl
  | inr e ↦ elim (Bool-cases (wanted stamp.path)) [
    | inl f ↦ rw (f, e) (member-stamped_paths p rest wanted (rw e at h) k)
    | inr f ↦ rw f (member-stamped_paths p rest wanted (rw e at h) k)
  ]
]

-- A stamp that is found is remembered.
pub is_stamped-lookup :
    (sid p : String) (seen : Table String FileStamp)
    → is_new (lookup sid seen) p ≡ false
    → is_stamped p seen ≡ true
unfolding lookup
is_stamped-lookup sid p [] h = cc h
is_stamped-lookup sid p ((j, stamp) ∷ rest) h = elim (Bool-cases (j == sid)) [
  | inl e ↦ rw (not_not (stamp.path == p) (rw e at h)) refl
  | inr e ↦ either (stamp.path == p) (is_stamped-lookup sid p rest (rw e at h))
]
  where
    not_not : (b : Bool) → not b ≡ false → b ≡ true
    not_not true k = refl
    not_not false k = cc k

    either : (b : Bool) → is_stamped p rest ≡ true → (if b then true else is_stamped p rest) ≡ true
    either true k = refl
    either false k = k

-- A path is among those of a stage, unless the stage failed.
abbrev pub Has : String → Option (List String) → Type 0
Has p none = Unit
Has p (some ps) = member p ps ≡ true

module _ {D : Type 0} (disk : Disk D) (now : Time) (seen : Table String FileStamp)
    (p : String) where
  pub discover_in-Has :
      (walked rest : Option (List String))
      → Has p rest
      → Has p (discover_in disk now seen walked rest)
  discover_in-Has none rest h = tt
  discover_in-Has (some qs) none h = tt
  discover_in-Has (some qs) (some ps) h = member-adjoin_right p (new_paths disk now seen qs) ps h

  pub discover-Has :
      (homes : List String) (directory : String) (ps : List String)
      → member p ps ≡ true
      → Has p (discover disk now seen homes directory ps)
  unfolding discover
  discover-Has [] directory ps h = h
  discover-Has (home ∷ homes) directory ps h =
      discover_in-Has (disk.walk home directory) _ (discover-Has homes directory ps h)

  pub discovered_now-Has :
      (s : Scheduler) (o : Option (List String))
      → Has p o
      → Has p (discovered_now disk now seen s o).1
  discovered_now-Has s none h = tt
  discovered_now-Has s (some ps) h = h

  pub archived_now-Has :
      (s : Scheduler) (o : Option (List String))
      → Has p o
      → Has p (archived_now disk now seen s o).1
  archived_now-Has s none h = tt
  archived_now-Has s (some ps) h = member-adjoin_right p (stamped_paths seen disk.is_archived) ps h

  pub sessions_stage-Has :
      (s : Scheduler) (ps : List String)
      → member p ps ≡ true
      → Has p (sessions_stage disk now seen s ps).1
  unfolding sessions_stage
  sessions_stage-Has s ps h = elim (Bool-cases (leb (3 * second) (now - s.discovered))) [
    | inl e ↦ rw e (discovered_now-Has s _ (discover-Has disk.homes "sessions" ps h))
    | inr e ↦ rw e h
  ]

  pub history_stage-Has :
      (s : Scheduler) (ps : List String)
      → member p ps ≡ true
      → Has p (history_stage disk now seen s ps).1
  unfolding history_stage
  history_stage-Has s ps h = elim (Bool-cases (leb (10 * second) (now - s.history))) [
    | inl e ↦ rw e (member-adjoin_right p (stamped_paths seen (λ q. not (disk.is_archived q))) ps h)
    | inr e ↦ rw e h
  ]

  pub archived_stage-Has :
      (s : Scheduler) (ps : List String)
      → member p ps ≡ true
      → Has p (archived_stage disk now seen s ps).1
  unfolding archived_stage
  archived_stage-Has s ps h = elim (Bool-cases (leb (60 * second) (now - s.archived))) [
    | inl e ↦ rw e (archived_now-Has s _ (discover-Has disk.homes "archived_sessions" ps h))
    | inr e ↦ rw e h
  ]

  pub then_stage-Has :
      (stage : Stage) (next : Scheduler → List String → Stage)
      → ((s : Scheduler) (ps : List String) → member p ps ≡ true → Has p (next s ps).1)
      → Has p stage.1
      → Has p (then_stage stage next).1
  then_stage-Has (s, none) next k h = tt
  then_stage-Has (s, some ps) next k h = k s ps h

  -- What a round starts with, it keeps.
  pub due-Has :
      (drained : Drained) (s : Scheduler)
      → member p (opened_round disk now seen drained s).1 ≡ true
      → Has p (due disk now seen drained s).1
  unfolding due
  due-Has drained s h =
      let (s', ps) = opened_round disk now seen drained s in
      then_stage-Has _ _ archived_stage-Has (
        then_stage-Has (sessions_stage disk now seen s' ps) _ history_stage-Has
          (sessions_stage-Has s' ps h))
