-- ===== src/Schedule/Reads.antt =====
-- agent_schedule.go `scanScheduled`: what a round reads of its files, and what it remembers.
use codex_token_meter.Prelude.{
  ℕ, String, Bool, true, false, Option, none, some, List, [], ◌∷◌, Table, lookup, sort, text_leb,
  leb, ◌==◌, text_eq, if◌then◌else◌, ◌≡◌, refl, sym, Bool-cases, inl, inr, ◌⊎◌, beq_self, ◌∙◌,
  lookup-upsert, lookup-remove,
}
use mathlib.Core.Path.{subst}
use codex_token_meter.Types.{Time}
use codex_token_meter.Schedule.{
  identity, FileStamp, Disk, Collector, Stat, missing, unreadable, found, member, is_seen,
  same_stamp, visit, visit_file, visit_all, remember_at, remember_scanned_file, after_scan,
  finish_round, Stage,
}
use codex_token_meter.Schedule.Due.{Has, member-sort}

same_stamp-apart : (a b : FileStamp) → (a.path == b.path) ≡ false → same_stamp a b ≡ false
unfolding same_stamp
same_stamp-apart a b h = rw h refl

module _ {D : Type 0} (disk : Disk D) (now : Time) where
  remember_at-read :
      (o : Option ℕ) (sid : String) (stamp : FileStamp) (c : Collector D)
      → (remember_at disk now o sid stamp c).read ≡ c.read
  remember_at-read none sid stamp c = refl
  remember_at-read (some offset) sid stamp c = elim (Bool-cases (leb stamp.size offset)) [
    | inl e ↦ rw e refl
    | inr e ↦ rw e refl
  ]

  after_scan-read :
      (o : Option D) (q sid : String) (stamp : FileStamp) (c : Collector D)
      → (after_scan disk now o q sid stamp c).read ≡ c.read
  unfolding remember_scanned_file
  after_scan-read none q sid stamp c = refl
  after_scan-read (some db) q sid stamp c = remember_at-read (disk.offset sid db) sid stamp _

  -- What is read stays in the list, and a file whose stamp is not known is read.
  visit_file-read :
      (p q : String) (st : Stat) (c : Collector D)
      → member p c.read ≡ true
      → member p (visit_file disk now st q c).read ≡ true
  visit_file-read p q missing c h = h
  visit_file-read p q unreadable c h = h
  visit_file-read p q (found size mtime) c h =
      let stamp : FileStamp = record { path = q; size = size; mtime = mtime } in
      elim (Bool-cases (is_seen (lookup (identity disk q) c.seen) stamp)) [
        | inl e ↦ rw e h
        | inr e ↦
            rw
              (
                e,
                after_scan-read (disk.scan q c.db) q (identity disk q) stamp
                    (record c { read = q ∷ c.read }),
              )
              (either (q == p) h)
      ]
    where
      either : (b : Bool) → member p c.read ≡ true → (if b then true else member p c.read) ≡ true
      either true k = refl
      either false k = k

  -- A stamp under another path is another stamp.
  abbrev IsUnseen : String → FileStamp → Table String FileStamp → Type 0
  IsUnseen k stamp seen = is_seen (lookup k seen) stamp ≡ false

  remember_at-IsUnseen :
      (o : Option ℕ) (k sid : String) (stamp other : FileStamp) (c : Collector D)
      → (stamp.path == other.path) ≡ false
      → IsUnseen k other c.seen
      → IsUnseen k other (remember_at disk now o sid stamp c).seen
  unfolding is_seen
  remember_at-IsUnseen none k sid stamp other c d h = h
  remember_at-IsUnseen (some offset) k sid stamp other c d h =
      elim (Bool-cases (leb stamp.size offset)) [
        | inl e ↦
            rw (e, lookup-upsert sid k (λ _. stamp) c.seen)
              (elim (Bool-cases (sid == k)) [
                | inl same ↦ rw same (same_stamp-apart stamp other d)
                | inr apart ↦ rw apart h
              ])
        | inr e ↦
            rw (e, lookup-remove sid k c.seen)
              (elim (Bool-cases (sid == k)) [ inl same ↦ rw same refl | inr apart ↦ rw apart h ])
      ]

  -- The visit of one path makes no other path's stamp known, even if they share an identity.
  visit_file-IsUnseen :
      (k q : String) (st : Stat) (other : FileStamp) (c : Collector D)
      → (q == other.path) ≡ false
      → IsUnseen k other c.seen
      → IsUnseen k other (visit_file disk now st q c).seen
  unfolding remember_scanned_file
  visit_file-IsUnseen k q missing other c d h = h
  visit_file-IsUnseen k q unreadable other c d h = h
  visit_file-IsUnseen k q (found size mtime) other c d h =
      let stamp : FileStamp = record { path = q; size = size; mtime = mtime } in
      elim (Bool-cases (is_seen (lookup (identity disk q) c.seen) stamp)) [
        | inl e ↦ rw e h
        | inr e ↦ rw e (scanned stamp d (disk.scan q c.db))
      ]
    where
      scanned :
          (stamp : FileStamp)
          → (stamp.path == other.path) ≡ false
          → (o : Option D)
          → IsUnseen k other
              (after_scan disk now o q
                (identity disk q)
                stamp
                (record c { read = q ∷ c.read })).seen
      scanned stamp d' none = h
      scanned stamp d' (some db) =
          remember_at-IsUnseen (disk.offset (identity disk q) db) k (identity disk q) stamp other _
            d' h

  -- A file whose stamp is not the one that is remembered.
  abbrev pub IsChanged : String → ℕ → ℕ → Table String FileStamp → Type 0
  IsChanged p size mtime seen =
      (disk.stat p ≡ found size mtime)
      × (is_seen (lookup (identity disk p) seen) (record { path = p; size = size; mtime = mtime })
          ≡ false)

  visit-reads :
      (p : String) (size mtime : ℕ) (c : Collector D)
      → IsChanged p size mtime c.seen
      → member p (visit disk now p c).read ≡ true
  unfolding visit
  visit-reads p size mtime c (st, h) =
      rw
        (
          st,
          h,
          after_scan-read (disk.scan p c.db) p (identity disk p)
              (record { path = p; size = size; mtime = mtime }) (record c { read = p ∷ c.read }),
          beq_self p,
        )
        refl

  visit_all-keeps :
      (p : String) (ps : List String) (c : Collector D)
      → member p c.read ≡ true
      → member p (visit_all disk now ps c).read ≡ true
  unfolding visit_all visit
  visit_all-keeps p [] c h = h
  visit_all-keeps p (q ∷ ps) c h =
      visit_all-keeps p ps (visit disk now q c) (visit_file-read p q (disk.stat q) c h)

  visit_all-reads :
      (p : String) (size mtime : ℕ) (ps : List String) (c : Collector D)
      → IsChanged p size mtime c.seen
      → member p ps ≡ true
      → member p (visit_all disk now ps c).read ≡ true
  unfolding visit_all
  visit_all-reads p size mtime [] c h k = cc k
  visit_all-reads p size mtime (q ∷ ps) c h k = elim (Bool-cases (q == p)) [
    | inl e ↦ visit_all-keeps p ps (visit disk now q c) (
        subst (λ (r : String). member p (visit disk now r c).read ≡ true)
          (sym ((text_eq.same_iff q p).0 e)) (visit-reads p size mtime c h))
    | inr e ↦
        visit_all-reads p size mtime ps (visit disk now q c)
          (
            h.0,
            unfold visit in
                visit_file-IsUnseen (identity disk p) q (disk.stat q)
                  (record { path = p; size = size; mtime = mtime }) c e h.1,
          )
          (rw e at k)
  ]

  -- The files that are due are read, whatever error another of them meets.
  pub finish_round-reads :
      (p : String) (size mtime : ℕ) (stage : Stage) (c : Collector D)
      → IsChanged p size mtime c.seen
      → Has p stage.1
      → (stage.1 ≡ none) ⊎ (member p (finish_round disk now stage c).read ≡ true)
  finish_round-reads p size mtime (s, none) c h k = inl refl
  finish_round-reads p size mtime (s, some ps) c h k = inr (
      visit_all-reads p size mtime (sort text_leb ps) (record c { schedule = s }) h
        (member-sort p ps ∙ k))
