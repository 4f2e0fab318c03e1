-- ===== src/Schedule/First.antt =====
-- agent.go `scanCodexFiles`: an error ends the first round.
use codex_token_meter.Prelude.{
  String, true, false, List, [], ◌∷◌, ◌++◌, ◌≡◌, refl, ap, Bool-cases, inl, inr,
}
use codex_token_meter.Types.{Time}
use codex_token_meter.Schedule.{Disk, Collector, first_round, first_visit}

module _ {D : Type 0} (disk : Disk D) (now : Time) where
  -- A round that fails has failed at one file: those before it are read as if they were alone, and
  -- whatever stands behind it is not looked at.
  abbrev pub FailsAt : List String → Collector D → Type 0
  FailsAt ps c =
      (before : List String) × (p : String) × (after : List String) × (ps ≡ before ++ (p ∷ after))
      × ((first_round disk now before c).failed ≡ false)
      × ((first_visit disk now (disk.stat p) p (first_round disk now before c)).failed ≡ true)
      × (first_round disk now ps c
          ≡ first_visit disk now (disk.stat p) p (first_round disk now before c))

  step_fails :
      (p : String) (ps : List String) (c : Collector D)
      → (first_visit disk now (disk.stat p) p c).failed ≡ true
      → c.failed ≡ false
      → FailsAt (p ∷ ps) c
  unfolding first_round
  step_fails p ps c h k = ([], p, ps, refl, k, h, rw h refl)

  later_fails :
      (p : String) (ps : List String) (c : Collector D)
      → (first_visit disk now (disk.stat p) p c).failed ≡ false
      → FailsAt ps (first_visit disk now (disk.stat p) p c)
      → FailsAt (p ∷ ps) c
  unfolding first_round
  later_fails p ps c h (before, q, after, same, ok, fails, result) = (
    p ∷ before,
    q,
    after,
    ap (λ (qs : List String). p ∷ qs) same,
    rw h ok,
    rw h fails,
    rw h result,
  )

  -- The first round ends in an error only at a file whose own reading fails. The files before it in
  -- the order of their paths are read and remembered as if they were alone; no file behind it is read.
  pub first_round-FailsAt :
      (ps : List String) (c : Collector D)
      → c.failed ≡ false
      → (first_round disk now ps c).failed ≡ true
      → FailsAt ps c
  unfolding first_round
  first_round-FailsAt [] c h k = cc (h, k)
  first_round-FailsAt (p ∷ ps) c h k =
      elim (Bool-cases (first_visit disk now (disk.stat p) p c).failed) [
        | inl e ↦ step_fails p ps c e h
        | inr e ↦
            later_fails p ps c e
              (first_round-FailsAt ps (first_visit disk now (disk.stat p) p c) e (rw e at k))
      ]
