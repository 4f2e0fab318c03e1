-- ===== src/Login/Once.antt =====
-- A token lets one machine in: it does so in time, and never again.
use codex_token_meter.Prelude.{
  ℕ, String, Bool, true, false, not, ◌||◌, Option, none, some, List, [], ◌∷◌, ◌==◌, text_eq,
  if◌then◌else◌, ◌≡◌, refl, sym, ap, ◌∙◌, arith, inl, inr, Bool-cases, Table, lookup, upsert,
  modify, lookup-upsert, lookup-modify, beq_self, altered,
}
use codex_token_meter.Types.{Time}
use codex_token_meter.Login.Enroll.{
  Enrollment, Desk, EnrollRequest, EnrollFaults, invalid_enrollment, db_error, enrolled, exists,
  hash, create_enrollment, unused, may_enroll, admit, enroll_agent, new_enrollment,
}

module _ (sha256_hex : List ℕ → String) where
  abbrev spent : Option Enrollment → Bool
  spent none = false
  spent (some e) = not (unused e.used_at)

  -- The token of a hash has been used.
  abbrev pub IsSpent : String → Desk → Type 0
  IsSpent key d = spent (lookup key d.enrollments) ≡ true

  spent-modify :
      (key other : String) (now : Time) (m : Table String Enrollment)
      → spent (lookup key m) ≡ true
      → spent (lookup key (modify other (λ e. record e { used_at = some now }) m)) ≡ true
  spent-modify key other now m h =
      ap spent (lookup-modify other key (λ e. record e { used_at = some now }) m)
      ∙ still (lookup key m) (other == key) h
    where
      still :
          (o : Option Enrollment) (b : Bool)
          → spent o ≡ true
          → spent (if b then altered (λ e. record e { used_at = some now }) o else o) ≡ true
      still none b h = ground (arith, h)
      still (some e) true h = refl
      still (some e) false h = h

  admit-IsSpent :
      (key : String) (r : EnrollRequest) (host agent_token : String) (now : Time) (f : EnrollFaults)
      (d : Desk)
      → IsSpent key d
      → IsSpent key (admit sha256_hex r host agent_token now f d).0
  unfolding admit
  admit-IsSpent key r host agent_token now f d h =
      elim (Bool-cases (f.insert_fails || exists (lookup host d.agents))) [
        | inl e ↦ rw e h
        | inr e ↦ elim (Bool-cases f.commit_fails) [
          | inl c ↦ rw (e, c) h
          | inr c ↦ elim (Bool-cases f.update_fails) [
            | inl u ↦ rw (e, c, u) h
            | inr u ↦ rw (e, c, u) (spent-modify key (hash sha256_hex r.token) now d.enrollments h)
          ]
        ]
      ]

  spent-exists : (o : Option Enrollment) → spent o ≡ true → exists o ≡ true
  spent-exists none h = ground (arith, h)
  spent-exists (some e) h = refl

  spent-upsert :
      (key other : String) (e : Enrollment) (m : Table String Enrollment)
      → exists (lookup other m) ≡ false
      → spent (lookup key m) ≡ true
      → spent (lookup key (upsert other (λ _. e) m)) ≡ true
  spent-upsert key other e m new h = elim (Bool-cases (other == key)) [
    | inl same ↦ absurd (
        true_false (
          sym (spent-exists (lookup key m) h)
          ∙ ap (λ k. exists (lookup k m)) (sym ((text_eq.same_iff other key).0 same))
          ∙ new))
    | inr apart ↦ rw (lookup-upsert other key (λ _. e) m, apart) h
  ]
    where
      true_false : true ≡ false → ⊥
      true_false k = cc

  create_enrollment-IsSpent :
      (key method platform token : String) (now : Time) (fails : Bool) (d : Desk)
      → IsSpent key d
      → IsSpent key (create_enrollment sha256_hex method platform token now fails d).0
  unfolding create_enrollment
  create_enrollment-IsSpent key method platform token now fails d h =
      let there = exists (lookup (hash sha256_hex token) d.enrollments) in
      elim (Bool-cases (not (method == "POST"))) [
        | inl e ↦ rw e h
        | inr e ↦ elim (Bool-cases (not (platform == "windows" || platform == "linux"))) [
          | inl p ↦ rw (e, p) h
          | inr p ↦ elim (Bool-cases (fails || there)) [
            | inl k ↦ rw (e, p, k) h
            | inr k ↦
                rw (e, p, k)
                  (spent-upsert key (hash sha256_hex token) (new_enrollment platform now)
                    d.enrollments (second_false fails there k) h)
          ]
        ]
      ]
    where
      second_false : (a b : Bool) → (a || b) ≡ false → b ≡ false
      second_false a b k = ground (arith, k)

  enroll_agent-IsSpent :
      (key method : String) (body : Option EnrollRequest) (host agent_token : String) (now : Time)
      (f : EnrollFaults) (d : Desk)
      → IsSpent key d
      → IsSpent key (enroll_agent sha256_hex method body host agent_token now f d).0
  unfolding enroll_agent
  enroll_agent-IsSpent key method none host agent_token now f d h =
      elim (Bool-cases (not (method == "POST"))) [ inl e ↦ rw e h | inr e ↦ rw e h ]
  enroll_agent-IsSpent key method (some r) host agent_token now f d h =
      elim (Bool-cases (not (method == "POST"))) [
        | inl e ↦ rw e h
        | inr e ↦
            elim (Bool-cases
              (not (may_enroll now r (lookup (hash sha256_hex r.token) d.enrollments)))) [
                | inl k ↦ rw (e, k) h
                | inr k ↦ rw (e, k) (admit-IsSpent key r host agent_token now f d h)
              ]
      ]

  -- The requests that change the tokens.
  pub data DeskRequest : Type 0 where
    create : String → String → String → Time → Bool → DeskRequest
    enroll : String → Option EnrollRequest → String → String → Time → EnrollFaults → DeskRequest

  abbrev pub serve : DeskRequest → Desk → Desk
  serve (create method platform token now fails) d =
      (create_enrollment sha256_hex method platform token now fails d).0
  serve (enroll method body host agent_token now f) d =
      (enroll_agent sha256_hex method body host agent_token now f d).0

  abbrev pub serve_all : List DeskRequest → Desk → Desk
  serve_all [] d = d
  serve_all (q ∷ qs) d = serve_all qs (serve q d)

  serve_all-IsSpent :
      (key : String) (qs : List DeskRequest) (d : Desk)
      → IsSpent key d
      → IsSpent key (serve_all qs d)
  serve_all-IsSpent key [] d h = h
  serve_all-IsSpent key (create method platform token now fails ∷ qs) d h =
      serve_all-IsSpent key qs _ (create_enrollment-IsSpent key method platform token now fails d h)
  serve_all-IsSpent key (enroll method body host agent_token now f ∷ qs) d h =
      serve_all-IsSpent key qs _ (enroll_agent-IsSpent key method body host agent_token now f d h)

  refused_when_spent :
      (r : EnrollRequest) (now : Time) (o : Option Enrollment)
      → spent o ≡ true
      → may_enroll now r o ≡ false
  refused_when_spent r now none h = refl
  refused_when_spent r now (some e) h = elim (Bool-cases (unused e.used_at)) [
    | inl u ↦ ground (arith, u, h)
    | inr u ↦ rw u refl
  ]

  spent_now :
      (r : EnrollRequest) (now : Time) (o : Option Enrollment)
      → may_enroll now r o ≡ true
      → spent (altered (λ e. record e { used_at = some now }) o) ≡ true
  spent_now r now none h = ground (arith, h)
  spent_now r now (some e) h = refl

  admit-spends :
      (r : EnrollRequest) (host agent_token : String) (now : Time) (f : EnrollFaults) (d : Desk)
      → may_enroll now r (lookup (hash sha256_hex r.token) d.enrollments) ≡ true
      → f.update_fails ≡ false
      → f.commit_fails ≡ false
      → (admit sha256_hex r host agent_token now f d).1 ≡ enrolled host agent_token
      → IsSpent (hash sha256_hex r.token) (admit sha256_hex r host agent_token now f d).0
  unfolding admit
  admit-spends r host agent_token now f d may u c h =
      elim (Bool-cases (f.insert_fails || exists (lookup host d.agents))) [
        | inl e ↦ absurd (no_error (rw e at h))
        | inr e ↦
            let key = hash sha256_hex r.token in
            let mark = λ (x : Enrollment). record x { used_at = some now } in
            rw (e, u, c)
              (ap spent (lookup-modify key key mark d.enrollments ∙ rw (beq_self key) refl)
                ∙ spent_now r now (lookup key d.enrollments) may)
      ]
    where
      no_error : db_error ≡ enrolled host agent_token → ⊥
      no_error k = cc

  enroll_agent-spends :
      (r : EnrollRequest) (host agent_token : String) (now : Time) (f : EnrollFaults) (d : Desk)
      → f.update_fails ≡ false
      → f.commit_fails ≡ false
      → (enroll_agent sha256_hex "POST" (some r) host agent_token now f d).1
        ≡ enrolled host agent_token
      → IsSpent
          (hash sha256_hex r.token)
          (enroll_agent sha256_hex "POST" (some r) host agent_token now f d).0
  unfolding enroll_agent
  enroll_agent-spends r host agent_token now f d u c h =
      elim (Bool-cases (may_enroll now r (lookup (hash sha256_hex r.token) d.enrollments))) [
        | inl may ↦ rw may (admit-spends r host agent_token now f d may u c (rw may at h))
        | inr shut ↦ absurd (no_entry (rw shut at h))
      ]
    where
      no_entry : invalid_enrollment ≡ enrolled host agent_token → ⊥
      no_entry k = cc

  -- A token that has let a machine in, with its UPDATE and COMMIT done, lets none in again, whatever
  -- requests come between and whichever statements of theirs fail: the next machine is refused, and
  -- nothing changes.
  pub enroll_agent_once :
      (r again : EnrollRequest) (host agent_token host2 agent_token2 : String) (now later : Time)
      (f g : EnrollFaults) (d : Desk) (qs : List DeskRequest)
      → f.update_fails ≡ false
      → f.commit_fails ≡ false
      → (enroll_agent sha256_hex "POST" (some r) host agent_token now f d).1
        ≡ enrolled host agent_token
      → again.token ≡ r.token
      → let after =
          serve_all qs (enroll_agent sha256_hex "POST" (some r) host agent_token now f d).0 in
        enroll_agent sha256_hex "POST" (some again) host2 agent_token2 later g after
        ≡ (after, invalid_enrollment)
  unfolding enroll_agent
  enroll_agent_once r again host agent_token host2 agent_token2 now later f g d qs u c h same =
      let first = (enroll_agent sha256_hex "POST" (some r) host agent_token now f d).0 in
      let after = serve_all qs first in
      let gone =
        serve_all-IsSpent (hash sha256_hex r.token) qs first
          (enroll_agent-spends r host agent_token now f d u c h) in
      let refused =
        refused_when_spent again later (lookup (hash sha256_hex again.token) after.enrollments)
          (ap (λ t. spent (lookup (hash sha256_hex t) after.enrollments)) same ∙ gone) in
      rw refused refl
