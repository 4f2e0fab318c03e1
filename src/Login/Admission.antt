-- ===== src/Login/Admission.antt =====
-- A token that is issued lets a machine in, as long as it lasts.
use codex_token_meter.Prelude.{
  ℕ, ◌+◌, ◌≤◌, String, true, false, ◌||◌, some, List, ltb, ◌==◌, text_eq, ◌≡◌, refl, ap, ◌∙◌, arith,
  lookup, upsert, lookup-upsert_self, beq_self,
}
use codex_token_meter.Types.{Time}
use codex_token_meter.Ledger.Db.{Agent}
use codex_token_meter.Login.Enroll.{
  Desk, EnrollRequest, EnrollFaults, enrolled, exists, hash, create_enrollment, may_enroll, admit,
  enroll_agent, enrollment_life, new_enrollment, new_agent,
}

may_enroll_new :
    (platform : String) (now later : Time) (r : EnrollRequest)
    → r.platform ≡ platform
    → later ≤ now + enrollment_life
    → may_enroll later r (some (new_enrollment platform now)) ≡ true
may_enroll_new platform now later r p h =
    let in_time : ltb (now + enrollment_life) later ≡ false = ground (arith, h) in
    rw (p, beq_self platform, in_time) refl

module _ (sha256_hex : List ℕ → String) where
  -- The machine has a row that its own token opens, and is not revoked.
  abbrev pub IsKnown : String → String → String → Desk → Type 0
  IsKnown host agent_token platform d =
      (a : Agent) × (lookup host d.agents ≡ some a)
      × (a.token_hash ≡ hash sha256_hex agent_token)
      × (a.platform ≡ platform)
      × (a.revoked ≡ false)

  admit-enrolled :
      (r : EnrollRequest) (host agent_token : String) (later : Time) (f : EnrollFaults) (d : Desk)
      → exists (lookup host d.agents) ≡ false
      → f.insert_fails ≡ false
      → f.commit_fails ≡ false
      → let end = admit sha256_hex r host agent_token later f d in
        (end.1 ≡ enrolled host agent_token) × IsKnown host agent_token r.platform end.0
  unfolding admit
  admit-enrolled r host agent_token later f d fresh fine kept =
      let row = new_agent sha256_hex r host agent_token in
      rw (fine, fresh, kept)
        (refl, (row, lookup-upsert_self host (λ _. row) d.agents, refl, refl, refl))

  -- A token issued for a platform lets a machine of that platform in at any moment of the next fifteen
  -- minutes, where its hash is new, the machine's name is not taken and neither the INSERTs nor the COMMIT
  -- fail: the machine is told its name and token, and its row is there, not revoked, of its platform and
  -- with the hash of that token, as the uploads ask for.
  pub create_enrollment-enroll_agent :
      (platform token host agent_token : String) (r : EnrollRequest) (now later : Time)
      (f : EnrollFaults) (d : Desk)
      → (platform == "windows" || platform == "linux") ≡ true
      → exists (lookup (hash sha256_hex token) d.enrollments) ≡ false
      → exists (lookup host d.agents) ≡ false
      → f.insert_fails ≡ false
      → f.commit_fails ≡ false
      → r.token ≡ token
      → r.platform ≡ platform
      → later ≤ now + enrollment_life
      → let end =
          enroll_agent sha256_hex "POST"
            (some r)
            host
            agent_token
            later
            f
            (create_enrollment sha256_hex "POST" platform token now false d).0 in
        (end.1 ≡ enrolled host agent_token) × IsKnown host agent_token r.platform end.0
  unfolding create_enrollment enroll_agent
  create_enrollment-enroll_agent platform token host agent_token r now later f d known new fresh
        fine kept t p h =
      let key = hash sha256_hex token in
      let entry = new_enrollment platform now in
      let table = upsert key (λ _. entry) d.enrollments in
      let there : lookup (hash sha256_hex r.token) table ≡ some entry =
        ap (λ x. lookup (hash sha256_hex x) table) t
        ∙ lookup-upsert_self key (λ _. entry) d.enrollments in
      rw (known, new, there, may_enroll_new platform now later r p h)
        (admit-enrolled r host agent_token later f (record d { enrollments = table }) fresh fine
          kept)
