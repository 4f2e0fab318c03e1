-- ===== src/Login/Limited.antt =====
-- handlers.go `loginHandler` with `loginAllowed` and `recordLoginFailure`: how many passwords can be
-- tried from one address.
use codex_token_meter.Prelude.{
  ℕ, ◌≤◌, ◌<◌, String, Bool, true, false, not, ◌||◌, Option, List, [], ◌∷◌, ◌++◌, Table, lookup,
  lookup-upsert, length, length-append, ◌==◌, text_eq, if◌then◌else◌, ◌≡◌, refl, sym, ap, ◌∙◌,
  arith, Bool-cases, inl, inr, ltb→lt, beq_self,
}
use mathlib.Core.Logic.{◌⊎◌}
use codex_token_meter.Types.{Time}
use codex_token_meter.Limiter.{
  login_window, recent, times_of, login_allowed, record_login_failure, recent-append, recent-recent,
  length-recent_later, length-recent-le,
}
use codex_token_meter.Login.{
  Crypto, Config, LoginRequest, LoginAnswer, bad_credentials, login, same_text, cookie_matches,
}

module _ (crypto : Crypto) (config : Config) where
  -- A request with the clocks that the handler reads.
  pub record Try : Type 0 where
    pub seconds : ℕ
    pub clock : Time
    pub request : LoginRequest crypto config

  abbrev is_bad : LoginAnswer crypto config → Bool
  is_bad bad_credentials = true
  is_bad _ = false

  -- A wrong name or password from the address is a failure.
  abbrev pub after_try : String → Try → LoginAnswer crypto config → List Time → List Time
  after_try ip t answer failures =
      if t.request.ip == ip
      then (if is_bad answer then failures ++ t.clock ∷ [] else failures)
      else failures

  -- The times of an address's failures, on top of those before, over any requests.
  abbrev pub failures_of : String → List Try → Table String (List Time) → List Time → List Time
  failures_of ip [] m failures = failures
  failures_of ip (t ∷ ts) m failures =
      let out = login crypto config t.seconds t.clock t.request m in
      failures_of ip ts out.0 (after_try ip t out.1 failures)

  abbrev allowed_of : Try → Table String (List Time) → Table String (List Time) × Bool
  allowed_of t m = login_allowed t.request.ip t.clock m

  abbrev out_of :
      Try → Table String (List Time) → Table String (List Time) × LoginAnswer crypto config
  out_of t m = login crypto config t.seconds t.clock t.request m

  -- The table stays, or is pruned at the address, or also holds the failure, which only happens if the
  -- address had fewer than five.
  abbrev IsOutcome : Try → Table String (List Time) → Type 0
  IsOutcome t m =
      (((out_of t m).0 ≡ m) × (is_bad (out_of t m).1 ≡ false))
      ⊎ (((out_of t m).0 ≡ (allowed_of t m).0) × (is_bad (out_of t m).1 ≡ false))
      ⊎ (((allowed_of t m).1 ≡ true)
          × ((out_of t m).0 ≡ record_login_failure t.request.ip t.clock (allowed_of t m).0)
          × (is_bad (out_of t m).1 ≡ true))

  login-IsOutcome : (t : Try) (m : Table String (List Time)) → IsOutcome t m
  unfolding login
  login-IsOutcome t m = elim (Bool-cases (t.request.method == "GET")) [
    | inl g ↦ rw g (inl (refl, refl))
    | inr g ↦ elim (Bool-cases (t.request.method == "POST")) [
      | inr p ↦ rw (g, p) (inl (refl, refl))
      | inl p ↦ elim (Bool-cases (allowed_of t m).1) [
        | inr a ↦ rw (g, p, a) (inr (inl (refl, refl)))
        | inl a ↦
            elim (Bool-cases
              (cookie_matches crypto config t.request.csrf_cookie t.request.csrf_value)) [
                | inr c ↦ rw (g, p, a, c) (inr (inl (refl, refl)))
                | inl c ↦
                    elim (Bool-cases (
                      not (same_text t.request.username config.admin_user)
                      || not
                          (crypto.verify_password config.admin_password_hash t.request.password))) [
                            | inl w ↦ rw (g, p, a, c, w) (inr (inr (refl, refl, refl)))
                            | inr w ↦ rw (g, p, a, c, w) (inr (inl (refl, refl)))
                          ]
              ]
      ]
    ]
  ]

  -- The table tells the failures of the last 15 minutes, and there are five at most.
  abbrev Tells : String → Time → Table String (List Time) → List Time → Type 0
  Tells ip last m failures =
      (t : Time)
      → last ≤ t
      → (recent login_window t (times_of (lookup ip m)) ≡ recent login_window t failures)
        × (length (recent login_window t failures) ≤ 5)

  pruned :
      (ip : String) (now : Time) (m : Table String (List Time))
      → times_of (lookup ip (login_allowed ip now m).0)
        ≡ recent login_window now (times_of (lookup ip m))
  unfolding login_allowed
  pruned ip now m =
      rw
        (lookup-upsert ip ip (λ _. recent login_window now (times_of (lookup ip m))) m, beq_self ip)
        refl

  recorded :
      (ip : String) (now : Time) (m : Table String (List Time))
      → times_of (lookup ip (record_login_failure ip now m)) ≡ times_of (lookup ip m) ++ now ∷ []
  unfolding record_login_failure
  recorded ip now m = rw (lookup-upsert ip ip (λ old. times_of old ++ now ∷ []) m, beq_self ip) refl

  other_pruned :
      (ip a : String) (now : Time) (m : Table String (List Time))
      → (a == ip) ≡ false
      → lookup ip (login_allowed a now m).0 ≡ lookup ip m
  unfolding login_allowed
  other_pruned ip a now m h =
      rw (lookup-upsert a ip (λ _. recent login_window now (times_of (lookup a m))) m, h) refl

  other_recorded :
      (ip a : String) (now : Time) (m : Table String (List Time))
      → (a == ip) ≡ false
      → lookup ip (record_login_failure a now m) ≡ lookup ip m
  unfolding record_login_failure
  other_recorded ip a now m h = rw (lookup-upsert a ip (λ old. times_of old ++ now ∷ []) m, h) refl

  Tells-pruned :
      (ip : String) (last now : Time) (m : Table String (List Time)) (failures : List Time)
      → last ≤ now
      → Tells ip last m failures
      → Tells ip now (login_allowed ip now m).0 failures
  Tells-pruned ip last now m failures le h t later = (
    ap (recent login_window t) (pruned ip now m)
        ∙ recent-recent login_window now t (times_of (lookup ip m)) later
        ∙ (h t (omega arith)).0,
    (h t (omega arith)).1,
  )

  fewer :
      (ip : String) (now : Time) (m : Table String (List Time)) (failures : List Time)
      → recent login_window now (times_of (lookup ip m)) ≡ recent login_window now failures
      → (login_allowed ip now m).1 ≡ true
      → length (recent login_window now failures) < 5
  unfolding login_allowed
  fewer ip now m failures same h =
      ltb→lt (length (recent login_window now failures)) 5 (rw same at h)

  Tells-recorded :
      (ip : String) (last now : Time) (m : Table String (List Time)) (failures : List Time)
      → last ≤ now
      → (login_allowed ip now m).1 ≡ true
      → Tells ip last m failures
      → Tells ip now (record_login_failure ip now (login_allowed ip now m).0) (failures ++ now ∷ [])
  Tells-recorded ip last now m failures le room h t later =
      let kept = Tells-pruned ip last now m failures le h t later in
      (
        ap (recent login_window t) (recorded ip now (login_allowed ip now m).0)
            ∙ recent-append login_window t (times_of (lookup ip (login_allowed ip now m).0))
                (now ∷ [])
            ∙ ap (λ (xs : List Time). xs ++ recent login_window t (now ∷ [])) kept.0
            ∙ sym (recent-append login_window t failures (now ∷ [])),
        rw (recent-append login_window t failures (now ∷ [])) (
            omega (
              arith,
              length-append (recent login_window t failures) (recent login_window t (now ∷ [])),
              length-recent_later login_window now t failures later,
              length-recent-le login_window t (now ∷ []),
              fewer ip now m failures (h now le).0 room,
            )),
      )

  -- The table behind a request, seen from one address.
  Tells-by :
      (ip : String) (now : Time) (m m' : Table String (List Time)) (failures : List Time)
      → lookup ip m' ≡ lookup ip m
      → Tells ip now m failures
      → Tells ip now m' failures
  Tells-by ip now m m' failures same h t later = (
    ap (λ (o : Option (List Time)). recent login_window t (times_of o)) same ∙ (h t later).0,
    (h t later).1,
  )

  Tells-later :
      (ip : String) (last now : Time) (m : Table String (List Time)) (failures : List Time)
      → last ≤ now
      → Tells ip last m failures
      → Tells ip now m failures
  Tells-later ip last now m failures le h t later = h t (omega arith)

  after_same :
      (ip : String) (t : Try) (a : LoginAnswer crypto config) (failures : List Time)
      → is_bad a ≡ false
      → after_try ip t a failures ≡ failures
  after_same ip t a failures h = elim (Bool-cases (t.request.ip == ip)) [
    | inl e ↦ rw (e, h) refl
    | inr e ↦ rw e refl
  ]

  Tells-own :
      (ip : String) (last : Time) (t : Try) (m : Table String (List Time)) (failures : List Time)
      → last ≤ t.clock
      → t.request.ip ≡ ip
      → IsOutcome t m
      → Tells ip last m failures
      → Tells ip t.clock (out_of t m).0 (after_try ip t (out_of t m).1 failures)
  Tells-own ip last t m failures le e (inl (same, ok)) h =
      rw (same, after_same ip t (out_of t m).1 failures ok)
        (Tells-later ip last t.clock m failures le h)
  Tells-own ip last t m failures le e (inr (inl (same, ok))) h =
      rw (same, after_same ip t (out_of t m).1 failures ok, e)
        (Tells-pruned ip last t.clock m failures le h)
  Tells-own ip last t m failures le e (inr (inr (room, same, bad))) h =
      rw (same, bad, e, beq_self ip) (Tells-recorded ip last t.clock m failures le (rw e at room) h)

  Tells-other :
      (ip : String) (last : Time) (t : Try) (m : Table String (List Time)) (failures : List Time)
      → last ≤ t.clock
      → (t.request.ip == ip) ≡ false
      → IsOutcome t m
      → Tells ip last m failures
      → Tells ip t.clock (out_of t m).0 (after_try ip t (out_of t m).1 failures)
  Tells-other ip last t m failures le e outcome h = rw e (
      Tells-by ip t.clock m (out_of t m).0 failures (unchanged outcome)
        (Tells-later ip last t.clock m failures le h))
    where
      unchanged : IsOutcome t m → lookup ip (out_of t m).0 ≡ lookup ip m
      unchanged (inl (same, ok)) = ap (lookup ip) same
      unchanged (inr (inl (same, ok))) =
          ap (lookup ip) same ∙ other_pruned ip t.request.ip t.clock m e
      unchanged (inr (inr (room, same, bad))) =
          ap (lookup ip) same
          ∙ other_recorded ip t.request.ip t.clock (allowed_of t m).0 e
          ∙ other_pruned ip t.request.ip t.clock m e

  -- Clocks that do not go back, from one time to another.
  abbrev pub Between : Time → Time → List Try → Type 0
  Between last now [] = last ≤ now
  Between last now (t ∷ ts) = (last ≤ t.clock) × Between t.clock now ts

  failures_of-bounded :
      (ip : String) (ts : List Try) (last now : Time) (m : Table String (List Time))
      (failures : List Time)
      → Between last now ts
      → Tells ip last m failures
      → length (recent login_window now (failures_of ip ts m failures)) ≤ 5
  failures_of-bounded ip [] last now m failures between h = (h now between).1
  failures_of-bounded ip (t ∷ ts) last now m failures (le, between) h =
      failures_of-bounded ip ts t.clock now (out_of t m).0 _ between
        (elim (Bool-cases (t.request.ip == ip)) [
          | inl e ↦
              Tells-own ip last t m failures le ((text_eq.same_iff t.request.ip ip).0 e)
                (login-IsOutcome t m) h
          | inr e ↦ Tells-other ip last t m failures le e (login-IsOutcome t m) h
        ])

  -- From the server's start on, whatever requests come to the login from whatever addresses, one after
  -- the other and with clocks that do not go back: in the 15 minutes before any time that is not before
  -- them, no address was told more than five times that its name or password is wrong.
  pub login_failures_bounded :
      (ip : String) (ts : List Try) (start now : Time)
      → Between start now ts
      → length (recent login_window now (failures_of ip ts [] [])) ≤ 5
  unfolding lookup recent
  login_failures_bounded ip ts start now between =
      failures_of-bounded ip ts start now [] [] between (λ t later. (refl, omega arith))
