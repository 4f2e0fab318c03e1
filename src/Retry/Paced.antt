-- ===== src/Retry/Paced.antt =====
-- agent_schedule.go `agentNetworkLoop`: the pauses between attempts, against a count of failures.
use codex_token_meter.Prelude.{
  ℕ, zero, suc, ◌+◌, ◌-◌, ◌*◌, ◌≤◌, Bool, true, false, Option, none, some, List, [], ◌∷◌, min,
  if◌then◌else◌, ◌≡◌, refl, arith, Bool-cases, inl, inr, sym,
}
use codex_token_meter.Types.{Time}
use codex_token_meter.Retry.{
  second, Network, Attempt, Tried, base_of, idle_for, failures_after, pause_after, retry_of,
  agent_network_loop, AllJitter, IsJitter,
}

-- How long to wait behind n failures in a row and one more: a second, doubled with each, at most 32.
abbrev pub doubled : ℕ → ℕ
doubled zero = second
doubled (suc n) = min (2 * doubled n) (32 * second)

-- What is asked of the pause between an attempt and the next, by a count of failures.
abbrev pub IsPause : Network → Bool → ℕ → ℕ → Type 0
IsPause net true failures pause = (net.minimum ≤ pause) × (pause ≤ net.minimum + net.idle)
IsPause net false failures pause =
    (doubled failures ≤ pause) × (4 * pause ≤ 5 * doubled failures) × (pause ≤ 40 * second)

abbrev pub next_start : List Tried → Time → Time
next_start [] otherwise = otherwise
next_start (t ∷ ts) otherwise = t.started

-- The whole log: each attempt's pause, and that `retry` was told the next start of a failed one and
-- the zero time by a success.
abbrev pub IsPaced : Network → List Attempt → ℕ → List Tried → Type 0
IsPaced net [] failures ts = ts ≡ []
IsPaced net (a ∷ as') failures [] = ⊥
IsPaced net (a ∷ as') failures (t ∷ ts) =
    ((pause : ℕ) × IsPause net a.succeeded failures pause
      × (next_start ts (t.started + a.took + pause) ≡ t.started + a.took + pause)
      × (t.retry_at ≡ (if a.succeeded then 0 else t.started + a.took + pause)))
    × IsPaced net as' (if a.succeeded then 0 else suc failures) ts

doubled_top : (n : ℕ) → doubled (suc (suc (suc (suc (suc n))))) ≡ 32 * second
doubled_top zero = refl
doubled_top (suc n) = omega (arith, doubled_top n)

base_of-doubled : (n : ℕ) → base_of (suc n) ≡ doubled n
unfolding base_of
base_of-doubled zero = refl
base_of-doubled (suc zero) = refl
base_of-doubled (suc (suc zero)) = refl
base_of-doubled (suc (suc (suc zero))) = refl
base_of-doubled (suc (suc (suc (suc zero)))) = refl
base_of-doubled (suc (suc (suc (suc (suc n))))) =
    let top : min (suc (suc (suc (suc (suc (suc n))))) - 1) 5 ≡ 5 = omega arith in
    rw top (sym (doubled_top n))

doubled_bounds : (n : ℕ) → (second ≤ doubled n) × (doubled n ≤ 32 * second)
doubled_bounds zero = omega arith
doubled_bounds (suc n) = omega (arith, doubled_bounds n)

idle_for_bound : (idle : ℕ) (wake : Option ℕ) → idle_for idle wake ≤ idle
idle_for_bound idle none = omega arith
idle_for_bound idle (some w) = omega arith

pause_after-IsPause :
    (net : Network) (a : Attempt) (failures : ℕ)
    → IsJitter failures a
    → IsPause net a.succeeded failures (pause_after net a failures)
unfolding pause_after
pause_after-IsPause net a failures h = elim (Bool-cases a.succeeded) [
  | inl e ↦ rw e (omega (arith, idle_for_bound net.idle a.wake))
  | inr e ↦
      rw (e, base_of-doubled failures)
        (failed (doubled failures) a.jitter (doubled_bounds failures).1
          (rw (base_of-doubled failures) at h))
]
  where
    failed :
        (d j : ℕ)
        → d ≤ 32 * second
        → 4 * j ≤ d
        → (d ≤ d + j) × (4 * (d + j) ≤ 5 * d) × (d + j ≤ 40 * second)
    failed d j k l = omega arith

next_start-loop :
    (net : Network) (attempts : List Attempt) (failures : ℕ) (at : Time)
    → next_start (agent_network_loop net attempts failures at) at ≡ at
unfolding agent_network_loop
next_start-loop net [] failures at = refl
next_start-loop net (a ∷ rest) failures at = refl

retry_of-told :
    (net : Network) (a : Attempt) (failures : ℕ) (done : Time)
    → retry_of a failures done ≡ (if a.succeeded then 0 else done + pause_after net a failures)
unfolding retry_of pause_after
retry_of-told net a failures done = elim (Bool-cases a.succeeded) [
  | inl e ↦ rw e refl
  | inr e ↦ rw e refl
]

-- Behind a success the agent pauses for the least pause and for the idle time at most, which a wakeup
-- can only cut short, and the count starts again. Behind the n-th failure in a row it pauses for a
-- second doubled n - 1 times, 32 at most, and for a quarter more at most, so never above 40 seconds;
-- no wakeup cuts that short. `retry` is told of the next start, and of the zero time by a success.
pub agent_network_loop-IsPaced :
    (net : Network) (attempts : List Attempt) (failures : ℕ) (now : Time)
    → AllJitter attempts failures
    → IsPaced net attempts failures (agent_network_loop net attempts failures now)
unfolding agent_network_loop failures_after
agent_network_loop-IsPaced net [] failures now h = refl
agent_network_loop-IsPaced net (a ∷ rest) failures now h = (
  (
    pause_after net a failures,
    pause_after-IsPause net a failures h.0,
    next_start-loop net rest (failures_after a failures)
        (now + a.took + pause_after net a failures),
    retry_of-told net a failures (now + a.took),
  ),
  agent_network_loop-IsPaced net rest (failures_after a failures)
      (now + a.took + pause_after net a failures) h.1,
)
