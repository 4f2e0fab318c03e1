-- ===== src/Retry.antt =====
-- agent_schedule.go `agentNetworkLoop`: when the agent tries again to reach the server. An attempt is
-- what happens in one round of the loop; the list of them ends where the context is cancelled.
pub mod Paced
use codex_token_meter.Prelude.{
  ℕ, zero, suc, ◌+◌, ◌-◌, ◌*◌, ◌^◌, ◌≤◌, Bool, true, false, Option, none, some, List, [], ◌∷◌, min,
  ltb, leb, if◌then◌else◌, ◌≡◌, refl, arith, Bool-cases, inl, inr,
}
use codex_token_meter.Types.{Time}

abbrev pub second : ℕ
second = 1_000_000_000

pub record Network : Type 0 where
  pub idle : ℕ
  pub minimum : ℕ

-- An operation that takes `took`, the random share of its back-off if it fails, and how long after the
-- least pause a wakeup is there, if one comes.
pub record Attempt : Type 0 where
  pub succeeded : Bool
  pub took : ℕ
  pub jitter : ℕ
  pub wake : Option ℕ

-- When an operation began, and what `retry` was told: the time of the next one, or the zero time.
pub record Tried : Type 0 where
  pub started : Time
  pub retry_at : Time

-- `time.Second * (1 << min(failures-1, 5))`.
unfoldable pub base_of : ℕ → ℕ
base_of failures = second * 2 ^ min (failures - 1) 5

abbrev pub idle_for : ℕ → Option ℕ → ℕ
idle_for idle none = idle
idle_for idle (some wake) = min wake idle

-- The failures in a row behind an attempt, and the pause until the next.
unfoldable pub failures_after : Attempt → ℕ → ℕ
failures_after a failures = if a.succeeded then 0 else suc failures

unfoldable pub pause_after : Network → Attempt → ℕ → ℕ
unfolding base_of
pause_after net a failures =
    if a.succeeded
    then net.minimum + idle_for net.idle a.wake
    else base_of (suc failures) + a.jitter

unfoldable pub retry_of : Attempt → ℕ → Time → Time
unfolding base_of
retry_of a failures done = if a.succeeded then 0 else done + (base_of (suc failures) + a.jitter)

unfoldable pub agent_network_loop : Network → List Attempt → ℕ → Time → List Tried
unfolding failures_after pause_after retry_of
agent_network_loop net [] failures now = []
agent_network_loop net (a ∷ attempts) failures now =
    record { started = now; retry_at = retry_of a failures (now + a.took) }
    ∷ agent_network_loop net attempts (failures_after a failures)
        (now + a.took + pause_after net a failures)

-- `rand.Float64()*float64(base)/4` is less than a quarter of the base.
abbrev pub IsJitter : ℕ → Attempt → Type 0
IsJitter failures a = 4 * a.jitter ≤ base_of (suc failures)

abbrev pub AllJitter : List Attempt → ℕ → Type 0
AllJitter [] failures = Unit
AllJitter (a ∷ as') failures = IsJitter failures a × AllJitter as' (failures_after a failures)
