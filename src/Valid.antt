-- ===== src/Valid.antt =====
-- server.go `validUsageEvent`: what the server refuses before it stores anything.
use Prim.Native.String.{len}
use codex_token_meter.Prelude.{
  ℕ, ℤ, pos, ◌≤ℤ◌, ltb_ℤ, ltb, Bool, true, false, not, ◌&&◌, ◌||◌, ◌==◌, text_eq, ◌≡◌, arith,
}
use codex_token_meter.Types.{EventType, runtime, other, RunState, running, idle, UsageEvent, Tally}
use codex_token_meter.Counts.{IsWithin}

-- The largest value of a counter that the server accepts.
abbrev pub count_limit : ℕ
count_limit = 1_000_000_000_000

unfoldable pub in_range : ℤ → Bool
in_range n = not (ltb_ℤ n (pos 0) || ltb_ℤ (pos count_limit) n)

unfoldable pub known_type : EventType → RunState → Bool
known_type runtime running = true
known_type runtime idle = true
known_type runtime _ = false
known_type (other _) s = false
known_type _ s = true

unfoldable pub tally_in_range : Tally → Bool
unfolding in_range
tally_in_range t =
    in_range t.input_tokens
    && in_range t.cached_input_tokens
    && in_range t.cache_write_input_tokens
    && in_range t.output_tokens
    && in_range t.reasoning_output_tokens
    && in_range t.total_tokens

unfoldable pub valid_usage_event : UsageEvent → Bool
unfolding known_type tally_in_range
valid_usage_event e =
    not (
      e.event_id == ""
      || ltb 128 (len e.event_id)
      || e.conversation_id == ""
      || ltb 256 (len e.conversation_id)
      || ltb 256 (len e.source_file_id))
    && known_type e.event_type e.run_state
    && tally_in_range e.counts.tally
    && in_range e.live_estimate
    && in_range e.model_context_window

in_range_bounds : (n : ℤ) → in_range n ≡ true → (pos 0 ≤ℤ n) × (n ≤ℤ pos count_limit)
unfolding in_range
in_range_bounds n h = ground arith

pub tally_in_range-IsWithin :
    (t : Tally) → tally_in_range t ≡ true → IsWithin (pos 0) (pos count_limit) t
unfolding tally_in_range
tally_in_range-IsWithin t h = record {
  input_tokens = in_range_bounds t.input_tokens (ground arith);
  cached_input_tokens = in_range_bounds t.cached_input_tokens (ground arith);
  cache_write_input_tokens = in_range_bounds t.cache_write_input_tokens (ground arith);
  output_tokens = in_range_bounds t.output_tokens (ground arith);
  reasoning_output_tokens = in_range_bounds t.reasoning_output_tokens (ground arith);
  total_tokens = in_range_bounds t.total_tokens (ground arith);
}

-- The six columns of an event that passes the validation lie between 0 and 10^12.
pub valid_usage_event-IsWithin :
    (e : UsageEvent)
    → valid_usage_event e ≡ true
    → IsWithin (pos 0) (pos count_limit) e.counts.tally
unfolding valid_usage_event
valid_usage_event-IsWithin e h = tally_in_range-IsWithin e.counts.tally (ground arith)
