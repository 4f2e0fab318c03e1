-- ===== src/Counts.antt =====
-- server.go `deltaCounts`: what a cumulative counter adds to the ledger, and sums of counters.
use codex_token_meter.Prelude.{
  ℕ, ◌+◌, ◌≤◌, int_laws, ℤ, pos, ◌+ℤ◌, ◌-ℤ◌, ◌≤ℤ◌, ltb_ℤ, +ℤ_zero, zero_+ℤ, +ℤ_assoc, -ℤ_parts, ◌≡◌,
  Bool, false, arith, if◌then◌else◌,
}
use codex_token_meter.Types.{Tally, TokenCounts}

-- The closure `f` of `deltaCounts`.
unfoldable pub increment : Bool → ℤ → ℤ → ℤ
increment reset a b = if reset then a else if ltb_ℤ a b then pos 0 else a -ℤ b

unfoldable pub delta_counts : TokenCounts → TokenCounts → Bool → TokenCounts
delta_counts n o reset = record {
  tally = record {
    input_tokens = increment reset n.input_tokens o.input_tokens;
    cached_input_tokens = increment reset n.cached_input_tokens o.cached_input_tokens;
    cache_write_input_tokens =
        increment reset n.cache_write_input_tokens o.cache_write_input_tokens;
    output_tokens = increment reset n.output_tokens o.output_tokens;
    reasoning_output_tokens = increment reset n.reasoning_output_tokens o.reasoning_output_tokens;
    total_tokens = increment reset n.total_tokens o.total_tokens;
  };
  cache_write_visible = n.cache_write_visible;
}

-- Go's `TokenCounts{}`.
abbrev pub no_tally : Tally
no_tally = record {
  input_tokens = pos 0;
  cached_input_tokens = pos 0;
  cache_write_input_tokens = pos 0;
  output_tokens = pos 0;
  reasoning_output_tokens = pos 0;
  total_tokens = pos 0;
}

abbrev pub no_counts : TokenCounts
no_counts = record { tally = no_tally; cache_write_visible = false }

infixl 65 ◌+ᵗ◌
unfoldable pub ◌+ᵗ◌ : Tally → Tally → Tally
a +ᵗ b = record {
  input_tokens = a.input_tokens +ℤ b.input_tokens;
  cached_input_tokens = a.cached_input_tokens +ℤ b.cached_input_tokens;
  cache_write_input_tokens = a.cache_write_input_tokens +ℤ b.cache_write_input_tokens;
  output_tokens = a.output_tokens +ℤ b.output_tokens;
  reasoning_output_tokens = a.reasoning_output_tokens +ℤ b.reasoning_output_tokens;
  total_tokens = a.total_tokens +ℤ b.total_tokens;
}

pub +ᵗ_assoc : (a b c : Tally) → a +ᵗ b +ᵗ c ≡ a +ᵗ (b +ᵗ c)
unfolding ◌+ᵗ◌
+ᵗ_assoc a b c = simp +ℤ_assoc

pub +ᵗ_zero : (a : Tally) → a +ᵗ no_tally ≡ a
unfolding ◌+ᵗ◌
+ᵗ_zero a = simp +ℤ_zero

pub zero_+ᵗ : (a : Tally) → no_tally +ᵗ a ≡ a
unfolding ◌+ᵗ◌
zero_+ᵗ a = simp zero_+ℤ

-- Every column lies between two bounds.
pub record IsWithin (lo hi : ℤ) (t : Tally) : Type 0 where
  pub input_tokens : (lo ≤ℤ t.input_tokens) × (t.input_tokens ≤ℤ hi)
  pub cached_input_tokens : (lo ≤ℤ t.cached_input_tokens) × (t.cached_input_tokens ≤ℤ hi)
  pub cache_write_input_tokens :
      (lo ≤ℤ t.cache_write_input_tokens) × (t.cache_write_input_tokens ≤ℤ hi)
  pub output_tokens : (lo ≤ℤ t.output_tokens) × (t.output_tokens ≤ℤ hi)
  pub reasoning_output_tokens :
      (lo ≤ℤ t.reasoning_output_tokens) × (t.reasoning_output_tokens ≤ℤ hi)
  pub total_tokens : (lo ≤ℤ t.total_tokens) × (t.total_tokens ≤ℤ hi)

pub increment_bounds :
    (reset : Bool) (a b hi : ℤ)
    → (pos 0 ≤ℤ a) × (a ≤ℤ hi)
    → (pos 0 ≤ℤ b) × (b ≤ℤ hi)
    → (pos 0 ≤ℤ increment reset a b) × (increment reset a b ≤ℤ hi)
unfolding increment
increment_bounds reset a b hi ha hb = ground (arith, -ℤ_parts a b)

-- The delta of two counters whose columns all lie between 0 and a bound lies between 0 and that
-- bound, at a reset or not.
pub delta_counts-IsWithin :
    (n o : TokenCounts) (reset : Bool) {hi : ℤ}
    → IsWithin (pos 0) hi n.tally
    → IsWithin (pos 0) hi o.tally
    → IsWithin (pos 0) hi (delta_counts n o reset).tally
unfolding delta_counts
delta_counts-IsWithin n o reset {hi} a b = record {
  input_tokens = increment_bounds reset _ _ hi a.input_tokens b.input_tokens;
  cached_input_tokens = increment_bounds reset _ _ hi a.cached_input_tokens b.cached_input_tokens;
  cache_write_input_tokens =
      increment_bounds reset _ _ hi a.cache_write_input_tokens b.cache_write_input_tokens;
  output_tokens = increment_bounds reset _ _ hi a.output_tokens b.output_tokens;
  reasoning_output_tokens =
      increment_bounds reset _ _ hi a.reasoning_output_tokens b.reasoning_output_tokens;
  total_tokens = increment_bounds reset _ _ hi a.total_tokens b.total_tokens;
}

pub IsWithin-mono :
    {m n : ℕ} (t : Tally) → m ≤ n → IsWithin (pos 0) (pos m) t → IsWithin (pos 0) (pos n) t
IsWithin-mono t le h = omega arith

sum_bounds :
    (m n : ℕ) (a b : ℤ)
    → (pos 0 ≤ℤ a) × (a ≤ℤ pos m)
    → (pos 0 ≤ℤ b) × (b ≤ℤ pos n)
    → (pos 0 ≤ℤ a +ℤ b) × (a +ℤ b ≤ℤ pos (m + n))
sum_bounds m n a b h k = omega int_laws

pub +ᵗ-IsWithin :
    {m n : ℕ} (a b : Tally)
    → IsWithin (pos 0) (pos m) a
    → IsWithin (pos 0) (pos n) b
    → IsWithin (pos 0) (pos (m + n)) (a +ᵗ b)
unfolding ◌+ᵗ◌
+ᵗ-IsWithin {m} {n} a b h k = record {
  input_tokens = sum_bounds m n _ _ h.input_tokens k.input_tokens;
  cached_input_tokens = sum_bounds m n _ _ h.cached_input_tokens k.cached_input_tokens;
  cache_write_input_tokens =
      sum_bounds m n _ _ h.cache_write_input_tokens k.cache_write_input_tokens;
  output_tokens = sum_bounds m n _ _ h.output_tokens k.output_tokens;
  reasoning_output_tokens = sum_bounds m n _ _ h.reasoning_output_tokens k.reasoning_output_tokens;
  total_tokens = sum_bounds m n _ _ h.total_tokens k.total_tokens;
}
