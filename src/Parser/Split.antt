-- ===== src/Parser/Split.antt =====
-- parser.go `localEstimateTokens`: the estimate of a text that arrives in parts.
use Prim.Native.Char.{Char}
use codex_token_meter.Prelude.{
  ℕ, ◌+◌, ◌≤◌, List, [], ◌∷◌, ◌++◌, ◌≡◌, refl, sym, ap, ◌∙◌, ◌⊎◌, arith, Bool-cases, inl, inr,
}
use codex_token_meter.Display.{chars, text}
use codex_token_meter.Parser.Estimate.{
  Scripts, flush_word, count_rune, estimate_from, local_estimate_tokens, by_character, in_word,
  rune_len,
}

chars-text : (cs : List Char) → chars (text cs) ≡ cs
chars-text [] = refl
chars-text (c ∷ cs) = λ i. c ∷ chars-text cs i

flush_word_add : (k tokens bytes : ℕ) → flush_word (k + tokens) bytes ≡ k + flush_word tokens bytes
unfolding flush_word
flush_word_add k tokens bytes = ground arith

plus_zero : (n : ℕ) → n + 0 ≡ n
plus_zero n = omega arith

add_assoc : (a b c : ℕ) → a + b + c ≡ a + (b + c)
add_assoc a b c = omega arith

moved :
    (k tokens bytes d : ℕ) → flush_word (k + tokens) bytes + d ≡ k + (flush_word tokens bytes + d)
moved k tokens bytes d = omega (arith, flush_word_add k tokens bytes)

-- Two parts of a word count for what the word does, or for one more.
flush_word_split :
    (k tokens b c : ℕ)
    → (flush_word (k + tokens) (b + c) ≤ flush_word k b + flush_word tokens c)
      × (flush_word k b + flush_word tokens c ≤ flush_word (k + tokens) (b + c) + 1)
unfolding flush_word
flush_word_split k tokens b c = (ground arith, ground arith)

module _ (u : Scripts) where
  -- A character goes on with a word, or ends it and counts for d tokens itself.
  count_rune-cases :
      (c : Char)
      → ((tokens bytes : ℕ) → count_rune u c (tokens, bytes) ≡ (tokens, bytes + rune_len c))
        ⊎ ((d : ℕ) × ((tokens bytes : ℕ)
              → count_rune u c (tokens, bytes) ≡ (flush_word tokens bytes + d, 0)))
  unfolding count_rune
  count_rune-cases c = elim (Bool-cases (by_character u c)) [
    | inl e ↦ inr (1, λ tokens bytes. rw e refl)
    | inr e ↦ elim (Bool-cases (in_word u c)) [
      | inl w ↦ inl (λ tokens bytes. rw (e, w) refl)
      | inr n ↦ elim (Bool-cases (u.is_space c)) [
        | inl s ↦ inr (
          0,
          λ tokens bytes. rw (e, n, s) (λ i. (sym (plus_zero (flush_word tokens bytes)) i, 0)),
        )
        | inr s ↦ inr (1, λ tokens bytes. rw (e, n, s) refl)
      ]
    ]
  ]

  -- The estimate behind a character that ends a word.
  abbrev Counted : List Char → Type 0
  Counted cs =
      (k tokens bytes : ℕ)
      → estimate_from u (k + tokens, bytes) cs ≡ k + estimate_from u (tokens, bytes) cs

  -- Tokens that are counted already are added at the end.
  estimate_from_add : (cs : List Char) → Counted cs
  unfolding estimate_from
  estimate_from_add [] k tokens bytes = flush_word_add k tokens bytes
  estimate_from_add (c ∷ cs) k tokens bytes = elim (count_rune-cases c) [
    | inl on ↦
        ap (λ (x : ℕ × ℕ). estimate_from u x cs) (on (k + tokens) bytes)
        ∙ estimate_from_add cs k tokens (bytes + rune_len c)
        ∙ ap (λ (x : ℕ × ℕ). k + estimate_from u x cs) (sym (on tokens bytes))
    | inr (d, off) ↦
        ap (λ (x : ℕ × ℕ). estimate_from u x cs) (off (k + tokens) bytes)
        ∙ (λ i. estimate_from u (moved k tokens bytes d i, 0) cs)
        ∙ estimate_from_add cs k (flush_word tokens bytes + d) 0
        ∙ ap (λ (x : ℕ × ℕ). k + estimate_from u x cs) (sym (off tokens bytes))
  ]

  -- The rest of a text, counted on and counted by itself.
  estimate_from_split :
      (cs : List Char) (k b tokens c : ℕ)
      → (estimate_from u (k + tokens, b + c) cs ≤ flush_word k b + estimate_from u (tokens, c) cs)
        × (flush_word k b + estimate_from u (tokens, c) cs
            ≤ estimate_from u (k + tokens, b + c) cs + 1)
  unfolding estimate_from
  estimate_from_split [] k b tokens c = flush_word_split k tokens b c
  estimate_from_split (x ∷ cs) k b tokens c = elim (count_rune-cases x) [
    | inl on ↦
        rw (on (k + tokens) (b + c), on tokens c, add_assoc b c (rune_len x))
          (estimate_from_split cs k b tokens (c + rune_len x))
    | inr (d, off) ↦
        rw
          (
            off (k + tokens) (b + c),
            off tokens c,
            estimate_at_zero cs (flush_word (k + tokens) (b + c) + d),
            estimate_at_zero cs (flush_word tokens c + d),
          )
          (omega (arith, flush_word_split k tokens b c))
  ]
    where
      estimate_at_zero :
          (ds : List Char) (n : ℕ) → estimate_from u (n, 0) ds ≡ n + estimate_from u (0, 0) ds
      estimate_at_zero ds n =
          (λ i. estimate_from u (sym (plus_zero n) i, 0) ds) ∙ estimate_from_add ds n 0 0

  -- What is counted at the end of a first part.
  estimate_from-append :
      (cs ds : List Char) (tokens bytes : ℕ)
      → (estimate_from u (tokens, bytes) (cs ++ ds)
          ≤ estimate_from u (tokens, bytes) cs + estimate_from u (0, 0) ds)
        × (estimate_from u (tokens, bytes) cs + estimate_from u (0, 0) ds
            ≤ estimate_from u (tokens, bytes) (cs ++ ds) + 1)
  unfolding estimate_from
  estimate_from-append [] ds tokens bytes =
      let h = estimate_from_split ds tokens bytes 0 0 in rw (plus_zero tokens, plus_zero bytes) at h
  estimate_from-append (c ∷ cs) ds tokens bytes =
      estimate_from-append cs ds (count_rune u c (tokens, bytes)).0
        (count_rune u c (tokens, bytes)).1

-- A text that arrives in two parts is estimated at what the whole is, or at one token more: no cut
-- loses a token, and each adds one at most.
pub local_estimate_tokens-append :
    (u : Scripts) (cs ds : List Char)
    → let parts = local_estimate_tokens u (text cs) + local_estimate_tokens u (text ds) in
      let whole = local_estimate_tokens u (text (cs ++ ds)) in (whole ≤ parts) × (parts ≤ whole + 1)
unfolding local_estimate_tokens
local_estimate_tokens-append u cs ds =
    rw (chars-text cs, chars-text ds, chars-text (cs ++ ds)) (estimate_from-append u cs ds 0 0)
