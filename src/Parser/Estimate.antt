-- ===== src/Parser/Estimate.antt =====
-- parser.go `localEstimateTokens`: how many tokens a visible text may be, without a tokenizer. A text
-- that was decoded from JSON is a list of characters, and `n` is a character's bytes in UTF-8.
use Prim.Native.Char.{Char, code}
use codex_token_meter.Prelude.{ℕ, ◌+◌, ◌/◌, String, Bool, ◌||◌, List, [], ◌∷◌, ltb, if◌then◌else◌}
use codex_token_meter.Display.{chars}

-- The tests of package unicode: the four scripts that are counted by the character, and
-- `IsLetter || IsDigit`, `IsSpace`.
pub record Scripts : Type 0 where
  pub is_han : Char → Bool
  pub is_hiragana : Char → Bool
  pub is_katakana : Char → Bool
  pub is_hangul : Char → Bool
  pub is_letter : Char → Bool
  pub is_digit : Char → Bool
  pub is_space : Char → Bool

abbrev pub rune_len : Char → ℕ
rune_len c =
    if ltb (code c) 0x80
    then 1
    else if ltb (code c) 0x800
    then 2
    else if ltb (code c) 0x1_0000
    then 3
    else 4

-- `flush`: what the word that is being read adds.
unfoldable pub flush_word : ℕ → ℕ → ℕ
flush_word tokens ascii_bytes = if ltb 0 ascii_bytes then tokens + (ascii_bytes + 3) / 4 else tokens

module _ (u : Scripts) where
  abbrev pub by_character : Char → Bool
  by_character c = u.is_han c || u.is_hiragana c || u.is_katakana c || u.is_hangul c

  abbrev pub in_word : Char → Bool
  in_word c = u.is_letter c || u.is_digit c

  -- The loop's body: `tokens` and `asciiBytes` behind a character.
  unfoldable pub count_rune : Char → ℕ × ℕ → ℕ × ℕ
  unfolding flush_word
  count_rune c (tokens, ascii_bytes) =
      if by_character c
      then (flush_word tokens ascii_bytes + 1, 0)
      else if in_word c
      then (tokens, ascii_bytes + rune_len c)
      else (
        if u.is_space c then flush_word tokens ascii_bytes else flush_word tokens ascii_bytes + 1,
        0,
      )

  unfoldable pub estimate_from : ℕ × ℕ → List Char → ℕ
  unfolding count_rune
  estimate_from (tokens, ascii_bytes) [] = flush_word tokens ascii_bytes
  estimate_from counted (c ∷ cs) = estimate_from (count_rune c counted) cs

  unfoldable pub local_estimate_tokens : String → ℕ
  unfolding estimate_from
  local_estimate_tokens s = estimate_from (0, 0) (chars s)
