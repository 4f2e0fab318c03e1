-- ===== src/Display.antt =====
-- metadata.go `cleanDisplayName`: names are shown on one line, without control characters, and cut to
-- a number of characters. The package unicode is a parameter.
pub mod Names
use Prim.Native.Char.{Char}
use codex_token_meter.Prelude.{
  ℕ, zero, suc, ◌+◌, ◌-◌, ◌≤◌, ◌<◌, String, Bool, true, false, ◌||◌, List, [], ◌∷◌, ◌++◌, map, leb,
  ltb, eqb, if◌then◌else◌, ◌≡◌, refl, arith, length, take, All, length-append,
}

-- `unicode.IsControl` and `unicode.IsSpace`.
pub record Unicode : Type 0 where
  pub is_control : Char → Bool
  pub is_space : Char → Bool

-- What the source relies on: neither a blank nor '…' is a control character.
pub record IsUnicode (u : Unicode) : Type 0 where
  pub blank_no_control : u.is_control " " ≡ false
  pub ellipsis_no_control : u.is_control "…" ≡ false

abbrev pub chars : String → List Char
chars String.[] = []
chars (String.◌∷◌ c s) = c ∷ chars s

abbrev pub text : List Char → String
text [] = String.[]
text (c ∷ cs) = String.◌∷◌ c (text cs)

abbrev pub blank : Char
blank = " "

abbrev pub ellipsis : Char
ellipsis = "…"

-- A character in front of a trimmed rest: a space with nothing behind it goes too.
abbrev pub unless_last_space : Bool → Char → List Char → List Char
unless_last_space true c [] = []
unless_last_space _ c rest = c ∷ rest

abbrev pub flush : List Char → List (List Char) → List (List Char)
flush [] words = words
flush (c ∷ word) words = (c ∷ word) ∷ words

-- `strings.Join(words, " ")`.
unfoldable pub joined : List (List Char) → List Char
joined [] = []
joined (w ∷ []) = w
joined (w ∷ v ∷ ws) = w ++ (blank ∷ joined (v ∷ ws))

module _ (u : Unicode) where
  -- `strings.Map`: a control character becomes a blank.
  unfoldable pub blanked : List Char → List Char
  blanked = map λ c. if u.is_control c then blank else c

  -- `strings.Fields`, with the word that is being read.
  unfoldable pub fields : List Char → List Char → List (List Char)
  fields word [] = flush word []
  fields word (c ∷ cs) =
      let between = flush word (fields [] cs) in
      let within = fields (word ++ c ∷ []) cs in if u.is_space c then between else within

  unfoldable pub trim_start : List Char → List Char
  trim_start [] = []
  trim_start (c ∷ cs) = let rest = trim_start cs in if u.is_space c then rest else c ∷ cs

  unfoldable pub trim_end : List Char → List Char
  trim_end [] = []
  trim_end (c ∷ cs) = unless_last_space (u.is_space c) c (trim_end cs)

  -- The limit is a number of characters, 0 for none.
  unfoldable pub limited : ℕ → List Char → List Char
  unfolding trim_start trim_end
  limited max_runes cs =
      if eqb max_runes 0 || leb (length cs) max_runes
      then cs
      else trim_end (trim_start (take (max_runes - 1) cs)) ++ ellipsis ∷ []

  unfoldable pub clean_display_name : String → ℕ → String
  unfolding blanked fields joined limited
  clean_display_name value max_runes =
      text (limited max_runes (joined (fields [] (blanked (chars value)))))
