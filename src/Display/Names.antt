-- ===== src/Display/Names.antt =====
-- What a cleaned display name promises: its length, and that it is one line.
use Prim.Native.Char.{Char}
use codex_token_meter.Prelude.{
  ℕ, zero, suc, ◌-◌, ◌≤◌, ◌<◌, String, Bool, true, false, List, [], ◌∷◌, ◌++◌, leb, eqb, ◌≡◌, refl,
  arith, length, take, All, length-append, Bool-cases, inl, inr, ◌||◌, ap,
}
use codex_token_meter.Display.{
  Unicode, IsUnicode, chars, text, ellipsis, blanked, flush, fields, joined, trim_start, trim_end,
  limited, clean_display_name, unless_last_space,
}

chars-text : (cs : List Char) → chars (text cs) ≡ cs
chars-text [] = refl
chars-text (c ∷ cs) = ap (◌∷◌ c) (chars-text cs)

length-take-le : (n : ℕ) (cs : List Char) → length (take n cs) ≤ n
length-take-le zero cs = omega arith
length-take-le (suc n) [] = omega arith
length-take-le (suc n) (c ∷ cs) = omega (arith, length-take-le n cs)

length-unless_last_space :
    (b : Bool) (c : Char) (rest : List Char)
    → length (unless_last_space b c rest) ≤ suc (length rest)
length-unless_last_space true c [] = omega arith
length-unless_last_space true c (d ∷ rest) = omega arith
length-unless_last_space false c rest = omega arith

module _ (u : Unicode) where
  length-trim_start : (cs : List Char) → length (trim_start u cs) ≤ length cs
  unfolding trim_start
  length-trim_start [] = omega arith
  length-trim_start (c ∷ cs) = ground (arith, length-trim_start cs)

  length-trim_end : (cs : List Char) → length (trim_end u cs) ≤ length cs
  unfolding trim_end
  length-trim_end [] = omega arith
  length-trim_end (c ∷ cs) =
      omega (arith, length-unless_last_space (u.is_space c) c (trim_end u cs), length-trim_end cs)

  limited-le : (n : ℕ) (cs : List Char) → 0 < n → length (limited u n cs) ≤ n
  unfolding limited
  limited-le n cs h = ground (
    arith,
    h,
    length-append (trim_end u (trim_start u (take (n - 1) cs))) (ellipsis ∷ []),
    length-trim_end (trim_start u (take (n - 1) cs)),
    length-trim_start (take (n - 1) cs),
    length-take-le (n - 1) cs,
  )

  -- A name cut to a positive number of characters has at most that many, the ellipsis included.
  pub length-clean_display_name :
      (value : String) (n : ℕ) → 0 < n → length (chars (clean_display_name u value n)) ≤ n
  unfolding clean_display_name
  length-clean_display_name value n h = rw chars-text (limited-le n _ h)

  abbrev pub HasNoControl : List Char → Type 0
  HasNoControl = All λ c. u.is_control c ≡ false

  HasNoControl-append :
      (xs ys : List Char) → HasNoControl xs → HasNoControl ys → HasNoControl (xs ++ ys)
  HasNoControl-append [] ys h k = k
  HasNoControl-append (x ∷ xs) ys h k = (h.0, HasNoControl-append xs ys h.1 k)

  blanked-HasNoControl : IsUnicode u → (cs : List Char) → HasNoControl (blanked u cs)
  unfolding blanked
  blanked-HasNoControl laws [] = tt
  blanked-HasNoControl laws (c ∷ cs) =
      (ground (arith, laws.blank_no_control), blanked-HasNoControl laws cs)

  flush-HasNoControl :
      (word : List Char) (words : List (List Char))
      → HasNoControl word
      → All HasNoControl words
      → All HasNoControl (flush word words)
  flush-HasNoControl [] words h k = k
  flush-HasNoControl (c ∷ word) words h k = (h, k)

  fields-HasNoControl :
      (word cs : List Char)
      → HasNoControl word
      → HasNoControl cs
      → All HasNoControl (fields u word cs)
  unfolding fields
  fields-HasNoControl word [] h k = flush-HasNoControl word [] h tt
  fields-HasNoControl word (c ∷ cs) h k = elim (Bool-cases (u.is_space c)) [
    | inl space ↦ rw space (flush-HasNoControl word _ h (fields-HasNoControl [] cs tt k.1))
    | inr letter ↦
        rw letter
          (fields-HasNoControl (word ++ c ∷ []) cs (HasNoControl-append word _ h (k.0, tt)) k.1)
  ]

  joined-HasNoControl :
      IsUnicode u → (ws : List (List Char)) → All HasNoControl ws → HasNoControl (joined ws)
  unfolding joined
  joined-HasNoControl laws [] h = tt
  joined-HasNoControl laws (w ∷ []) h = h.0
  joined-HasNoControl laws (w ∷ v ∷ ws) h =
      HasNoControl-append w _ h.0 (laws.blank_no_control, joined-HasNoControl laws (v ∷ ws) h.1)

  take-HasNoControl : (n : ℕ) (cs : List Char) → HasNoControl cs → HasNoControl (take n cs)
  take-HasNoControl zero cs h = tt
  take-HasNoControl (suc n) [] h = tt
  take-HasNoControl (suc n) (c ∷ cs) h = (h.0, take-HasNoControl n cs h.1)

  trim_start-HasNoControl : (cs : List Char) → HasNoControl cs → HasNoControl (trim_start u cs)
  unfolding trim_start
  trim_start-HasNoControl [] h = tt
  trim_start-HasNoControl (c ∷ cs) h = elim (Bool-cases (u.is_space c)) [
    | inl space ↦ rw space (trim_start-HasNoControl cs h.1)
    | inr letter ↦ rw letter h
  ]

  unless_last_space-HasNoControl :
      (b : Bool) (c : Char) (rest : List Char)
      → u.is_control c ≡ false
      → HasNoControl rest
      → HasNoControl (unless_last_space b c rest)
  unless_last_space-HasNoControl true c [] h k = tt
  unless_last_space-HasNoControl true c (d ∷ rest) h k = (h, k)
  unless_last_space-HasNoControl false c rest h k = (h, k)

  trim_end-HasNoControl : (cs : List Char) → HasNoControl cs → HasNoControl (trim_end u cs)
  unfolding trim_end
  trim_end-HasNoControl [] h = tt
  trim_end-HasNoControl (c ∷ cs) h =
      unless_last_space-HasNoControl (u.is_space c) c (trim_end u cs) h.0
        (trim_end-HasNoControl cs h.1)

  limited-HasNoControl :
      IsUnicode u → (n : ℕ) (cs : List Char) → HasNoControl cs → HasNoControl (limited u n cs)
  unfolding limited
  limited-HasNoControl laws n cs h = elim (Bool-cases (eqb n 0 || leb (length cs) n)) [
    | inl short ↦ rw short h
    | inr long ↦ rw long (
        HasNoControl-append _ _
          (trim_end-HasNoControl _ (trim_start-HasNoControl _ (take-HasNoControl (n - 1) cs h)))
          (laws.ellipsis_no_control, tt))
  ]

  -- If neither a blank nor the ellipsis is a control character, a cleaned name has none, a line
  -- break included.
  pub clean_display_name-HasNoControl :
      IsUnicode u → (value : String) (n : ℕ) → HasNoControl (chars (clean_display_name u value n))
  unfolding clean_display_name
  clean_display_name-HasNoControl laws value n = rw chars-text (
      limited-HasNoControl laws n _ (
        joined-HasNoControl laws _
          (fields-HasNoControl [] _ tt (blanked-HasNoControl laws (chars value)))))
