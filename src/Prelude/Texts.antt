-- ===== src/Prelude/Texts.antt =====
-- The order of texts that Go's `<` and SQLite's BINARY collation share: that of their bytes.
use Prim.Native.Char.{Char, code}
use Prim.Native.Nat.{Ordering, compare as compare_ℕ}
use Prim.Native.String.{String, [], ◌∷◌, compare}
use Prim.Native.String.compare
use mathlib.Core.Path.{◌≡◌, refl}
use mathlib.Core.Bool.{Bool, true, false, not}
use native.Mathlib.Omega.{arith}
use text.Mathlib.TextEquality.{Char-path}
use codex_token_meter.Prelude.Tests.{ltb, eqb, if◌then◌else◌}
use codex_token_meter.Prelude.Sorts.{IsOrder}

abbrev not_after : Ordering → Bool
not_after Ordering.gt = false
not_after _ = true

abbrev before : Ordering → Bool
before Ordering.lt = true
before _ = false

unfoldable pub text_leb : String → String → Bool
text_leb s t = not_after (compare s t)

unfoldable pub text_ltb : String → String → Bool
text_ltb s t = before (compare s t)

first_code :
    (o r : Ordering)
    → not_after (Prim.Native.String.then o r) ≡ (elim o as (λ x. Bool) [
      | Ordering.lt ↦ true
      | Ordering.eq ↦ not_after r
      | Ordering.gt ↦ false
    ])
first_code Ordering.lt r = refl
first_code Ordering.eq r = refl
first_code Ordering.gt r = refl

first_less :
    (o r : Ordering)
    → before (Prim.Native.String.then o r) ≡ (elim o as (λ x. Bool) [
      | Ordering.lt ↦ true
      | Ordering.eq ↦ before r
      | Ordering.gt ↦ false
    ])
first_less Ordering.lt r = refl
first_less Ordering.eq r = refl
first_less Ordering.gt r = refl

text_leb-cons :
    (c d : Char) (s t : String)
    → text_leb (c ∷ s) (d ∷ t) ≡ (
        if ltb (code c) (code d)
        then true
        else if eqb (code c) (code d)
        then text_leb s t
        else false)
unfolding text_leb
text_leb-cons c d s t =
    ground
      (arith, compare.cons-cons c d s t, first_code (compare_ℕ (code c) (code d)) (compare s t))

text_leb-nil : (t : String) → text_leb [] t ≡ true
unfolding text_leb
text_leb-nil [] = ground (arith, compare.nil-nil)
text_leb-nil (c ∷ t) = ground (arith, compare.nil-cons c t)

text_leb-cons_nil : (c : Char) (s : String) → text_leb (c ∷ s) [] ≡ false
unfolding text_leb
text_leb-cons_nil c s = ground (arith, compare.cons-nil c s)

text_leb-total : (s t : String) → text_leb s t ≡ false → text_leb t s ≡ true
text_leb-total [] t h = ground (arith, text_leb-nil t, h)
text_leb-total (c ∷ s) [] h = text_leb-nil (c ∷ s)
text_leb-total (c ∷ s) (d ∷ t) h =
    ground (arith, text_leb-cons c d s t, text_leb-cons d c t s, text_leb-total s t)

text_leb_transitive :
    (s t u : String) → text_leb s t ≡ true → text_leb t u ≡ true → text_leb s u ≡ true
text_leb_transitive [] t u h k = text_leb-nil u
text_leb_transitive (c ∷ s) [] u h k = ground (arith, text_leb-cons_nil c s, h)
text_leb_transitive (c ∷ s) (d ∷ t) [] h k = ground (arith, text_leb-cons_nil d t, k)
text_leb_transitive (c ∷ s) (d ∷ t) (e ∷ u) h k = ground (
  arith,
  text_leb-cons c d s t,
  text_leb-cons d e t u,
  text_leb-cons c e s u,
  text_leb_transitive s t u,
)

pub text_leb-IsOrder : IsOrder text_leb
text_leb-IsOrder = record { total = text_leb-total; trans = text_leb_transitive }

text_ltb-cons :
    (c d : Char) (s t : String)
    → text_ltb (c ∷ s) (d ∷ t) ≡ (
        if ltb (code c) (code d)
        then true
        else if eqb (code c) (code d)
        then text_ltb s t
        else false)
unfolding text_ltb
text_ltb-cons c d s t =
    ground
      (arith, compare.cons-cons c d s t, first_less (compare_ℕ (code c) (code d)) (compare s t))

pub text_ltb-not : (s t : String) → text_ltb t s ≡ not (text_leb s t)
unfolding text_ltb text_leb
text_ltb-not [] [] = ground (arith, compare.nil-nil)
text_ltb-not [] (d ∷ t) = ground (arith, compare.nil-cons d t, compare.cons-nil d t)
text_ltb-not (c ∷ s) [] = ground (arith, compare.nil-cons c s, compare.cons-nil c s)
text_ltb-not (c ∷ s) (d ∷ t) =
    ground (arith, text_ltb-cons d c t s, text_leb-cons c d s t, text_ltb-not s t)

pub text_leb_self : (s : String) → text_leb s s ≡ true
text_leb_self [] = text_leb-nil []
text_leb_self (c ∷ s) = ground (arith, text_leb-cons c c s s, text_leb_self s)

pub text_leb_antisymm : (s t : String) → text_leb s t ≡ true → text_leb t s ≡ true → s ≡ t
text_leb_antisymm [] [] h k = refl
text_leb_antisymm [] (d ∷ t) h k = ground (arith, text_leb-cons_nil d t, k)
text_leb_antisymm (c ∷ s) [] h k = ground (arith, text_leb-cons_nil c s, h)
text_leb_antisymm (c ∷ s) (d ∷ t) h k =
    let heads : code c ≡ code d =
      ground (arith, text_leb-cons c d s t, text_leb-cons d c t s, h, k) in
    let tails =
      text_leb_antisymm s t (ground (arith, text_leb-cons c d s t, h, heads))
        (ground (arith, text_leb-cons d c t s, k, heads)) in
    λ i. Char-path c d heads i ∷ tails i
