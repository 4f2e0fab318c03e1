-- ===== src/Prelude/Tests.antt =====
-- Boolean tests on the native numbers and on texts, and the conditional.
use Prim.Native.Nat.{ℕ, ◌≤◌, ◌<◌, compare, Ordering}
use Prim.Native.String.{String}
use mathlib.Core.Path.{◌≡◌, refl}
use mathlib.Core.Logic.{◌↔◌, ◌⊎◌, inl, inr}
use mathlib.Core.Bool.{Bool, true, false, ◌&&◌}
use mathlib.Core.Option.{Option, none, some}
use native.Mathlib.Omega.{arith}
use text.Mathlib.Text.{◌==◌ as str_eq}
use text.Mathlib.TextEquality.{eq_iff}

abbrev pub ltb : ℕ → ℕ → Bool
ltb a b = elim (compare a b) [ Ordering.lt ↦ true | _ ↦ false ]

abbrev pub leb : ℕ → ℕ → Bool
leb a b = elim (compare a b) [ Ordering.gt ↦ false | _ ↦ true ]

abbrev pub eqb : ℕ → ℕ → Bool
eqb a b = elim (compare a b) [ Ordering.eq ↦ true | _ ↦ false ]

infix 1 if◌then◌else◌
abbrev pub if◌then◌else◌ {ℓ} : {A : Type ℓ} → Bool → A → A → A
if true then x else y = x
if false then x else y = y

pub ltb→lt : (a b : ℕ) → ltb a b ≡ true → a < b
ltb→lt a b h = ground arith

pub lt→ltb : (a b : ℕ) → a < b → ltb a b ≡ true
lt→ltb a b h = ground arith

pub leb→le : (a b : ℕ) → leb a b ≡ true → a ≤ b
leb→le a b h = ground arith

pub eqb_iff : (a b : ℕ) → (eqb a b ≡ true) ↔ (a ≡ b)
eqb_iff a b = ground arith

pub ruleset tests = (arith, ltb→lt, lt→ltb, leb→le)

-- To split on a computed value and keep the equation.
pub Bool-cases : (b : Bool) → (b ≡ true) ⊎ (b ≡ false)
Bool-cases true = inl refl
Bool-cases false = inr refl

pub Option-cases {ℓ} : {A : Type ℓ} (o : Option A) → (o ≡ none) ⊎ ((a : A) × (o ≡ some a))
Option-cases none = inl refl
Option-cases (some a) = inr (a, refl)

-- A type whose values are compared by a test: texts, numbers and pairs of them.
pub record Keyed {ℓ} (A : Type ℓ) : Type ℓ where
  pub same : A → A → Bool
  pub same_iff : (a b : A) → (same a b ≡ true) ↔ (a ≡ b)

abbrev pub pair_beq {ℓ κ} : {A : Type ℓ} {B : Type κ} → Keyed A → Keyed B → A × B → A × B → Bool
pair_beq p q (a, b) (c, d) = p.same a c && q.same b d

pub pair_beq_iff {ℓ κ} :
    {A : Type ℓ} {B : Type κ} (p : Keyed A) (q : Keyed B) (x y : A × B)
    → (pair_beq p q x y ≡ true) ↔ (x ≡ y)
pair_beq_iff p q (a, b) (c, d) = ground (arith, p.same_iff a c, q.same_iff b d)

instance abbrev pub text_eq : Keyed String
text_eq = record { same = str_eq; same_iff = eq_iff }

instance abbrev pub nat_eq : Keyed ℕ
nat_eq = record { same = eqb; same_iff = eqb_iff }

instance abbrev pub pair_eq : Keyed (String × String)
pair_eq = record { same = pair_beq text_eq text_eq; same_iff = pair_beq_iff text_eq text_eq }

infix 50 ◌==◌
abbrev pub ◌==◌ {ℓ} : {A : Type ℓ} ⦃e : Keyed A⦄ → A → A → Bool
◌==◌ ⦃e⦄ = e.same

pub beq_self {ℓ} : {K : Type ℓ} ⦃e : Keyed K⦄ (k : K) → (k == k) ≡ true
beq_self ⦃e⦄ k = (e.same_iff k k).1 refl
