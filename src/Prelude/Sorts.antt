-- ===== src/Prelude/Sorts.antt =====
-- Stable insertion sort by a test "goes before or beside": what `sort.Slice` and `ORDER BY` give
-- where the test leaves no two rows in doubt.
use mathlib.Core.Path.{◌≡◌, refl}
use mathlib.Core.Logic.{inl, inr}
use mathlib.Core.Bool.{Bool, true, false}
use mathlib.Core.List.{List, [], ◌∷◌, ◌++◌, map}
use native.Mathlib.Omega.{arith}
use codex_token_meter.Prelude.Tests.{if◌then◌else◌, Bool-cases}
use codex_token_meter.Prelude.Lists.{All, keep, keep-All}

abbrev pub insert {ℓ} : {A : Type ℓ} → (A → A → Bool) → A → List A → List A
insert le x [] = x ∷ []
insert le x (y ∷ ys) = if le x y then x ∷ y ∷ ys else y ∷ insert le x ys

abbrev pub sort {ℓ} : {A : Type ℓ} → (A → A → Bool) → List A → List A
sort le [] = []
sort le (x ∷ xs) = insert le x (sort le xs)

pub record IsOrder {ℓ} {A : Type ℓ} (le : A → A → Bool) : Type ℓ where
  pub total : (x y : A) → le x y ≡ false → le y x ≡ true
  pub trans : (x y z : A) → le x y ≡ true → le y z ≡ true → le x z ≡ true

abbrev pub IsSorted {ℓ} : {A : Type ℓ} → (A → A → Bool) → List A → Type 0
IsSorted le [] = Unit
IsSorted le (x ∷ xs) = All (λ y. le x y ≡ true) xs × IsSorted le xs

module _ {ℓ} {A : Type ℓ} (le : A → A → Bool) (o : IsOrder le) where
  All-before :
      (x y : A) (ys : List A)
      → le x y ≡ true
      → All (λ z. le y z ≡ true) ys
      → All (λ z. le x z ≡ true) ys
  All-before x y [] h k = tt
  All-before x y (z ∷ zs) h k = (o.trans x y z h k.0, All-before x y zs h k.1)

  All-insert :
      (x y : A) (ys : List A)
      → le x y ≡ true
      → All (λ z. le x z ≡ true) ys
      → All (λ z. le x z ≡ true) (insert le y ys)
  All-insert x y [] h k = (h, tt)
  All-insert x y (z ∷ zs) h k = elim (Bool-cases (le y z)) [
    | inl e ↦ rw e (h, k)
    | inr e ↦ rw e (k.0, All-insert x y zs h k.1)
  ]

  pub insert-IsSorted : (x : A) (ys : List A) → IsSorted le ys → IsSorted le (insert le x ys)
  insert-IsSorted x [] h = (tt, tt)
  insert-IsSorted x (y ∷ ys) h = elim (Bool-cases (le x y)) [
    | inl e ↦ rw e ((e, All-before x y ys e h.0), h)
    | inr e ↦ rw e (All-insert y x ys (o.total x y e) h.0, insert-IsSorted x ys h.1)
  ]

  pub sort-IsSorted : (xs : List A) → IsSorted le (sort le xs)
  sort-IsSorted [] = tt
  sort-IsSorted (x ∷ xs) = insert-IsSorted x (sort le xs) (sort-IsSorted xs)

  insert-front : (x : A) (ys : List A) → All (λ z. le x z ≡ true) ys → insert le x ys ≡ x ∷ ys
  insert-front x [] h = refl
  insert-front x (y ∷ ys) h = rw h.0 refl

  keep-insert :
      (p : A → Bool) (x : A) (ys : List A)
      → IsSorted le ys
      → keep p (insert le x ys) ≡ (if p x then insert le x (keep p ys) else keep p ys)
  keep-insert p x [] h = ground arith
  keep-insert p x (y ∷ ys) h = elim (Bool-cases (le x y)) [
    | inl e ↦
        let front =
          insert-front x (keep p ys)
            (keep-All (λ z. le x z ≡ true) p ys (All-before x y ys e h.0)) in
        ground (arith, e, front)
    | inr e ↦ ground (arith, e, keep-insert p x ys h.1)
  ]

  -- A filter before the sort or behind it: the same rows, in the same order.
  pub keep-sort : (p : A → Bool) (xs : List A) → keep p (sort le xs) ≡ sort le (keep p xs)
  keep-sort p [] = refl
  keep-sort p (x ∷ xs) =
      ground (arith, keep-insert p x (sort le xs) (sort-IsSorted xs), keep-sort p xs)

  insert_comm :
      (x y : A) (zs : List A)
      → le x y ≡ false
      → insert le y (insert le x zs) ≡ insert le x (insert le y zs)
  insert_comm x y [] h = ground (arith, o.total x y h)
  insert_comm x y (z ∷ zs) h =
      ground (arith, o.total x y h, o.trans x z y, o.trans y x z, insert_comm x y zs h)

  insert_all : List A → List A → List A
  insert_all [] zs = zs
  insert_all (x ∷ xs) zs = insert le x (insert_all xs zs)

  insert_all-insert :
      (x : A) (ys zs : List A) → insert_all (insert le x ys) zs ≡ insert le x (insert_all ys zs)
  unfolding insert_all
  insert_all-insert x [] zs = refl
  insert_all-insert x (y ∷ ys) zs = elim (Bool-cases (le x y)) [
    | inl e ↦ rw e refl
    | inr e ↦ rw (e, insert_all-insert x ys zs, insert_comm x y (insert_all ys zs) e) refl
  ]

  insert_all-sort : (xs zs : List A) → insert_all (sort le xs) zs ≡ insert_all xs zs
  unfolding insert_all
  insert_all-sort [] zs = refl
  insert_all-sort (x ∷ xs) zs = rw (insert_all-insert x (sort le xs) zs, insert_all-sort xs zs) refl

  sort-append : (xs ys : List A) → sort le (xs ++ ys) ≡ insert_all xs (sort le ys)
  unfolding insert_all
  sort-append [] ys = refl
  sort-append (x ∷ xs) ys = rw (sort-append xs ys) refl

  -- A sorted list with more rows behind it sorts as if nothing had been sorted yet.
  pub sort-append_sorted : (xs ys : List A) → sort le (sort le xs ++ ys) ≡ sort le (xs ++ ys)
  sort-append_sorted xs ys =
      rw (sort-append (sort le xs) ys, sort-append xs ys, insert_all-sort xs (sort le ys)) refl

module _ {ℓ κ} {A : Type ℓ} {B : Type κ} (f : A → B) (le : A → A → Bool) (lt : B → B → Bool)
    (same : (x y : A) → lt (f x) (f y) ≡ le x y) where
  map-insert : (x : A) (ys : List A) → map f (insert le x ys) ≡ insert lt (f x) (map f ys)
  map-insert x [] = refl
  map-insert x (y ∷ ys) = elim (Bool-cases (le x y)) [
    | inl e ↦ rw (same x y, e) refl
    | inr e ↦ rw (same x y, e, map-insert x ys) refl
  ]

  pub map-sort : (xs : List A) → map f (sort le xs) ≡ sort lt (map f xs)
  map-sort [] = refl
  map-sort (x ∷ xs) = rw (map-insert x (sort le xs), map-sort xs) refl

module _ {ℓ κ} {A : Type ℓ} (P : A → Type κ) (le : A → A → Bool) where
  All-inserted : (x : A) (ys : List A) → P x → All P ys → All P (insert le x ys)
  All-inserted x [] h k = (h, tt)
  All-inserted x (y ∷ ys) h k = elim (Bool-cases (le x y)) [
    | inl e ↦ rw e (h, k)
    | inr e ↦ rw e (k.0, All-inserted x ys h k.1)
  ]

  pub All-sort : (xs : List A) → All P xs → All P (sort le xs)
  All-sort [] h = tt
  All-sort (x ∷ xs) h = All-inserted x (sort le xs) h.0 (All-sort xs h.1)
