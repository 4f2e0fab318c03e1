-- ===== src/Prelude/Tables.antt =====
-- A table with a primary key, as the source's SQL tables and Go maps have it: rows in the order
-- of their insertion, `INSERT … ON CONFLICT DO UPDATE` as `upsert`.
use mathlib.Core.Path.{◌≡◌, refl, subst}
use mathlib.Core.List.{List, [], ◌∷◌}
use mathlib.Core.Option.{Option, none, some}
use native.Mathlib.Omega.{arith}
use mathlib.Core.Bool.{true, false}
use codex_token_meter.Prelude.Tests.{Keyed, ◌==◌, if◌then◌else◌, beq_self, Bool-cases}
use mathlib.Core.Logic.{◌⊎◌, inl, inr}

abbrev pub Table {ℓ} : Type ℓ → Type ℓ → Type ℓ
Table K V = List (K × V)

abbrev pub altered {ℓ} : {V : Type ℓ} → (V → V) → Option V → Option V
altered f none = none
altered f (some v) = some (f v)

-- A value that a change of what may be there has made.
altered-cases {ℓ} :
    {V : Type ℓ} (f : V → V) (o : Option V) (v : V)
    → altered f o ≡ some v
    → (w : V) × (o ≡ some w) × (f w ≡ v)
altered-cases f none v h = absurd (none_some h)
  where
    none_some : none ≡ some v → ⊥
    none_some k = cc
altered-cases f (some w) v h = (w, refl, cc)

module _ {ℓ} {K V : Type ℓ} ⦃e : Keyed K⦄ where
  unfoldable pub lookup : K → Table K V → Option V
  lookup k [] = none
  lookup k ((j, v) ∷ m) = if j == k then some v else lookup k m

  -- The new row is a function of the row that is there, if one is.
  unfoldable pub upsert : K → (Option V → V) → Table K V → Table K V
  upsert k f [] = (k, f none) ∷ []
  upsert k f ((j, v) ∷ m) = if j == k then (j, f (some v)) ∷ m else (j, v) ∷ upsert k f m

  -- `UPDATE … WHERE key=?`: nothing where no row is there.
  unfoldable pub modify : K → (V → V) → Table K V → Table K V
  modify k f [] = []
  modify k f ((j, v) ∷ m) = if j == k then (j, f v) ∷ m else (j, v) ∷ modify k f m

  unfoldable pub remove : K → Table K V → Table K V
  remove k [] = []
  remove k ((j, v) ∷ m) = if j == k then remove k m else (j, v) ∷ remove k m

  pub lookup-upsert :
      (k j : K) (f : Option V → V) (m : Table K V)
      → lookup j (upsert k f m) ≡ (if k == j then some (f (lookup k m)) else lookup j m)
  unfolding lookup upsert
  lookup-upsert k j f [] = refl
  lookup-upsert k j f ((i, w) ∷ m) =
      ground (
        arith,
        e.same_iff k j,
        e.same_iff i k,
        e.same_iff i j,
        e.same_iff k k,
        lookup-upsert k j f m,
      )

  pub lookup-remove :
      (k j : K) (m : Table K V) → lookup j (remove k m) ≡ (if k == j then none else lookup j m)
  unfolding lookup remove
  lookup-remove k j [] = ground arith
  lookup-remove k j ((i, w) ∷ m) =
      ground (arith, e.same_iff k j, e.same_iff i k, e.same_iff i j, lookup-remove k j m)

  pub lookup-modify :
      (k j : K) (f : V → V) (m : Table K V)
      → lookup j (modify k f m) ≡ (if k == j then altered f (lookup j m) else lookup j m)
  unfolding lookup modify
  lookup-modify k j f [] = ground arith
  lookup-modify k j f ((i, w) ∷ m) =
      ground (arith, e.same_iff k j, e.same_iff i k, e.same_iff i j, lookup-modify k j f m)

  -- A row of a modified table is a changed one under the key, or an old one under another.
  pub modify-cases :
      (k j : K) (f : V → V) (m : Table K V) (v : V)
      → lookup j (modify k f m) ≡ some v
      → (((k == j) ≡ true) × ((w : V) × (lookup j m ≡ some w) × (f w ≡ v)))
        ⊎ (((k == j) ≡ false) × (lookup j m ≡ some v))
  modify-cases k j f m v h = elim (Bool-cases (k == j)) [
    | inl same ↦ inl (same, altered-cases f (lookup j m) v (rw (lookup-modify k j f m, same) at h))
    | inr apart ↦ inr (apart, rw (lookup-modify k j f m, apart) at h)
  ]

  -- A row of a table with one row more is that row, or an old one.
  pub upsert-cases :
      (k j : K) (new : V) (m : Table K V) (v : V)
      → lookup j (upsert k (λ _. new) m) ≡ some v
      → (new ≡ v) ⊎ (lookup j m ≡ some v)
  upsert-cases k j new m v h = elim (Bool-cases (k == j)) [
    | inl same ↦ inl (found (rw (lookup-upsert k j (λ _. new) m, same) at h))
    | inr apart ↦ inr (rw (lookup-upsert k j (λ _. new) m, apart) at h)
  ]
    where
      found : some new ≡ some v → new ≡ v
      found eq = cc

  -- A table with one key less has no other rows.
  pub remove-cases :
      (k j : K) (m : Table K V) (v : V) → lookup j (remove k m) ≡ some v → lookup j m ≡ some v
  remove-cases k j m v h = elim (Bool-cases (k == j)) [
    | inl same ↦ absurd (none_some (rw (lookup-remove k j m, same) at h))
    | inr apart ↦ rw (lookup-remove k j m, apart) at h
  ]
    where
      none_some : none ≡ some v → ⊥
      none_some eq = cc

  pub lookup-upsert_self :
      (k : K) (f : Option V → V) (m : Table K V) → lookup k (upsert k f m) ≡ some (f (lookup k m))
  lookup-upsert_self k f m = rw (lookup-upsert, beq_self)

  -- What holds of every row that a lookup finds.
  abbrev pub Holds {κ} : (V → Type κ) → Table K V → Type (ℓ ⊔ κ)
  Holds P m = (k : K) (v : V) → lookup k m ≡ some v → P v

  pub Holds-nil {κ} : (P : V → Type κ) → Holds P []
  unfolding lookup
  Holds-nil P k v h = absurd (none_some h)
    where
      none_some : none ≡ some v → ⊥
      none_some e = cc

  pub Holds-upsert {κ} :
      (P : V → Type κ) (k : K) (f : Option V → V) (m : Table K V)
      → Holds P m
      → P (f (lookup k m))
      → Holds P (upsert k f m)
  Holds-upsert P k f m h new j v found = elim (Bool-cases (k == j)) [
    | inl here ↦
        let hit : f (lookup k m) ≡ v = ground (arith, lookup-upsert k j f m, here, found) in
        subst P hit new
    | inr away ↦ h j v (rw (lookup-upsert, away) at found)
  ]
