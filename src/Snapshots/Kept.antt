-- ===== src/Snapshots/Kept.antt =====
-- snapshot_cache.go `snapshotCache.get`: what the cache holds, and what a request is answered with.
use codex_token_meter.Prelude.{
  suc, ◌≤◌, ◌<◌, String, Bool, true, false, some, [], ◌∷◌, Table, lookup, upsert, remove, length,
  ltb, ◌==◌, text_eq, if◌then◌else◌, All, any, ◌≡◌, refl, sym, arith, Bool-cases, inl, inr, ◌⊎◌,
}
use mathlib.Core.Path.{subst}
use codex_token_meter.Types.{Time}
use codex_token_meter.Snapshots.{EncodedSnapshot, oldest_from}

abbrev pub has_key : {B : Type 0} → String → Table String (EncodedSnapshot B) → Bool
has_key key = any λ row. row.0 == key

either : (b : Bool) {c : Bool} → c ≡ true → (if b then true else c) ≡ true
either true l = refl
either false l = l

module _ {B : Type 0} where
  or_head :
      (o j key : String) (e : EncodedSnapshot B) (rest : Table String (EncodedSnapshot B))
      → (o ≡ j) ⊎ (has_key o rest ≡ true)
      → (o ≡ key) ⊎ (has_key o ((j, e) ∷ rest) ≡ true)
  or_head o j key e rest (inl same) = inr (rw ((text_eq.same_iff j o).1 (sym same)) refl)
  or_head o j key e rest (inr found) = inr (either (j == o) found)

  or_rest :
      (o j key : String) (e : EncodedSnapshot B) (rest : Table String (EncodedSnapshot B))
      → (o ≡ key) ⊎ (has_key o rest ≡ true)
      → (o ≡ key) ⊎ (has_key o ((j, e) ∷ rest) ≡ true)
  or_rest o j key e rest (inl same) = inl same
  or_rest o j key e rest (inr found) = inr (either (j == o) found)

  pub oldest_from-key :
      (key : String) (at : Time) (entries : Table String (EncodedSnapshot B)) (o : String)
      → All (λ row. (row.0 == "") ≡ false) entries
      → (key == "") ≡ false
      → oldest_from key at entries ≡ o
      → (o ≡ key) ⊎ (has_key o entries ≡ true)
  unfolding oldest_from
  oldest_from-key key at [] o h k r = inl (sym r)
  oldest_from-key key at ((j, e) ∷ rest) o h k r = elim (Bool-cases (ltb e.created at)) [
    | inl f ↦ or_head o j key e rest (oldest_from-key j e.created rest o h.1 h.0 (rw (k, f) at r))
    | inr f ↦ or_rest o j key e rest (oldest_from-key key at rest o h.1 k (rw (k, f) at r))
  ]

  pub oldest-has_key :
      (key : String) (e : EncodedSnapshot B) (rest : Table String (EncodedSnapshot B))
      → All (λ row. (row.0 == "") ≡ false) ((key, e) ∷ rest)
      → has_key (oldest_from "" 0 ((key, e) ∷ rest)) ((key, e) ∷ rest) ≡ true
  unfolding oldest_from
  oldest-has_key key e rest h = from_head _ (oldest_from-key key e.created rest _ h.1 h.0 refl)
    where
      from_head :
          (o : String) → (o ≡ key) ⊎ (has_key o rest ≡ true) → has_key o ((key, e) ∷ rest) ≡ true
      from_head o (inl same) = rw ((text_eq.same_iff key o).1 (sym same)) refl
      from_head o (inr found) = either (key == o) found

  pub length-remove-le :
      (key : String) (entries : Table String (EncodedSnapshot B))
      → length (remove key entries) ≤ length entries
  unfolding remove
  length-remove-le key [] = omega arith
  length-remove-le key ((j, e) ∷ rest) = ground (arith, length-remove-le key rest)

  pub length-remove-lt :
      (key : String) (entries : Table String (EncodedSnapshot B))
      → has_key key entries ≡ true
      → length (remove key entries) < length entries
  unfolding remove
  length-remove-lt key [] h = cc h
  length-remove-lt key ((j, e) ∷ rest) h = elim (Bool-cases (j == key)) [
    | inl f ↦ rw f (omega (arith, length-remove-le key rest))
    | inr f ↦ rw f (omega (arith, length-remove-lt key rest (rw f at h)))
  ]

  pub length-upsert-le :
      (key : String) (e : EncodedSnapshot B) (entries : Table String (EncodedSnapshot B))
      → length (upsert key (λ _. e) entries) ≤ suc (length entries)
  unfolding upsert
  length-upsert-le key e [] = omega arith
  length-upsert-le key e ((j, f) ∷ rest) = ground (arith, length-upsert-le key e rest)

  -- What is said of an entry, for each key.
  abbrev pub Held :
      (String → EncodedSnapshot B → Type 0) → Table String (EncodedSnapshot B) → Type 0
  Held Built = All (λ row. ((row.0 == "") ≡ false) × Built row.0 row.1)

  module _ (Built : String → EncodedSnapshot B → Type 0) where
    pub Held-lookup :
        (key : String) (e : EncodedSnapshot B) (entries : Table String (EncodedSnapshot B))
        → Held Built entries
        → lookup key entries ≡ some e
        → Built key e
    unfolding lookup
    Held-lookup key e [] h k = cc k
    Held-lookup key e ((j, f) ∷ rest) h k = elim (Bool-cases (j == key)) [
      | inl s ↦ same ((text_eq.same_iff j key).0 s) (rw s at k)
      | inr s ↦ Held-lookup key e rest h.1 (rw s at k)
    ]
      where
        of_some : some f ≡ some e → f ≡ e
        of_some l = cc l

        same : j ≡ key → some f ≡ some e → Built key e
        same p l =
            subst (λ (x : EncodedSnapshot B). Built key x) (of_some l)
              (subst (λ (x : String). Built x f) p h.0.1)

    pub Held-remove :
        (key : String) (entries : Table String (EncodedSnapshot B))
        → Held Built entries
        → Held Built (remove key entries)
    unfolding remove
    Held-remove key [] h = h
    Held-remove key ((j, f) ∷ rest) h = elim (Bool-cases (j == key)) [
      | inl s ↦ rw s (Held-remove key rest h.1)
      | inr s ↦ rw s (h.0, Held-remove key rest h.1)
    ]

    pub Held-upsert :
        (key : String) (e : EncodedSnapshot B) (entries : Table String (EncodedSnapshot B))
        → (key == "") ≡ false
        → Built key e
        → Held Built entries
        → Held Built (upsert key (λ _. e) entries)
    unfolding upsert
    Held-upsert key e [] n b h = ((n, b), tt)
    Held-upsert key e ((j, f) ∷ rest) n b h = elim (Bool-cases (j == key)) [
      | inl s ↦
          rw s
            ((h.0.0, subst (λ (x : String). Built x e) (sym ((text_eq.same_iff j key).0 s)) b), h.1)
      | inr s ↦ rw s (h.0, Held-upsert key e rest n b h.1)
    ]
