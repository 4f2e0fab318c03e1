-- ===== src/Partial/Merged.antt =====
-- numeric_incremental.go `mergeRows`: which row the merged rows show under a key.
use codex_token_meter.Prelude.{
  String, Bool, true, false, not, Option, none, some, List, [], ◌∷◌, ◌++◌, keep, sort, insert, ◌==◌,
  Keyed, text_eq, ◌≡◌, refl, ap, ◌∙◌, arith, inl, inr, Bool-cases, if◌then◌else◌,
}
use codex_token_meter.Stream.{Row, key_of}
use codex_token_meter.Stream.Diffs.{
  row_of, AreDistinct, has, or_else-none, row_of-append, row_of-keep,
}
use codex_token_meter.Partial.{later_first, merge_rows}

module _ {Shown : Type 0} ⦃rows : Keyed (Row Shown)⦄ where
  head_apart :
      (y : Row Shown) (k : String) (ys : List (Row Shown))
      → row_of k (y ∷ ys) ≡ none
      → ((key_of y == k) ≡ false) × (row_of k ys ≡ none)
  head_apart y k ys h = ground (arith, h)

  row_of-insert :
      (k : String) (le : Row Shown → Row Shown → Bool) (x : Row Shown) (ys : List (Row Shown))
      → row_of (key_of x) ys ≡ none
      → row_of k (insert le x ys) ≡ row_of k (x ∷ ys)
  row_of-insert k le x [] h = refl
  row_of-insert k le x (y ∷ ys) h = elim (Bool-cases (le x y)) [
    | inl e ↦ rw e refl
    | inr e ↦
        let apart = head_apart y (key_of x) ys h in
        rw e (
          ground (
            arith,
            apart.0,
            row_of-insert k le x ys apart.1,
            text_eq.same_iff (key_of y) k,
            text_eq.same_iff (key_of x) k,
            text_eq.same_iff (key_of y) (key_of x),
          ))
  ]

  insert-AreDistinct :
      (le : Row Shown → Row Shown → Bool) (x : Row Shown) (ys : List (Row Shown))
      → row_of (key_of x) ys ≡ none
      → AreDistinct ys
      → AreDistinct (insert le x ys)
  insert-AreDistinct le x [] h d = (refl, tt)
  insert-AreDistinct le x (y ∷ ys) h d = elim (Bool-cases (le x y)) [
    | inl e ↦ rw e (h, d)
    | inr e ↦
        let apart = head_apart y (key_of x) ys h in
        rw e (
          ground (
            arith,
            apart.0,
            d.0,
            row_of-insert (key_of y) le x ys apart.1,
            text_eq.same_iff (key_of x) (key_of y),
            text_eq.same_iff (key_of y) (key_of x),
          ),
          insert-AreDistinct le x ys apart.1 d.1,
        )
  ]

  sort-rows :
      (le : Row Shown → Row Shown → Bool) (xs : List (Row Shown))
      → AreDistinct xs
      → AreDistinct (sort le xs) × ((k : String) → row_of k (sort le xs) ≡ row_of k xs)
  sort-rows le [] d = (tt, (λ k. refl))
  sort-rows le (x ∷ xs) d =
      let rest = sort-rows le xs d.1 in
      let alone = rest.1 (key_of x) ∙ d.0 in
      (
        insert-AreDistinct le x (sort le xs) alone rest.0,
        λ k.
            row_of-insert k le x (sort le xs) alone
            ∙ ap (λ o. if key_of x == k then some x else o) (rest.1 k),
      )

  if_none : (b : Bool) (o : Option (Row Shown)) → o ≡ none → (if b then o else none) ≡ none
  if_none true o h = h
  if_none false o h = refl

  keep-AreDistinct :
      (p : String → Bool) (xs : List (Row Shown))
      → AreDistinct xs
      → AreDistinct (keep (λ r. p (key_of r)) xs)
  keep-AreDistinct p [] d = tt
  keep-AreDistinct p (x ∷ xs) d = elim (Bool-cases (p (key_of x))) [
    | inl e ↦ rw e (
      row_of-keep (key_of x) p xs ∙ if_none (p (key_of x)) (row_of (key_of x) xs) d.0,
      keep-AreDistinct p xs d.1,
    )
    | inr e ↦ rw e (keep-AreDistinct p xs d.1)
  ]

  -- Rows on two sides of a test have different keys.
  parts-AreDistinct :
      (p : String → Bool) (xs ys : List (Row Shown))
      → AreDistinct xs
      → AreDistinct ys
      → AreDistinct (keep (λ r. not (p (key_of r))) xs ++ keep (λ r. p (key_of r)) ys)
  parts-AreDistinct p [] ys d e = keep-AreDistinct p ys e
  parts-AreDistinct p (x ∷ xs) ys d e = elim (Bool-cases (p (key_of x))) [
    | inl in_scope ↦ rw in_scope (parts-AreDistinct p xs ys d.1 e)
    | inr outside ↦
        let mine =
          row_of-keep (key_of x) (λ k. not (p k)) xs
          ∙ if_none (not (p (key_of x))) (row_of (key_of x) xs) d.0 in
        let theirs = row_of-keep (key_of x) p ys ∙ rw outside refl in
        rw outside (
          row_of-append (key_of x) (keep (λ r. not (p (key_of r))) xs) (keep (λ r. p (key_of r)) ys)
              ∙ rw (mine, theirs) refl,
          parts-AreDistinct p xs ys d.1 e,
        )
  ]

  -- Where no two rows of the last snapshot, and no two of a query, have the same key: under a key that was
  -- asked for again the merged rows show the query's row, and under any other the last snapshot's.
  pub row_of-merge_rows :
      (last_event_at : Row Shown → String) (scope : List String) (prior full : List (Row Shown))
      (k : String)
      → AreDistinct prior
      → AreDistinct full
      → row_of k
          (merge_rows last_event_at (some scope) prior (keep (λ r. has (key_of r) scope) full))
        ≡ (if has k scope then row_of k full else row_of k prior)
  unfolding merge_rows
  row_of-merge_rows last_event_at scope prior full k d e =
      let old = keep (λ r. not (has (key_of r) scope)) prior in
      let new = keep (λ r. has (key_of r) scope) full in
      (sort-rows (later_first last_event_at) (old ++ new)
          (parts-AreDistinct (λ j. has j scope) prior full d e)).1
        k
      ∙ row_of-append k old new
      ∙ rw (row_of-keep k (λ j. not (has j scope)) prior, row_of-keep k (λ j. has j scope) full)
          (elim (Bool-cases (has k scope)) [
            | inl e ↦ rw e refl
            | inr e ↦ rw e (or_else-none (row_of k prior))
          ])
