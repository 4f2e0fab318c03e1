-- ===== src/Stream/Diffs.antt =====
-- A difference, applied to the rows it was taken from, gives the new rows.
use codex_token_meter.Prelude.{
  String, Bool, true, false, not, ◌||◌, Option, none, some, List, [], ◌∷◌, ◌++◌, keep, any, ◌==◌,
  Keyed, text_eq, ◌≡◌, refl, sym, ap, ◌∙◌, arith, inl, inr, Bool-cases, if◌then◌else◌, Table,
  lookup, upsert, remove, lookup-upsert, lookup-remove,
}
use codex_token_meter.Stream.{Row, key_of, is_row, changed_rows, by_key, keys}

abbrev pub has : String → List String → Bool
has k = any λ j. j == k

module _ {Shown : Type 0} ⦃rows : Keyed (Row Shown)⦄ where
  -- The row that a list shows under a key: of two the first.
  abbrev pub row_of : String → List (Row Shown) → Option (Row Shown)
  row_of k [] = none
  row_of k (r ∷ rs) = if key_of r == k then some r else row_of k rs

  -- No two rows of a list have one key.
  abbrev pub AreDistinct : List (Row Shown) → Type 0
  AreDistinct [] = Unit
  AreDistinct (r ∷ rs) = (row_of (key_of r) rs ≡ none) × AreDistinct rs

  abbrev pub is_some : Option (Row Shown) → Bool
  is_some none = false
  is_some (some r) = true

  -- What a browser does with a difference: it drops the rows that are removed or sent anew, and takes
  -- the new ones.
  abbrev pub patched : List (Row Shown) → List String → List (Row Shown) → List (Row Shown)
  patched fresh removed before =
      fresh ++ keep (λ r. not (has (key_of r) removed || is_some (row_of (key_of r) fresh))) before

  abbrev pub or_else : Option (Row Shown) → Option (Row Shown) → Option (Row Shown)
  or_else none o = o
  or_else (some r) o = some r

  -- A value where there is no row.
  abbrev or_none : Option (Row Shown) → Option (Row Shown) → Option (Row Shown)
  or_none none o = o
  or_none (some r) o = none

  pub row_of-append :
      (k : String) (xs ys : List (Row Shown))
      → row_of k (xs ++ ys) ≡ or_else (row_of k xs) (row_of k ys)
  row_of-append k [] ys = refl
  row_of-append k (x ∷ xs) ys = ground (arith, row_of-append k xs ys)

  pub row_of-keep :
      (k : String) (p : String → Bool) (xs : List (Row Shown))
      → row_of k (keep (λ r. p (key_of r)) xs) ≡ (if p k then row_of k xs else none)
  row_of-keep k p [] = ground arith
  row_of-keep k p (x ∷ xs) = elim (Bool-cases (key_of x == k)) [
    | inl e ↦ ground (arith, e, ap p ((text_eq.same_iff (key_of x) k).0 e), row_of-keep k p xs)
    | inr e ↦ ground (arith, e, row_of-keep k p xs)
  ]

  row_of-if :
      (k : String) (same : Bool) (r : Row Shown) (rest : List (Row Shown))
      → row_of k (if same then rest else r ∷ rest)
        ≡ (if key_of r == k then (if same then row_of k rest else some r) else row_of k rest)
  row_of-if k same r rest = ground arith

  -- No further row has the key of the first.
  first_of :
      (k : String) (r : Row Shown) (rs : List (Row Shown))
      → AreDistinct (r ∷ rs)
      → (key_of r == k) ≡ true
      → row_of k rs ≡ none
  first_of k r rs h e = ap (λ j. row_of j rs) (sym ((text_eq.same_iff (key_of r) k).0 e)) ∙ h.0

  lookup-by_key :
      (k : String) (before : List (Row Shown)) (old : Table String (Row Shown))
      → AreDistinct before
      → lookup k (by_key before old) ≡ or_else (row_of k before) (lookup k old)
  unfolding by_key
  lookup-by_key k [] old h = refl
  lookup-by_key k (r ∷ before) old h =
      lookup-by_key k before (upsert (key_of r) (λ _. r) old) h.1
      ∙ rw (lookup-upsert (key_of r) k (λ _. r) old) (elim (Bool-cases (key_of r == k)) [
        | inl e ↦ rw (e, first_of k r before h e) refl
        | inr e ↦ rw e refl
      ])

  or_none-none : (o : Option (Row Shown)) → or_none o none ≡ none
  or_none-none none = refl
  or_none-none (some r) = refl

  -- What stays of the old rows: those under no key of the new ones.
  lookup-changed_rows :
      (k : String) (after : List (Row Shown)) (old : Table String (Row Shown))
      → lookup k (changed_rows after old).1 ≡ or_none (row_of k after) (lookup k old)
  unfolding changed_rows
  lookup-changed_rows k [] old = refl
  lookup-changed_rows k (r ∷ after) old =
      lookup-changed_rows k after (remove (key_of r) old)
      ∙ rw (lookup-remove (key_of r) k old) (elim (Bool-cases (key_of r == k)) [
        | inl e ↦ rw (e, or_none-none (row_of k after)) refl
        | inr e ↦ rw e refl
      ])

  abbrev news : Option (Row Shown) → Option (Row Shown) → Option (Row Shown)
  news none old = none
  news (some r) old = if is_row old r then none else some r

  -- The rows that are sent are those that differ from the old row of their key.
  row_of-changed_rows :
      (k : String) (after : List (Row Shown)) (old : Table String (Row Shown))
      → AreDistinct after
      → row_of k (changed_rows after old).0 ≡ news (row_of k after) (lookup k old)
  unfolding changed_rows
  row_of-changed_rows k [] old h = refl
  row_of-changed_rows k (r ∷ after) old h =
      let rest = row_of-changed_rows k after (remove (key_of r) old) h.1 in
      let sent =
        row_of-if k (is_row (lookup (key_of r) old) r) r
          (changed_rows after (remove (key_of r) old)).0 in
      sent ∙ elim (Bool-cases (key_of r == k)) [
        | inl e ↦
            let none_left =
              rest ∙ ap (λ o. news o (lookup k (remove (key_of r) old))) (first_of k r after h e) in
            let here = ap (λ j. is_row (lookup j old) r) ((text_eq.same_iff (key_of r) k).0 e) in
            rw (e, none_left, here) refl
        | inr e ↦
            let kept : lookup k (remove (key_of r) old) ≡ lookup k old =
              lookup-remove (key_of r) k old ∙ rw e refl in
            rw e (rest ∙ ap (λ o. news (row_of k after) o) kept)
      ]

  has-keys :
      (k : String) (old : Table String (Row Shown)) → has k (keys old) ≡ is_some (lookup k old)
  unfolding lookup
  has-keys k [] = refl
  has-keys k ((j, r) ∷ old) = ground (arith, has-keys k old)

  is_row-eq : (o : Option (Row Shown)) (r : Row Shown) → is_row o r ≡ true → o ≡ some r
  is_row-eq none r h = ground (arith, h)
  is_row-eq (some s) r h = ap some ((rows.same_iff s r).0 h)

  -- One key, whose new row is `a` and whose old row is `b`.
  one_key :
      (a b : Option (Row Shown))
      → or_else (news a b) (if not (is_some (or_none a b) || is_some (news a b)) then b else none)
        ≡ a
  one_key none none = refl
  one_key none (some s) = refl
  one_key (some r) b = elim (Bool-cases (is_row b r)) [
    | inl e ↦ rw e (is_row-eq b r e)
    | inr e ↦ rw e refl
  ]

  row_of-patched :
      (k : String) (fresh : List (Row Shown)) (removed : List String) (client : List (Row Shown))
      → row_of k (patched fresh removed client)
        ≡ or_else
            (row_of k fresh)
            (if not (has k removed || is_some (row_of k fresh)) then row_of k client else none)
  row_of-patched k fresh removed client =
      row_of-append k fresh
        (keep (λ r. not (has (key_of r) removed || is_some (row_of (key_of r) fresh))) client)
      ∙ ap (λ o. or_else (row_of k fresh) o)
          (row_of-keep k (λ j. not (has j removed || is_some (row_of j fresh))) client)

  pub or_else-none : (o : Option (Row Shown)) → or_else o none ≡ o
  or_else-none none = refl
  or_else-none (some r) = refl

  -- For `before` and `after` in which no two rows have the same key: a browser that shows the row of
  -- `before` under a key shows that of `after` under it once it has applied what the two differ in.
  pub patched-changed_rows :
      (k : String) (before after client : List (Row Shown))
      → AreDistinct before
      → AreDistinct after
      → row_of k client ≡ row_of k before
      → row_of k (
          patched
            (changed_rows after (by_key before [])).0
            (keys (changed_rows after (by_key before [])).1)
            client)
        ≡ row_of k after
  unfolding lookup
  patched-changed_rows k before after client h g same =
      let old = by_key before [] in
      let was = lookup-by_key k before [] h ∙ or_else-none (row_of k before) in
      let sent = row_of-changed_rows k after old g ∙ ap (λ o. news (row_of k after) o) was in
      let left =
        has-keys k (changed_rows after old).1
        ∙ ap is_some (lookup-changed_rows k after old ∙ ap (λ o. or_none (row_of k after) o) was) in
      row_of-patched k (changed_rows after old).0 (keys (changed_rows after old).1) client
      ∙ rw (sent, left, same) (one_key (row_of k after) (row_of k before))
