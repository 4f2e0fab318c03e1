-- ===== src/Partial/Totals.antt =====
-- The totals of the projects add up to those of the rows.
use codex_token_meter.Prelude.{
  ℤ, pos, ◌+ℤ◌, String, Bool, not, List, [], ◌∷◌, sort, insert, ◌≡◌, refl, sym, ap, ◌∙◌, inl, inr,
  Bool-cases, Table, upsert, ◌==◌, text_eq, +ℤ_assoc, +ℤ_comm, zero_+ℤ, +ℤ_zero,
}
use codex_token_meter.Pricing.{Floats}
use codex_token_meter.Pricing.Sums.{row_key}
use codex_token_meter.Stream.{Row}
use codex_token_meter.Partial.{
  Columns, ProjectAggregate, new_project, or_new, with_row, grouped, projects, project_less,
  project_totals_from_rows,
}

-- The sum of a column.
abbrev pub sum_of : {A : Type 0} → (A → ℤ) → List A → ℤ
sum_of column [] = pos 0
sum_of column (x ∷ xs) = column x +ℤ sum_of column xs

swap_sum : (a b c : ℤ) → a +ℤ (b +ℤ c) ≡ b +ℤ (a +ℤ c)
swap_sum a b c = sym (+ℤ_assoc a b c) ∙ ap (λ t. t +ℤ c) (+ℤ_comm a b) ∙ +ℤ_assoc b a c

swap_last : (a b c : ℤ) → a +ℤ b +ℤ c ≡ a +ℤ c +ℤ b
swap_last a b c = +ℤ_assoc a b c ∙ ap (λ t. a +ℤ t) (+ℤ_comm b c) ∙ sym (+ℤ_assoc a c b)

sum_of-insert :
    {A : Type 0} (column : A → ℤ) (le : A → A → Bool) (x : A) (ys : List A)
    → sum_of column (insert le x ys) ≡ column x +ℤ sum_of column ys
sum_of-insert column le x [] = refl
sum_of-insert column le x (y ∷ ys) = elim (Bool-cases (le x y)) [
  | inl e ↦ rw e refl
  | inr e ↦ rw e (
      ap (λ t. column y +ℤ t) (sum_of-insert column le x ys)
      ∙ swap_sum (column y) (column x) (sum_of column ys))
]

sum_of-sort :
    {A : Type 0} (column : A → ℤ) (le : A → A → Bool) (xs : List A)
    → sum_of column (sort le xs) ≡ sum_of column xs
sum_of-sort column le [] = refl
sum_of-sort column le (x ∷ xs) =
    sum_of-insert column le x (sort le xs) ∙ ap (λ t. column x +ℤ t) (sum_of-sort column le xs)

module _ (f : Floats) where
  -- A column of the projects that adds up one of the rows.
  record IsColumn (column : ProjectAggregate f → ℤ) (of_row : Row (Columns f) → ℤ) : Type 0 where
    adds :
        (r : Row (Columns f)) (g : ProjectAggregate f)
        → column (with_row f r g) ≡ column g +ℤ of_row r
    starts : (host project : String) → column (new_project f host project) ≡ pos 0

  module _ (column : ProjectAggregate f → ℤ) (of_row : Row (Columns f) → ℤ)
      (c : IsColumn column of_row) where
    sum_of-upsert :
        (r : Row (Columns f)) (key : String) (groups : Table String (ProjectAggregate f))
        → sum_of column (
            projects f
              (upsert key (λ g. with_row f r (or_new f r.host_id r.shown.project g)) groups))
          ≡ sum_of column (projects f groups) +ℤ of_row r
    unfolding upsert
    sum_of-upsert r key [] =
        +ℤ_zero (column (with_row f r (new_project f r.host_id r.shown.project)))
        ∙ c.adds r (new_project f r.host_id r.shown.project)
        ∙ ap (λ t. t +ℤ of_row r) (c.starts r.host_id r.shown.project)
    sum_of-upsert r key ((k, g) ∷ groups) = elim (Bool-cases (k == key)) [
      | inl e ↦ rw e (
          ap (λ t. t +ℤ sum_of column (projects f groups)) (c.adds r g)
          ∙ swap_last (column g) (of_row r) (sum_of column (projects f groups)))
      | inr e ↦ rw e (
          ap (λ t. column g +ℤ t) (sum_of-upsert r key groups)
          ∙ sym (+ℤ_assoc (column g) (sum_of column (projects f groups)) (of_row r)))
    ]

    sum_of-grouped :
        (rows : List (Row (Columns f))) (groups : Table String (ProjectAggregate f))
        → sum_of column (projects f (grouped f rows groups))
          ≡ sum_of column (projects f groups) +ℤ sum_of of_row rows
    unfolding grouped
    sum_of-grouped [] groups = sym (+ℤ_zero (sum_of column (projects f groups)))
    sum_of-grouped (r ∷ rows) groups =
        sum_of-grouped rows _
        ∙ ap (λ t. t +ℤ sum_of of_row rows)
            (sum_of-upsert r (row_key r.host_id r.shown.project) groups)
        ∙ +ℤ_assoc (sum_of column (projects f groups)) (of_row r) (sum_of of_row rows)

    sum_of-project_totals :
        (rows : List (Row (Columns f)))
        → sum_of column (project_totals_from_rows f rows) ≡ sum_of of_row rows
    unfolding project_totals_from_rows
    sum_of-project_totals rows =
        sum_of-sort column (λ a b. not (project_less f b a)) (projects f (grouped f rows []))
        ∙ sum_of-grouped rows []
        ∙ zero_+ℤ (sum_of of_row rows)

  -- The input, output and total tokens of all projects are those of all rows, column by column.
  pub project_totals_from_rows-totals :
      (rows : List (Row (Columns f)))
      → (sum_of (λ g. g.input_tokens) (project_totals_from_rows f rows)
          ≡ sum_of (λ r. r.shown.input_tokens) rows)
        × (sum_of (λ g. g.output_tokens) (project_totals_from_rows f rows)
            ≡ sum_of (λ r. r.shown.output_tokens) rows)
        × (sum_of (λ g. g.total_tokens) (project_totals_from_rows f rows)
            ≡ sum_of (λ r. r.shown.total_tokens) rows)
  unfolding with_row
  project_totals_from_rows-totals rows = (
    sum_of-project_totals (λ g. g.input_tokens) (λ r. r.shown.input_tokens)
        (record { adds = λ r g. refl; starts = λ h p. refl }) rows,
    sum_of-project_totals (λ g. g.output_tokens) (λ r. r.shown.output_tokens)
        (record { adds = λ r g. refl; starts = λ h p. refl }) rows,
    sum_of-project_totals (λ g. g.total_tokens) (λ r. r.shown.total_tokens)
        (record { adds = λ r g. refl; starts = λ h p. refl }) rows,
  )
