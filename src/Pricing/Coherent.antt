-- ===== src/Pricing/Coherent.antt =====
-- What the cache holds of a ledger, and that it stands for the query.
use codex_token_meter.Prelude.{
  ℕ, true, false, List, [], ◌∷◌, ◌++◌, keep, ltb, leb, ◌≤◌, ◌<◌, ◌≡◌, refl, ◌∙◌, arith, All,
  IsSorted, IsOrder, inl, inr, Bool-cases, keep-append, keep-All_id, keep_none, append_nil,
  text_leb, text_ltb-not, text_leb-IsOrder, text_leb_antisymm, text_eq, ◌==◌, if◌then◌else◌,
}
use codex_token_meter.Ledger.Db.{UsageRow, max_id}
use codex_token_meter.Ledger.Rows.{IsLedger}
use codex_token_meter.Pricing.{Floats}
use codex_token_meter.Pricing.Sums.{by_id}
use codex_token_meter.Pricing.Cache.{PricedEvent, event_less, event_order}
use codex_token_meter.Pricing.Reference.{id_less, by_id-below}

-- The rows up to an id, in the order of their ids.
abbrev pub known : ℕ → List UsageRow → List UsageRow
known m rows = keep (λ r. leb r.id m) (by_id rows)

pub max_id_grows : (newer rows : List UsageRow) → max_id rows ≤ max_id (newer ++ rows)
unfolding max_id
max_id_grows [] rows = omega arith
max_id_grows (r ∷ newer) rows = omega (arith, max_id_grows newer rows)

pub known_before :
    (m : ℕ) (newer rows : List UsageRow)
    → IsLedger (newer ++ rows)
    → m ≤ max_id rows
    → known m (newer ++ rows) ≡ known m rows
known_before m [] rows h k = refl
known_before m (r ∷ newer) rows h k =
    let new : leb r.id m ≡ false = ground (arith, h.0, max_id_grows newer rows, k) in
    keep-append (λ s. leb s.id m) (by_id (newer ++ rows)) (r ∷ [])
    ∙ rw (new, known_before m newer rows h.2 k) (append_nil (known m rows))

pub known_whole : (rows : List UsageRow) → known (max_id rows) rows ≡ by_id rows
known_whole rows =
    keep-All_id (λ r. leb r.id (max_id rows)) (by_id rows)
      (by_id-below (max_id rows) rows (omega arith))

pub known_none : (rows : List UsageRow) → IsLedger rows → known 0 rows ≡ []
unfolding max_id
known_none [] h = refl
known_none (r ∷ rows) h =
    let new : leb r.id 0 ≡ false = ground (arith, h.0) in
    keep-append (λ s. leb s.id 0) (by_id rows) (r ∷ []) ∙ rw (known_none rows h.2, new) refl

above :
    (m : ℕ) (x : UsageRow) (xs : List UsageRow)
    → m < x.id
    → All (λ y. id_less x y ≡ true) xs
    → All (λ y. leb y.id m ≡ false) xs × All (λ y. ltb m y.id ≡ true) xs
above m x [] h k = (tt, tt)
above m x (y ∷ ys) h k =
    let rest = above m x ys h k.1 in
    ((ground (arith, h, k.0), rest.0), (ground (arith, h, k.0), rest.1))

-- The rows up to an id, and those behind it.
pub split :
    (m : ℕ) (xs : List UsageRow)
    → IsSorted id_less xs
    → keep (λ r. leb r.id m) xs ++ keep (λ r. ltb m r.id) xs ≡ xs
split m [] h = refl
split m (x ∷ xs) h = elim (Bool-cases (leb x.id m)) [
  | inl e ↦ let low : ltb m x.id ≡ false = ground (arith, e) in rw (e, low, split m xs h.1) refl
  | inr e ↦
      let high : ltb m x.id ≡ true = ground (arith, e) in
      let rest = above m x xs (ground (arith, e)) h.0 in
      rw (e, high, keep_none (λ r. leb r.id m) xs rest.0, keep-All_id (λ r. ltb m r.id) xs rest.1)
        refl
]

module _ (f : Floats) where
  event_order_lem :
      (x y : PricedEvent f)
      → event_order f x y ≡ (if x.stamp == y.stamp then leb x.id y.id else text_leb x.stamp y.stamp)
  unfolding event_less
  event_order_lem x y = ground (
    arith,
    text_ltb-not x.stamp y.stamp,
    text_eq.same_iff x.stamp y.stamp,
    text_eq.same_iff y.stamp x.stamp,
  )

  event_order-total : (x y : PricedEvent f) → event_order f x y ≡ false → event_order f y x ≡ true
  event_order-total x y h = ground (
    arith,
    event_order_lem x y,
    event_order_lem y x,
    h,
    text_leb-IsOrder.total x.stamp y.stamp,
    text_eq.same_iff x.stamp y.stamp,
    text_eq.same_iff y.stamp x.stamp,
  )

  event_order_transitive :
      (x y z : PricedEvent f)
      → event_order f x y ≡ true
      → event_order f y z ≡ true
      → event_order f x z ≡ true
  event_order_transitive x y z h k = ground (
    arith,
    event_order_lem x y,
    event_order_lem y z,
    event_order_lem x z,
    h,
    k,
    text_leb-IsOrder.trans x.stamp y.stamp z.stamp,
    text_leb_antisymm x.stamp y.stamp,
    text_leb_antisymm y.stamp z.stamp,
    text_eq.same_iff x.stamp y.stamp,
    text_eq.same_iff y.stamp z.stamp,
    text_eq.same_iff x.stamp z.stamp,
  )

  pub event_order-IsOrder : IsOrder (event_order f)
  event_order-IsOrder = record { total = event_order-total; trans = event_order_transitive }
