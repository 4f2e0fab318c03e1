-- ===== src/Json/Redacted.antt =====
-- parser.go `findStringKey` and the keys of a decoded line: what the redaction of its texts leaves.
use codex_token_meter.Prelude.{
  String, true, false, Option, none, some, List, [], ◌∷◌, ◌==◌, text_eq, ◌≡◌, refl, ap, ◌∙◌,
  Bool-cases, inl, inr, All,
}
use codex_token_meter.Json.{
  Json, Items, Fields, null, boolean, num, str, arr, obj, nil, cons, end, field, value_at, text_at,
  object_at, number_at, walk, walk_items, walk_fields, redact, redact_items, redact_fields,
  holds_text, text_of, object_of, number, wanted,
}

abbrev pub redacted : Option Fields → Option Fields
redacted none = none
redacted (some fs) = some (redact_fields fs)

-- A key whose value the redaction keeps.
abbrev pub IsKept : String → Type 0
IsKept k = holds_text k ≡ false

value_at-redact :
    (key : String) (fs : Fields)
    → IsKept key
    → value_at key (redact_fields fs) ≡ redact (value_at key fs)
unfolding value_at redact
value_at-redact key end h = refl
value_at-redact key (field k c fs) h = elim (Bool-cases (k == key)) [
  | inl e ↦ rw (e, ap (λ (t : String). holds_text t) ((text_eq.same_iff k key).0 e), h) refl
  | inr e ↦ rw e (value_at-redact key fs h)
]

text_of-redact : (j : Json) → text_of (redact j) ≡ text_of j
unfolding redact
text_of-redact null = refl
text_of-redact (boolean b) = refl
text_of-redact (num n) = refl
text_of-redact (str s) = refl
text_of-redact (arr xs) = refl
text_of-redact (obj fs) = refl

number-redact : (j : Json) → number (redact j) ≡ number j
unfolding redact
number-redact null = refl
number-redact (boolean b) = refl
number-redact (num n) = refl
number-redact (str s) = refl
number-redact (arr xs) = refl
number-redact (obj fs) = refl

object_of-redact : (j : Json) → object_of (redact j) ≡ redacted (object_of j)
unfolding redact
object_of-redact null = refl
object_of-redact (boolean b) = refl
object_of-redact (num n) = refl
object_of-redact (str s) = refl
object_of-redact (arr xs) = refl
object_of-redact (obj fs) = refl

pub text_at-redact :
    (key : String) (fs : Fields) → IsKept key → text_at key (redact_fields fs) ≡ text_at key fs
unfolding text_at
text_at-redact key fs h = rw (value_at-redact key fs h, text_of-redact (value_at key fs)) refl

pub number_at-redact :
    (key : String) (fs : Fields) → IsKept key → number_at key (redact_fields fs) ≡ number_at key fs
unfolding number_at
number_at-redact key fs h = rw (value_at-redact key fs h, number-redact (value_at key fs)) refl

pub object_at-redact :
    (key : String) (fs : Fields)
    → IsKept key
    → object_at key (redact_fields fs) ≡ redacted (object_at key fs)
unfolding object_at
object_at-redact key fs h =
    ap object_of (value_at-redact key fs h) ∙ object_of-redact (value_at key fs)

-- Keys that are looked for are none of those that hold texts.
wanted-IsKept :
    (keys : List String) (k : String)
    → All IsKept keys
    → holds_text k ≡ true
    → wanted keys k ≡ false
wanted-IsKept [] k h e = refl
wanted-IsKept (w ∷ keys) k h e = elim (Bool-cases (w == k)) [
  | inl s ↦ cc (ap (λ (t : String). holds_text t) ((text_eq.same_iff w k).0 s), h.0, e)
  | inr d ↦ rw d (wanted-IsKept keys k h.1 e)
]

mutual
  unfolding walk redact

  pub walk-redact_lem :
      (keys : List String) (j : Json) → All IsKept keys → walk keys (redact j) ≡ walk keys j
  walk-redact_lem keys null h = refl
  walk-redact_lem keys (boolean b) h = refl
  walk-redact_lem keys (num n) h = refl
  walk-redact_lem keys (str s) h = refl
  walk-redact_lem keys (arr xs) h = walk_items-redact keys xs h
  walk-redact_lem keys (obj fs) h = walk_fields-redact keys fs h

  walk_items-redact :
      (keys : List String) (xs : Items)
      → All IsKept keys
      → walk_items keys (redact_items xs) ≡ walk_items keys xs
  walk_items-redact keys nil h = refl
  walk_items-redact keys (cons x xs) h =
      rw (walk-redact_lem keys x h, walk_items-redact keys xs h) refl

  walk_fields-redact :
      (keys : List String) (fs : Fields)
      → All IsKept keys
      → walk_fields keys (redact_fields fs) ≡ walk_fields keys fs
  walk_fields-redact keys end h = refl
  walk_fields-redact keys (field k c fs) h = elim (Bool-cases (holds_text k)) [
    | inl e ↦ rw (e, wanted-IsKept keys k h e, walk_fields-redact keys fs h) refl
    | inr e ↦ rw (e, text_of-redact c, walk-redact_lem keys c h, walk_fields-redact keys fs h) refl
  ]
