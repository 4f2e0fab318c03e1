-- ===== src/Json.antt =====
-- parser.go `findStringKey`, `number` and the reads of a record's keys. A decoded line is a tree; the
-- fields of an object stand in the order in which a loop visits them, which Go leaves open. A number
-- is the int64 that `number` makes of its float64.
pub mod Redacted
use codex_token_meter.Prelude.{
  ℤ, String, Bool, true, false, ◌||◌, Option, none, some, List, any, ◌==◌, text_eq, if◌then◌else◌,
}

mutual
  pub data Json : Type 0 where
    null : Json
    boolean : Bool → Json
    num : ℤ → Json
    str : String → Json
    arr : Items → Json
    obj : Fields → Json

  pub data Items : Type 0 where
    nil : Items
    cons : Json → Items → Items

  pub data Fields : Type 0 where
    end : Fields
    field : String → Json → Fields → Fields

-- `x.(string)`, `x.(map[string]any)` and `number(x)`.
abbrev pub text_of : Json → Option String
text_of (str s) = some s
text_of _ = none

abbrev pub object_of : Json → Option Fields
object_of (obj fs) = some fs
object_of _ = none

abbrev pub number : Json → Option ℤ
number (num n) = some n
number _ = none

-- `m[key]` of a map, nil for a missing key.
unfoldable pub value_at : String → Fields → Json
value_at key end = null
value_at key (field k c fs) = if k == key then c else value_at key fs

-- `s, _ := m[key].(string)`.
abbrev pub or_blank : Option String → String
or_blank (some s) = s
or_blank none = ""

unfoldable pub text_at : String → Fields → String
unfolding value_at
text_at key m = or_blank (text_of (value_at key m))

unfoldable pub object_at : String → Fields → Option Fields
unfolding value_at
object_at key m = object_of (value_at key m)

unfoldable pub number_at : String → Fields → Option ℤ
unfolding value_at
number_at key m = number (value_at key m)

-- What the walk does not enter.
unfoldable pub holds_text : String → Bool
holds_text k = k == "content" || k == "text" || k == "message" || k == "result" || k == "arguments"

abbrev pub first_some : Option String → Option String → Option String
first_some (some s) rest = some s
first_some none rest = rest

abbrev pub only_if : Bool → Option String → Option String
only_if true found = found
only_if false found = none

abbrev pub unless : Bool → Option String → Option String
unless true found = none
unless false found = found

abbrev pub wanted : List String → String → Bool
wanted keys k = any (λ w. w == k) keys

unfoldable mutual
  unfolding holds_text

  pub walk : List String → Json → Option String
  walk keys (obj fs) = walk_fields keys fs
  walk keys (arr xs) = walk_items keys xs
  walk keys _ = none

  pub walk_items : List String → Items → Option String
  walk_items keys nil = none
  walk_items keys (cons x xs) = first_some (walk keys x) (walk_items keys xs)

  pub walk_fields : List String → Fields → Option String
  walk_fields keys end = none
  walk_fields keys (field k c fs) =
      first_some (only_if (wanted keys k) (text_of c))
        (first_some (unless (holds_text k) (walk keys c)) (walk_fields keys fs))

-- The same tree with nothing behind the keys that hold texts.
unfoldable mutual
  unfolding holds_text

  pub redact : Json → Json
  redact (obj fs) = obj (redact_fields fs)
  redact (arr xs) = arr (redact_items xs)
  redact null = null
  redact (boolean b) = boolean b
  redact (num n) = num n
  redact (str s) = str s

  pub redact_items : Items → Items
  redact_items nil = nil
  redact_items (cons x xs) = cons (redact x) (redact_items xs)

  pub redact_fields : Fields → Fields
  redact_fields end = end
  redact_fields (field k c fs) =
      field k (if holds_text k then null else redact c) (redact_fields fs)
