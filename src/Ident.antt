-- ===== src/Ident.antt =====
-- util.go `stableID` and `tokenHash`, session_grouping.go's tests on identifiers, server.go
-- `nullstr`. SHA-256 in hexadecimal is a parameter, a function of the text's code points.
use Prim.Native.Char.{code}
use Prim.Native.Nat.{ℕ, zero, suc}
use Prim.Native.String.{len, slice}
use text.Mathlib.Text.{starts_with}
use codex_token_meter.Prelude.{
  ◌+◌, ◌/◌, ◌%◌, ℤ, pos, negsuc, String, Bool, true, false, ◌&&◌, ◌||◌, Option, none, some, List,
  [], ◌∷◌, ◌++◌, leb, eqb, ◌==◌, if◌then◌else◌, text_eq,
}

abbrev pub codes : String → List ℕ
codes String.[] = []
codes (String.◌∷◌ c s) = code c ∷ codes s

-- The decimal digits of a number in front of `rest`; the fuel counts digits.
unfoldable pub digits : ℕ → ℕ → List ℕ → List ℕ
digits zero n rest = rest
digits (suc fuel) n rest =
    let d = (b'0' + n % 10) ∷ rest in
    let more = digits fuel (n / 10) d in if leb 10 n then more else d

-- `strconv.FormatInt(n, 10)` and `fmt.Sprint(n)`: a number below 2 ^ 64 has at most 20 digits.
unfoldable pub decimal : ℤ → List ℕ
unfolding digits
decimal (pos n) = digits 20 n []
decimal (negsuc n) = b'-' ∷ digits 20 (suc n) []

-- What `stableID` writes into the hash: each part, and a zero byte behind it.
unfoldable pub hash_input : List (List ℕ) → List ℕ
hash_input [] = []
hash_input (p ∷ ps) = p ++ (0 ∷ hash_input ps)

unfoldable pub stable_id : (List ℕ → String) → List (List ℕ) → String
unfolding hash_input
stable_id sha256_hex parts = sha256_hex (hash_input parts)

unfoldable pub token_hash : (List ℕ → String) → String → String
token_hash sha256_hex s = sha256_hex (codes s)

-- `strings.TrimPrefix(s, prefix)`.
unfoldable pub trim_prefix : String → String → String
trim_prefix s prefix = if starts_with s prefix then slice s (len prefix) (len s) else s

unfoldable pub nullstr : String → Option String
nullstr s = if s == "" then none else some s

unfoldable pub legacy_message_id : String → Bool
legacy_message_id id = starts_with id "msg_" || starts_with id "ctc_"

-- `[0-9a-f]` under `(?i)`.
unfoldable pub hex_digit : ℕ → Bool
hex_digit c =
    (leb b'0' c && leb c b'9') || ((leb b'a' c && leb c b'f') || (leb b'A' c && leb c b'F'))

-- The groups of the pattern `uuidInName`, then what `rest` asks of the text behind them.
unfoldable pub hex_digits : ℕ → (List ℕ → Bool) → List ℕ → Bool
unfolding hex_digit
hex_digits zero rest cs = rest cs
hex_digits (suc n) rest [] = false
hex_digits (suc n) rest (c ∷ cs) = hex_digit c && hex_digits n rest cs

unfoldable pub dash : (List ℕ → Bool) → List ℕ → Bool
dash rest [] = false
dash rest (c ∷ cs) = eqb c b'-' && rest cs

abbrev pub at_end : List ℕ → Bool
at_end [] = true
at_end (c ∷ cs) = false

-- The text begins with a match of `uuidInName`, and `rest` holds of what is behind it.
unfoldable pub uuid_then : (List ℕ → Bool) → List ℕ → Bool
unfolding hex_digits dash
uuid_then rest =
    hex_digits 8
      (dash (hex_digits 4 (dash (hex_digits 4 (dash (hex_digits 4 (dash (hex_digits 12 rest))))))))

-- A match of 36 characters in a text of 36 bytes is the whole text.
unfoldable pub native_task_id : String → Bool
unfolding uuid_then
native_task_id id = eqb (len id) 36 && uuid_then at_end (codes id)
