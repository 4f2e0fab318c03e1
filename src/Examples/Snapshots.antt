-- ===== src/Examples/Snapshots.antt =====
-- Three requests for two keys: the second is answered from the cache, the third build fails.
use codex_token_meter.Prelude.{
  String, false, none, some, List, [], ◌∷◌, Table, ◌≡◌, refl, arith, length, lookup, upsert,
  text_eq,
}
use codex_token_meter.Snapshots.{EncodedSnapshot, Request, get_all}
use codex_token_meter.Snapshots.Answers.{IsKept, AllAnswered, get_all-IsKept}

-- A body is the key it was built for.
abbrev Built : String → EncodedSnapshot String → Type 0
Built key e = e.body ≡ key

abbrev today : Request String
today = record {
  key = "today|0";
  requested_at = 5;
  locked_at = 6;
  done_before = false;
  done_waiting = false;
  built = some "today|0";
  built_at = 7;
}

abbrev requests : List (Request String)
requests =
    today
    ∷ record today { requested_at = 8; locked_at = 9; built = none; built_at = 9 }
    ∷ record today { key = "week|0"; requested_at = 10; built = none; built_at = 11 }
    ∷ []

abbrev empty_cache : Table String (EncodedSnapshot String)
empty_cache = []

built_once : length (get_all requests empty_cache).0 ≡ 1
unfolding get_all lookup upsert
built_once = refl

some_is : {a b : String} → some a ≡ some b → b ≡ a
some_is e = cc e

get_all-IsKept_example :
    IsKept Built (get_all requests empty_cache).0
    × AllAnswered Built requests (get_all requests empty_cache).1
get_all-IsKept_example =
    get_all-IsKept Built requests empty_cache
      (
        (refl, omega arith, λ b e. some_is e),
        ((refl, omega arith, λ b e. cc e), ((refl, omega arith, λ b e. cc e), tt)),
      )
      (omega arith, tt)
