-- ===== src/Examples/Parts.antt =====
-- The theorems about the limiter, the tasks' evidence, the counters, the names and the traces.
use Prim.Native.Char.{Char, code}
use codex_token_meter.Prelude.{
  ◌≤◌, pos, String, Bool, some, List, [], ◌∷◌, lookup, ◌≡◌, refl, text_eq, pair_eq, arith, Holds,
  Holds-nil, Holds-upsert, upsert, Table, eqb,
}
use codex_token_meter.Types.{Time, UsageEvent, activity, running, idle}
use codex_token_meter.Limiter.{recent, answers, ideal_answers, answers-ideal_answers}
use codex_token_meter.Display.{Unicode, IsUnicode}
use codex_token_meter.Ledger.Db.{TaskRuntime}
use codex_token_meter.Ledger.Runtime.{apply_runtime, no_runtime}
use codex_token_meter.Ledger.Evidence.{
  IsSettled, apply_runtime-IsSettled, evidence_of, evidence-apply_runtime,
}
use codex_token_meter.Examples.{usage}

-- Two uploads at once and one a second and a half later.
abbrev uploads : List Time
uploads = 5_000_000_000 ∷ 5_000_000_000 ∷ 6_500_000_000 ∷ []

answers-ideal_answers_example : answers "host" uploads [] ≡ ideal_answers uploads []
unfolding lookup recent
answers-ideal_answers_example =
    answers-ideal_answers "host" uploads 0 [] [] refl
      (omega arith, (omega arith, (omega arith, tt)))

abbrev busy : TaskRuntime
busy = record no_runtime {
  state = running;
  turn_id = "t1";
  live_estimate = pos 40;
  evidence_at = some 3;
}

abbrev one_busy : Table (String × String) TaskRuntime
one_busy = (("host", "task"), busy) ∷ []

-- The turn is over.
abbrev over : UsageEvent
over = record (usage "a" "t1" 0 0 5) { event_type = activity; run_state = idle }

one_busy-IsSettled : Holds IsSettled one_busy
unfolding upsert lookup
one_busy-IsSettled =
    Holds-upsert IsSettled ("host", "task") (λ _. busy) [] (Holds-nil IsSettled) (λ e. cc e)

apply_runtime-IsSettled_example : Holds IsSettled (apply_runtime 9 over one_busy)
apply_runtime-IsSettled_example = apply_runtime-IsSettled 9 over one_busy one_busy-IsSettled

evidence-apply_runtime_example :
    evidence_of (lookup ("host", "task") one_busy)
    ≤ evidence_of (lookup ("host", "task") (apply_runtime 9 (usage "a" "t1" 0 150 5) one_busy))
evidence-apply_runtime_example =
    evidence-apply_runtime 9 (usage "a" "t1" 0 150 5) one_busy ("host", "task")

abbrev settled : TaskRuntime
settled = record busy { live_estimate = pos 0; last_exact_at = some 5 }

-- A blank is a space, and the line feed a control character.
abbrev is_blank : Char → Bool
is_blank c = eqb (code c) b' '

abbrev is_feed : Char → Bool
is_feed c = eqb (code c) 10

abbrev unicode : Unicode
unicode = record { is_control = is_feed; is_space = is_blank }

unicode-IsUnicode : IsUnicode unicode
unicode-IsUnicode = record { blank_no_control = refl; ellipsis_no_control = refl }
