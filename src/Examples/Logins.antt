-- ===== src/Examples/Logins.antt =====
-- The theorems of login and enrollment with a small codec, and a desk that one machine enrolls at.
use codex_token_meter.Prelude.{
  ℕ, zero, suc, ◌+◌, ◌-◌, ◌*◌, ◌/◌, ◌%◌, ◌<◌, pos, true, false, none, some, List, [], ◌∷◌, ◌++◌,
  map, ltb, leb, ◌==◌, ◌≡◌, refl, ap, ◌∙◌, arith, inl, inr, Bool-cases, lookup, upsert, length, ◌≤◌,
  text_eq,
}
use codex_token_meter.Ident.{digits, decimal}
use codex_token_meter.Login.{Text, Crypto, Config, session_cookie, authenticated, login}
use codex_token_meter.Login.Cookies.{
  Lacks, IsCodec, Vouched, authenticated-session_cookie, authenticated-Vouched,
}
use codex_token_meter.Login.Enroll.{
  Desk, EnrollRequest, EnrollFaults, EnrollAnswer, enrolled, invalid_enrollment, create_enrollment,
  enroll_agent, exists, hash,
}
use codex_token_meter.Login.Once.{DeskRequest, create, enroll, serve_all, enroll_agent_once}
use codex_token_meter.Limiter.{recent, login_window}
use codex_token_meter.Login.Limited.{Try, failures_of, login_failures_bounded}
use codex_token_meter.Login.Admission.{IsKnown, create_enrollment-enroll_agent}
use codex_token_meter.Examples.{small_hash}

abbrev power_of_ten : ℕ → ℕ
power_of_ten zero = 1
power_of_ten (suc n) = 10 * power_of_ten n

-- The number that digits write, behind the digits before them.
abbrev number : ℕ → Text → ℕ
number before [] = before
number before (c ∷ cs) = number (before * 10 + (c - b'0')) cs

number-digits :
    (fuel n : ℕ) (rest : Text)
    → n < power_of_ten fuel
    → number 0 (digits fuel n rest) ≡ number n rest
unfolding digits
number-digits zero n rest h = ap (λ m. number m rest) (omega (arith, h))
number-digits (suc fuel) n rest h = elim (Bool-cases (leb 10 n)) [
  | inl e ↦ rw e (
      number-digits fuel (n / 10) ((b'0' + n % 10) ∷ rest) (omega (arith, h))
      ∙ ap (λ m. number m rest) (omega arith))
  | inr e ↦ rw e (ap (λ m. number m rest) (ground (arith, e)))
]

-- Letters far from the dot.
abbrev shifted : Text → Text
shifted = map λ c. c + 100

abbrev unshifted : Text → Text
unshifted = map λ c. c - 100

unshifted-shifted : (s : Text) → unshifted (shifted s) ≡ s
unshifted-shifted [] = refl
unshifted-shifted (c ∷ s) = λ i. back c i ∷ unshifted-shifted s i
  where
    back : (n : ℕ) → n + 100 - 100 ≡ n
    back n = omega arith

shifted-Lacks : (s : Text) → Lacks b'.' (shifted s)
shifted-Lacks [] = tt
shifted-Lacks (c ∷ s) = (ground arith, shifted-Lacks s)

abbrev pub shift_codec : Crypto
shift_codec = record {
  hmac = λ secret s. shifted (secret ++ s);
  encode = λ s. shifted s;
  decode = λ s. some (unshifted s);
  parse_int = λ s. pos (number 0 s);
  verify_password = λ hash password. hash == password;
}

shift_codec-IsCodec : IsCodec shift_codec
unfolding decimal
shift_codec-IsCodec = record {
  decode_encode = λ s. ap some (unshifted-shifted s);
  encode_undotted = shifted-Lacks;
  hmac_undotted = λ secret s. shifted-Lacks (secret ++ s);
  parse_decimal = λ n h. ap pos (number-digits 20 n [] (omega (arith, h)));
}

abbrev pub admin : Config
admin = record {
  admin_user = b'm' ∷ b'e' ∷ [];
  admin_password_hash = "pw";
  session_secret = b'k' ∷ [];
}

authenticated-session_cookie_example :
    authenticated shift_codec admin 1000 (some (session_cookie shift_codec admin 7))
    ≡ ltb 1000 (7 + 43200)
authenticated-session_cookie_example =
    authenticated-session_cookie shift_codec admin shift_codec-IsCodec (refl, (refl, tt)) 7 1000
      (omega arith)

accepted : authenticated shift_codec admin 1000 (some (session_cookie shift_codec admin 7)) ≡ true
accepted =
    authenticated-session_cookie shift_codec admin shift_codec-IsCodec (refl, (refl, tt)) 7 1000
      (omega arith)

authenticated-Vouched_example : Vouched shift_codec admin 1000 (session_cookie shift_codec admin 7)
authenticated-Vouched_example =
    authenticated-Vouched shift_codec admin 1000 (session_cookie shift_codec admin 7) accepted

abbrev empty_desk : Desk
empty_desk = record { enrollments = []; agents = [] }

abbrev request : EnrollRequest
request = record { token = "t"; platform = "linux"; alias = "" }

abbrev pub no_faults : EnrollFaults
no_faults = record { insert_fails = false; update_fails = false; commit_fails = false }

nothing_yet : exists (lookup (hash small_hash "t") empty_desk.enrollments) ≡ false
unfolding lookup
nothing_yet = refl

no_host : exists (lookup "host-name" empty_desk.agents) ≡ false
unfolding lookup
no_host = refl

abbrev let_in_first : Desk × EnrollAnswer
let_in_first =
    enroll_agent small_hash "POST" (some request) "host-name" "secret" 900 no_faults
      (create_enrollment small_hash "POST" "linux" "t" 5 false empty_desk).0

create_enrollment-enroll_agent_example :
    (let_in_first.1 ≡ enrolled "host-name" "secret")
    × IsKnown small_hash "host-name" "secret" "linux" let_in_first.0
create_enrollment-enroll_agent_example =
    create_enrollment-enroll_agent small_hash "linux" "t" "host-name" "secret" request 5 900
      no_faults empty_desk refl nothing_yet no_host refl refl refl refl (omega arith)

enrolled_first : let_in_first.1 ≡ enrolled "host-name" "secret"
enrolled_first =
    (create_enrollment-enroll_agent small_hash "linux" "t" "host-name" "secret" request 5 900
      no_faults empty_desk refl nothing_yet no_host refl refl refl refl (omega arith)).0

abbrev between : List (DeskRequest small_hash)
between = create "POST" "linux" "t" 1000 false ∷ enroll "GET" none "x" "y" 1001 no_faults ∷ []

enroll_agent_once_example :
    let issued_desk = (create_enrollment small_hash "POST" "linux" "t" 5 false empty_desk).0 in
    let after =
      serve_all small_hash between
        (enroll_agent small_hash "POST"
          (some request)
          "host-name"
          "secret"
          900
          no_faults
          issued_desk).0 in
    enroll_agent small_hash "POST" (some request) "other" "more" 2000 no_faults after
    ≡ (after, invalid_enrollment)
enroll_agent_once_example =
    enroll_agent_once small_hash request request "host-name" "secret" "other" "more" 900 2000
      no_faults no_faults (create_enrollment small_hash "POST" "linux" "t" 5 false empty_desk).0
      between refl refl enrolled_first refl

-- A wrong password, and the same again a second later.
abbrev wrong : Try shift_codec admin
wrong = record {
  seconds = 1;
  clock = 1_000_000_000;
  request = record {
    method = "POST";
    ip = "1.2.3.4";
    csrf_cookie = some "c";
    csrf_value = "c";
    username = b'm' ∷ b'e' ∷ [];
    password = "no";
  };
}

abbrev wrong_twice : List (Try shift_codec admin)
wrong_twice = wrong ∷ record wrong { clock = 2_000_000_000 } ∷ []

failed_twice : length (failures_of shift_codec admin "1.2.3.4" wrong_twice [] []) ≡ 2
unfolding login lookup upsert recent
failed_twice = refl

login_failures_bounded_example :
    length (
      recent login_window 3_000_000_000 (failures_of shift_codec admin "1.2.3.4" wrong_twice [] []))
    ≤ 5
login_failures_bounded_example =
    login_failures_bounded shift_codec admin "1.2.3.4" wrong_twice 0 3_000_000_000 (omega arith)
