-- ===== src/Login/Cookies.antt =====
-- The cookie of a login is accepted until it expires, and what is accepted was signed.
use codex_token_meter.Prelude.{
  ℕ, zero, suc, ◌^◌, ◌+◌, ◌/◌, ◌<◌, pos, ltb_ℤ, ltb, leb, true, false, ◌&&◌, Option, none, some,
  List, [], ◌∷◌, ◌++◌, eqb, ◌≡◌, refl, ap, ◌∙◌, arith, inl, inr, Bool-cases, All,
}
use codex_token_meter.Ident.{digits, decimal}
use codex_token_meter.Login.{
  Text, same_text, Crypto, Config, split_at, payload_of, session_cookie, unexpired, signed,
  parts_valid, authenticated,
}

same_text_self : (s : Text) → same_text s s ≡ true
same_text_self [] = refl
same_text_self (c ∷ s) = ground (arith, same_text_self s)

same_text-eq : (s t : Text) → same_text s t ≡ true → s ≡ t
same_text-eq [] [] h = refl
same_text-eq [] (d ∷ t) h = ground (arith, h)
same_text-eq (c ∷ s) [] h = ground (arith, h)
same_text-eq (c ∷ s) (d ∷ t) h = ground (arith, h, same_text-eq s t)

-- A text without a character.
abbrev pub Lacks : ℕ → Text → Type 0
Lacks c = All λ d. eqb d c ≡ false

split_at-Lacks : (c : ℕ) (s : Text) → Lacks c s → split_at c s ≡ s ∷ []
unfolding split_at
split_at-Lacks c [] h = refl
split_at-Lacks c (d ∷ s) h = rw (h.0, split_at-Lacks c s h.1) refl

split_at-two : (c : ℕ) (s t : Text) → Lacks c s → Lacks c t → split_at c (s ++ c ∷ t) ≡ s ∷ t ∷ []
unfolding split_at
split_at-two c [] t h k = rw (eqb_self c, split_at-Lacks c t k) refl
  where
    eqb_self : (n : ℕ) → eqb n n ≡ true
    eqb_self n = ground arith
split_at-two c (d ∷ s) t h k = rw (h.0, split_at-two c s t h.1 k) refl

digits-Lacks : (fuel n : ℕ) (rest : Text) → Lacks b'|' rest → Lacks b'|' (digits fuel n rest)
unfolding digits
digits-Lacks zero n rest h = h
digits-Lacks (suc fuel) n rest h = elim (Bool-cases (leb 10 n)) [
  | inl e ↦ rw e (digits-Lacks fuel (n / 10) _ (ground arith, h))
  | inr e ↦ rw e (ground arith, h)
]

decimal-Lacks : (n : ℕ) → Lacks b'|' (decimal (pos n))
unfolding decimal
decimal-Lacks n = digits-Lacks 20 n [] tt

-- Of base64, HMAC's base64 and package strconv: what is written is read, and no '.' is in it.
pub record IsCodec (crypto : Crypto) : Type 0 where
  pub decode_encode : (s : Text) → crypto.decode (crypto.encode s) ≡ some s
  pub encode_undotted : (s : Text) → Lacks b'.' (crypto.encode s)
  pub hmac_undotted : (secret s : Text) → Lacks b'.' (crypto.hmac secret s)
  pub parse_decimal : (n : ℕ) → n < 2 ^ 63 → crypto.parse_int (decimal (pos n)) ≡ pos n

module _ (crypto : Crypto) (config : Config) where
  -- The cookie of a login at one moment is accepted at another exactly when that is before the end of
  -- its 12 hours, for an administrator's name without '|' and seconds that fit in int64.
  pub authenticated-session_cookie :
      IsCodec crypto
      → Lacks b'|' config.admin_user
      → (now later : ℕ) → now + 43200 < 2 ^ 63
      → authenticated crypto config later (some (session_cookie crypto config now))
        ≡ ltb later (now + 43200)
  unfolding authenticated session_cookie
  authenticated-session_cookie c plain now later fits =
      let payload = payload_of crypto config (now + 43200) in
      let signature = crypto.hmac config.session_secret payload in
      let expiry = decimal (pos (now + 43200)) in
      ap (parts_valid crypto config later) (
        split_at-two b'.' (crypto.encode payload) signature (c.encode_undotted payload)
          (c.hmac_undotted config.session_secret payload))
      ∙ ap (signed crypto config later signature) (c.decode_encode payload)
      ∙ ap (λ b. b && unexpired crypto config later (split_at b'|' payload))
          (same_text_self signature)
      ∙ ap (unexpired crypto config later)
          (split_at-two b'|' config.admin_user expiry plain (decimal-Lacks (now + 43200)))
      ∙ ap (λ b. b && ltb_ℤ (pos later) (crypto.parse_int expiry))
          (same_text_self config.admin_user)
      ∙ ap (ltb_ℤ (pos later)) (c.parse_decimal (now + 43200) fits)
      ∙ ground arith

  -- What a cookie is made of that the server accepts.
  pub record Vouched (now : ℕ) (cookie : Text) : Type 0 where
    pub body : Text
    pub payload : Text
    pub expiry : Text
    pub cookie_parts : split_at b'.' cookie ≡ body ∷ crypto.hmac config.session_secret payload ∷ []
    pub body_payload : crypto.decode body ≡ some payload
    pub payload_parts : split_at b'|' payload ≡ config.admin_user ∷ expiry ∷ []
    pub in_time : ltb_ℤ (pos now) (crypto.parse_int expiry) ≡ true

  unexpired_parts :
      (now : ℕ) (parts : List Text)
      → unexpired crypto config now parts ≡ true
      → (expiry : Text) × (parts ≡ config.admin_user ∷ expiry ∷ [])
        × (ltb_ℤ (pos now) (crypto.parse_int expiry) ≡ true)
  unexpired_parts now [] h = ground (arith, h)
  unexpired_parts now (user ∷ []) h = ground (arith, h)
  unexpired_parts now (user ∷ expiry ∷ []) h =
      elim (Bool-cases (same_text user config.admin_user)) [
        | inl e ↦
            (expiry, ap (λ u. u ∷ expiry ∷ []) (same_text-eq user config.admin_user e), rw e at h)
        | inr e ↦ ground (arith, e, h)
      ]
  unexpired_parts now (user ∷ expiry ∷ more ∷ parts) h = ground (arith, h)

  signed-Vouched :
      (now : ℕ) (cookie body signature : Text) (o : Option Text)
      → split_at b'.' cookie ≡ body ∷ signature ∷ []
      → crypto.decode body ≡ o
      → signed crypto config now signature o ≡ true
      → Vouched now cookie
  signed-Vouched now cookie body signature none p d h = ground (arith, h)
  signed-Vouched now cookie body signature (some payload) p d h =
      elim (Bool-cases (same_text signature (crypto.hmac config.session_secret payload))) [
        | inl e ↦
            let rest = unexpired_parts now (split_at b'|' payload) (rw e at h) in
            record {
              body = body;
              payload = payload;
              expiry = rest.0;
              cookie_parts = p ∙ ap (λ s. body ∷ s ∷ []) (same_text-eq signature _ e);
              body_payload = d;
              payload_parts = rest.1;
              in_time = rest.2;
            }
        | inr e ↦ ground (arith, e, h)
      ]

  parts_valid-Vouched :
      (now : ℕ) (cookie : Text) (parts : List Text)
      → split_at b'.' cookie ≡ parts
      → parts_valid crypto config now parts ≡ true
      → Vouched now cookie
  parts_valid-Vouched now cookie [] p h = ground (arith, h)
  parts_valid-Vouched now cookie (body ∷ []) p h = ground (arith, h)
  parts_valid-Vouched now cookie (body ∷ signature ∷ []) p h =
      signed-Vouched now cookie body signature (crypto.decode body) p refl h
  parts_valid-Vouched now cookie (body ∷ signature ∷ more ∷ parts) p h = ground (arith, h)

  -- A cookie that is accepted has two parts, the second being the server's signature of what the first
  -- encodes: the administrator's name and an expiry that is yet to come.
  pub authenticated-Vouched :
      (now : ℕ) (cookie : Text)
      → authenticated crypto config now (some cookie) ≡ true
      → Vouched now cookie
  unfolding authenticated
  authenticated-Vouched now cookie h = parts_valid-Vouched now cookie (split_at b'.' cookie) refl h
