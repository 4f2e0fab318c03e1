-- ===== src/Web/Sound.antt =====
-- handlers.go `sessionAPI`, `purchaseAPI`: what the tables of the dashboard hold after any requests.
use Prim.Native.String.{len}
use codex_token_meter.Prelude.{
  ◌≤◌, String, true, false, List, [], ◌∷◌, Table, pair_eq, ◌==◌, text_eq, All, ◌≡◌, refl, sym,
  Bool-cases, inl, inr, ◌⊎◌, Holds, Holds-upsert,
}
use mathlib.Core.Path.{subst}
use codex_token_meter.Ledger.Db.{Session}
use codex_token_meter.Web.{
  Purchase, Dashboard, WebRequest, Setup, Moment, conversation_in, is_valid_purchase, renamed,
  serve_web, or_default,
}
use codex_token_meter.Web.Guards.{IsMade, IsOpen, LoggedIn, serve_web-IsChange}

abbrev pub IsNamed : String → Type 0
IsNamed name = len name ≤ 100

renamed-IsNamed :
    (conv name : String) (rows : Table (String × String) Session)
    (names : Table (String × String) String)
    → len name ≤ 100
    → Holds IsNamed names
    → Holds IsNamed (renamed conv name rows names)
renamed-IsNamed conv name [] names h k = k
renamed-IsNamed conv name (((host, c), row) ∷ rest) names h k = elim (Bool-cases (c == conv)) [
  | inl e ↦ rw e (
      Holds-upsert IsNamed (host, c) (λ _. name) (renamed conv name rest names)
        (renamed-IsNamed conv name rest names h k) h)
  | inr e ↦ rw e (renamed-IsNamed conv name rest names h k)
]

default_named : (s : String) → (or_default s "USD" == "") ≡ false
default_named s = elim (Bool-cases (s == "")) [ inl e ↦ rw e refl | inr e ↦ rw (e, e) refl ]

module _ {F : Type 0} (setup : Setup F) where
  abbrev pub IsListed : Purchase F → Type 0
  IsListed p = (is_valid_purchase setup p ≡ true) × ((p.currency == "") ≡ false)

  -- The amounts of every purchase are above 0 and its currency is named; no name of a session is longer
  -- than 100 bytes.
  abbrev pub IsSound : Dashboard F → Type 0
  IsSound d = All IsListed d.credit_purchases × Holds IsNamed d.names

  -- One request after the other.
  abbrev pub serve_web_all : List (Moment × WebRequest F) → Dashboard F → Dashboard F
  serve_web_all [] d = d
  serve_web_all ((m, r) ∷ rs) d = serve_web_all rs (serve_web setup m r d).0

  made-IsSound :
      (m : Moment) (r : WebRequest F) (d d' : Dashboard F)
      → IsMade setup m r d d'
      → IsSound d
      → IsSound d'
  made-IsSound m r d d' (inl (short, same)) h =
      subst IsSound (sym same) (
        h.0,
        renamed-IsNamed (conversation_in r.path) r.name d.server.db.sessions d.names short h.1,
      )
  made-IsSound m r d d' (inr (inl (p, asked, valid, same))) h =
      subst IsSound (sym same) (((valid, default_named p.currency), h.0), h.1)
  made-IsSound m r d d' (inr (inr same)) h = subst IsSound (sym same) h

  change-IsSound :
      (m : Moment) (r : WebRequest F) (d d' : Dashboard F)
      → (d' ≡ d) ⊎ IsOpen setup m r d d' ⊎ (LoggedIn setup m r × IsMade setup m r d d')
      → IsSound d
      → IsSound d'
  change-IsSound m r d d' (inl same) h = subst IsSound (sym same) h
  change-IsSound m r d d' (inr (inl (inl (path, same)))) h = subst IsSound (sym same) h
  change-IsSound m r d d' (inr (inl (inr (path, same)))) h = subst IsSound (sym same) h
  change-IsSound m r d d' (inr (inr (known, made))) h = made-IsSound m r d d' made h

  -- Whatever requests come, with a login or without, in whatever order: from a dashboard whose purchases
  -- are above 0 in amount, credits and rate and name a currency, and whose names of sessions have 100
  -- bytes at most, they lead to another such one.
  pub serve_web_all-IsSound :
      (rs : List (Moment × WebRequest F)) (d : Dashboard F)
      → IsSound d
      → IsSound (serve_web_all rs d)
  serve_web_all-IsSound [] d h = h
  serve_web_all-IsSound ((m, r) ∷ rs) d h =
      serve_web_all-IsSound rs (serve_web setup m r d).0
        (change-IsSound m r d _ (serve_web-IsChange setup m r d) h)
