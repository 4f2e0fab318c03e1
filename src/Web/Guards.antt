-- ===== src/Web/Guards.antt =====
-- server.go `runServer`'s routes, handlers.go `requireAuth`, `csrf`, `sessionAPI`, `purchaseAPI`: what a
-- request can change, and who can make it.
use Prim.Native.String.{len}
use package.text.Mathlib.Text.{starts_with}
use codex_token_meter.Prelude.{
  ◌≤◌, String, Bool, true, false, ◌||◌, ◌&&◌, any, Option, none, some, List, [], ◌∷◌, ltb, ◌==◌,
  text_eq, ◌≡◌, refl, sym, arith, Option-cases, Table, lookup, Bool-cases, inl, inr, ◌⊎◌,
}
use mathlib.Core.Path.{subst}
use codex_token_meter.Login.{authenticated}
use codex_token_meter.Web.{
  Route, routes, subtree_of, downloads, static, route_of, needs_login, sessions, purchases,
  enrollments, ingest_route, enroll, Purchase, Dashboard, WebRequest, Setup, Moment, unauthorized,
  to_login, conversation_in, session_api, purchase_api, add_purchase, completed, is_valid_purchase,
  renamed, mark_hub, has_token, with_desk, upload, let_in, issue, handle, serve_web,
}

-- The paths that anyone may ask for.
abbrev pub public_paths : List String
public_paths =
    "/healthz" ∷ "/readyz" ∷ "/login" ∷ "/favicon.ico" ∷ "/style.css" ∷ "/login.js" ∷ "/logout"
    ∷ "/api/ingest" ∷ "/api/enroll" ∷ "/install/windows.ps1" ∷ "/install/windows-hide.ps1"
    ∷ "/install/linux.sh" ∷ []

abbrev pub is_public : String → Bool
is_public path = any (λ p. p == path) public_paths || starts_with path "/downloads/"

-- A test that every pattern's route passes.
passes : (String → Route → Bool) → Table String Route → Bool
passes test [] = true
passes test ((path, route) ∷ rest) = test path route && passes test rest

lookup-passes :
    (test : String → Route → Bool) (path : String) (t : Table String Route) (route : Route)
    → passes test t ≡ true
    → lookup path t ≡ some route
    → test path route ≡ true
unfolding lookup passes
lookup-passes test path [] route h k = cc k
lookup-passes test path ((q, found) ∷ rest) route h k = elim (Bool-cases (q == path)) [
  | inl e ↦
      let here : found ≡ route = some_route (rw e at k) in
      subst (λ (p : String). test p route ≡ true) ((text_eq.same_iff q path).0 e)
        (subst (λ (r : Route). test q r ≡ true) here (ground (arith, h)))
  | inr e ↦ lookup-passes test path rest route (ground (arith, h)) (rw e at k)
]
  where
    some_route : {a b : Route} → some a ≡ some b → a ≡ b
    some_route e = cc e

route_of-passes :
    (test : String → Route → Bool) (path : String)
    → passes test routes ≡ true
    → test path (subtree_of path) ≡ true
    → test path (route_of path) ≡ true
unfolding route_of
route_of-passes test path h other = elim (Option-cases (lookup path routes)) [
  | inl none_found ↦ rw none_found other
  | inr (route, known) ↦ rw known (lookup-passes test path routes route h known)
]

abbrev guarded_test : String → Route → Bool
guarded_test path route = is_public path || needs_login route

abbrev ingest_test : String → Route → Bool
ingest_test path ingest_route = path == "/api/ingest"
ingest_test path _ = true

abbrev enroll_test : String → Route → Bool
enroll_test path enroll = path == "/api/enroll"
enroll_test path _ = true

-- A test that the subtrees' routes pass.
subtree_of-passes :
    (test : Route → Bool) (path : String)
    → (starts_with path "/downloads/" ≡ true → test downloads ≡ true)
    → test sessions ≡ true
    → test static ≡ true
    → test (subtree_of path) ≡ true
subtree_of-passes test path h k l = elim (Bool-cases (starts_with path "/downloads/")) [
  | inl e ↦ rw e (h e)
  | inr e ↦ elim (Bool-cases (starts_with path "/api/sessions/")) [
    | inl f ↦ rw (e, f) k
    | inr f ↦ rw (e, f) l
  ]
]

-- Every path that is not public is behind the login.
pub needs_login-route_of :
    (path : String) → is_public path ≡ false → needs_login (route_of path) ≡ true
unfolding needs_login passes
needs_login-route_of path h = right_of h (
    route_of-passes guarded_test path refl (
      subtree_of-passes (guarded_test path) path
        (λ e. cc (neither (any (λ p. p == path) public_paths) _ h, e)) (last_true _) (last_true _)))
  where
    right_of : {a b : Bool} → a ≡ false → (a || b) ≡ true → b ≡ true
    right_of k l = ground (arith, k, l)

    neither : (a b : Bool) → (a || b) ≡ false → b ≡ false
    neither a b k = ground (arith, k)

    last_true : (a : Bool) → (a || true) ≡ true
    last_true a = ground arith

route_of-ingest : (path : String) → route_of path ≡ ingest_route → path ≡ "/api/ingest"
unfolding passes
route_of-ingest path h =
    let passed =
      route_of-passes ingest_test path refl
        (subtree_of-passes (ingest_test path) path (λ e. refl) refl refl) in
    (text_eq.same_iff path "/api/ingest").0 (rw h at passed)

route_of-enroll : (path : String) → route_of path ≡ enroll → path ≡ "/api/enroll"
unfolding passes
route_of-enroll path h =
    let passed =
      route_of-passes enroll_test path refl
        (subtree_of-passes (enroll_test path) path (λ e. refl) refl refl) in
    (text_eq.same_iff path "/api/enroll").0 (rw h at passed)

module _ {F : Type 0} (setup : Setup F) (m : Moment) where
  abbrev pub LoggedIn : WebRequest F → Type 0
  LoggedIn r =
      (authenticated setup.crypto setup.config m.seconds r.session_cookie ≡ true)
      × (has_token setup m r ≡ true)

  -- A name is set for all sessions of one conversation, a purchase is added, or a token is issued.
  abbrev pub IsRenaming : WebRequest F → Dashboard F → Dashboard F → Type 0
  IsRenaming r d d' =
      (len r.name ≤ 100)
      × (d' ≡ record d {
        server = mark_hub d.server;
        names = renamed (conversation_in r.path) r.name d.server.db.sessions d.names;
      })

  abbrev pub IsPurchase : WebRequest F → Dashboard F → Dashboard F → Type 0
  IsPurchase r d d' =
      (p : Purchase F) × (r.purchase ≡ some p)
      × (is_valid_purchase setup p ≡ true)
      × (d' ≡ record d {
        server = mark_hub d.server;
        credit_purchases = completed setup m p ∷ d.credit_purchases;
        audit_log = "credit_purchase_added" ∷ d.audit_log;
      })

  abbrev pub IsIssue : WebRequest F → Dashboard F → Dashboard F → Type 0
  IsIssue r d d' = d' ≡ with_desk (issue setup m r d).0 d

  abbrev pub IsMade : WebRequest F → Dashboard F → Dashboard F → Type 0
  IsMade r d d' = IsRenaming r d d' ⊎ IsPurchase r d d' ⊎ IsIssue r d d'

  -- Nothing changes, or the token matches and one of the three changes is made.
  abbrev pub IsChange : WebRequest F → Dashboard F → Dashboard F → Type 0
  IsChange r d d' = (d' ≡ d) ⊎ ((has_token setup m r ≡ true) × IsMade r d d')

  session_api-IsChange :
      (r : WebRequest F) (d : Dashboard F) → IsChange r d (session_api setup m r d).0
  unfolding session_api
  session_api-IsChange r d = elim (Bool-cases (r.method == "PATCH")) [
    | inr p ↦ rw p (inl refl)
    | inl p ↦ elim (Bool-cases (has_token setup m r)) [
      | inr c ↦ rw (p, c) (inl refl)
      | inl c ↦ elim (Bool-cases (ltb 100 (len r.name))) [
        | inl l ↦ rw (p, c, l) (inl refl)
        | inr l ↦ rw (p, c, l) (inr (refl, inl (ground (arith, l), refl)))
      ]
    ]
  ]

  add_purchase-IsChange :
      (r : WebRequest F) (o : Option (Purchase F)) (d : Dashboard F)
      → r.purchase ≡ o
      → has_token setup m r ≡ true
      → IsChange r d (add_purchase setup m o d).0
  add_purchase-IsChange r none d same c = inl refl
  add_purchase-IsChange r (some p) d same c = elim (Bool-cases (is_valid_purchase setup p)) [
    | inr v ↦ rw v (inl refl)
    | inl v ↦ elim (Bool-cases m.insert_fails) [
      | inl f ↦ rw (v, f) (inl refl)
      | inr f ↦ rw (v, f) (inr (c, inr (inl (p, same, v, refl))))
    ]
  ]

  purchase_api-IsChange :
      (r : WebRequest F) (d : Dashboard F) → IsChange r d (purchase_api setup m r d).0
  unfolding purchase_api
  purchase_api-IsChange r d = elim (Bool-cases (r.method == "GET")) [
    | inl g ↦ rw g (inl refl)
    | inr g ↦ elim (Bool-cases (r.method == "POST")) [
      | inr p ↦ rw (g, p) (inl refl)
      | inl p ↦ elim (Bool-cases (has_token setup m r)) [
        | inr c ↦ rw (g, p, c) (inl refl)
        | inl c ↦
            subst (λ (d' : Dashboard F). IsChange r d d') (sym (rw (g, p, c) refl))
              (add_purchase-IsChange r r.purchase d refl c)
      ]
    ]
  ]

  -- Behind the login.
  handle-IsChange :
      (route : Route) (r : WebRequest F) (d : Dashboard F)
      → needs_login route ≡ true
      → IsChange r d (handle setup m route r d).0
  unfolding needs_login
  handle-IsChange sessions r d h = session_api-IsChange r d
  handle-IsChange purchases r d h = purchase_api-IsChange r d
  handle-IsChange enrollments r d h = elim (Bool-cases (has_token setup m r)) [
    | inl c ↦ rw c (inr (refl, inr (inr refl)))
    | inr c ↦ rw c (inl refl)
  ]
  handle-IsChange ingest_route r d h = absurd (cc h)
  handle-IsChange enroll r d h = absurd (cc h)
  handle-IsChange _ r d h = inl refl

  -- In front of it: an upload, or a machine that enrolls.
  abbrev pub IsOpen : WebRequest F → Dashboard F → Dashboard F → Type 0
  IsOpen r d d' =
      ((r.path ≡ "/api/ingest") × (d' ≡ record d { server = (upload setup m r d).0 }))
      ⊎ ((r.path ≡ "/api/enroll") × (d' ≡ with_desk (let_in setup m r d).0 d))

  handle-IsOpen :
      (route : Route) (r : WebRequest F) (d : Dashboard F)
      → route_of r.path ≡ route
      → needs_login route ≡ false
      → let d' = (handle setup m route r d).0 in (d' ≡ d) ⊎ IsOpen r d d'
  unfolding needs_login
  handle-IsOpen ingest_route r d e h = inr (inl (route_of-ingest r.path e, refl))
  handle-IsOpen enroll r d e h = inr (inr (route_of-enroll r.path e, refl))
  handle-IsOpen sessions r d e h = absurd (cc h)
  handle-IsOpen purchases r d e h = absurd (cc h)
  handle-IsOpen enrollments r d e h = absurd (cc h)
  handle-IsOpen _ r d e h = inl refl

  pub serve_web-IsChange :
      (r : WebRequest F) (d : Dashboard F)
      → let d' = (serve_web setup m r d).0 in
        (d' ≡ d) ⊎ IsOpen r d d' ⊎ (LoggedIn r × IsMade r d d')
  unfolding serve_web
  serve_web-IsChange r d = elim (Bool-cases (needs_login (route_of r.path))) [
    | inr n ↦ rw n (in_front (handle-IsOpen (route_of r.path) r d refl n))
    | inl n ↦
        elim (Bool-cases (authenticated setup.crypto setup.config m.seconds r.session_cookie)) [
          | inr a ↦ rw (n, a) (inl refl)
          | inl a ↦
              subst (λ (d' : Dashboard F). (d' ≡ d) ⊎ IsOpen r d d' ⊎ (LoggedIn r × IsMade r d d'))
                (sym (rw (n, a) refl)) (behind a (handle-IsChange (route_of r.path) r d n))
        ]
  ]
    where
      in_front :
          {d' : Dashboard F}
          → (d' ≡ d) ⊎ IsOpen r d d'
          → (d' ≡ d) ⊎ IsOpen r d d' ⊎ (LoggedIn r × IsMade r d d')
      in_front (inl same) = inl same
      in_front (inr opened) = inr (inl opened)

      behind :
          {d' : Dashboard F}
          → authenticated setup.crypto setup.config m.seconds r.session_cookie ≡ true
          → IsChange r d d'
          → (d' ≡ d) ⊎ IsOpen r d d' ⊎ (LoggedIn r × IsMade r d d')
      behind a (inl same) = inl same
      behind a (inr (c, made)) = inr (inr ((a, c), made))

  -- A request with no accepted cookie to a path that is not public leaves the dashboard as it is; it is refused with
  -- "unauthorized" under /api/ and for the events, and sent to the login page elsewhere. Public are the
  -- health checks, the login page with its icon, style and script, the logout, the uploads, the
  -- enrollment of a machine, the installers and the downloads.
  pub serve_web-guest :
      (r : WebRequest F) (d : Dashboard F)
      → is_public r.path ≡ false
      → authenticated setup.crypto setup.config m.seconds r.session_cookie ≡ false
      → ((serve_web setup m r d).0 ≡ d)
        × ((starts_with r.path "/api/" || r.path == "/events") ≡ true
            → (serve_web setup m r d).1 ≡ unauthorized)
        × ((starts_with r.path "/api/" || r.path == "/events") ≡ false
            → (serve_web setup m r d).1 ≡ to_login)
  unfolding serve_web
  serve_web-guest r d guarded h =
      let n = needs_login-route_of r.path guarded in
      (rw (n, h) refl, (λ e. rw (n, h, e) refl), λ e. rw (n, h, e) refl)
