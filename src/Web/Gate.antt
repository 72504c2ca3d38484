-- ===== src/Web/Gate.antt =====
-- About the middleware of main.go: which requests csrfProtect and requireAdmin let through.
use linuxgsm_dashboard.Base.{
  codes, ◌++◌, map, eqt_iff, eqt_of_ne, has_prefix, ◌∷◌, ℕ, Text, [], true, false, Option, none,
  some, arith, if◌then◌else◌, eqt, ◌≡◌, ◌≢◌, ◌⊎◌, refl, sym, ap, ◌∙◌, inl, inr, Bool-cases,
  Option-cases, remove_self,
}
use linuxgsm_dashboard.User.{User, is_admin}
use linuxgsm_dashboard.Passwords.{to_lower_byte}
use linuxgsm_dashboard.Auth.{
  Auth, Session, get_session, get_user, validate_csrf, is_valid_session, session_over, renewed,
}
use linuxgsm_dashboard.Auth.Sessions.{IsLive, is_valid_session_iff, validate_csrf_iff}
use linuxgsm_dashboard.Web.{
  App, Request, Answer, refused, Handler, UserHandler, with_auth, current_user, session_user,
  host_matches, is_unsafe_method, changes_state, same_origin, is_login_path, wrong_token,
  csrf_protect, for_user, require_auth, admins_only, require_admin,
}

-- A request of the API by a method that may change something.
abbrev pub Changes : Request → Type 0
Changes r =
    (r.method ≢ codes "GET")
    × (r.method ≢ codes "HEAD")
    × (r.method ≢ codes "OPTIONS")
    × ((rest : Text) × (r.path ≡ codes "/api/" ++ rest))

-- The address names the host of the request, whatever the case.
abbrev pub NamesHost : (Text → Option Text) → Request → Text → Type 0
NamesHost url_host r address =
    (h : Text) × (url_host address ≡ some h)
    × (h ≢ [])
    × (map to_lower_byte h ≡ map to_lower_byte r.host)

-- Where the browser says that the request comes from, it is this server: in Origin, or without that in
-- Referer. Without both it says nothing.
pub data IsOwn (url_host : Text → Option Text) (r : Request) : Type 0 where
  by_origin :
      r.origin ≢ [] → r.origin ≢ codes "null" → NamesHost url_host r r.origin → IsOwn url_host r
  by_referer : r.origin ≡ [] → r.referer ≢ [] → NamesHost url_host r r.referer → IsOwn url_host r
  unsaid : r.origin ≡ [] → r.referer ≡ [] → IsOwn url_host r

-- The request may pass as the administrator `u` with the session `id`.
pub record Admitted (url_host : Text → Option Text) (a : App) (r : Request) (now : ℕ) (u : User)
    (id : Text) : Type 0 where
  pub session : Session
  pub cookie : r.cookie ≡ some id
  pub stored : a.auth.sessions id ≡ some session
  pub live : IsLive now session
  pub known : get_user a.auth session.username ≡ some u
  pub admin : is_admin u ≡ true
  pub same_site : Changes r → IsOwn url_host r
  pub token :
      Changes r
      → r.path ≢ codes "/api/auth/login"
      → r.path ≢ codes "/api/auth/login/2fa"
      → (r.csrf_token ≢ []) × (session.csrf_token ≡ r.csrf_token)

has_prefix-append : (p s : Text) → has_prefix (p ++ s) p ≡ true
unfolding has_prefix
has_prefix-append [] s = refl
has_prefix-append (c ∷ p) s = ground (arith, has_prefix-append p s)

Changes-state : (r : Request) → Changes r → changes_state r ≡ true
unfolding changes_state is_unsafe_method
Changes-state r (g, h, o, (rest, e)) =
    let p : has_prefix r.path (codes "/api/") ≡ true =
      ap (λ x. has_prefix x (codes "/api/")) e ∙ has_prefix-append (codes "/api/") rest in
    ground (
      arith,
      p,
      eqt_of_ne r.method (codes "GET") g,
      eqt_of_ne r.method (codes "HEAD") h,
      eqt_of_ne r.method (codes "OPTIONS") o,
    )

host_matches-NamesHost :
    (url_host : Text → Option Text) (r : Request) (address : Text)
    → host_matches url_host r.host address ≡ true
    → NamesHost url_host r address
unfolding host_matches
host_matches-NamesHost url_host r address m = elim (Option-cases (url_host address)) [
  | inl e ↦ ground (arith, e)
  | inr (h, e) ↦ (
    h,
    e,
    (λ n. ground (arith, e, (eqt_iff h []).1 n)),
    (eqt_iff (map to_lower_byte h) (map to_lower_byte r.host)).0 (ground (arith, e)),
  )
]

same_origin-IsOwn :
    (url_host : Text → Option Text) (r : Request) → same_origin url_host r ≡ true → IsOwn url_host r
unfolding same_origin
same_origin-IsOwn url_host r h = elim (Bool-cases (eqt r.origin [])) [
  | inr given ↦
      by_origin (λ e. ground (arith, given, (eqt_iff r.origin []).1 e))
        (λ e. ground (arith, h, given, (eqt_iff r.origin (codes "null")).1 e))
        (host_matches-NamesHost url_host r r.origin (ground (arith, h, given)))
  | inl none_given ↦
      let no_origin : r.origin ≡ [] = (eqt_iff r.origin []).0 none_given in
      elim (Bool-cases (eqt r.referer [])) [
        | inr named ↦
            by_referer no_origin (λ e. ground (arith, named, (eqt_iff r.referer []).1 e))
              (host_matches-NamesHost url_host r r.referer (ground (arith, h, none_given, named)))
        | inl silent ↦ unsaid no_origin ((eqt_iff r.referer []).0 silent)
      ]
]

-- The state after a session was looked up.
abbrev pub looked_up : App → Text → ℕ → App
looked_up a id now = with_auth (get_session a.auth id now).0 a

-- The gate answers with 401 or 403, or it hands the request to the handler for an admitted user.
abbrev pub Decided : (Text → Option Text) → UserHandler → App → Request → ℕ → App × Answer → Type 0
Decided url_host next a r now result =
    (result.1 ≡ refused 401)
    ⊎ ((result.1 ≡ refused 403)
        ⊎ ((u : User) × (id : Text) × (result ≡ next u id (looked_up a id now) r now)
            × Admitted url_host a r now u id))

Session-cases :
    (s : Auth) (id : Text) (now : ℕ)
    → ((get_session s id now).1 ≡ none)
      ⊎ ((session : Session) × (s.sessions id ≡ some session)
          × IsLive now session
          × ((get_session s id now).1 ≡ some (renewed now session)))
unfolding get_session is_valid_session
Session-cases s id now = elim (Option-cases (s.sessions id)) [
  | inl e ↦ inl (ground arith)
  | inr (session, e) ↦ elim (Bool-cases (eqt id [])) [
    | inl empty ↦ inl (ground arith)
    | inr given ↦ elim (Bool-cases (session_over now session)) [
      | inl over ↦ inl (ground arith)
      | inr fine ↦
          let v : (is_valid_session s id now).1 ≡ true = ground arith in
          let (_, found, at, l) = (is_valid_session_iff s id now).0 v in
          inr (found, at, l, ground arith)
    ]
  ]
]

get_user-get_session :
    (s : Auth) (id name : Text) (now : ℕ) → get_user (get_session s id now).0 name ≡ get_user s name
unfolding get_session get_user
get_user-get_session s id name now = ground arith

ended_session :
    (s : Auth) (id : Text) (now : ℕ)
    → (is_valid_session s id now).1 ≡ false
    → (get_session (is_valid_session s id now).0 id now).1 ≡ none
unfolding is_valid_session get_session
ended_session s id now h = ground (arith, remove_self id s.sessions)

session_of_admin :
    (next : UserHandler) (a : App) (r : Request) (now : ℕ) (id : Text) (found : Option Session)
    → found ≡ none
    → (for_user (admins_only next) r now (a, session_user a.auth id found)).1 ≡ refused 401
unfolding for_user
session_of_admin next a r now id found e = rw (e, for_user) refl

-- What the check against forged requests has established before the handler runs.
record Checked (url_host : Text → Option Text) (a : App) (r : Request) : Type 0 where
  same_site : changes_state r ≡ true → same_origin url_host r ≡ true
  token :
      (id : Text) (session : Session)
      → r.cookie ≡ some id
      → a.auth.sessions id ≡ some session
      → changes_state r ≡ true
      → is_login_path r.path ≡ false
      → (r.csrf_token ≢ []) × (session.csrf_token ≡ r.csrf_token)

no_login :
    (r : Request)
    → r.path ≢ codes "/api/auth/login"
    → r.path ≢ codes "/api/auth/login/2fa"
    → is_login_path r.path ≡ false
no_login r one two =
    rw
      (
        eqt_of_ne r.path (codes "/api/auth/login") one,
        eqt_of_ne r.path (codes "/api/auth/login/2fa") two,
      )
      refl

module _ (url_host : Text → Option Text) (next : UserHandler) (r : Request) (now : ℕ) where
  with_session :
      (a : App) (id : Text) (session : Session)
      → Checked url_host a r
      → r.cookie ≡ some id
      → a.auth.sessions id ≡ some session
      → IsLive now session
      → (get_session a.auth id now).1 ≡ some (renewed now session)
      → Decided url_host next a r now (
          for_user (admins_only next) r now (
            looked_up a id now,
            session_user (get_session a.auth id now).0 id (get_session a.auth id now).1,
          ))
  unfolding for_user
  with_session a id session k c e l g = elim (Option-cases (get_user a.auth session.username)) [
    | inl gone ↦
        rw (g, get_user-get_session a.auth id session.username now, gone, for_user) (inl refl)
    | inr (u, known) ↦ elim (Bool-cases (is_admin u)) [
      | inr other ↦
          rw (g, get_user-get_session a.auth id session.username now, known, for_user, other)
            (inr (inl refl))
      | inl admin ↦
          rw (g, get_user-get_session a.auth id session.username now, known, for_user, admin)
            (inr (
              inr (
                u,
                id,
                refl,
                record {
                  session = session;
                  cookie = c;
                  stored = e;
                  live = l;
                  known = known;
                  admin = admin;
                  same_site = λ w. same_origin-IsOwn url_host r (k.same_site (Changes-state r w));
                  token =
                      λ w one two. k.token id session c e (Changes-state r w) (no_login r one two);
                },
              )))
    ]
  ]

  for_cookie :
      (a : App) (id : Text)
      → a.agent_mode ≡ false
      → r.cookie ≡ some id
      → require_admin next a r now
        ≡ for_user (admins_only next) r now (
          looked_up a id now,
          session_user (get_session a.auth id now).0 id (get_session a.auth id now).1,
        )
  unfolding require_admin require_auth current_user
  for_cookie a id mode c = ground (arith, mode, c)

  for_nobody :
      (a : App)
      → a.agent_mode ≡ false
      → r.cookie ≡ none
      → (require_admin next a r now).1 ≡ refused 401
  unfolding require_admin require_auth current_user for_user
  for_nobody a mode c = ground (arith, mode, c)

  ended-refused :
      (a : App) (id : Text)
      → a.agent_mode ≡ false
      → r.cookie ≡ some id
      → (get_session a.auth id now).1 ≡ none
      → (require_admin next a r now).1 ≡ refused 401
  ended-refused a id mode c g =
      rw (for_cookie a id mode c)
        (session_of_admin next (looked_up a id now) r now id (get_session a.auth id now).1 g)

  admin-Decided :
      (a : App)
      → a.agent_mode ≡ false
      → Checked url_host a r
      → Decided url_host next a r now (require_admin next a r now)
  admin-Decided a mode k = elim (Option-cases r.cookie) [
    | inl c ↦ inl (for_nobody a mode c)
    | inr (id, c) ↦ elim (Session-cases a.auth id now) [
      | inl g ↦ inl (ended-refused a id mode c g)
      | inr (session, e, l, g) ↦ rw (for_cookie a id mode c) (with_session a id session k c e l g)
    ]
  ]

  Checked-by_token :
      (a : App) (id : Text)
      → same_origin url_host r ≡ true
      → r.cookie ≡ some id
      → validate_csrf a.auth id r.csrf_token ≡ true
      → Checked url_host a r
  Checked-by_token a id same c v = record {
    same_site = λ _. same;
    token = λ j session d e _ _.
        let i : id ≡ j = cc in
        let (given, found, at, t) = (validate_csrf_iff a.auth id r.csrf_token).0 v in
        let q : some found ≡ some session = sym at ∙ ap a.auth.sessions i ∙ e in
        let p : found ≡ session = cc in (given, sym (ap (λ (x : Session). x.csrf_token) p) ∙ t);
  }

  wrong_token-Decided :
      (a : App) (id : Text)
      → a.agent_mode ≡ false
      → r.cookie ≡ some id
      → Decided url_host next a r now
          (wrong_token (require_admin next) a r now (is_valid_session a.auth id now))
  unfolding wrong_token
  wrong_token-Decided a id mode c = elim (Bool-cases (is_valid_session a.auth id now).1) [
    | inl v ↦ rw v (inr (inl refl))
    | inr v ↦ rw v (
        inl (
          ended-refused (with_auth (is_valid_session a.auth id now).0 a) id mode c
            (ended_session a.auth id now v)))
  ]

  cookie-Decided :
      (a : App) (id : Text)
      → a.agent_mode ≡ false
      → same_origin url_host r ≡ true
      → r.cookie ≡ some id
      → Decided url_host next a r now (
          if validate_csrf a.auth id r.csrf_token
          then require_admin next a r now
          else wrong_token (require_admin next) a r now (is_valid_session a.auth id now))
  cookie-Decided a id mode same c = elim (Bool-cases (validate_csrf a.auth id r.csrf_token)) [
    | inl v ↦ rw v (admin-Decided a mode (Checked-by_token a id same c v))
    | inr v ↦ rw v (wrong_token-Decided a id mode c)
  ]

module _ (url_host : Text → Option Text) (next : Handler) (a : App) (r : Request) (now : ℕ) where
  csrf_reads : changes_state r ≡ false → csrf_protect url_host next a r now ≡ next a r now
  unfolding csrf_protect
  csrf_reads h = ground (arith, h)

  csrf_foreign :
      changes_state r ≡ true
      → same_origin url_host r ≡ false
      → (csrf_protect url_host next a r now).1 ≡ refused 403
  unfolding csrf_protect
  csrf_foreign h o = ground (arith, h, o)

  csrf_login :
      changes_state r ≡ true
      → same_origin url_host r ≡ true
      → is_login_path r.path ≡ true
      → csrf_protect url_host next a r now ≡ next a r now
  unfolding csrf_protect
  csrf_login h o l = ground (arith, h, o, l)

  csrf_no_cookie :
      changes_state r ≡ true
      → same_origin url_host r ≡ true
      → is_login_path r.path ≡ false
      → r.cookie ≡ none
      → csrf_protect url_host next a r now ≡ next a r now
  unfolding csrf_protect
  csrf_no_cookie h o l c = ground (arith, h, o, l, c)

  csrf_cookie :
      (id : Text)
      → changes_state r ≡ true
      → same_origin url_host r ≡ true
      → is_login_path r.path ≡ false
      → r.cookie ≡ some id
      → csrf_protect url_host next a r now ≡ (
          if validate_csrf a.auth id r.csrf_token
          then next a r now
          else wrong_token next a r now (is_valid_session a.auth id now))
  unfolding csrf_protect
  csrf_cookie id h o l c = ground (arith, h, o, l, c)

-- A request to an administrator's route is refused with 401 or 403, or the handler gets it, with the
-- state unchanged but for the looked-up session, for a user such that: the cookie names a session
-- that is stored, has not expired and is not too old; its user exists and is an administrator; and
-- if the path is below /api/ and the method is not GET, HEAD or OPTIONS, then its Origin, or without
-- one its Referer, names the server's own host, where the browser sent either, and, but for the two
-- login paths, its token is not empty and is the session's CSRF token. The server is not an agent.
pub admin_gate :
    (url_host : Text → Option Text) (next : UserHandler) (a : App) (r : Request) (now : ℕ)
    → a.agent_mode ≡ false
    → Decided url_host next a r now (csrf_protect url_host (require_admin next) a r now)
admin_gate url_host next a r now mode = elim (Bool-cases (changes_state r)) [
  | inr reads ↦ rw (csrf_reads url_host (require_admin next) a r now reads) (
      admin-Decided url_host next r now a mode
        (record { same_site = λ h. cc; token = λ id session c e h l. cc }))
  | inl writes ↦ elim (Bool-cases (same_origin url_host r)) [
    | inr foreign ↦ inr (inl (csrf_foreign url_host (require_admin next) a r now writes foreign))
    | inl same ↦ elim (Bool-cases (is_login_path r.path)) [
      | inl login ↦ rw (csrf_login url_host (require_admin next) a r now writes same login) (
          admin-Decided url_host next r now a mode
            (record { same_site = λ h. same; token = λ id session c e h l. cc }))
      | inr other ↦ elim (Option-cases r.cookie) [
        | inl c ↦ rw (csrf_no_cookie url_host (require_admin next) a r now writes same other c) (
            admin-Decided url_host next r now a mode
              (record { same_site = λ h. same; token = λ id session d e h l. cc }))
        | inr (id, c) ↦
            rw (csrf_cookie url_host (require_admin next) a r now id writes same other c)
              (cookie-Decided url_host next r now a id mode same c)
      ]
    ]
  ]
]
