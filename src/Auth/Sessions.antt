-- ===== src/Auth/Sessions.antt =====
-- About the sessions of AuthManager (GetSession, IsValidSession, ValidateCSRF, the cleanup of
-- backend/auth.go).
use linuxgsm_dashboard.Base.{
  ℕ, ◌+◌, ◌≤◌, ◌<◌, ◌≡◌, ◌≢◌, refl, ◌↔◌, Text, List, [], ◌∷◌, true, false, not, Option, none, some,
  ok, arith, if◌then◌else◌, eqt, eqt_iff, eqt_refl, eqt_of_ne, put, remove, keep_if, only,
  Bool-cases, Option-cases, inl, inr,
}
use native.Mathlib.Nat.{le_refl}
use linuxgsm_dashboard.Auth.{
  Auth, Session, create_session, invalidate_user_sessions, get_session, session_over,
  is_valid_session, validate_csrf, session_idle_timeout, session_max_lifetime, cleanup,
}

pub record IsLive (now : ℕ) (session : Session) : Type 0 where
  pub active : now ≤ session.expiry
  pub young : now ≤ session.created + session_max_lifetime

abbrev pub Accepts : Auth → Text → ℕ → Type 0
Accepts s id now =
    (id ≢ []) × (session : Session) × (s.sessions id ≡ some session) × IsLive now session

live : (now : ℕ) (session : Session) → session_over now session ≡ false → IsLive now session
unfolding session_over
live now session h = record { active = ground arith; young = ground arith }

not_over : (now : ℕ) (session : Session) → IsLive now session → session_over now session ≡ false
unfolding session_over
not_over now session l = ground (arith, l.active, l.young)

accepted :
    (s : Auth) (id : Text) (now : ℕ) → (is_valid_session s id now).1 ≡ true → Accepts s id now
unfolding is_valid_session get_session
accepted s id now h = elim (Option-cases (s.sessions id)) [
  | inl e ↦ ground arith
  | inr (session, e) ↦
      ((λ n. ground (arith, eqt_iff id [])), session, e, live now session (ground arith))
]

accepts : (s : Auth) (id : Text) (now : ℕ) → Accepts s id now → (is_valid_session s id now).1 ≡ true
unfolding is_valid_session get_session
accepts s id now (n, session, e, l) = ground (arith, eqt_of_ne id [] n, not_over now session l)

-- A session ID is accepted exactly when it is not empty, a session is stored under it, that session
-- has not expired, and it was created no longer ago than the absolute lifetime.
pub is_valid_session_iff :
    (s : Auth) (id : Text) (now : ℕ) → ((is_valid_session s id now).1 ≡ true) ↔ Accepts s id now
is_valid_session_iff s id now = (accepted s id now, accepts s id now)

-- Requests with one session cookie at the given times, one after another.
abbrev pub visits : Auth → Text → List ℕ → Auth
visits s id [] = s
visits s id (t ∷ ts) = visits (get_session s id t).0 id ts

abbrev CreatedBy : ℕ → Option Session → Type 0
CreatedBy born none = Unit
CreatedBy born (some session) = session.created ≤ born

get_session-CreatedBy :
    (s : Auth) (id : Text) (t born : ℕ)
    → CreatedBy born (s.sessions id)
    → CreatedBy born ((get_session s id t).0.sessions id)
unfolding get_session put remove
get_session-CreatedBy s id t born h = ground (arith, eqt_refl id)

visits-CreatedBy :
    (s : Auth) (id : Text) (ts : List ℕ) (born : ℕ)
    → CreatedBy born (s.sessions id)
    → CreatedBy born ((visits s id ts).sessions id)
visits-CreatedBy s id [] born h = h
visits-CreatedBy s id (t ∷ ts) born h =
    visits-CreatedBy (get_session s id t).0 id ts born (get_session-CreatedBy s id t born h)

-- However often a session is used, it is refused once its absolute lifetime has passed.
pub visits_end :
    (s : Auth) (id : Text) (session : Session) (ts : List ℕ) (now : ℕ)
    → s.sessions id ≡ some session
    → session.created + session_max_lifetime < now
    → (is_valid_session (visits s id ts) id now).1 ≡ false
visits_end s id session ts now e late =
    let born : CreatedBy session.created (s.sessions id) = rw e (le_refl session.created) in
    let kept = visits-CreatedBy s id ts session.created born in
    elim (Bool-cases (is_valid_session (visits s id ts) id now).1) [
      | inr refused ↦ refused
      | inl a ↦
          let (_, found, at, l) = accepted (visits s id ts) id now a in
          let old : CreatedBy session.created (some found) = rw at at kept in
          absurd (omega (arith, old, l.young))
    ]

-- Logging a user out everywhere removes the user's sessions but the one to keep, and leaves the
-- sessions of all other users.
pub invalidate_lem :
    (s : Auth) (username except id : Text)
    → ((invalidate_user_sessions s username except).sessions id ≡ (
        if eqt id except
        then s.sessions id
        else only (λ (x : Session). not (eqt x.username username)) (s.sessions id)))
unfolding invalidate_user_sessions keep_if
invalidate_lem s username except id = ground arith

-- Removing what has ended changes no later answer: at every time from the cleanup on, a cookie is
-- accepted after it exactly when it would have been without it.
pub cleanup_keeps_answers :
    (s : Auth) (id : Text) (t now : ℕ)
    → t ≤ now
    → (is_valid_session (cleanup s t) id now).1 ≡ (is_valid_session s id now).1
unfolding is_valid_session get_session cleanup keep_if session_over
cleanup_keeps_answers s id t now h = ground arith

-- When the random values are drawn and the session ID is not empty, a login gives that ID, and it is
-- accepted until the idle timeout.
pub create_session_lem :
    (s : Auth) (username id csrf : Text) (now later : ℕ)
    → id ≢ []
    → later ≤ now + session_idle_timeout
    → ((create_session s username now (some id) (some csrf)).1 ≡ ok id)
      × ((is_valid_session (create_session s username now (some id) (some csrf)).0 id later).1
          ≡ true)
unfolding create_session is_valid_session get_session session_over put
create_session_lem s username id csrf now later n h =
    (refl, ground (arith, eqt_refl id, eqt_of_ne id [] n))

csrf_passes :
    (s : Auth) (id token : Text)
    → validate_csrf s id token ≡ true
    → (token ≢ [])
      × (session : Session) × (s.sessions id ≡ some session)
      × (session.csrf_token ≡ token)
unfolding validate_csrf
csrf_passes s id token h = elim (Option-cases (s.sessions id)) [
  | inl e ↦ ground arith
  | inr (session, e) ↦ (
    (λ n. ground (arith, eqt_iff token [])),
    session,
    e,
    ground (arith, eqt_iff session.csrf_token token),
  )
]

csrf_matches :
    (s : Auth) (id token : Text) (session : Session)
    → token ≢ []
    → s.sessions id ≡ some session
    → session.csrf_token ≡ token
    → validate_csrf s id token ≡ true
unfolding validate_csrf
csrf_matches s id token session n e same =
    ground
      (arith, eqt_iff token [], eqt_iff session.csrf_token [], eqt_iff session.csrf_token token)

-- A CSRF token passes exactly when it is not empty and is the token of the session.
pub validate_csrf_iff :
    (s : Auth) (id token : Text)
    → (validate_csrf s id token ≡ true) ↔ (
        (token ≢ [])
        × (session : Session) × (s.sessions id ≡ some session)
        × (session.csrf_token ≡ token))
validate_csrf_iff s id token =
    (csrf_passes s id token, λ (n, session, e, same). csrf_matches s id token session n e same)
