-- ===== src/Web.antt =====
-- What stands before every handler of the web server in main.go: who a request comes from, the check
-- against forged requests, and the permission that a route of a server needs. A handler gets the
-- state, the request and the time, and gives the new state and its answer. url.Parse is an argument:
-- the host of an address, `none` for one that cannot be parsed. Texts are ASCII, as far as case goes.
-- The address that clientIP finds is a field of the request.
pub mod Gate
pub mod Visits
pub mod Login
pub mod LoggedIn
pub mod SecondStep
pub mod LockedOut
pub mod Routes
pub mod Routed
pub mod RouteTable
mod Examples
use linuxgsm_dashboard.Base.{
  ℕ, ◌==◌, Text, codes, List, [], ◌∷◌, ◌++◌, Bool, true, false, not, ◌&&◌, ◌||◌, Option, none, some,
  ltb, leb, if◌then◌else◌, eqt, has_prefix, length, map, all_of,
}
use linuxgsm_dashboard.User.{User, is_admin, role_admin}
use linuxgsm_dashboard.Passwords.{to_lower_byte}
use linuxgsm_dashboard.Ids.{is_lower, is_digit}
use linuxgsm_dashboard.Audit.{AuditEntry}
use linuxgsm_dashboard.Limiter.{Limiter}
use linuxgsm_dashboard.Auth.{Auth, Session, get_session, get_user, validate_csrf, is_valid_session}

-- The part of `app` that the gate and the login use; `mode` and `servers` are an agent's policy.
pub record App : Type 0 where
  pub auth : Auth
  pub limiter : Limiter
  pub audit_log : Option (List AuditEntry)
  pub agent_mode : Bool
  pub mode : Text
  pub servers : List Text

-- A header that is missing is empty.
pub record Request : Type 0 where
  pub method : Text
  pub path : Text
  pub host : Text
  pub origin : Text
  pub referer : Text
  pub cookie : Option Text
  pub csrf_token : Text
  pub actor : Text
  pub ip : Text

-- `refused` has the status code; `retry` has it too, and the seconds of Retry-After. `served` stands
-- for what a handler answers by itself.
pub data Answer : Type 0 where
  refused : ℕ → Answer
  retry : ℕ → ℕ → Answer
  logged_in : (session csrf : Text) → Answer
  second_factor : (challenge : Text) → Answer
  served : Text → Answer

abbrev pub Handler : Type 0
Handler = App → Request → ℕ → App × Answer

-- A handler behind requireAuth: it also gets the user and the session ID.
abbrev pub UserHandler : Type 0
UserHandler = User → Text → Handler

abbrev pub with_auth : Auth → App → App
with_auth s a = record a { auth = s }

abbrev pub name_byte : ℕ → Bool
name_byte c = is_lower c || (is_digit c || c == b'_')

unfoldable pub is_valid_username : Text → Bool
is_valid_username u = if ltb (length u) 3 || ltb 16 (length u) then false else all_of name_byte u

-- The user of a request on an agent.
abbrev pub controller_user : Text → User
controller_user actor = record {
  username = codes "controller:" ++ (if is_valid_username actor then actor else codes "unknown");
  password_hash = [];
  role = role_admin;
  servers = [];
  nodes = [];
  permissions = [];
  totp_enabled = false;
  totp_secret = [];
  totp_last_step = 0;
  recovery_codes = [];
  notes_seen = [];
}

abbrev pub session_user : Auth → Text → Option Session → Option (User × Text)
session_user s id none = none
session_user s id (some session) = elim (get_user s session.username) [
  | none ↦ none
  | some u ↦ some (u, id)
]

unfoldable pub current_user : App → Request → ℕ → App × Option (User × Text)
current_user a r now =
    if a.agent_mode then (a, some (controller_user r.actor, [])) else elim r.cookie [
      | none ↦ (a, none)
      | some id ↦
          let (s, session) = get_session a.auth id now in (with_auth s a, session_user s id session)
    ]

unfoldable pub is_unsafe_method : Text → Bool
is_unsafe_method m = not (eqt m (codes "GET") || (eqt m (codes "HEAD") || eqt m (codes "OPTIONS")))

-- strings.EqualFold
abbrev pub equal_fold : Text → Text → Bool
equal_fold s t = eqt (map to_lower_byte s) (map to_lower_byte t)

unfoldable pub host_matches : (Text → Option Text) → Text → Text → Bool
host_matches url_host host raw = elim (url_host raw) [
  | none ↦ false
  | some h ↦ not (eqt h []) && equal_fold h host
]

unfoldable pub same_origin : (Text → Option Text) → Request → Bool
same_origin url_host r =
    if not (eqt r.origin [])
    then not (eqt r.origin (codes "null")) && host_matches url_host r.host r.origin
    else if not (eqt r.referer [])
    then host_matches url_host r.host r.referer
    else true

-- The requests that the check against forged requests looks at.
unfoldable pub changes_state : Request → Bool
changes_state r = is_unsafe_method r.method && has_prefix r.path (codes "/api/")

abbrev pub is_login_path : Text → Bool
is_login_path path = eqt path (codes "/api/auth/login") || eqt path (codes "/api/auth/login/2fa")

-- The token does not match: an ended session is left to the handler.
unfoldable pub wrong_token : Handler → App → Request → ℕ → Auth × Bool → App × Answer
wrong_token next a r now (s, true) = (with_auth s a, refused 403)
wrong_token next a r now (s, false) = next (with_auth s a) r now

unfoldable pub csrf_protect : (Text → Option Text) → Handler → Handler
csrf_protect url_host next a r now =
    if not (changes_state r)
    then next a r now
    else if not (same_origin url_host r)
    then (a, refused 403)
    else if is_login_path r.path
    then next a r now
    else elim r.cookie [
      | none ↦ next a r now
      | some id ↦
          if validate_csrf a.auth id r.csrf_token
          then next a r now
          else wrong_token next a r now (is_valid_session a.auth id now)
    ]

unfoldable pub for_user : UserHandler → Request → ℕ → App × Option (User × Text) → App × Answer
for_user next r now (a, none) = (a, refused 401)
for_user next r now (a, some (u, id)) = next u id a r now

unfoldable pub require_auth : UserHandler → Handler
require_auth next a r now = for_user next r now (current_user a r now)

abbrev pub admins_only : UserHandler → UserHandler
admins_only next u id a r now = if not (is_admin u) then (a, refused 403) else next u id a r now

unfoldable pub require_admin : UserHandler → Handler
require_admin next = require_auth (admins_only next)

unfoldable pub method_only : Text → Handler → Handler
method_only method h a r now = if not (eqt r.method method) then (a, refused 405) else h a r now
