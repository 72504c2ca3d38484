-- ===== src/Auth.antt =====
-- The state of AuthManager in backend/auth.go, saving the configuration, and sessions.
-- Times and durations are nanoseconds. Each operation gets the clock's value, the random values it
-- draws (`none` is an error of the random source) and whether the write of config.json succeeds.
-- WriteFileAtomic either replaces the file or leaves it, so `disk` is what the file holds.
pub mod Sessions
pub mod Accounts
pub mod TwoFactor
pub mod Startup
pub mod Requests
pub mod Examples
use linuxgsm_dashboard.Base.{
  ℕ, ◌+◌, ◌*◌, Text, codes, List, [], ◌∷◌, Bool, true, false, not, ◌&&◌, ◌||◌, Option, none, some,
  ok, err, Result, ltb, ◌==◌, if◌then◌else◌, eqt, Dict, put, remove, keep_if, no_keys, find_index,
  count_if, set,
}
use linuxgsm_dashboard.User.{User, role_admin}

pub record Config : Type 0 where
  pub users : List User
  pub port : ℕ

pub record Session : Type 0 where
  pub username : Text
  pub expiry : ℕ
  pub created : ℕ
  pub csrf_token : Text

pub record LoginChallenge : Type 0 where
  pub username : Text
  pub expiry : ℕ
  pub attempts : ℕ

pub record PendingSetup : Type 0 where
  pub secret : Text
  pub expiry : ℕ

pub record Auth : Type 0 where
  pub fresh_install : Bool
  pub users : List User
  pub port : ℕ
  pub disk : Option Config
  pub sessions : Dict Session
  pub challenges : Dict LoginChallenge
  pub setups : Dict PendingSetup

pub data Failure : Type 0 where
  random_failed save_failed unreadable malformed : Failure
  invalid_credentials invalid_role invalid_permission short_password : Failure
  user_exists user_not_found last_admin wrong_password changed_concurrently invalid_node : Failure
  two_factor_required invalid_code challenge_expired two_factor_enabled : Failure
  two_factor_disabled setup_expired : Failure

abbrev pub second : ℕ
second = 1_000_000_000

-- 24 hours
abbrev pub session_idle_timeout : ℕ
session_idle_timeout = 86_400 * second

-- 7 days
abbrev pub session_max_lifetime : ℕ
session_max_lifetime = 604_800 * second

-- The successful write of saveConfigLocked.
unfoldable pub saved : Auth → Auth
saved s = record s { disk = some (record { users = s.users; port = s.port }) }

abbrev pub is_named : Text → User → Bool
is_named username u = eqt u.username username

-- `for i, u := range am.config.Users { if u.Username == username { …; break } }`
unfoldable pub find_user : Text → List User → Option (ℕ × User)
find_user username users = find_index (is_named username) users

abbrev pub is_admin_role : User → Bool
is_admin_role u = eqt u.role role_admin

unfoldable pub admin_count : List User → ℕ
admin_count users = count_if is_admin_role users

unfoldable pub get_user : Auth → Text → Option User
get_user s username = elim (find_user username s.users) [ none ↦ none | some (i, u) ↦ some u ]

unfoldable pub get_port : Auth → ℕ
get_port s = if s.port == 0 then 8080 else s.port

unfoldable pub set_notes_seen : Auth → Text → Text → Bool → Auth × Option Failure
set_notes_seen s username version disk_ok = elim (find_user username s.users) [
  | none ↦ (s, some user_not_found)
  | some (i, u) ↦
      let s' = record s { users = set s.users i (record u { notes_seen = version }) } in
      if disk_ok then (saved s', none) else (s', some save_failed)
]

-- Session ID and CSRF token are drawn first.
unfoldable pub create_session :
    Auth → Text → ℕ → Option Text → Option Text → Auth × Result Failure Text
create_session s username now none csrf = (s, err random_failed)
create_session s username now (some id) none = (s, err random_failed)
create_session s username now (some id) (some csrf) = (
  record s {
    sessions =
        put id
          (record {
            username = username;
            expiry = now + session_idle_timeout;
            created = now;
            csrf_token = csrf;
          })
          s.sessions;
  },
  ok id,
)

unfoldable pub logout : Auth → Text → Auth
logout s id = record s { sessions = remove id s.sessions }

abbrev pub survives : Text → Text → Text → Session → Bool
survives username except id session = not (eqt session.username username && not (eqt id except))

-- All sessions of the user but one.
unfoldable pub invalidate_user_sessions : Auth → Text → Text → Auth
invalidate_user_sessions s username except = record s {
  sessions = keep_if (survives username except) s.sessions;
}

unfoldable pub session_over : ℕ → Session → Bool
session_over now session =
    ltb session.expiry now || ltb (session.created + session_max_lifetime) now

abbrev pub renewed : ℕ → Session → Session
renewed now session = record session { expiry = now + session_idle_timeout }

unfoldable pub get_session : Auth → Text → ℕ → Auth × Option Session
get_session s id now = if eqt id [] then (s, none) else elim (s.sessions id) [
  | none ↦ (s, none)
  | some session ↦
      if session_over now session then (record s { sessions = remove id s.sessions }, none) else (
        record s { sessions = put id (renewed now session) s.sessions },
        some (renewed now session),
      )
]

-- Whether the cookie names a session that has not ended. The check against forged requests asks this;
-- who a request comes from is asked of GetSession and GetUser.
unfoldable pub is_valid_session : Auth → Text → ℕ → Auth × Bool
is_valid_session s id now =
    let (s', found) = get_session s id now in (s', elim found [ none ↦ false | some _ ↦ true ])

unfoldable pub validate_csrf : Auth → Text → Text → Bool
validate_csrf s id token = if eqt token [] then false else elim (s.sessions id) [
  | none ↦ false
  | some session ↦ if eqt session.csrf_token [] then false else eqt session.csrf_token token
]

-- One round of cleanupSessionsLoop.
unfoldable pub cleanup : Auth → ℕ → Auth
cleanup s now = record s {
  sessions = keep_if (λ id session. not (session_over now session)) s.sessions;
  challenges = keep_if (λ token (c : LoginChallenge). not (ltb c.expiry now)) s.challenges;
  setups = keep_if (λ user (st : PendingSetup). not (ltb st.expiry now)) s.setups;
}
